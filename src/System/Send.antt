-- ===== src/System/Send.antt =====
-- A process sends a message (send of vm/msg.c), and the places of the processes.
use brain_project.Prelude.{
  ℕ, ◌-◌, ◌<◌, ◌≡◌, refl, sym, ap, subst, ◌∙◌, arith, true, false, ◌≤◌, ◌≢◌, Bool-cases, ltb,
  if◌then◌else◌, ℤ, pos, minus_one, is_zero, cases_eq, Option, none, some, set, set_self, set_ne,
  [], Run, pure, ◌>>=◌, bind_some, Option-cases, inl, inr, Returns, Returns-bind, Returns-≡,
  bind_assoc,
}
use brain_project.RbTree.{RbTree, RbTreeLaws}
use brain_project.Layout.{procs}
use brain_project.Os.{Os, cfs}
use brain_project.Vm.Machine.{Machine, on_sched, insert_proc, remove_first}
use brain_project.Sched.{sched_resume}
use brain_project.System.Waits.{put_queue}
use brain_project.Vm.Msg.{
  send, send_to, find_receiver, wake_receiver, find_pid, set_recv_wq, set_send_wq,
}
use brain_project.System.{sending, receiving, same_queue, off, ready, at, is_ready, Places, Sys}
use brain_project.System.Calls.{with_rq, call_returns, ready-known, known-below}
use brain_project.System.Enter.{Entered, in_queue, left_out, own_pid, suspend_and_queue}
use brain_project.System.Leave.{head-at, waiter_pid, resume_and_leave}
use brain_project.System.Find.{find_pid_lem, find_pid-waiting}

module _ {T : Type 0} {tree : RbTree T} (laws : RbTreeLaws tree) (i d : ℕ) where
  -- What a send to the process `d` in the machine `m` leaves behind.
  pub data Sent (m : Machine (Os T)) (p : Places) : ℤ → Machine (Os T) → Type 0 where
    refused : procs ≤ d → Sys laws m p → Sent m p (pos 1) m
    left :
        {m' : Machine (Os T)}
        → d < procs
        → m.memory.mallocs m.memory.malloc_calls ≡ false
        → Sys laws m' (set p i off)
        → Sent m p minus_one m'
    waiting_for :
        {m' : Machine (Os T)}
        → d < procs
        → m.memory.mallocs m.memory.malloc_calls ≡ true
        → p d ≢ at (receiving i)
        → Sys laws m' (set p i (at (sending d)))
        → Sent m p (pos 0) m'
    met :
        {m' : Machine (Os T)}
        → d < procs
        → m.memory.mallocs m.memory.malloc_calls ≡ true
        → p d ≡ at (receiving i)
        → Sys laws m' (set (set p i (at (sending d))) d ready)
        → Sent m p (pos 0) m'

  nobody_found :
      (m : Machine (Os T)) → m.recv_wq procs ≡ [] → find_pid m (pos d) (m.recv_wq procs) ≡ none
  unfolding find_pid
  nobody_found m e = ap (find_pid m (pos d)) e

  -- Where nobody receives from any, the receiver is found in the sender's queue.
  receiver-found :
      (m : Machine (Os T)) (own q : ℕ)
      → m.recv_wq procs ≡ []
      → find_receiver (cfs tree) m own d ≡ some q
      → find_pid m (pos d) (m.recv_wq own) ≡ some q
  unfolding find_receiver
  receiver-found m own q nobody e = elim (Option-cases (find_pid m (pos d) (m.recv_wq own))) [
    | inl f ↦ cc (rw (find_receiver, f) at e, nobody_found m nobody)
    | inr (r, f) ↦ f ∙ rw (find_receiver, f) at e
  ]

  receiver-missed :
      (m : Machine (Os T)) (own : ℕ)
      → find_receiver (cfs tree) m own d ≡ none
      → find_pid m (pos d) (m.recv_wq own) ≡ none
  unfolding find_receiver
  receiver-missed m own e = elim (Option-cases (find_pid m (pos d) (m.recv_wq own))) [
    | inl f ↦ f
    | inr (r, f) ↦ cc (rw (find_receiver, f) at e)
  ]

  module _ {m : Machine (Os T)} {p : Places} (v : Sys laws m p) where
    -- The receiver that is found waits for this sender, and is resumed.
    woken_lem :
        (q : ℕ)
        → i < procs
        → find_receiver (cfs tree) m i d ≡ some q
        → (m' : Machine (Os T)) × (wake_receiver (cfs tree) i d (some q) m ≡ some (pos 0, m'))
          × (p d ≡ at (receiving i))
          × Sys laws m' (set p d ready)
    unfolding wake_receiver put_queue same_queue
    woken_lem q below e =
        let (number, c) = find_pid_lem m d q (m.recv_wq i) (receiver-found m i q v.nobody_any e) in
        let room = receiving i in
        let here = head-at m p room q v.waits c in
        let pid_q = waiter_pid laws v q room here in
        let same : q ≡ d = sym pid_q ∙ number in
        let (s', run, sys) =
          resume_and_leave laws v q room here d (ground (arith, below)) (sym same) in
        let m' = set_recv_wq i (remove_first q (m.recv_wq i)) m in
        (
          with_rq m' s',
          bind_some (on_sched ((cfs tree).resume d)) _ m'
              (call_returns (sched_resume tree d) m' (pos 0) s' run),
          subst (λ k. p k ≡ at room) same here,
          subst (λ k. Sys laws (with_rq m' s') (set p k ready)) same sys,
        )

  -- What a message for `d` leaves behind, with the sender in its queue.
  delivered :
      (m0 : Machine (Os T)) {m : Machine (Os T)} {p : Places} (own : ℕ)
      → m0.memory.mallocs m0.memory.malloc_calls ≡ true
      → d < procs
      → is_ready (p i) ≡ true
      → Sys laws m (set p i (at (sending d)))
      → i < procs
      → own ≡ i
      → Returns (Sent m0 p) (wake_receiver (cfs tree) own d (find_receiver (cfs tree) m own d) m)
  unfolding wake_receiver is_ready
  delivered m0 {m} {p} own room small now v below e =
      subst
        (λ o. Returns (Sent m0 p) (wake_receiver (cfs tree) o d (find_receiver (cfs tree) m o d) m))
        (sym e) (by_receiver (find_receiver (cfs tree) m i d) refl)
    where
      was : set p i (at (sending d)) d ≡ at (receiving i) → p d ≡ at (receiving i)
      was f = elim (cases_eq i d) [
        | inl same ↦ cc (
          subst (λ k. set p i (at (sending d)) k ≡ at (receiving i)) (sym same) f,
          set_self p i (at (sending d)),
        )
        | inr ne ↦ sym (set_ne p i d (at (sending d)) ne) ∙ f
      ]

      elsewhere : find_receiver (cfs tree) m i d ≡ none → p d ≢ at (receiving i)
      elsewhere f here = elim (cases_eq i d) [
        | inl same ↦ cc (now, ap is_ready here, ap is_ready (ap p same))
        | inr ne ↦
            find_pid-waiting laws v d (receiving i) (receiver-missed m i f)
              (set_ne p i d (at (sending d)) ne ∙ here)
      ]

      by_receiver :
          (o : Option ℕ)
          → find_receiver (cfs tree) m i d ≡ o
          → Returns (Sent m0 p) (wake_receiver (cfs tree) i d o m)
      by_receiver none f = (pos 0, m, refl, waiting_for small room (elsewhere f) v)
      by_receiver (some q) f =
          let (m', run, here, sys) = woken_lem v q below f in
          (pos 0, m', run, met small room (was here) sys)

  module _ {m : Machine (Os T)} {p : Places} (v : Sys laws m p) (now : is_ready (p i) ≡ true) where
    -- The end of `send`, behind the queue.
    abbrev deliver : ℕ → ℤ → Run (Machine (Os T)) ℤ
    deliver own queued m1 =
        (if is_zero queued
            then wake_receiver (cfs tree) own d (find_receiver (cfs tree) m1 own d)
            else pure minus_one)
          m1

    deliver_lem :
        (queued : ℤ) (m1 : Machine (Os T))
        → d < procs
        → Entered laws m p i (sending d) queued m1
        → Returns (Sent m p) (deliver (m.proc_table i).pid queued m1)
    deliver_lem _ m1 small (in_queue room _ v1) =
        delivered m (m.proc_table i).pid room small now v1
          (known-below laws v i (ready-known laws v i now)) (own_pid laws v i now)
    deliver_lem _ m1 small (left_out full _ v1) = (minus_one, m1, refl, left small full v1)

    -- A send to the process `d` by one that is ready, in a machine whose queues agree with the places
    -- `p` and where nobody waits for a message from any, returns. Where there is no number `d`, it
    -- returns 1 and changes nothing. Otherwise, where malloc has no room, the sender stands nowhere, and
    -- -1 is returned; and where malloc has room, the sender waits for its message to be taken, 0 is
    -- returned, and `d` is ready if it waited for a message from the sender, and does not move if not.
    -- The queues agree with the places again.
    pub send_lem : Returns (Sent m p) (send (cfs tree) i (pos d) m)
    unfolding send send_to put_queue same_queue
    send_lem =
        let own = (m.proc_table i).pid in
        let suspend = on_sched ((cfs tree).suspend own) in
        let enter = insert_proc (set_send_wq d) (λ m'. m'.send_wq d) i in
        elim (Bool-cases (ltb (procs - 1) d)) [
          | inl e ↦ (pos 1, m, rw e refl, refused (ground arith) v)
          | inr e ↦
              let small : d < procs = ground arith in
              Returns-≡ (rw e refl ∙ bind_assoc suspend (λ _. enter) (deliver own) m) (
                Returns-bind (suspend >>= λ _. enter) (deliver own) m
                  (suspend_and_queue laws v i now (sending d) own refl (own_pid laws v i now))
                  λ queued m1 x. deliver_lem queued m1 small x)
        ]
