-- ===== src/System/Recv.antt =====
-- A process receives a message (recv of vm/msg.c), and the places of the processes.
use brain_project.Prelude.{
  ℕ, ◌-◌, ◌<◌, ◌≤◌, ◌≡◌, refl, sym, ap, subst, ◌∙◌, arith, true, ltb, if◌then◌else◌, ℤ, pos,
  minus_one, is_zero, Option, none, some, set, Run, pure, ◌>>=◌, bind_some, Bool-cases, inl, inr,
  After, faults, After-result, Returns-After, Returns, Returns-bind, Returns-≡, ◌⊎◌, ◌≢◌, false,
  is_neg, pred_ℤ, bind_none, Option-cases,
}
use brain_project.RbTree.{RbTree, RbTreeLaws}
use brain_project.Layout.{procs}
use brain_project.Os.{Os, cfs}
use brain_project.Vm.Machine.{Machine, on_sched, retry_op, insert_proc, insert_back, remove_first}
use brain_project.Sched.{sched_suspend, sched_resume}
use brain_project.System.Waits.{put_queue, is_ready-Free, join-Waiting}
use brain_project.Vm.Msg.{
  find_pid, xfer_msg, wait_for_sender, take_message, recv_from, recv, set_recv_wq, set_send_wq,
}
use brain_project.Vm.Quiet.{Kept, Kept-refl, with_memory}
use brain_project.System.{
  sending, receiving, same_queue, ready, at, is_ready, Places, Sys, Kept-Sys,
}
use brain_project.System.Calls.{with_rq, call_returns, ready-known}
use brain_project.System.Parts.{
  answer, is_zero-≡, Retried, set_back, no_counter, counter, allocated, insert_proc-run,
  retry_op-Returns,
}
use brain_project.System.Enter.{later-set, put_Sys, own_pid, suspended}
use brain_project.System.Queues.{count}
use brain_project.System.Leave.{head-at, waiter_pid, resume_and_leave}
use brain_project.Vm.Quiet.Xfer.{xfer_msg-Quiet}
use brain_project.System.Find.{find_pid_lem, find_pid-waiting}

-- The end of take_message: the sender leaves the queue of the process `own`, and is resumed.
abbrev wake_sender : {T : Type 0} → RbTree T → Machine (Os T) → ℕ → ℕ → Option (ℤ × Machine (Os T))
wake_sender tree m own sender =
    (on_sched ((cfs tree).resume (m.proc_table sender).pid) >>= λ _. pure (pos 0))
      (set_send_wq own (remove_first sender (m.send_wq own)) m)

module _ {T : Type 0} {tree : RbTree T} (laws : RbTreeLaws tree) (i d : ℕ) where
  -- What a receive from the process `d` in the machine `m` leaves behind.
  pub data Received (m : Machine (Os T)) (p : Places) : ℤ → Machine (Os T) → Type 0 where
    refused : procs ≤ d → Sys laws m p → Received m p (pos 1) m
    no_retry :
        d < procs
        → p d ≢ at (sending i)
        → is_neg (counter m i) ≡ true
        → Sys laws m p
        → Received m p (pos 1) m
    no_space :
        {m' : Machine (Os T)}
        → d < procs
        → p d ≢ at (sending i)
        → is_neg (counter m i) ≡ false
        → counter m' i ≡ pred_ℤ (counter m i)
        → m.memory.mallocs m.memory.malloc_calls ≡ false
        → Sys laws m' p
        → Received m p minus_one m'
    waiting_for :
        {m' : Machine (Os T)}
        → d < procs
        → p d ≢ at (sending i)
        → is_neg (counter m i) ≡ false
        → counter m' i ≡ pred_ℤ (counter m i)
        → m.memory.mallocs m.memory.malloc_calls ≡ true
        → Sys laws m' (set p i (at (receiving d)))
        → Received m p (pos 0) m'
    not_moved :
        {m' : Machine (Os T)} {r : ℤ}
        → p d ≡ at (sending i)
        → xfer_msg (cfs tree) d i m ≡ some (r, m')
        → is_zero r ≡ false
        → Sys laws m' p
        → Received m p (pos 1) m'
    taken :
        {m' m1 : Machine (Os T)}
        → p d ≡ at (sending i)
        → xfer_msg (cfs tree) d i m ≡ some (pos 0, m1)
        → m'.memory ≡ m1.memory
        → Sys laws m' (set p d ready)
        → Received m p (pos 0) m'

  -- A receive faults only where the sender waits and the transfer of its message faults.
  abbrev pub Receives : Machine (Os T) → Places → Option (ℤ × Machine (Os T)) → Type 0
  Receives m p r =
      ((p d ≡ at (sending i)) × (xfer_msg (cfs tree) d i m ≡ none) × (r ≡ none))
      ⊎ Returns (Received m p) r

  wake_lem :
      {m : Machine (Os T)} {p : Places} (v : Sys laws m p) (own : ℕ)
      → own ≡ i
      → p d ≡ at (sending i)
      → (m' : Machine (Os T)) × (wake_sender tree m own d ≡ some (pos 0, m'))
        × (m'.memory ≡ m.memory)
        × Sys laws m' (set p d ready)
  unfolding put_queue same_queue
  wake_lem {m} v own e here =
      let pid = (m.proc_table d).pid in
      let (s', run, sys) =
        resume_and_leave laws v d (sending i) here pid refl
          (waiter_pid laws v d (sending i) here) in
      let m' = set_send_wq i (remove_first d (m.send_wq i)) m in
      (
        with_rq m' s',
        ap (λ o. wake_sender tree m o d) e
            ∙ bind_some (on_sched ((cfs tree).resume pid)) _ m'
                (call_returns (sched_resume tree pid) m' (pos 0) s' run),
        refl,
        sys,
      )

  module _ {m : Machine (Os T)} {p : Places} (v : Sys laws m p) where
    -- The rest of take_message, behind the transfer.
    abbrev then_wake : ℤ → Run (Machine (Os T)) ℤ
    then_wake moved =
        if is_zero moved then (λ m'. wake_sender tree m' (m.proc_table i).pid d) else pure (pos 1)

    moved_lem :
        (moved : ℤ) (m1 : Machine (Os T))
        → p d ≡ at (sending i)
        → (m.proc_table i).pid ≡ i
        → xfer_msg (cfs tree) d i m ≡ some (moved, m1)
        → Kept m m1
        → Returns (Received m p) (then_wake moved m1)
    moved_lem moved m1 here same e k = elim (Bool-cases (is_zero moved)) [
      | inl z ↦
          let (m', run, mem, sys) = wake_lem (Kept-Sys laws v k) (m.proc_table i).pid same here in
          (
            pos 0,
            m',
            rw z run,
            taken here (e ∙ ap (λ (r : ℤ). some (r, m1)) (is_zero-≡ moved z)) mem sys,
          )
      | inr z ↦ (pos 1, m1, rw z refl, not_moved here e z (Kept-Sys laws v k))
    ]

    take_lem :
        p d ≡ at (sending i)
        → (m.proc_table i).pid ≡ i
        → Receives m p (take_message (cfs tree) i d m)
    unfolding take_message
    take_lem here same = elim (Option-cases (xfer_msg (cfs tree) d i m)) [
      | inl e ↦ inl (here, e, bind_none (xfer_msg (cfs tree) d i) then_wake m e)
      | inr ((moved, m1), e) ↦ inr (
          Returns-≡ (bind_some (xfer_msg (cfs tree) d i) then_wake m e) (
            moved_lem moved m1 here same e
              (After-result moved m1 e (xfer_msg-Quiet tree d i m (Kept-refl m)))))
    ]

  -- The process enters the queue of those that wait for `d`, if malloc finds room, and is suspended.
  abbrev then_suspend : ℕ → ℤ → Run (Machine (Os T)) ℤ
  then_suspend pid queued =
      if is_zero queued
      then (on_sched ((cfs tree).suspend pid) >>= λ _. pure (pos 0))
      else pure minus_one

  abbrev enter : ℕ → Run (Machine (Os T)) ℤ
  enter pid = insert_proc (set_recv_wq d) (λ m'. m'.recv_wq d) i >>= then_suspend pid

  module _ {m : Machine (Os T)} {p : Places} (v : Sys laws m p) where
    inserted :
        (pid : ℕ) (r : ℤ) (m' : Machine (Os T))
        → insert_proc (set_recv_wq d) (λ m'. m'.recv_wq d) i m ≡ some (r, m')
        → enter pid m ≡ then_suspend pid r m'
    inserted pid r m' run =
        bind_some (insert_proc (set_recv_wq d) (λ m'. m'.recv_wq d) i) (then_suspend pid) m run

    enter_lem :
        (m0 : Machine (Os T)) (pid : ℕ)
        → pid ≡ i
        → d < procs
        → is_ready (p i) ≡ true
        → p d ≢ at (sending i)
        → is_neg (counter m0 i) ≡ false
        → counter m i ≡ pred_ℤ (counter m0 i)
        → m.memory ≡ m0.memory
        → Returns (Received m0 p) (enter pid m)
    unfolding is_ready put_queue same_queue
    enter_lem m0 pid e small now apart has back same = elim (Bool-cases (answer m.memory)) [
      | inl f ↦
          let q = receiving d in
          let m1 = allocated m in
          let m2 = set_recv_wq d (insert_back i (m.recv_wq d)) m1 in
          let (s', run, r) = suspended laws v i now (at q) pid refl e in
          (
            pos 0,
            with_rq m2 s',
            inserted pid (pos 0) m2
                  (insert_proc-run (set_recv_wq d) (λ m'. m'.recv_wq d) i m ∙ rw f refl)
                ∙ bind_some (on_sched ((cfs tree).suspend pid)) _ m2
                    (call_returns (sched_suspend tree pid) m2 (pos 0) s' run),
            waiting_for small apart has back (ap answer (sym same) ∙ f) (
                put_Sys laws (with_rq m1 s') (set p i (at q)) q _ (ground (arith, small))
                  v.nobody_any v.few v.pids
                  (later-set m.next_pid i p (at q) (ready-known laws v i now) v.later) r
                  (join-Waiting (with_rq m1 s') p v.waits i q (is_ready-Free (p i) now))),
          )
      | inr f ↦ (
        minus_one,
        allocated m,
        inserted pid (pos 1) (allocated m)
            (insert_proc-run (set_recv_wq d) (λ m'. m'.recv_wq d) i m ∙ rw f refl),
        no_space small apart has back (ap answer (sym same) ∙ f)
            (Kept-Sys laws v (with_memory m (Kept-refl m) (allocated m).memory)),
      )
    ]

  module _ {m : Machine (Os T)} {p : Places} (v : Sys laws m p) (now : is_ready (p i) ≡ true) where
    retried_lem :
        (r : ℤ) (m1 : Machine (Os T))
        → d < procs
        → p d ≢ at (sending i)
        → Sys laws m1 p
        → Retried i m r m1
        → Returns
            (Received m p)
            ((if is_zero r then enter (m.proc_table i).pid else pure (pos 1)) m1)
    retried_lem _ m1 small apart v1 (no_counter e) = (pos 1, m1, refl, no_retry small apart e v)
    retried_lem _ m1 small apart v1 (set_back has back same) =
        enter_lem v1 m (m.proc_table i).pid (own_pid laws v i now) small now apart has back same

    wait_lem :
        d < procs
        → p d ≢ at (sending i)
        → Returns (Received m p) (wait_for_sender (cfs tree) i (pos d) m)
    unfolding wait_for_sender
    wait_lem small apart =
        Returns-bind (retry_op i) _ m (retry_op-Returns i m (Kept-refl m))
          λ retried m1 x. retried_lem retried m1 small apart (Kept-Sys laws v x.0) x.1

    found_lem :
        (s : ℕ)
        → find_pid m (pos d) (m.send_wq (m.proc_table i).pid) ≡ some s
        → Receives m p (take_message (cfs tree) i s m)
    found_lem s e =
        let own = own_pid laws v i now in
        let (number, c) = find_pid_lem m d s (m.send_wq (m.proc_table i).pid) e in
        let here =
          head-at m p (sending i) s v.waits (subst (λ k. 1 ≤ count s (m.send_wq k)) own c) in
        let same : d ≡ s = sym number ∙ waiter_pid laws v s (sending i) here in
        subst (λ k. Receives m p (take_message (cfs tree) i k m)) same
          (take_lem v (ap p same ∙ here) own)

    by_found :
        d < procs
        → (o : Option ℕ) → find_pid m (pos d) (m.send_wq (m.proc_table i).pid) ≡ o
        → Receives m p (recv_from (cfs tree) i (pos d) o m)
    unfolding recv_from
    by_found small none e =
        let own = own_pid laws v i now in
        inr (
          wait_lem small (
            find_pid-waiting laws v d (sending i)
              (subst (λ k. find_pid m (pos d) (m.send_wq k) ≡ none) own e)))
    by_found small (some s) e = found_lem s e

    -- A receive from the process `d` by one that is ready, in a machine whose queues agree with the
    -- places `p` and where nobody waits for a message from any. Where there is no number `d`, it returns
    -- 1 and changes nothing. Where `d` waits for its message to be taken, the message is transferred:
    -- if that faults, so does the receive; if that fails, 1 is returned and no process moves; and else 0
    -- is returned and `d` is ready. Where `d` does not wait for that, the counter is set back by one, and
    -- if malloc has room, 0 is returned and the receiver waits for a message from `d`, and else -1 is
    -- returned and no process moves; without a counter 1 is returned and nothing changes. The queues
    -- agree with the places again.
    pub recv_lem : Receives m p (recv (cfs tree) i (pos d) m)
    unfolding recv
    recv_lem = elim (Bool-cases (ltb (procs - 1) d)) [
      | inl e ↦ inr (pos 1, m, rw e refl, refused (ground arith) v)
      | inr e ↦
          subst (Receives m p) (rw e refl)
            (by_found (ground arith) (find_pid m (pos d) (m.send_wq (m.proc_table i).pid)) refl)
    ]

    -- What holds where it ends.
    pub recv-After : After (Received m p) (recv (cfs tree) i (pos d) m)
    recv-After = elim recv_lem [ inl (here, e, f) ↦ faults f | inr x ↦ Returns-After x ]
