-- ===== src/System/Enter.antt =====
-- A process that is suspended and enters a wait queue (vm/sem.c, vm/msg.c).
use brain_project.Prelude.{
  ℕ, ◌<◌, ◌≤◌, ◌≡◌, refl, sym, subst, ◌∙◌, arith, true, false, ℤ, pos, some, set, set_ne, List, [],
  ◌>>=◌, bind_some, Bool-cases, inl, inr, Returns,
}
use brain_project.RbTree.{RbTree, RbTreeLaws}
use brain_project.Layout.{procs}
use brain_project.Os.{Os, cfs}
use brain_project.Sched.{Rq, sched_suspend}
use brain_project.Vm.Machine.{Machine, on_sched, insert_proc, insert_back}
use brain_project.System.{
  Queue, semaphore, sending, receiving, same_queue, Place, off, at, is_ready, waiting, Places,
  Waiting, Ready, Sys,
}
use brain_project.System.Waits.{off-Free, is_ready-Free, join-Waiting, stay-Waiting, put_queue}
use brain_project.System.Calls.{with_rq, call_returns, suspend-Ready, ready-known, known-below}
use brain_project.System.Parts.{allocated, insert_proc-run}

pub later-set :
    (n i : ℕ) (p : Places) (x : Place)
    → i < n
    → ((k : ℕ) → n ≤ k → p k ≡ off)
    → (k : ℕ) → n ≤ k
    → set p i x k ≡ off
later-set n i p x h f k l = set_ne p i k x (λ e. omega (arith, h, l, e)) ∙ f k l

module _ {T : Type 0} {tree : RbTree T} (laws : RbTreeLaws tree) where
  -- A queue is replaced, and the run queue.
  pub put_Sys :
      (m : Machine (Os T)) (p : Places) (q : Queue) (l : List ℕ)
      → same_queue q (receiving procs) ≡ false
      → m.recv_wq procs ≡ []
      → m.next_pid ≤ procs
      → ((k : ℕ) → k < m.next_pid → (m.proc_table k).pid ≡ k)
      → ((k : ℕ) → m.next_pid ≤ k → p k ≡ off)
      → Ready laws m.sched.rq p
      → Waiting (put_queue q l m) p
      → Sys laws (put_queue q l m) p
  unfolding put_queue same_queue
  put_Sys m p (semaphore s) l h nobody few pids later r w = record {
    scheduled = r;
    waits = w;
    nobody_any = nobody;
    few = few;
    pids = pids;
    later = later;
  }
  put_Sys m p (sending d) l h nobody few pids later r w = record {
    scheduled = r;
    waits = w;
    nobody_any = nobody;
    few = few;
    pids = pids;
    later = later;
  }
  put_Sys m p (receiving d) l h nobody few pids later r w = record {
    scheduled = r;
    waits = w;
    nobody_any = set_ne m.recv_wq d procs l (λ e. ground (arith, h, e)) ∙ nobody;
    few = few;
    pids = pids;
    later = later;
  }

  -- What becomes of a process that is suspended for a queue in the machine `m`: it waits there, or
  -- malloc has no room for it, and it is in no queue.
  pub data Entered (m : Machine (Os T)) (p : Places) (i : ℕ) (q : Queue)
      : ℤ → Machine (Os T) → Type 0 where
    in_queue :
        {m' : Machine (Os T)}
        → m.memory.mallocs m.memory.malloc_calls ≡ true
        → m'.proc_table ≡ m.proc_table
        → Sys laws m' (set p i (at q))
        → Entered m p i q (pos 0) m'
    left_out :
        {m' : Machine (Os T)}
        → m.memory.mallocs m.memory.malloc_calls ≡ false
        → m'.proc_table ≡ m.proc_table
        → Sys laws m' (set p i off)
        → Entered m p i q (pos 1) m'

  put_queue-procs :
      (q : Queue) (l : List ℕ) (m : Machine (Os T)) → (put_queue q l m).proc_table ≡ m.proc_table
  unfolding put_queue
  put_queue-procs (semaphore s) l m = refl
  put_queue-procs (sending d) l m = refl
  put_queue-procs (receiving d) l m = refl

  module _ {m : Machine (Os T)} {p : Places} (v : Sys laws m p) (i : ℕ)
      (now : is_ready (p i) ≡ true) where
    i_known : i < m.next_pid
    i_known = ready-known laws v i now

    pub own_pid : (m.proc_table i).pid ≡ i
    own_pid = v.pids i i_known

    -- The call of sched_suspend, where `x` is the place that the process goes to.
    pub suspended :
        (x : Place) (pid : ℕ)
        → is_ready x ≡ false
        → pid ≡ i
        → (s' : Rq T) × (sched_suspend tree pid m.sched.rq ≡ some (pos 0, s'))
          × Ready laws s' (set p i x)
    suspended x pid gone e =
        let (s', run, r) =
          suspend-Ready laws v.scheduled i (known-below laws v i i_known) x now gone in
        (s', subst (λ j. sched_suspend tree j m.sched.rq ≡ some (pos 0, s')) (sym e) run, r)

    -- As `block` and `send` do it.
    pub suspend_and_queue :
        (q : Queue) (pid : ℕ)
        → same_queue q (receiving procs) ≡ false
        → pid ≡ i
        → Returns (Entered m p i q) (
            (on_sched ((cfs tree).suspend pid) >>= λ _.
            insert_proc (put_queue q) (λ m'. waiting m' q) i)
              m)
    unfolding is_ready
    suspend_and_queue q pid not_any e = elim (Bool-cases (m.memory.mallocs m.memory.malloc_calls)) [
      | inl f ↦
          let (s', run, r) = suspended (at q) pid refl e in
          let m' = allocated (with_rq m s') in
          (
            pos 0,
            put_queue q (insert_back i (waiting m' q)) m',
            bind_some (on_sched ((cfs tree).suspend pid)) _ m
                  (call_returns (sched_suspend tree pid) m (pos 0) s' run)
                ∙ insert_proc-run (put_queue q) (λ m'. waiting m' q) i (with_rq m s')
                ∙ rw f refl,
            in_queue f (put_queue-procs q _ m') (
                put_Sys m' (set p i (at q)) q _ not_any v.nobody_any v.few v.pids
                  (later-set m.next_pid i p (at q) i_known v.later) r
                  (join-Waiting m' p v.waits i q (is_ready-Free (p i) now))),
          )
      | inr f ↦
          let (s', run, r) = suspended off pid refl e in
          (
            pos 1,
            allocated (with_rq m s'),
            bind_some (on_sched ((cfs tree).suspend pid)) _ m
                  (call_returns (sched_suspend tree pid) m (pos 0) s' run)
                ∙ insert_proc-run (put_queue q) (λ m'. waiting m' q) i (with_rq m s')
                ∙ rw f refl,
            left_out f refl (record {
              scheduled = r;
              waits = stay-Waiting m p v.waits i off (is_ready-Free (p i) now) off-Free;
              nobody_any = v.nobody_any;
              few = v.few;
              pids = v.pids;
              later = later-set m.next_pid i p off i_known v.later;
            }),
          )
    ]
