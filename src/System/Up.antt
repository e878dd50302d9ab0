-- ===== src/System/Up.antt =====
-- An up of a semaphore (sem_up of vm/sem.c) and the places of the processes.
use brain_project.Prelude.{
  ℕ, ◌<◌, ◌≡◌, refl, ap, ◌∙◌, arith, false, ltb, ℤ, pos, add_u32, set, set_self, List, [], ◌∷◌,
  bind_some, Bool-cases, inl, inr, Returns, Returns-≡,
}
use brain_project.RbTree.{RbTree, RbTreeLaws}
use brain_project.Sched.{sched_resume}
use brain_project.Os.{Os, cfs}
use brain_project.Vm.Machine.{Machine, on_sched, remove_first}
use brain_project.Vm.Sem.{set_sem_table, set_sem_wq, sem_v, wake_first, sem_up}
use brain_project.System.{semaphore, same_queue, ready, at, Places, Sys}
use brain_project.System.Waits.{put_queue}
use brain_project.System.Calls.{with_rq, call_returns}
use brain_project.System.Queues.{count}
use brain_project.System.Leave.{head-at, waiter_pid, resume_and_leave}

module _ {T : Type 0} {tree : RbTree T} (laws : RbTreeLaws tree) (i sem : ℕ) {m : Machine (Os T)}
    {p : Places} (v : Sys laws m p) where
  -- What an up leaves behind.
  pub data Upped : ℤ → Machine (Os T) → Type 0 where
    no_semaphore : {m' : Machine (Os T)} → 99 < sem → Sys laws m' p → Upped (pos 1) m'
    nobody : {m' : Machine (Os T)} → m.sem_wq sem ≡ [] → Sys laws m' p → Upped (pos 0) m'
    first :
        {m' : Machine (Os T)} (w : ℕ) (l : List ℕ)
        → m.sem_wq sem ≡ w ∷ l
        → p w ≡ at (semaphore sem)
        → m'.sem_wq sem ≡ l
        → Sys laws m' (set p w ready)
        → Upped (pos 0) m'

  -- The machine with the semaphore's value taken up.
  abbrev raised : Machine (Os T)
  raised = set_sem_table sem (add_u32 (m.sem_table sem) 1) m

  raised-Sys : Sys laws raised p
  raised-Sys = record {
    scheduled = v.scheduled;
    waits = v.waits;
    nobody_any = v.nobody_any;
    few = v.few;
    pids = v.pids;
    later = v.later;
  }

  woken :
      (w : ℕ) (l : List ℕ)
      → m.sem_wq sem ≡ w ∷ l
      → Returns Upped (wake_first (cfs tree) sem (w ∷ l) raised)
  unfolding wake_first count remove_first put_queue same_queue
  woken w l e =
      let q = semaphore sem in
      let here = head-at raised p q w raised-Sys.waits (ground (arith, ap (count w) e)) in
      let (s', run, sys) =
        resume_and_leave laws raised-Sys w q here (m.proc_table w).pid refl
          (waiter_pid laws raised-Sys w q here) in
      (
        pos 0,
        set_sem_wq sem (remove_first w (m.sem_wq sem)) (with_rq raised s'),
        bind_some (on_sched ((cfs tree).resume (m.proc_table w).pid)) _ raised
            (call_returns (sched_resume tree (m.proc_table w).pid) raised (pos 0) s' run),
        first w l e here
            (set_self m.sem_wq sem (remove_first w (m.sem_wq sem))
              ∙ ap (remove_first w) e
              ∙ ground arith)
            sys,
      )

  up-run :
      ltb 99 sem ≡ false
      → sem_up (cfs tree) i (pos sem) m ≡ wake_first (cfs tree) sem (m.sem_wq sem) raised
  unfolding sem_up sem_v
  up-run e = bind_some (sem_v sem) _ m {s' = raised} {a = pos 0} (rw e refl)

  by_queue : (l : List ℕ) → m.sem_wq sem ≡ l → Returns Upped (wake_first (cfs tree) sem l raised)
  unfolding wake_first
  by_queue [] e = (pos 0, raised, refl, nobody e raised-Sys)
  by_queue (w ∷ l) e = woken w l e

  pub sem_up_lem : Returns Upped (sem_up (cfs tree) i (pos sem) m)
  unfolding sem_up sem_v
  sem_up_lem = elim (Bool-cases (ltb 99 sem)) [
    | inl e ↦ (
      pos 1,
      m,
      bind_some (sem_v sem) _ m {s' = m} {a = pos 1} (rw e refl),
      no_semaphore (ground arith) v,
    )
    | inr e ↦ Returns-≡ (up-run e) (by_queue (m.sem_wq sem) refl)
  ]
