-- ===== src/System/Start.antt =====
-- A new process enters the run queue (vm/fork.c, load_file of loader.c).
use brain_project.Prelude.{refl, ℕ, ◌<◌, ◌≡◌, sym, ap, subst, false, pos, some, set}
use brain_project.RbTree.{RbTree, RbTreeLaws}
use brain_project.Os.{Os, cfs}
use brain_project.Vm.Machine.{Machine, on_sched}
use brain_project.Sched.{sched_resume, sched_reset}
use brain_project.System.{off, ready, is_ready, Places, Sys}
use brain_project.System.Waits.{ready-Free, off-Free, stay-Waiting}
use brain_project.System.Calls.{
  with_rq, call_returns, resume-Ready, reset-Ready, not_ready-out, known-below,
}
use brain_project.System.Enter.{later-set}

module _ {T : Type 0} {tree : RbTree T} (laws : RbTreeLaws tree) where
  -- A process that is off is reset and resumed.
  pub start_lem :
      {m : Machine (Os T)} {p : Places} (v : Sys laws m p) (j pid : ℕ)
      → j < m.next_pid
      → p j ≡ off
      → pid ≡ j
      → (m1 : Machine (Os T)) × (m2 : Machine (Os T)) × (on_sched ((cfs tree).reset pid) m
          ≡ some (pos 0, m1))
        × (on_sched ((cfs tree).resume pid) m1 ≡ some (pos 0, m2))
        × (m2.next_pid ≡ m.next_pid)
        × Sys laws m2 (set p j ready)
  unfolding is_ready
  start_lem {m} {p} v j pid h away e =
      let below = known-below laws v j h in
      let cannot : is_ready (p j) ≡ false = ap is_ready away in
      let (s1, run1, r1) =
        reset-Ready laws v.scheduled j below (not_ready-out laws v.scheduled j below cannot) in
      let (s2, run2, r2) = resume-Ready laws r1 j below cannot in
      (
        with_rq m s1,
        with_rq m s2,
        call_returns (sched_reset pid) m (pos 0) s1
            (subst (λ k. sched_reset k m.sched.rq ≡ some (pos 0, s1)) (sym e) run1),
        call_returns (sched_resume tree pid) (with_rq m s1) (pos 0) s2
            (subst (λ k. sched_resume tree k s1 ≡ some (pos 0, s2)) (sym e) run2),
        refl,
        record {
          scheduled = r2;
          waits = stay-Waiting m p v.waits j ready (rw away off-Free) ready-Free;
          nobody_any = v.nobody_any;
          few = v.few;
          pids = v.pids;
          later = later-set m.next_pid j p ready h v.later;
        },
      )
