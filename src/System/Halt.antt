-- ===== src/System/Halt.antt =====
-- The end of a process (vm/halt.c) and the places of the processes.
use brain_project.Prelude.{ℕ, ◌≡◌, refl, sym, subst, ◌∙◌, ℤ, pos, some, set, bind_some}
use brain_project.RbTree.{RbTree, RbTreeLaws}
use brain_project.Os.{Os, cfs}
use brain_project.Vm.Machine.{Machine, on_memory-some, on_memory, on_sched}
use brain_project.Sched.{sched_suspend, sched_reset}
use brain_project.Mem.{free_region}
use brain_project.Vm.Control.{halt}
use brain_project.Mem.Regions.{free_region-Returns}
use brain_project.System.{off, is_ready, Places, Sys}
use brain_project.System.Waits.{off-Free, is_ready-Free, stay-Waiting}
use brain_project.System.Calls.{
  Current, with_rq, call_returns, suspend-Ready, reset-Ready, current-out, Current-ready,
  ready-known, known-below,
}
use brain_project.System.Enter.{later-set}

module _ {T : Type 0} {tree : RbTree T} (laws : RbTreeLaws tree) (i : ℕ) {m : Machine (Os T)}
    {p : Places} (v : Sys laws m p) (c : Current m i) where
  pub halt_lem :
      (addr : ℤ)
      → (m' : Machine (Os T)) × (halt (cfs tree) i addr m ≡ some (pos 0, m'))
        × Sys laws m' (set p i off)
  unfolding halt is_ready
  halt_lem addr =
      let now = Current-ready laws v i c in
      let h = ready-known laws v i now in
      let below = known-below laws v i h in
      let (_, s0, freed, _) = free_region-Returns (m.proc_table i) m.memory in
      let pid = (m.proc_table i).pid in
      let own : pid ≡ i = v.pids i h in
      let m0 = record m { memory = s0 } in
      let (s1, run1, r1) =
        reset-Ready laws v.scheduled i below (current-out laws v.scheduled i below c.same c.busy) in
      let (s2, run2, r2) = suspend-Ready laws r1 i below off now refl in
      (
        with_rq m0 s2,
        bind_some (on_memory (free_region (m.proc_table i))) _ m
              (on_memory-some m (free_region (m.proc_table i)) freed)
            ∙ bind_some (on_sched ((cfs tree).reset pid)) _ m0 (
                call_returns (sched_reset pid) m0 (pos 0) s1
                  (subst (λ j. sched_reset j m.sched.rq ≡ some (pos 0, s1)) (sym own) run1))
            ∙ bind_some (on_sched ((cfs tree).suspend pid)) _ (with_rq m0 s1) (
                call_returns (sched_suspend tree pid) (with_rq m0 s1) (pos 0) s2
                  (subst (λ j. sched_suspend tree j s1 ≡ some (pos 0, s2)) (sym own) run2)),
        record {
          scheduled = r2;
          waits = stay-Waiting m p v.waits i off (is_ready-Free (p i) now) off-Free;
          nobody_any = v.nobody_any;
          few = v.few;
          pids = v.pids;
          later = later-set m.next_pid i p off h v.later;
        },
      )
