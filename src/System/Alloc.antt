-- ===== src/System/Alloc.antt =====
-- The entry of a new process (procalloc of vm/vm.c).
use brain_project.Prelude.{
  ℕ, suc, ◌-◌, ◌<◌, ◌≡◌, refl, sym, ap, subst, ◌∙◌, arith, ltb, if◌then◌else◌, ℤ, is_neg, to_signed,
  cases_eq, Option, none, some, set, set_self, set_ne, pure, Bool-cases, inl, inr, After, ends,
  After-if, After-bind, After-≡,
}
use brain_project.Proc.{Proc}
use brain_project.RbTree.{RbTree, RbTreeLaws}
use brain_project.Layout.{procs}
use brain_project.Os.{Os}
use brain_project.Vm.Machine.{Machine, on_memory, enter_proc, procalloc, fresh_proc}
use brain_project.Mem.{memalloc}
use brain_project.Vm.Quiet.{Kept, Kept-refl, on_memory-Quiet}
use brain_project.System.{Places, Sys, Kept-Sys}

module _ {T : Type 0} {tree : RbTree T} (laws : RbTreeLaws tree) where
  -- What procalloc leaves behind: no entry, or the next one, whose process is off.
  pub data Allocated (m : Machine (Os T)) (p : Places) : Option ℕ → Machine (Os T) → Type 0 where
    no_room :
        {m' : Machine (Os T)} → m'.next_pid ≡ m.next_pid → Sys laws m' p → Allocated m p none m'
    entry :
        {m' : Machine (Os T)} (j : ℕ)
        → j ≡ m.next_pid
        → m'.next_pid ≡ suc j
        → Sys laws m' p
        → Allocated m p (some j) m'

  -- The next entry is filled.
  filled_Sys :
      {p : Places} (m : Machine (Os T)) (x : Proc)
      → Sys laws m p
      → m.next_pid < procs
      → x.pid ≡ m.next_pid
      → Sys laws
          (record m { proc_table = set m.proc_table m.next_pid x; next_pid = suc m.next_pid })
          p
  filled_Sys {p} m x v room e = record {
    scheduled = v.scheduled;
    waits = v.waits;
    nobody_any = v.nobody_any;
    few = omega (arith, room);
    pids = λ k h. elim (cases_eq m.next_pid k) [
      | inl f ↦
          subst (λ j. (set m.proc_table m.next_pid x j).pid ≡ j) f
            (ap (λ (y : Proc). y.pid) (set_self m.proc_table m.next_pid x) ∙ e)
      | inr ne ↦
          ap (λ (y : Proc). y.pid) (set_ne m.proc_table m.next_pid k x ne)
          ∙ v.pids k (omega (arith, h, ne))
    ];
    later = λ k h. v.later k (omega (arith, h));
  }

  module _ {m : Machine (Os T)} {p : Places} (v : Sys laws m p) where
    entered_proc :
        (procsize : ℕ) (base : ℤ) (m1 : Machine (Os T))
        → Kept m m1
        → m.next_pid < procs
        → After (Allocated m p) (enter_proc procsize base m1)
    unfolding enter_proc
    entered_proc procsize base m1 k room = ends (some m1.next_pid) _ refl (
        entry m1.next_pid k.same_next refl (
          filled_Sys m1 (fresh_proc m1.next_pid base procsize) (Kept-Sys laws v k)
            (subst (λ n. n < procs) (sym k.same_next) room) refl))

    pub procalloc_lem : (procsize : ℕ) → After (Allocated m p) (procalloc procsize m)
    unfolding procalloc
    procalloc_lem procsize = elim (Bool-cases (ltb (procs - 1) m.next_pid)) [
      | inl e ↦ After-≡ (rw e refl) (ends none m refl (no_room refl v))
      | inr e ↦
          let room : m.next_pid < procs = ground arith in
          After-≡ (rw e refl) (
            After-bind (on_memory (memalloc (to_signed procsize)))
              (λ base. if is_neg base then pure none else enter_proc procsize base) m
              (on_memory-Quiet (memalloc (to_signed procsize)) m (Kept-refl m))
              λ base m1 k1.
                After-if (is_neg base) (pure none) (enter_proc procsize base) m1
                  (ends none m1 refl (no_room k1.same_next (Kept-Sys laws v k1)))
                  (entered_proc procsize base m1 k1 room))
    ]
