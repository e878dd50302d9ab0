-- ===== src/System/Calls.antt =====
-- What the instructions' calls of the scheduler (sched.c) do to the places of the processes.
use brain_project.Prelude.{
  ℕ, ◌<◌, ◌≡◌, refl, ap, subst, ◌∙◌, arith, true, false, ◌==◌, leb, ℤ, pos, some, set, Run, List,
  Bool-cases, inl, inr,
}
use brain_project.Layout.{procs}
use brain_project.RbTree.{RbTree, RbTreeLaws, Node}
use brain_project.Sched.{Rq, sched_suspend, sched_resume, sched_reset}
use brain_project.Sched.Inv.{Counted, asleep, awake, runnable}
use brain_project.Sched.Order.{has_task}
use brain_project.Sched.Suspend.{sched_suspend_lem}
use brain_project.Sched.Resume.{sched_resume_lem}
use brain_project.Sched.Init.{sched_reset_lem}
use brain_project.Os.{Os, on_rq}
use brain_project.Vm.Machine.{Machine, on_sched}
use brain_project.System.{Place, off, ready, at, is_ready, Places, Ready, Sys}
use brain_project.System.Waits.{is_ready-set}

-- The process that runs.
pub record Current {T : Type 0} (m : Machine (Os T)) (i : ℕ) : Type 0 where
  pub same : m.sched.rq.current ≡ i
  pub busy : (m.sched.rq.nr_running == 0) ≡ false

abbrev pub with_rq : {T : Type 0} → Machine (Os T) → Rq T → Machine (Os T)
with_rq m s = record m { sched = record m.sched { rq = s } }

-- A call that returns, as an instruction makes it.
pub call_returns :
    {T : Type 0} (f : Run (Rq T) ℤ) (m : Machine (Os T)) (a : ℤ) (s : Rq T)
    → f m.sched.rq ≡ some (a, s)
    → on_sched (on_rq f) m ≡ some (a, with_rq m s)
unfolding on_sched on_rq
call_returns f m a s e = rw (on_sched, on_rq, e) refl

is_ready-≡ : (x : Place) → is_ready x ≡ true → x ≡ ready
unfolding is_ready
is_ready-≡ off e = cc
is_ready-≡ ready e = refl
is_ready-≡ (at q) e = cc

module _ {T : Type 0} {tree : RbTree T} (laws : RbTreeLaws tree) where
  module _ {s : Rq T} {p : Places} (v : Ready laws s p) (i : ℕ) (h : i < procs) where
    -- A process that is ready is suspended, and stands somewhere else.
    pub suspend-Ready :
        (x : Place)
        → is_ready (p i) ≡ true
        → is_ready x ≡ false
        → (s' : Rq T) × (sched_suspend tree i s ≡ some (pos 0, s')) × Ready laws s' (set p i x)
    suspend-Ready x now gone =
        let (s', run, r) = sched_suspend_lem laws v.inv i h (v.runs i ∙ now) in
        (
          s',
          run,
          record {
            inv = r.inv;
            runs = λ k. ground (arith, r.same_tasks k, v.runs k, is_ready-set p i k x, gone);
          },
        )

    -- A process that is not ready is resumed.
    pub resume-Ready :
        is_ready (p i) ≡ false
        → (s' : Rq T) × (sched_resume tree i s ≡ some (pos 0, s')) × Ready laws s' (set p i ready)
    unfolding is_ready
    resume-Ready cannot =
        let (s', run, r) = sched_resume_lem laws v.inv i h (v.runs i ∙ cannot) in
        (
          s',
          run,
          record {
            inv = r.inv;
            runs = λ k. ground (arith, r.same_tasks k, v.runs k, is_ready-set p i k ready);
          },
        )

    -- A process that is not in the tree is reset.
    pub reset-Ready :
        has_task i v.inv.queue ≡ false
        → (s' : Rq T) × (sched_reset i s ≡ some (pos 0, s')) × Ready laws s' p
    reset-Ready out =
        let (s', run, r) = sched_reset_lem laws v.inv i h out in
        (s', run, record { inv = r.inv; runs = λ k. r.same_tasks k ∙ v.runs k })

    pub not_ready-out : is_ready (p i) ≡ false → has_task i v.inv.queue ≡ false
    unfolding has_task
    not_ready-out cannot = by_count v.inv.counted (v.runs i ∙ cannot)
      where
        by_count :
            {q : List Node} → Counted laws s q → runnable s q i ≡ false → has_task i q ≡ false
        by_count (asleep e f) _ = ap (has_task i) f
        by_count (awake count valid out) cannot' = ground (arith, count, cannot')

    pub current-out : s.current ≡ i → (s.nr_running == 0) ≡ false → has_task i v.inv.queue ≡ false
    current-out e busy = by_count v.inv.counted
      where
        by_count : {q : List Node} → Counted laws s q → has_task i q ≡ false
        by_count (asleep f _) = absurd (ground (arith, busy, f))
        by_count {q} (awake count valid out) = subst (λ k. has_task k q ≡ false) e out

  module _ {m : Machine (Os T)} {p : Places} (v : Sys laws m p) where
    pub Current-ready : (i : ℕ) → Current m i → is_ready (p i) ≡ true
    Current-ready i c = ground (arith, v.scheduled.runs i, c.same, c.busy)

    pub known : (i : ℕ) → ¬ (p i ≡ off) → i < m.next_pid
    known i ne = elim (Bool-cases (leb m.next_pid i)) [
      | inl e ↦ absurd (ne (v.later i (ground arith)))
      | inr e ↦ ground arith
    ]

    pub ready-known : (i : ℕ) → is_ready (p i) ≡ true → i < m.next_pid
    unfolding is_ready
    ready-known i e = known i (λ f. cc (e, ap is_ready f))

    pub known-below : (i : ℕ) → i < m.next_pid → i < procs
    known-below i h = omega (arith, v.few)
