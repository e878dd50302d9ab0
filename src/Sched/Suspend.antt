-- ===== src/Sched/Suspend.antt =====
-- A process leaves the run queue (sched_suspend of sched.c).
use brain_project.Prelude.{
  ℕ, suc, ◌<◌, ◌≡◌, refl, arith, true, false, not, ◌&&◌, ◌==◌, ltb, some, List, [], ◌∷◌, ◌++◌, pos,
  subst, sym, ap, ◌∙◌, bind_some, add_u32, sub_u32, cases_eq, inl, inr,
}
use brain_project.RbTree.{RbTree, RbTreeLaws, Node}
use brain_project.Sched.{Rq, sched_suspend, ctxt_switch, dequeue}
use brain_project.Sched.Leftmost.{length}
use brain_project.Sched.Order.{
  has_task, find_task, has_task-insert, length-remove, Distinct-out, All-split-right,
}
use brain_project.Sched.Inv.{Queued, Counted, asleep, awake, Inv, runnable}
use brain_project.Sched.Removal.{removed, removed-Queued, Queued-other}
use brain_project.Sched.Switch.{switched, ctxt_switch_lem, queue-length}

in_table : {pid : ℕ} → pid < 100 → ltb 99 pid ≡ false
in_table h = ground arith

self : (n : ℕ) → (n == n) ≡ true
self n = ground arith

-- A task of the queue and one that is not in it differ.
pub apart :
    (c k : ℕ) (q : List Node) → has_task c q ≡ false → has_task k q ≡ true → (c == k) ≡ false
apart c k q out e = elim (cases_eq c k) [
  | inl same ↦ cc (subst (λ j. has_task j q ≡ true) (sym same) e)
  | inr ne ↦ ground arith
]

dequeue_run :
    {T : Type 0} (tree : RbTree T) (s : Rq T) (n pid : ℕ)
    → (s.task_table pid).n ≡ some n
    → dequeue tree pid s ≡ some (tt, removed tree s n pid)
unfolding dequeue
dequeue_run tree s n pid e = rw e refl

-- The count after a process has left.
abbrev one_less : {T : Type 0} → Rq T → Rq T
one_less s = record s { nr_running = sub_u32 s.nr_running 1 }

module _ {T : Type 0} {tree : RbTree T} (laws : RbTreeLaws tree) where
  -- What a suspended process leaves behind.
  pub record Suspended (s : Rq T) (q : List Node) (pid : ℕ) (s' : Rq T) : Type 0 where
    pub inv : Inv laws s'
    pub same_tasks : (k : ℕ) → runnable s' inv.queue k ≡ (runnable s q k && not (pid == k))

  module _ {s : Rq T} {q : List Node} (v : Queued laws s q) (count : s.nr_running ≡ suc (length q))
      (valid : s.current < 100) (out : has_task s.current q ≡ false) where
    suspend_last :
        q ≡ []
        → (s' : Rq T) × (sched_suspend tree s.current s ≡ some (pos 0, s'))
          × Suspended s q s.current s'
    unfolding sched_suspend length has_task
    suspend_last e = (
      one_less s,
      ground (arith, ap length e),
      record {
        inv = record {
          queue = q;
          queued = Queued-other laws v s.current (sub_u32 s.nr_running 1) s.ctx_switches s.ops;
          counted = asleep (ground (arith, ap length e)) e;
        };
        same_tasks = λ k. ground (arith, count, ap (has_task k) e, ap length e);
      },
    )

    suspend_current :
        (n i : ℕ) (rest : List Node)
        → q ≡ (n, i) ∷ rest
        → (s' : Rq T) × (sched_suspend tree s.current s ≡ some (pos 0, s'))
          × Suspended s q s.current s'
    unfolding sched_suspend length has_task
    suspend_current n i rest e =
        let w = subst (Queued laws s) e v in
        let (run, w') = ctxt_switch_lem laws n i rest w in
        let short = queue-length laws q v in
        let others : ltb 1 s.nr_running ≡ true = ground (arith, count, ap length e) in
        (
          one_less (switched tree s n i),
          rw (in_table valid, self s.current, others) (bind_some (ctxt_switch tree) _ s run),
          record {
            inv = record {
              queue = rest;
              queued =
                  Queued-other laws w' i (sub_u32 s.nr_running 1) (add_u32 s.ctx_switches 1) s.ops;
              counted =
                  awake (ground (arith, count, ap length e, short)) w.entries.0.0 w.distinct.0;
            };
            same_tasks = λ k.
                ground (arith, count, short, ap length e, ap (has_task k) e, out, w.distinct.0);
          },
        )

    suspend_queued :
        (pid : ℕ)
        → pid < 100
        → has_task pid q ≡ true
        → (s' : Rq T) × (sched_suspend tree pid s ≡ some (pos 0, s')) × Suspended s q pid s'
    unfolding sched_suspend dequeue length has_task
    suspend_queued pid h e =
        let (n, b, a, split) = find_task pid q e in
        let w = subst (Queued laws s) split v in
        let node = (All-split-right _ b ((n, pid) ∷ a) w.entries).0.1 in
        let away : (s.current == pid) ≡ false = apart s.current pid q out e in
        let short = queue-length laws q v in
        let longer = ap length split ∙ length-remove (n, pid) b a in
        (
          one_less (removed tree s n pid),
          rw (in_table h, away) (bind_some (dequeue tree pid) _ s (dequeue_run tree s n pid node)),
          record {
            inv = record {
              queue = b ++ a;
              queued =
                  Queued-other laws (removed-Queued laws n pid b a w) s.current
                    (sub_u32 s.nr_running 1) s.ctx_switches s.ops;
              counted = awake (ground (arith, count, short, longer)) valid (
                  ground (
                    arith,
                    out,
                    ap (has_task s.current) split,
                    has_task-insert s.current n pid b a,
                  ));
            };
            same_tasks = λ k. ground (
              arith,
              count,
              short,
              longer,
              ap (has_task k) split,
              has_task-insert k n pid b a,
              Distinct-out n pid b a w.distinct,
              away,
            );
          },
        )

  -- sched_suspend of a process that can run, with the run queue in order, returns 0 and keeps the
  -- queue in order. That process can no longer run, and every other one can run as before.
  pub sched_suspend_lem :
      {s : Rq T} (v : Inv laws s) (pid : ℕ)
      → pid < 100
      → runnable s v.queue pid ≡ true
      → (s' : Rq T) × (sched_suspend tree pid s ≡ some (pos 0, s')) × Suspended s v.queue pid s'
  sched_suspend_lem {s} v pid h can = by_count v.queued v.counted can
    where
      by_queue :
          (q : List Node)
          → Queued laws s q
          → s.nr_running ≡ suc (length q)
          → s.current < 100
          → has_task s.current q ≡ false
          → (s' : Rq T) × (sched_suspend tree s.current s ≡ some (pos 0, s'))
            × Suspended s q s.current s'
      by_queue [] w count valid out = suspend_last w count valid out refl
      by_queue ((n, i) ∷ rest) w count valid out = suspend_current w count valid out n i rest refl

      by_count :
          {q : List Node}
          → Queued laws s q
          → Counted laws s q
          → runnable s q pid ≡ true
          → (s' : Rq T) × (sched_suspend tree pid s ≡ some (pos 0, s')) × Suspended s q pid s'
      by_count {q} w (asleep e _) can = absurd (ground (arith, e, can))
      by_count {q} w (awake count valid out) can = elim (cases_eq s.current pid) [
        | inl same ↦
            subst
              (λ k. (s' : Rq T) × (sched_suspend tree k s ≡ some (pos 0, s')) × Suspended s q k s')
              same (by_queue q w count valid out)
        | inr ne ↦ suspend_queued w count valid out pid h (ground (arith, ne))
      ]
