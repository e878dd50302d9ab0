-- ===== src/Sched/Round.antt =====
-- The end of a round of sched_run (sched.c).
use brain_project.Prelude.{
  ℕ, suc, ◌<◌, ◌≤◌, ◌≡◌, inl, inr, refl, arith, false, not, ◌&&◌, ◌||◌, ◌==◌, ltb, List, [], ◌∷◌,
  subst, ap, ◌∙◌, some, Bool-cases,
}
use brain_project.RbTree.{RbTree, RbTreeLaws, Node, All}
use brain_project.Sched.{Rq, rebalance}
use brain_project.Sched.Leftmost.{length}
use brain_project.Sched.Order.{has_task}
use brain_project.Sched.Inv.{Queued, Counted, asleep, awake, Inv, runnable, vruntimes}
use brain_project.Sched.Switch.{Preempted, give_way_lem, stays, first_lem, runs_longer}
use brain_project.Sched.Retime.{Queued-min}

module _ {T : Type 0} {tree : RbTree T} (laws : RbTreeLaws tree) where
  -- What the end of a round leaves behind.
  pub record Balanced (s : Rq T) (q : List Node) (s' : Rq T) : Type 0 where
    pub inv : Inv laws s'
    pub same_tasks : (k : ℕ) → runnable s' inv.queue k ≡ runnable s q k
    pub same_times : vruntimes s' ≡ vruntimes s
    pub least : All (λ x. vruntimes s' s'.current ≤ vruntimes s' x.1) inv.queue

  balanced :
      {s s' : Rq T} {q : List Node}
      → s.nr_running ≡ suc (length q)
      → Preempted laws s q s'
      → Balanced s q s'
  balanced {s} {s'} {q} count p = record {
    inv = record {
      queue = p.queue;
      queued = p.queued;
      counted =
          awake (ground (arith, count, p.same_count, p.same_length)) p.current_valid p.current_out;
    };
    same_tasks = λ k.
        ap (λ b. not (s'.nr_running == 0) && b) (p.same_tasks k)
        ∙ ap (λ (n : ℕ). not (n == 0) && ((s.current == k) || has_task k q)) p.same_count;
    same_times = p.same_times;
    least = p.least;
  }

  rebalance_first :
      {s : Rq T} {q : List Node} (v : Queued laws s q) (n i : ℕ) (rest : List Node)
      → q ≡ (n, i) ∷ rest
      → s.current < 100
      → has_task s.current q ≡ false
      → (s' : Rq T) × (rebalance tree s ≡ some (tt, s')) × Preempted laws s q s'
  unfolding rebalance
  rebalance_first {s} {q} v n i rest e valid out =
      let w = subst (Queued laws s) e v in
      let (found, entry) = first_lem laws n i rest w in
      let test = runs_longer s i (v.small s.current valid) (v.small i w.entries.0.0) v.small_min in
      elim (Bool-cases (ltb (vruntimes s i) (vruntimes s s.current))) [
        | inl longer ↦
            let (s', run, p) =
              give_way_lem laws (Queued-min laws v (vruntimes s i) (v.small i w.entries.0.0)) valid
                out in
            (
              s',
              rw (found, entry, test ∙ longer) run,
              record {
                queue = p.queue;
                queued = p.queued;
                current_valid = p.current_valid;
                current_out = p.current_out;
                same_length = p.same_length;
                same_tasks = p.same_tasks;
                same_count = p.same_count;
                same_times = p.same_times;
                least = p.least;
              },
            )
        | inr le ↦
            (s, rw (found, entry, test ∙ le) refl, stays laws v valid out n i rest e (ground arith))
      ]

  empty : {q : List Node} → q ≡ [] → length q ≡ 0
  unfolding length
  empty e = ap length e

  -- The end of a round with at least two processes that can run, and the run queue in order, keeps it
  -- in order. The same processes can run, their times stay, and none that waits has run less than the
  -- one that runs next.
  pub rebalance_lem :
      {s : Rq T} (v : Inv laws s)
      → 2 ≤ s.nr_running
      → (s' : Rq T) × (rebalance tree s ≡ some (tt, s')) × Balanced s v.queue s'
  rebalance_lem {s} v two = by_count v.queued v.counted
    where
      by_queue :
          {q : List Node} (r : List Node)
          → q ≡ r
          → Queued laws s q
          → s.nr_running ≡ suc (length q)
          → s.current < 100
          → has_task s.current q ≡ false
          → (s' : Rq T) × (rebalance tree s ≡ some (tt, s')) × Balanced s q s'
      by_queue [] e w count valid out = absurd (omega (arith, two, count, empty e))
      by_queue ((n, i) ∷ rest) e w count valid out =
          let (s', run, p) = rebalance_first w n i rest e valid out in (s', run, balanced count p)

      by_count :
          {q : List Node}
          → Queued laws s q
          → Counted laws s q
          → (s' : Rq T) × (rebalance tree s ≡ some (tt, s')) × Balanced s q s'
      by_count w (asleep e f) = absurd (omega arith)
      by_count {q} w (awake count valid out) = by_queue q refl w count valid out
