-- ===== src/Sched/Switch.antt =====
-- Context switches (ctxt_switch of sched.c, and the two places where the current process gives way).
use brain_project.Prelude.{
  ℕ, ◌^◌, ◌<◌, ◌≤◌, ◌≡◌, inl, inr, refl, arith, false, ◌==◌, ◌||◌, ltb, none, some, List, [], ◌∷◌,
  ◌++◌, is_pos, subst, sym, ap, ◌∙◌, bind_some, ◌>>◌, add_u32, Bool-cases,
}
use mathlib.Core.Path.{fun_ext}
use native.Mathlib.Nat.{le_trans}
use brain_project.RbTree.{RbTree, RbTreeLaws, Node, All}
use brain_project.Sched.{Rq, leftmost, ctxt_switch, preempt, insert_task, key_comp}
use brain_project.Sched.Key.{sign}
use brain_project.Sched.Leftmost.{length, leftmost_lem}
use brain_project.Sched.Order.{
  has_task, Sorted, length-le, All-mono, length-remove, has_task-insert,
}
use brain_project.Sched.Inv.{Queued, vruntimes}
use brain_project.Sched.Moves.{insert_task_lem, key_comp-small, renode-vruntime}
use brain_project.Sched.Removal.{removed, removed-Queued, Queued-other}

pub cons_of :
    (b : List Node) (x : Node) (a : List Node) → (p : Node × List Node) × (b ++ x ∷ a ≡ p.0 ∷ p.1)
cons_of [] x a = ((x, a), refl)
cons_of (y ∷ b) x a = ((y, b ++ x ∷ a), refl)

-- A task is put into the queue and the first one is taken.
module _ (b a q rest : List Node) (m c : ℕ) (x : Node) where
  length-popped : q ≡ b ++ a → b ++ (m, c) ∷ a ≡ x ∷ rest → length rest ≡ length q
  unfolding length
  length-popped split e = omega (arith, ap length split, ap length e, length-remove (m, c) b a)

  has_task-popped :
      (k : ℕ)
      → q ≡ b ++ a
      → b ++ (m, c) ∷ a ≡ x ∷ rest
      → ((x.1 == k) || has_task k rest) ≡ ((c == k) || has_task k q)
  unfolding has_task
  has_task-popped k split e =
      sym (ap (has_task k) e)
      ∙ has_task-insert k m c b a
      ∙ ap (λ (l : List Node). (c == k) || has_task k l) (sym split)

-- The state after the switch to the task `i`, whose node is `n`.
abbrev pub switched : {T : Type 0} → RbTree T → Rq T → ℕ → ℕ → Rq T
switched tree s n i = record (removed tree s n i) {
  current = i;
  ctx_switches = add_u32 s.ctx_switches 1;
}

is_pos-sign : (a b : ℕ) → is_pos (sign a b) ≡ ltb b a
is_pos-sign a b = ground arith

-- The test by which the current process gives way.
pub runs_longer :
    {T : Type 0} (s : Rq T) (i : ℕ)
    → vruntimes s s.current < 2 ^ 31
    → vruntimes s i < 2 ^ 31
    → s.min_vruntime < 2 ^ 31
    → is_pos (key_comp s s.current i) ≡ ltb (vruntimes s i) (vruntimes s s.current)
runs_longer s i hc hi hm =
    ap is_pos (key_comp-small s s.current i hc hi hm)
    ∙ is_pos-sign (vruntimes s s.current) (vruntimes s i)

module _ {T : Type 0} {tree : RbTree T} (laws : RbTreeLaws tree) where
  pub queue-length : {s : Rq T} (q : List Node) → Queued laws s q → length q ≤ 100
  queue-length q v = length-le 100 q v.distinct (All-mono _ _ q (λ x h. h.0) v.entries)

  pub first_lem :
      {s : Rq T} (n i : ℕ) (rest : List Node)
      → Queued laws s ((n, i) ∷ rest)
      → (leftmost tree s.t ≡ some n) × (tree.info s.t n ≡ some i)
  unfolding length
  first_lem {s} n i rest v =
      leftmost_lem tree laws s.t v.built n i rest v.is_queue
        (omega (arith, queue-length ((n, i) ∷ rest) v))

  pub ctxt_switch_lem :
      {s : Rq T} (n i : ℕ) (rest : List Node)
      → Queued laws s ((n, i) ∷ rest)
      → (ctxt_switch tree s ≡ some (tt, switched tree s n i))
        × Queued laws (switched tree s n i) rest
  unfolding ctxt_switch
  ctxt_switch_lem {s} n i rest v =
      let (e, f) = first_lem n i rest v in
      let p : (s.task_table i).pid ≡ i = v.pids i v.entries.0.0 in
      (
        rw (e, f) (ap (λ (j : ℕ). some (tt, switched tree s n j)) p),
        Queued-other laws (removed-Queued laws n i [] rest v) i s.nr_running
            (add_u32 s.ctx_switches 1) s.ops,
      )

  -- What is left when the current process may have given way: the queue `q'` and the current process have
  -- the tasks that they had before, and no task in the queue has run less than the current one.
  pub record Preempted (s : Rq T) (q : List Node) (s' : Rq T) : Type 0 where
    pub queue : List Node
    pub queued : Queued laws s' queue
    pub current_valid : s'.current < 100
    pub current_out : has_task s'.current queue ≡ false
    pub same_length : length queue ≡ length q
    pub same_tasks :
        (k : ℕ) → ((s'.current == k) || has_task k queue) ≡ ((s.current == k) || has_task k q)
    pub same_count : s'.nr_running ≡ s.nr_running
    pub same_times : vruntimes s' ≡ vruntimes s
    pub least : All (λ x. vruntimes s' s'.current ≤ vruntimes s' x.1) queue

  module _ {s : Rq T} {q : List Node} (v : Queued laws s q) (h : s.current < 100)
      (out : has_task s.current q ≡ false) where
    -- The current process goes to its place, and the first task runs.
    pub give_way_lem :
        (s' : Rq T) × ((insert_task tree s.current >> ctxt_switch tree) s ≡ some (tt, s'))
        × Preempted s q s'
    unfolding length has_task
    give_way_lem =
        let (s1, run, ins) = insert_task_lem laws v s.current h out in
        let (((n, i), rest), e) = cons_of ins.spot.before (ins.node, s.current) ins.spot.after in
        let w = subst (Queued laws s1) e ins.queued in
        let (run', w') = ctxt_switch_lem n i rest w in
        (
          switched tree s1 n i,
          bind_some (insert_task tree s.current) (λ _. ctxt_switch tree) s run ∙ run',
          record {
            queue = rest;
            queued = w';
            current_valid = w.entries.0.0;
            current_out = w.distinct.0;
            same_length =
                length-popped ins.spot.before ins.spot.after q rest ins.node s.current (n, i)
                  ins.spot.split e;
            same_tasks = λ k.
                has_task-popped ins.spot.before ins.spot.after q rest ins.node s.current (n, i) k
                  ins.spot.split e;
            same_count = ins.same_count;
            same_times = fun_ext (renode-vruntime s1.task_table i none) ∙ ins.same_times;
            least =
                subst (λ (f : ℕ → ℕ). All (λ x. f i ≤ f x.1) rest)
                  (sym (fun_ext (renode-vruntime s1.task_table i none))) w.sorted.0;
          },
        )

    -- A current process that has not run longer than the first of the queue stays.
    pub stays :
        (n i : ℕ) (rest : List Node)
        → q ≡ (n, i) ∷ rest
        → vruntimes s s.current ≤ vruntimes s i
        → Preempted s q s
    stays n i rest e le = record {
      queue = q;
      queued = v;
      current_valid = h;
      current_out = out;
      same_length = refl;
      same_tasks = λ k. refl;
      same_count = refl;
      same_times = refl;
      least = subst (All (λ x. vruntimes s s.current ≤ vruntimes s x.1)) (sym e) (
        le,
        All-mono _ _ rest (λ x l. le_trans le l) (subst (Sorted (vruntimes s)) e v.sorted).0,
      );
    }

    -- preempt gives way exactly to a task that has run less.
    pub preempt_lem :
        (n i : ℕ) (rest : List Node)
        → q ≡ (n, i) ∷ rest
        → (s' : Rq T) × (preempt tree s ≡ some (tt, s')) × Preempted s q s'
    unfolding preempt
    preempt_lem n i rest e =
        let w = subst (Queued laws s) e v in
        let (found, entry) = first_lem n i rest w in
        let test = runs_longer s i (v.small s.current h) (v.small i w.entries.0.0) v.small_min in
        elim (Bool-cases (ltb (vruntimes s i) (vruntimes s s.current))) [
          | inl longer ↦
              let (s', run, p) = give_way_lem in (s', rw (found, entry, test ∙ longer) run, p)
          | inr le ↦ (s, rw (found, entry, test ∙ le) refl, stays n i rest e (ground arith))
        ]
