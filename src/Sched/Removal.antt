-- ===== src/Sched/Removal.antt =====
-- A task taken off the tree (sched.c: the calls of RBDelete).
use brain_project.Prelude.{
  ℕ, ◌≡◌, ◌≢◌, arith, true, false, none, List, [], ◌∷◌, ◌++◌, subst, sym, ◌∙◌, cases_eq, inl, inr,
}
use mathlib.Core.Path.{fun_ext}
use brain_project.RbTree.{RbTree, RbTreeLaws, Node, has_node}
use brain_project.Sched.{Rq}
use brain_project.Sched.Leftmost.{All-append}
use brain_project.Sched.Order.{
  has_task, Sorted, Sorted-remove, Distinct-remove, Distinct-out, All-split-left, All-split-right,
  has_task-append,
}
use brain_project.Sched.Inv.{Queued, vruntimes}
use brain_project.Sched.Moves.{
  renode, renode-pid, renode-vruntime, renode_self, renode-ne, renode-entries,
}

has_node-append : (n i : ℕ) (b a : List Node) → has_node n (b ++ (n, i) ∷ a) ≡ true
unfolding has_node
has_node-append n i [] a = ground arith
has_node-append n i (x ∷ b) a = ground (arith, has_node-append n i b a)

-- The fields that the order of the queue does not depend on.
pub Queued-other :
    {T : Type 0} {tree : RbTree T} (laws : RbTreeLaws tree) {s : Rq T} {q : List Node}
    → Queued laws s q
    → (c r x o : ℕ)
    → Queued laws (record s { current = c; nr_running = r; ctx_switches = x; ops = o }) q
Queued-other laws v c r x o = record {
  built = v.built;
  is_queue = v.is_queue;
  pids = v.pids;
  small = v.small;
  small_min = v.small_min;
  sorted = v.sorted;
  distinct = v.distinct;
  entries = v.entries;
  idle = v.idle;
}

abbrev pub removed : {T : Type 0} → RbTree T → Rq T → ℕ → ℕ → Rq T
removed tree s n k = record s { t = tree.delete n s.t; task_table = renode s.task_table k none }

module _ {T : Type 0} {tree : RbTree T} (laws : RbTreeLaws tree) {s : Rq T} (n k : ℕ)
    (b a : List Node) (v : Queued laws s (b ++ (n, k) ∷ a)) where
  gone : has_task k (b ++ a) ≡ false
  gone = Distinct-out n k b a v.distinct

  parts : (has_task k b ≡ false) × (has_task k a ≡ false)
  parts = (ground (arith, gone, has_task-append k b a), ground (arith, gone, has_task-append k b a))

  -- A task that is not in the shorter queue is the removed one, or was not in the queue before.
  idle_before : (i : ℕ) → i ≢ k → has_task i (b ++ a) ≡ false → has_task i (b ++ (n, k) ∷ a) ≡ false
  unfolding has_task
  idle_before i ne e = ground (arith, ne, has_task-append i b a, has_task-append i b ((n, k) ∷ a))

  pub removed-Queued : Queued laws (removed tree s n k) (b ++ a)
  removed-Queued = record {
    built = laws.delete-Built s.t n v.built (rw v.is_queue (has_node-append n k b a));
    is_queue = laws.delete-inorder s.t n k b a v.built v.is_queue;
    pids = λ i l. renode-pid s.task_table k none i ∙ v.pids i l;
    small = λ i l. rw (renode-vruntime s.task_table k none i) (v.small i l);
    small_min = v.small_min;
    sorted =
        subst (λ f. Sorted f (b ++ a)) (sym (fun_ext (renode-vruntime s.task_table k none)))
          (Sorted-remove (vruntimes s) (n, k) b a v.sorted);
    distinct = Distinct-remove (n, k) b a v.distinct;
    entries =
        All-append _ b a
          (renode-entries s.task_table k none b parts.0 (All-split-left _ b ((n, k) ∷ a) v.entries))
          (renode-entries s.task_table k none a parts.1
            (All-split-right _ b ((n, k) ∷ a) v.entries).1);
    idle = λ i l e. elim (cases_eq i k) [
      | inl same ↦
          subst (λ j. (renode s.task_table k none j).n ≡ none) (sym same)
            (renode_self s.task_table k none)
      | inr ne ↦ renode-ne s.task_table k none i ne ∙ v.idle i l (idle_before i ne e)
    ];
  }
