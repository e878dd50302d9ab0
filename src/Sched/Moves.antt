-- ===== src/Sched/Moves.antt =====
-- The moves of tasks into and out of the tree (sched.c: the calls of RBTreeInsert and RBDelete).
use brain_project.Prelude.{
  ℕ, ◌^◌, ◌<◌, ◌≤◌, ◌≡◌, ◌≢◌, refl, arith, false, Option, some, List, [], ◌∷◌, ◌++◌, pos, set,
  set_self, set_ne, set-field, subst, sym, ap, ◌∙◌,
}
use mathlib.Core.Path.{fun_ext}
use brain_project.RbTree.{RbTree, RbTreeLaws, Node, All, Greater}
use brain_project.Sched.{Rq, SchedEnt, key_comp, insert_task}
use brain_project.Sched.Key.{sign, key_comp-wraps}
use brain_project.Sched.Leftmost.{All-append}
use brain_project.Sched.Order.{
  has_task, Distinct, Sorted, Place, place, All-mono, Sorted-insert, Distinct-insert,
  All-split-left, All-split-right, has_task-append,
}
use brain_project.Sched.Inv.{Queued, vruntimes}

sign_greater : (a b : ℕ) → sign a b ≡ pos 1 → b < a
sign_greater a b e = ground arith

greater_sign : (a b : ℕ) → b < a → sign a b ≡ pos 1
greater_sign a b h = ground arith

-- Below 2 ^ 31, times are ordered as they stand.
pub key_comp-small :
    {T : Type 0} (s : Rq T) (i j : ℕ)
    → (s.task_table i).vruntime < 2 ^ 31
    → (s.task_table j).vruntime < 2 ^ 31
    → s.min_vruntime < 2 ^ 31
    → key_comp s i j ≡ sign (s.task_table i).vruntime (s.task_table j).vruntime
key_comp-small s i j hi hj hm =
    key_comp-wraps s i j (s.task_table i).vruntime (s.task_table j).vruntime s.min_vruntime
      (omega arith) (omega arith) (omega arith) (omega arith) (omega arith)

pub All-and : (P Q : Node → Type 0) (q : List Node) → All P q → All Q q → All (λ x. P x × Q x) q
All-and P Q [] a b = tt
All-and P Q (x ∷ q) (a, as') (b, bs) = ((a, b), All-and P Q q as' bs)

pub All-ne : (k : ℕ) (q : List Node) → has_task k q ≡ false → All (λ x. x.1 ≢ k) q
unfolding has_task
All-ne k [] h = tt
All-ne k ((n, i) ∷ q) h = (ground arith, All-ne k q (ground arith))

-- Another node for one entry.
abbrev pub renode : (ℕ → SchedEnt) → ℕ → Option ℕ → ℕ → SchedEnt
renode table k n = set table k (record (table k) { n = n })

module _ (table : ℕ → SchedEnt) (k : ℕ) (n : Option ℕ) where
  pub renode-pid : (i : ℕ) → (renode table k n i).pid ≡ (table i).pid
  renode-pid = set-field (λ e. e.pid) table k (record (table k) { n = n }) refl

  pub renode-vruntime : (i : ℕ) → (renode table k n i).vruntime ≡ (table i).vruntime
  renode-vruntime = set-field (λ e. e.vruntime) table k (record (table k) { n = n }) refl

  pub renode_self : (renode table k n k).n ≡ n
  renode_self = ap (λ (e : SchedEnt). e.n) (set_self table k (record (table k) { n = n }))

  pub renode-ne : (i : ℕ) → i ≢ k → (renode table k n i).n ≡ (table i).n
  renode-ne i h =
      ap (λ (e : SchedEnt). e.n) (set_ne table k i (record (table k) { n = n }) (λ e. h (sym e)))

  -- The entries of the other tasks keep their nodes.
  pub renode-entries :
      (q : List Node)
      → has_task k q ≡ false
      → All (λ x. (x.1 < 100) × ((table x.1).n ≡ some x.0)) q
      → All (λ x. (x.1 < 100) × ((renode table k n x.1).n ≡ some x.0)) q
  renode-entries q out a =
      All-mono _ _ q (λ x (h, (l, e)). (l, renode-ne x.1 h ∙ e)) (All-and _ _ q (All-ne k q out) a)

module _ {T : Type 0} {tree : RbTree T} (laws : RbTreeLaws tree) {s : Rq T} {q : List Node}
    (v : Queued laws s q) where
  -- What inserting the task `k` leaves behind.
  pub record Inserted (k : ℕ) (s' : Rq T) : Type 0 where
    pub node : ℕ
    pub spot : Place (vruntimes s) k q
    pub queued : Queued laws s' (spot.before ++ (node, k) ∷ spot.after)
    pub same_current : s'.current ≡ s.current
    pub same_count : s'.nr_running ≡ s.nr_running
    pub same_times : vruntimes s' ≡ vruntimes s

  module _ (k : ℕ) (h : k < 100) (out : has_task k q ≡ false) where
    spot : Place (vruntimes s) k q
    spot = place (vruntimes s) k q v.sorted

    node : ℕ
    node = (tree.insert (key_comp s) k s.t).0

    inserted : Rq T
    inserted = record s {
      t = (tree.insert (key_comp s) k s.t).1;
      task_table = renode s.task_table k (some node);
    }

    insert_task-run : insert_task tree k s ≡ some (tt, inserted)
    unfolding inserted node
    insert_task-run = refl

    entries_below :
        All (λ x. (x.1 < 100) × ((s.task_table x.1).n ≡ some x.0)) (spot.before ++ spot.after)
    entries_below =
        subst (All (λ x. (x.1 < 100) × ((s.task_table x.1).n ≡ some x.0))) spot.split v.entries

    split_out : has_task k (spot.before ++ spot.after) ≡ false
    split_out = subst (λ l. has_task k l ≡ false) spot.split out

    not-Greater : All (λ x. ¬ Greater (key_comp s) x.1 k) spot.before
    not-Greater =
        All-mono
          (λ x.
            (vruntimes s x.1 ≤ vruntimes s k) × ((x.1 < 100) × ((s.task_table x.1).n ≡ some x.0)))
          (λ x. ¬ Greater (key_comp s) x.1 k) spot.before
          (λ x (le, (l, _)) e. absurd (
            omega (
              arith,
              sign_greater (vruntimes s x.1) (vruntimes s k)
                  (sym (key_comp-small s x.1 k (v.small x.1 l) (v.small k h) v.small_min) ∙ e),
            )))
          (All-and _ _ spot.before spot.not_longer
            (All-split-left _ spot.before spot.after entries_below))

    greater : All (λ x. Greater (key_comp s) x.1 k) spot.after
    greater =
        All-mono _ _ spot.after
          (λ x (lt, (l, _)).
            key_comp-small s x.1 k (v.small x.1 l) (v.small k h) v.small_min ∙ greater_sign _ _ lt)
          (All-and _ _ spot.after spot.longer
            (All-split-right _ spot.before spot.after entries_below))

    new_queue : List Node
    new_queue = spot.before ++ (node, k) ∷ spot.after

    out_before : has_task k spot.before ≡ false
    out_before = ground (arith, has_task-append k spot.before spot.after, split_out)

    out_after : has_task k spot.after ≡ false
    out_after = ground (arith, has_task-append k spot.before spot.after, split_out)

    apart :
        (i : ℕ)
        → has_task i new_queue ≡ false
        → (i ≢ k) × (has_task i (spot.before ++ spot.after) ≡ false)
    unfolding new_queue has_task
    apart i e = (
      ground (arith, has_task-append i spot.before ((node, k) ∷ spot.after)),
      ground (
        arith,
        has_task-append i spot.before ((node, k) ∷ spot.after),
        has_task-append i spot.before spot.after,
      ),
    )

    inserted-Queued : Queued laws inserted new_queue
    unfolding inserted node new_queue has_task
    inserted-Queued = record {
      built = laws.insert-Built s.t (key_comp s) k v.built;
      is_queue =
          laws.insert-inorder s.t (key_comp s) k spot.before spot.after v.built
            (v.is_queue ∙ spot.split) not-Greater greater;
      pids = λ i l. renode-pid s.task_table k (some node) i ∙ v.pids i l;
      small = λ i l. rw (renode-vruntime s.task_table k (some node) i) (v.small i l);
      small_min = v.small_min;
      sorted =
          subst (λ f. Sorted f new_queue)
            (sym (fun_ext (renode-vruntime s.task_table k (some node))))
            (Sorted-insert (vruntimes s) k node spot.before spot.after
              (subst (Sorted (vruntimes s)) spot.split v.sorted) spot.not_longer spot.longer);
      distinct =
          Distinct-insert k node spot.before spot.after (subst Distinct spot.split v.distinct)
            split_out;
      entries =
          All-append _ spot.before ((node, k) ∷ spot.after)
            (renode-entries s.task_table k (some node) spot.before out_before
              (All-split-left _ spot.before spot.after entries_below))
            (
              (h, renode_self s.task_table k (some node)),
              renode-entries s.task_table k (some node) spot.after out_after
                  (All-split-right _ spot.before spot.after entries_below),
            );
      idle = λ i l e.
          (let (ne, e') = apart i e in
            renode-ne s.task_table k (some node) i ne ∙ v.idle i l (rw spot.split e'));
    }

    pub insert_task_lem : (s' : Rq T) × (insert_task tree k s ≡ some (tt, s')) × Inserted k s'
    unfolding inserted spot new_queue
    insert_task_lem = (
      inserted,
      insert_task-run,
      record {
        node = node;
        spot = spot;
        queued = inserted-Queued;
        same_current = refl;
        same_count = refl;
        same_times = fun_ext (renode-vruntime s.task_table k (some node));
      },
    )
