-- ===== src/Sched/Inv.antt =====
-- The state of the scheduler (sched.c) that its calls keep.
use brain_project.Prelude.{
  ℕ, suc, ◌^◌, ◌<◌, ◌≡◌, Bool, false, ◌==◌, ◌||◌, ◌&&◌, not, none, some, List, [],
}
use brain_project.RbTree.{RbTree, RbTreeLaws, Node, All, inorder}
use brain_project.Sched.{Rq}
use brain_project.Sched.Leftmost.{length}
use brain_project.Sched.Order.{has_task, Distinct, Sorted}

-- The time that an entry has run.
abbrev pub vruntimes : {T : Type 0} → Rq T → ℕ → ℕ
vruntimes s i = (s.task_table i).vruntime

module _ {T : Type 0} {tree : RbTree T} (laws : RbTreeLaws tree) where
  -- The tree holds the entries of the queue `q`, in the order of their times, and each entry knows
  -- its node. Times are below 2 ^ 31.
  pub record Queued (s : Rq T) (q : List Node) : Type 0 where
    pub built : laws.Built s.t
    pub is_queue : inorder (laws.shape s.t) ≡ q
    pub pids : (i : ℕ) → i < 100 → (s.task_table i).pid ≡ i
    pub small : (i : ℕ) → i < 100 → (s.task_table i).vruntime < 2 ^ 31
    pub small_min : s.min_vruntime < 2 ^ 31
    pub sorted : Sorted (vruntimes s) q
    pub distinct : Distinct q
    pub entries : All (λ x. (x.1 < 100) × ((s.task_table x.1).n ≡ some x.0)) q
    pub idle : (i : ℕ) → i < 100 → has_task i q ≡ false → (s.task_table i).n ≡ none

  -- No process runs and none waits; or the current one runs, and the queue has the others.
  pub data Counted (s : Rq T) (q : List Node) : Type 0 where
    asleep : s.nr_running ≡ 0 → q ≡ [] → Counted s q
    awake :
        s.nr_running ≡ suc (length q) → s.current < 100 → has_task s.current q ≡ false → Counted s q

  pub record Inv (s : Rq T) : Type 0 where
    pub queue : List Node
    pub queued : Queued s queue
    pub counted : Counted s queue

-- Whether a process can run: it is the current one, or waits in the queue.
abbrev pub runnable : {T : Type 0} → Rq T → List Node → ℕ → Bool
runnable s q i = not (s.nr_running == 0) && ((s.current == i) || has_task i q)
