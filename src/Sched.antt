-- ===== src/Sched.antt =====
-- The scheduler (sched.c): a run queue ordered by the time that the processes have run, over the
-- interface of its tree. A `struct sched_ent *` is the index of its entry in task_table, and a
-- `rb_red_blk_node *` is a node of the tree, with `none` for NULL.
pub mod Key
pub mod Leftmost
pub mod Order
pub mod Inv
pub mod Moves
pub mod Removal
pub mod Switch
pub mod Suspend
pub mod Retime
pub mod Resume
pub mod Round
pub mod Init
mod Tests
use brain_project.Prelude.{
  ℕ, zero, suc, ◌+◌, ◌-◌, ◌==◌, ltb, Bool, true, false, if◌then◌else◌, ℤ, pos, negsuc, minus_one,
  ltb_ℤ, eq_ℤ, is_pos, to_signed, add_u32, sub_u32, Option, none, some, Run, pure, fault, get,
  modify, ◌>>=◌, ◌>>◌, set,
}
use brain_project.RbTree.{RbTree}

pub record SchedEnt : Type 0 where
  pub pid : ℕ
  pub vruntime : ℕ
  pub n : Option ℕ

-- rq, task_table and the two counters.
pub record Rq (T : Type 0) : Type 0 where
  pub t : T
  pub min_vruntime : ℕ
  pub current : ℕ
  pub nr_running : ℕ
  pub task_table : ℕ → SchedEnt
  pub ctx_switches : ℕ
  pub ops : ℕ

-- `rounds` are the nodes that the walk may visit.
pub leftmost_from : {T : Type 0} → RbTree T → T → ℕ → ℕ → Option ℕ
leftmost_from tree t zero n = none
leftmost_from tree t (suc rounds) n =
    let rest = leftmost_from tree t rounds (tree.left t n) in
    if tree.left t n == tree.nil t then some n else rest

-- The root sentinel and a node for each of the 100 entries.
unfoldable pub leftmost : {T : Type 0} → RbTree T → T → Option ℕ
unfolding leftmost_from
leftmost tree t = leftmost_from tree t 101 (tree.root t)

-- x1 == x2, x1 < x2
abbrev pub compare_ints : ℤ → ℤ → ℤ
compare_ints x1 x2 = if eq_ℤ x1 x2 then pos 0 else if ltb_ℤ x1 x2 then minus_one else pos 1

module _ {T : Type 0} where
  unfoldable pub key_comp : Rq T → ℕ → ℕ → ℤ
  key_comp s k1 k2 =
      compare_ints (to_signed (sub_u32 (s.task_table k1).vruntime s.min_vruntime))
        (to_signed (sub_u32 (s.task_table k2).vruntime s.min_vruntime))

  abbrev pub set_vruntime : ℕ → ℕ → Run (Rq T) (Unit {0})
  set_vruntime k v s =
      some (
        tt,
        record s { task_table = set s.task_table k (record (s.task_table k) { vruntime = v }) },
      )

  abbrev pub set_n : ℕ → Option ℕ → Run (Rq T) (Unit {0})
  set_n k n s =
      some (tt, record s { task_table = set s.task_table k (record (s.task_table k) { n = n }) })

  unfoldable pub sched_reset : ℕ → Run (Rq T) ℤ
  sched_reset pid = if ltb 99 pid then pure (pos 1) else do set_vruntime pid 0; pure (pos 0)

  -- A pointer that is not NULL.
  abbrev pub present : {A : Type 0} → Option A → Run (Rq T) A
  present none = fault
  present (some a) = pure a

-- The vruntime of a process that wakes up: `floor` is min_vruntime less SCHED_LATENCY, if it can be.
abbrev pub woken : ℕ → ℕ → ℕ
woken vruntime min_vruntime =
    let floor = if ltb min_vruntime 2 then min_vruntime else min_vruntime - 2 in
    if ltb floor vruntime then vruntime else floor

module _ {T : Type 0} (tree : RbTree T) where
  unfoldable pub sched_init : Run (Rq T) ℤ
  sched_init s = elim tree.create [
    | none ↦ some (pos 1, record s { ops = 0; ctx_switches = 0 })
    | some t ↦ some (
      pos 0,
      record s {
        ops = 0;
        ctx_switches = 0;
        t = t;
        task_table =
            λ i. if ltb i 100 then record { pid = i; vruntime = 0; n = none } else s.task_table i;
      },
    )
  ]

  abbrev pub insert_task : ℕ → Run (Rq T) (Unit {0})
  insert_task k s =
      let (n, t) = tree.insert (key_comp s) k s.t in
      some (
        tt,
        record s {
          t = t;
          task_table = set s.task_table k (record (s.task_table k) { n = some n });
        },
      )

  -- The next process is taken off the tree.
  unfoldable pub ctxt_switch : Run (Rq T) (Unit {0})
  unfolding leftmost
  ctxt_switch = do
    s ← get
    n ← present (leftmost tree s.t)
    newp ← present (tree.info s.t n)
    modify λ s. record s { current = (s.task_table newp).pid }
    set_n (s.task_table newp).pid none
    modify λ s. record s { t = tree.delete n s.t; ctx_switches = add_u32 s.ctx_switches 1 }

  -- RBDelete(rq.t, taskp->n); taskp->n = NULL;
  unfoldable pub dequeue : ℕ → Run (Rq T) (Unit {0})
  dequeue pid = do
    s ← get
    n ← present (s.task_table pid).n
    modify λ s. record s { t = tree.delete n s.t }
    set_n pid none

  unfoldable pub sched_suspend : ℕ → Run (Rq T) ℤ
  unfolding ctxt_switch dequeue
  sched_suspend pid = if ltb 99 pid then pure (pos 1) else do
    s ← get
    if s.current == pid then (if ltb 1 s.nr_running then ctxt_switch else pure tt) else dequeue pid
    modify λ s. record s { nr_running = sub_u32 s.nr_running 1 }
    pure (pos 0)

  -- The current process gives way if the leftmost one has run less.
  unfoldable pub preempt : Run (Rq T) (Unit {0})
  unfolding leftmost ctxt_switch
  preempt = do
    s ← get
    n ← present (leftmost tree s.t)
    key ← present (tree.info s.t n)
    if is_pos (key_comp s s.current key) then (do insert_task s.current; ctxt_switch) else pure tt

  -- The rest of sched_resume, behind the new vruntime.
  unfoldable pub enqueue : ℕ → Run (Rq T) ℤ
  unfolding preempt
  enqueue pid = do
    s ← get
    if s.nr_running == 0
        then (do
          modify λ s. record s {
            min_vruntime = (s.task_table pid).vruntime;
            current = (s.task_table pid).pid;
            nr_running = 1;
          }
          pure (pos 0))
        else if pid == s.current
        then pure (pos 0)
        else do
          insert_task pid
          preempt
          modify λ s. record s { nr_running = add_u32 s.nr_running 1 }
          pure (pos 0)

  unfoldable pub sched_resume : ℕ → Run (Rq T) ℤ
  unfolding enqueue
  sched_resume pid = if ltb 99 pid then pure (pos 1) else do
    s ← get
    set_vruntime pid (woken (s.task_table pid).vruntime s.min_vruntime)
    enqueue pid

  -- The end of a round of sched_run: as in `preempt`, but min_vruntime moves first.
  unfoldable pub rebalance : Run (Rq T) (Unit {0})
  unfolding leftmost ctxt_switch
  rebalance = do
    s ← get
    n ← present (leftmost tree s.t)
    key ← present (tree.info s.t n)
    if is_pos (key_comp s s.current key)
        then (do
          modify λ s. record s { min_vruntime = (s.task_table key).vruntime }
          insert_task s.current
          ctxt_switch)
        else pure tt
