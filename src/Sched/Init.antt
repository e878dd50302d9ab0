-- ===== src/Sched/Init.antt =====
-- The start of the scheduler, its resets and its refusals (sched_init, sched_reset and the tests of
-- the process number in sched.c).
use brain_project.Prelude.{
  ℕ, ◌^◌, ◌<◌, ◌≡◌, ◌≢◌, ◌⊎◌, inl, inr, Option, refl, arith, true, false, ltb, if◌then◌else◌, List,
  [], pos, ap, some, none,
}
use brain_project.RbTree.{RbTree, RbTreeLaws, Node, inorder}
use brain_project.Sched.{Rq, SchedEnt, sched_init, sched_reset, sched_suspend, sched_resume}
use brain_project.Sched.Order.{has_task}
use brain_project.Sched.Inv.{Counted, asleep, awake, Inv, runnable, vruntimes}
use brain_project.Sched.Retime.{retimed, retime_self, retime-ne, Queued-retime}

in_table : {pid : ℕ} → pid < 100 → ltb 99 pid ≡ false
in_table h = ground arith

-- The entries that sched_init writes.
abbrev pub fresh_table : {T : Type 0} → Rq T → ℕ → SchedEnt
fresh_table s i = if ltb i 100 then record { pid = i; vruntime = 0; n = none } else s.task_table i

fresh_entry :
    {T : Type 0} (s : Rq T) (i : ℕ)
    → i < 100
    → fresh_table s i ≡ record { pid = i; vruntime = 0; n = none }
fresh_entry s i h = let small : ltb i 100 ≡ true = ground arith in rw (small) refl

module _ {T : Type 0} {tree : RbTree T} (laws : RbTreeLaws tree) where
  -- What sched_init leaves behind.
  pub record Started (s' : Rq T) : Type 0 where
    pub inv : Inv laws s'
    pub nobody : (k : ℕ) → runnable s' inv.queue k ≡ false
    pub no_time : (k : ℕ) → k < 100 → vruntimes s' k ≡ 0

  -- sched_init, when no process runs and min_vruntime is below 2 ^ 31, as at the start of the program:
  -- it returns 0 and leaves the run queue in order, with no process that can run and no time run; or
  -- the tree cannot be created, and it returns 1.
  pub sched_init_lem :
      (s : Rq T)
      → s.nr_running ≡ 0
      → s.min_vruntime < 2 ^ 31
      → ((s' : Rq T) × (sched_init tree s ≡ some (pos 0, s')) × Started s')
        ⊎ ((tree.create ≡ none) × ((s' : Rq T) × (sched_init tree s ≡ some (pos 1, s'))))
  unfolding sched_init inorder
  sched_init_lem s stopped small = by_create tree.create refl
    where
      entry : (i : ℕ) → i < 100 → fresh_table s i ≡ record { pid = i; vruntime = 0; n = none }
      entry = fresh_entry s

      by_create :
          (c : Option T)
          → tree.create ≡ c
          → ((s' : Rq T) × (sched_init tree s ≡ some (pos 0, s')) × Started s')
            ⊎ ((tree.create ≡ none) × ((s' : Rq T) × (sched_init tree s ≡ some (pos 1, s'))))
      by_create none e = inr (e, (record s { ops = 0; ctx_switches = 0 }, rw (e) refl))
      by_create (some t) e = inl (
        record s { ops = 0; ctx_switches = 0; t = t; task_table = fresh_table s },
        rw (e) refl,
        record {
          inv = record {
            queue = [];
            queued = record {
              built = laws.create-Built t e;
              is_queue = rw (laws.create-shape t e) refl;
              pids = λ i h. ap (λ (x : SchedEnt). x.pid) (entry i h);
              small = λ i h. rw (entry i h) (omega arith);
              small_min = small;
              sorted = tt;
              distinct = tt;
              entries = tt;
              idle = λ i h _. ap (λ (x : SchedEnt). x.n) (entry i h);
            };
            counted = asleep stopped refl;
          };
          nobody = λ k. rw (stopped) refl;
          no_time = λ k h. ap (λ (x : SchedEnt). x.vruntime) (entry k h);
        },
      )

  -- What a reset leaves behind.
  pub record Restarted (s : Rq T) (q : List Node) (pid : ℕ) (s' : Rq T) : Type 0 where
    pub inv : Inv laws s'
    pub same_tasks : (k : ℕ) → runnable s' inv.queue k ≡ runnable s q k
    pub no_time : vruntimes s' pid ≡ 0
    pub same_times : (k : ℕ) → k ≢ pid → vruntimes s' k ≡ vruntimes s k

  -- sched_reset of a process that does not wait in the queue, with the queue in order, returns 0 and
  -- keeps it in order: the same processes can run, this one starts at the time 0, and the times of the
  -- others stay.
  pub sched_reset_lem :
      {s : Rq T} (v : Inv laws s) (pid : ℕ)
      → pid < 100
      → has_task pid v.queue ≡ false
      → (s' : Rq T) × (sched_reset pid s ≡ some (pos 0, s')) × Restarted s v.queue pid s'
  unfolding sched_reset
  sched_reset_lem {s} v pid h out = (
    retimed s pid 0,
    rw (in_table h) refl,
    record {
      inv = record {
        queue = v.queue;
        queued = Queued-retime laws v.queued pid 0 (omega arith) out;
        counted = by_count v.counted;
      };
      same_tasks = λ k. refl;
      no_time = retime_self s.task_table pid 0;
      same_times = retime-ne s.task_table pid 0;
    },
  )
    where
      by_count : Counted laws s v.queue → Counted laws (retimed s pid 0) v.queue
      by_count (asleep e f) = asleep e f
      by_count (awake count valid cur_out) = awake count valid cur_out

-- A number that is no process is refused with 1, and nothing changes.
pub sched-refuses :
    {T : Type 0} (tree : RbTree T) (pid : ℕ) (s : Rq T)
    → 99 < pid
    → (sched_suspend tree pid s ≡ some (pos 1, s))
      × (sched_resume tree pid s ≡ some (pos 1, s))
      × (sched_reset pid s ≡ some (pos 1, s))
unfolding sched_suspend sched_resume sched_reset
sched-refuses tree pid s h =
    let above : ltb 99 pid ≡ true = ground arith in
    (rw (above) refl, rw (above) refl, rw (above) refl)
