-- ===== src/Sched/Resume.antt =====
-- A process enters the run queue (sched_resume of sched.c), and the end of a round of sched_run.
use brain_project.Prelude.{
  ℕ, suc, ◌+◌, ◌⊎◌, ◌<◌, ◌≤◌, ◌≡◌, ◌≢◌, refl, arith, Bool, false, not, ◌&&◌, ◌||◌, ◌==◌, ltb, List,
  [], ◌∷◌, ◌++◌, pos, subst, sym, ap, ◌∙◌, some, add_u32, bind_some, ℤ, Run, pure, modify, ◌>>◌,
}
use brain_project.RbTree.{RbTree, RbTreeLaws, Node, All}
use brain_project.Sched.{Rq, woken, sched_resume, enqueue, preempt, insert_task}
use brain_project.Sched.Leftmost.{length}
use brain_project.Sched.Order.{has_task, length-remove, has_task-insert}
use brain_project.Sched.Inv.{Queued, Counted, asleep, awake, Inv, runnable, vruntimes}
use brain_project.Sched.Moves.{Inserted, insert_task_lem}
use brain_project.Sched.Removal.{Queued-other}
use brain_project.Sched.Switch.{Preempted, preempt_lem, queue-length, cons_of}
use brain_project.Sched.Retime.{
  retimed, retime_self, retime-ne, Queued-retime, Queued-min, woken-small,
}

woken_source :
    (t min : ℕ) → (woken t min ≡ t) ⊎ ((woken t min + 2 ≡ min) ⊎ ((min < 2) × (woken t min ≡ min)))
woken_source t min = ground arith

in_table : {pid : ℕ} → pid < 100 → ltb 99 pid ≡ false
in_table h = ground arith

-- One more process can run.
abbrev one_more : {T : Type 0} → Rq T → Rq T
one_more s = record s { nr_running = add_u32 s.nr_running 1 }

-- The processes that can run, with one more in the queue.
one_more_runs :
    (n n' l : ℕ)
    → suc l ≤ 100
    → n ≡ suc l
    → n' ≡ n
    → (now c1 c0 queued pid before : Bool) → now ≡ (c1 || queued)
    → c1 ≡ c0
    → queued ≡ (pid || before)
    → (not (add_u32 n' 1 == 0) && now) ≡ ((not (n == 0) && (c0 || before)) || pid)
one_more_runs n n' l h e e' now c1 c0 queued pid before a b c = ground arith

has_task-empty : (k : ℕ) (q : List Node) → q ≡ [] → has_task k q ≡ false
unfolding has_task
has_task-empty k q e = ap (has_task k) e

abbrev finish : {T : Type 0} → Run (Rq T) ℤ
finish = modify one_more >> pure (pos 0)

module _ {T : Type 0} {tree : RbTree T} (laws : RbTreeLaws tree) where
  -- What a process that enters the queue leaves behind: no task in the queue has run less than the
  -- current one.
  pub record Entered (s : Rq T) (q : List Node) (pid : ℕ) (s' : Rq T) : Type 0 where
    pub inv : Inv laws s'
    pub same_tasks : (k : ℕ) → runnable s' inv.queue k ≡ (runnable s q k || (pid == k))
    pub same_times : vruntimes s' ≡ vruntimes s
    pub least : All (λ x. vruntimes s' s'.current ≤ vruntimes s' x.1) inv.queue

  module _ {s : Rq T} {q : List Node} (v : Queued laws s q) (pid : ℕ) (h : pid < 100)
      (out : has_task pid q ≡ false) where
    enqueue_first :
        s.nr_running ≡ 0
        → q ≡ []
        → (s' : Rq T) × (enqueue tree pid s ≡ some (pos 0, s')) × Entered s q pid s'
    unfolding enqueue length has_task
    enqueue_first none_run e =
        let m = (s.task_table pid).vruntime in
        let c : (s.task_table pid).pid ≡ pid = v.pids pid h in
        (
          record s { min_vruntime = m; current = (s.task_table pid).pid; nr_running = 1 },
          rw (none_run) refl,
          record {
            inv = record {
              queue = q;
              queued =
                  Queued-other laws (Queued-min laws v m (v.small pid h)) (s.task_table pid).pid 1
                    s.ctx_switches s.ops;
              counted = awake (ground (arith, ap length e)) (rw c h) (rw c out);
            };
            same_tasks = λ k. ground (arith, none_run, has_task-empty k q e, c);
            same_times = refl;
            least =
                subst (All (λ x. vruntimes s (s.task_table pid).pid ≤ vruntimes s x.1)) (sym e) tt;
          },
        )

    -- The state `s2` behind the insertion, which leads to `s1`, and the test of the current process.
    entered :
        {s1 s2 : Rq T} (ins : Inserted laws v pid s1)
        → Preempted laws s1 (ins.spot.before ++ (ins.node, pid) ∷ ins.spot.after) s2
        → s.nr_running ≡ suc (length q)
        → Entered s q pid (one_more s2)
    entered {s1} {s2} ins p count =
        let b = ins.spot.before in
        let a = ins.spot.after in
        let len =
          length-remove (ins.node, pid) b a
          ∙ ap (λ (l : List Node). suc (length l)) (sym ins.spot.split) in
        let short = subst (λ l. l ≤ 100) len (queue-length laws _ ins.queued) in
        let count2 = p.same_count ∙ ins.same_count in
        record {
          inv = record {
            queue = p.queue;
            queued =
                Queued-other laws p.queued s2.current (add_u32 s2.nr_running 1) s2.ctx_switches
                  s2.ops;
            counted =
                awake (ground (arith, count, count2, p.same_length, len, short)) p.current_valid
                  p.current_out;
          };
          same_tasks = λ k.
              one_more_runs s.nr_running s2.nr_running (length q) short count count2 _
                (s1.current == k) (s.current == k) _ _ _ (p.same_tasks k)
                (ap (λ c. c == k) ins.same_current)
                (has_task-insert k ins.node pid b a
                  ∙ ap (λ (l : List Node). (pid == k) || has_task k l) (sym ins.spot.split));
          same_times = p.same_times ∙ ins.same_times;
          least = p.least;
        }

    enqueue-run :
        {s1 s2 : Rq T}
        → (s.nr_running == 0) ≡ false
        → (pid == s.current) ≡ false
        → insert_task tree pid s ≡ some (tt, s1)
        → preempt tree s1 ≡ some (tt, s2)
        → enqueue tree pid s ≡ some (pos 0, one_more s2)
    unfolding enqueue
    enqueue-run {s1} running apart run run' =
        rw (running, apart)
          (bind_some (insert_task tree pid) (λ _. preempt tree >> finish) s run
            ∙ bind_some (preempt tree) (λ _. finish) s1 run')

    enqueue_next :
        s.nr_running ≡ suc (length q)
        → s.current < 100
        → has_task s.current q ≡ false
        → (pid == s.current) ≡ false
        → (s' : Rq T) × (enqueue tree pid s ≡ some (pos 0, s')) × Entered s q pid s'
    unfolding has_task
    enqueue_next count valid cur_out apart =
        let (s1, run, ins) = insert_task_lem laws v pid h out in
        let b = ins.spot.before in
        let a = ins.spot.after in
        let tasks =
          has_task-insert s.current ins.node pid b a
          ∙ ap (λ (l : List Node). (pid == s.current) || has_task s.current l)
              (sym ins.spot.split) in
        let out1 =
          subst (λ c. has_task c (b ++ (ins.node, pid) ∷ a) ≡ false) (sym ins.same_current)
            (ground (arith, tasks, apart, cur_out)) in
        let (((n, i), rest), e) = cons_of b (ins.node, pid) a in
        let (s2, run', p) =
          preempt_lem laws ins.queued (subst (λ c. c < 100) (sym ins.same_current) valid) out1 n i
            rest e in
        (one_more s2, enqueue-run (ground (arith, count)) apart run run', entered ins p count)

  abbrev later : Rq T → ℕ → Rq T
  later s pid = retimed s pid (woken (vruntimes s pid) s.min_vruntime)

  -- The time `t` of a process that wakes up becomes `t'`: the latency, 2, is taken off min_vruntime,
  -- unless that is below 2, and `t'` is the larger of that and `t`.
  pub record Raised (t min t' : ℕ) : Type 0 where
    pub kept : t ≤ t'
    pub lifted : min ≤ t' + 2
    pub lifted_small : min < 2 → min ≤ t'
    pub source : (t' ≡ t) ⊎ (((t' + 2 ≡ min) ⊎ ((min < 2) × (t' ≡ min))))

  woken-Raised : (t min : ℕ) → Raised t min (woken t min)
  woken-Raised t min = record {
    kept = ground arith;
    lifted = ground arith;
    lifted_small = λ h. ground arith;
    source = woken_source t min;
  }

  -- What sched_resume leaves behind.
  pub record Resumed (s : Rq T) (q : List Node) (pid : ℕ) (s' : Rq T) : Type 0 where
    pub inv : Inv laws s'
    pub same_tasks : (k : ℕ) → runnable s' inv.queue k ≡ (runnable s q k || (pid == k))
    pub own_time : Raised (vruntimes s pid) s.min_vruntime (vruntimes s' pid)
    pub same_times : (k : ℕ) → k ≢ pid → vruntimes s' k ≡ vruntimes s k
    pub least : All (λ x. vruntimes s' s'.current ≤ vruntimes s' x.1) inv.queue

  -- sched_resume of a process that cannot run, with the run queue in order, returns 0 and keeps the
  -- queue in order. That process can run from now on, and every other one can run as before. Its time
  -- is raised to min_vruntime less the latency (to min_vruntime itself, if that is below the latency) if
  -- it was below, and the other times stay. No process
  -- that waits in the queue has then run less than the current one.
  pub sched_resume_lem :
      {s : Rq T} (v : Inv laws s) (pid : ℕ)
      → pid < 100
      → runnable s v.queue pid ≡ false
      → (s' : Rq T) × (sched_resume tree pid s ≡ some (pos 0, s')) × Resumed s v.queue pid s'
  unfolding sched_resume
  sched_resume_lem {s} v pid h cannot =
      let time = woken (vruntimes s pid) s.min_vruntime in
      let (s', run, entered) = by_count v.queued v.counted cannot in
      let whole : sched_resume tree pid s ≡ some (pos 0, s') = rw (in_table h) run in
      (
        s',
        whole,
        record {
          inv = entered.inv;
          same_tasks = entered.same_tasks;
          own_time =
              subst (Raised (vruntimes s pid) s.min_vruntime)
                (sym (
                  ap (λ (f : ℕ → ℕ). f pid) entered.same_times ∙ retime_self s.task_table pid time))
                (woken-Raised (vruntimes s pid) s.min_vruntime);
          same_times = λ k ne.
              ap (λ (f : ℕ → ℕ). f k) entered.same_times ∙ retime-ne s.task_table pid time k ne;
          least = entered.least;
        },
      )
    where
      by_count :
          {q : List Node}
          → Queued laws s q
          → Counted laws s q
          → runnable s q pid ≡ false
          → (s' : Rq T) × (enqueue tree pid (later s pid) ≡ some (pos 0, s'))
            × Entered (later s pid) q pid s'
      by_count {q} w (asleep e f) can =
          let out = has_task-empty pid q f in
          enqueue_first
            (Queued-retime laws w pid _ (woken-small _ _ (w.small pid h) w.small_min) out) pid h out
            e f
      by_count {q} w (awake count valid cur_out) can =
          let out : has_task pid q ≡ false = ground (arith, count, can) in
          enqueue_next
            (Queued-retime laws w pid _ (woken-small _ _ (w.small pid h) w.small_min) out) pid h out
            count valid cur_out (ground (arith, count, can))
