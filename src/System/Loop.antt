-- ===== src/System/Loop.antt =====
-- The loop of the scheduler (sched_run of sched.c) over the whole machine.
use brain_project.Prelude.{
  ℕ, suc, ◌^◌, ◌<◌, ◌≤◌, ◌≡◌, refl, arith, Bool, true, false, ◌==◌, ℤ, pos, minus_one, is_zero,
  add_u32, some, List,
}
use brain_project.RbTree.{RbTree, RbTreeLaws, Node}
use brain_project.Os.{Os}
use brain_project.Vm.Machine.{Machine}
use brain_project.System.{is_ready, Places, Ready, Sys}
use brain_project.System.Calls.{
  Current, with_rq, current-out, Current-ready, ready-known, known-below,
}
use brain_project.System.Queues.{count}
use brain_project.Vm.Tick.{tick}
use brain_project.Sched.{Rq, rebalance}
use brain_project.Program.{on_queue}
use brain_project.Sched.Inv.{Counted, asleep, awake}
use brain_project.Sched.Retime.{retimed, Queued-retime}
use brain_project.System.Ticks.{Tame}
use brain_project.System.Life.{Ticked}

module _ {T : Type 0} where
  -- The machine with one more unit of time for the process that runs, and with one more operation.
  abbrev pub timed : Machine (Os T) → Machine (Os T)
  timed m =
      let s = m.sched.rq in
      with_rq m (retimed s s.current (add_u32 (s.task_table s.current).vruntime 1))

  abbrev pub counted : Machine (Os T) → Machine (Os T)
  counted m = with_rq m (record m.sched.rq { ops = add_u32 m.sched.rq.ops 1 })

module _ {T : Type 0} (tree : RbTree T) where
  -- The machines that sched_run comes by: behind ticks that return 0, and behind the ends of rounds.
  pub data Reaches (m : Machine (Os T)) : Machine (Os T) → Type 0 where
    here : Reaches m m
    ticked :
        {m1 m2 : Machine (Os T)}
        → Reaches m m1
        → (m1.sched.rq.nr_running == 0) ≡ false
        → tick tree m1.sched.rq.current (timed m1) ≡ some (pos 0, m2)
        → Reaches m (counted m2)
    turned :
        {m1 m2 : Machine (Os T)}
        → Reaches m m1
        → 2 ≤ m1.sched.rq.nr_running
        → on_queue (rebalance tree) m1 ≡ some (tt, m2)
        → Reaches m m2

  -- The process that runs next has not run for too long, and does not receive from any.
  abbrev pub SafeStep : Machine (Os T) → Type 0
  SafeStep m =
      (m.sched.rq.nr_running == 0) ≡ false
      → (suc (m.sched.rq.task_table m.sched.rq.current).vruntime < 2 ^ 31)
        × Tame tree (timed m) m.sched.rq.current

  -- Why sched_run ends: no process runs, or a tick fails.
  pub data Finish (m : Machine (Os T)) : ℤ → Machine (Os T) → Type 0 where
    all_done :
        {m' : Machine (Os T)} → Reaches m m' → m'.sched.rq.nr_running ≡ 0 → Finish m (pos 0) m'
    tick_failed :
        {m1 m' : Machine (Os T)} {r : ℤ}
        → Reaches m m1
        → (m1.sched.rq.nr_running == 0) ≡ false
        → tick tree m1.sched.rq.current (timed m1) ≡ some (r, m')
        → is_zero r ≡ false
        → Finish m minus_one m'

  -- The ends of `ticks` and run_round.
  data Ends (m : Machine (Os T)) : Bool → Machine (Os T) → Type 0 where
    goes_on : {m' : Machine (Os T)} → Reaches m m' → Ends m true m'
    stops : {m' : Machine (Os T)} → Finish m minus_one m' → Ends m false m'

module _ {T : Type 0} {tree : RbTree T} (laws : RbTreeLaws tree) where
  Counted-retime :
      {s : Rq T} {q : List Node} (k v : ℕ) → Counted laws s q → Counted laws (retimed s k v) q
  Counted-retime k v (asleep e f) = asleep e f
  Counted-retime k v (awake count valid out) = awake count valid out

  -- Another run queue with the same processes.
  requeued :
      {m : Machine (Os T)} {p : Places} {s : Rq T}
      → Sys laws m p
      → Ready laws s p
      → Sys laws (with_rq m s) p
  requeued v r = record {
    scheduled = r;
    waits = v.waits;
    nobody_any = v.nobody_any;
    few = v.few;
    pids = v.pids;
    later = v.later;
  }

  running :
      (m : Machine (Os T)) → (m.sched.rq.nr_running == 0) ≡ false → Current m m.sched.rq.current
  running m busy = record { same = refl; busy = busy }

  module _ {m : Machine (Os T)} {p : Places} (v : Sys laws m p) where
    pub timed-Sys :
        (m.sched.rq.nr_running == 0) ≡ false
        → suc (m.sched.rq.task_table m.sched.rq.current).vruntime < 2 ^ 31
        → Sys laws (timed m) p
    timed-Sys busy small =
        let s = m.sched.rq in
        let i = s.current in
        let time = add_u32 (s.task_table i).vruntime 1 in
        let r = v.scheduled in
        let below =
          known-below laws v i (ready-known laws v i (Current-ready laws v i (running m busy))) in
        requeued v (record {
          inv = record {
            queue = r.inv.queue;
            queued =
                Queued-retime laws r.inv.queued i time (ground (arith, small))
                  (current-out laws r i below refl busy);
            counted = Counted-retime i time r.inv.counted;
          };
          runs = r.runs;
        })

  -- The life of the processes, from the places `p` in the machine `m` on: each step is a tick of the
  -- process that runs, or the end of a round, which moves nobody.
  pub data Lives (m : Machine (Os T)) (p : Places) : Machine (Os T) → Places → Type 0 where
    born : Lives m p m p
    tick_step :
        {m1 m2 : Machine (Os T)} {p1 p2 : Places} (v1 : Sys laws (timed m1) p1)
        (ready_now : is_ready (p1 m1.sched.rq.current) ≡ true)
        → Lives m p m1 p1
        → Ticked laws m1.sched.rq.current v1 ready_now (pos 0) m2
        → Sys laws (counted m2) p2
        → Lives m p (counted m2) p2
    turn_step :
        {m1 m2 : Machine (Os T)} {p1 : Places}
        → Lives m p m1 p1
        → on_queue (rebalance tree) m1 ≡ some (tt, m2)
        → Sys laws m2 p1
        → Lives m p m2 p1

  -- The machine `m'` is behind such a life, and its queues agree with the places.
  abbrev pub Lived : Machine (Os T) → Places → Machine (Os T) → Type 0
  Lived m p m' = (p' : Places) × Sys laws m' p' × Lives m p m' p'
