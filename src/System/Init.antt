-- ===== src/System/Init.antt =====
-- The start of the whole machine (sched_init of sched.c, msg_init of vm/msg.c and sem_op_init of
-- vm/sem.c, as main of loader.c calls them).
use brain_project.Prelude.{
  ℕ, ◌^◌, ◌+◌, ◌≤◌, ◌<◌, ◌≡◌, refl, ap, arith, true, false, ltb, if◌then◌else◌, List, [], Bool,
}
use brain_project.Layout.{procs}
use brain_project.RbTree.{RbTree, RbTreeLaws}
use brain_project.Os.{Os}
use brain_project.Sched.{Rq}
use brain_project.Sched.Init.{Started}
use brain_project.Vm.Machine.{Machine}
use brain_project.System.{
  Queue, off, Places, Sys, semaphore, sending, receiving, is_ready, is_at, waiting,
}
use brain_project.System.Queues.{count}
use brain_project.System.Calls.{with_rq}

-- A machine before the start, as the program's static data are: nothing runs, there is no process,
-- and nothing waits behind the ends of the tables.
pub record Blank {T : Type 0} (m : Machine (Os T)) : Type 0 where
  pub stopped : m.sched.rq.nr_running ≡ 0
  pub small : m.sched.rq.min_vruntime < 2 ^ 31
  pub no_process : m.next_pid ≡ 0
  pub no_semaphore : (k : ℕ) → 99 < k → m.sem_wq k ≡ []
  pub no_receiver : (k : ℕ) → procs < k → m.recv_wq k ≡ []
  pub no_sender : (k : ℕ) → procs ≤ k → m.send_wq k ≡ []

abbrev pub nowhere : Places
nowhere k = off

module _ {T : Type 0} {tree : RbTree T} (laws : RbTreeLaws tree) where
  -- The machine with a run queue, behind msg_init and sem_op_init.
  abbrev pub cleared : Machine (Os T) → Rq T → Machine (Os T)
  cleared m s = record (with_rq m s) {
    recv_wq = λ k. if ltb k (procs + 1) then [] else m.recv_wq k;
    send_wq = λ k. if ltb k procs then [] else m.send_wq k;
    sem_table = λ i. if ltb i 100 then 1 else m.sem_table i;
    sem_wq = λ i. if ltb i 100 then [] else m.sem_wq i;
  }

  if_empty : (a : Bool) {l : List ℕ} → (a ≡ false → l ≡ []) → (if a then [] else l) ≡ []
  if_empty true h = refl
  if_empty false h = h refl

  cleared_empty :
      {m : Machine (Os T)} → Blank m → (s : Rq T) (q : Queue) → waiting (cleared m s) q ≡ []
  cleared_empty b s (semaphore k) = if_empty (ltb k 100) λ e. b.no_semaphore k (ground arith)
  cleared_empty b s (sending k) = if_empty (ltb k procs) λ e. b.no_sender k (ground arith)
  cleared_empty b s (receiving k) = if_empty (ltb k (procs + 1)) λ e. b.no_receiver k (ground arith)

  pub cleared-Sys :
      {m : Machine (Os T)} → Blank m → (s : Rq T) → Started laws s → Sys laws (cleared m s) nowhere
  unfolding is_ready is_at count
  cleared-Sys {m} b s v = record {
    scheduled = record { inv = v.inv; runs = v.nobody };
    waits = λ q k. ap (count k) (cleared_empty b s q);
    nobody_any = refl;
    few = rw (b.no_process) (omega arith);
    pids = λ k h. absurd (omega (arith, h, b.no_process));
    later = λ k h. refl;
  }
