-- ===== src/System/Tests.antt =====
-- A machine with three processes, over the sample tree, and the theorems at it.
use brain_project.Prelude.{
  ◌≡◌, refl, arith, true, false, ◌==◌, set, if◌then◌else◌, pos, none, some, [], ◌∷◌, ap, After,
  Returns,
}
use brain_project.Word.{word}
use brain_project.Vm.Control.{halt, fork_proc}
use brain_project.System.Halt.{halt_lem}
use brain_project.System.Fork.{Forked, fork_proc_lem}
use brain_project.Pager.Sample.{resident}
use brain_project.Mem.Sample
use brain_project.RbTree.{RbTreeLaws, inorder}
use brain_project.RbTree.Sample.{Nodes, sample, sample-RbTreeLaws}
use brain_project.Sched.{Rq}
use brain_project.Sched.Leftmost.{length}
use brain_project.Sched.Order.{has_task}
use brain_project.Sched.Inv.{Queued, awake, Inv}
use brain_project.Os.{Os, cfs}
use brain_project.Vm.Machine.{Machine}
use brain_project.Vm.Msg.{send, recv}
use brain_project.System.{
  semaphore, sending, receiving, off, ready, at, is_ready, same_queue, is_at, Places, Waiting, Sys,
}
use brain_project.System.Queues.{count}
use brain_project.System.Calls.{Current}
use brain_project.System.Send.{Sent, send_lem}
use brain_project.System.Recv.{Receives, recv_lem}

abbrev empty_tree : Nodes
empty_tree = record { list = []; next = 2 }

abbrev pub laws : RbTreeLaws sample
laws = sample-RbTreeLaws

-- Process 1 runs.
abbrev queue : Rq Nodes
queue = record {
  t = empty_tree;
  min_vruntime = 0;
  current = 1;
  nr_running = 1;
  task_table = λ i. record { pid = i; vruntime = 0; n = none };
  ctx_switches = 0;
  ops = 0;
}

-- Process 2 waits for the semaphore 5, and process 0 for a message from process 1. The code is HA00
-- everywhere.
abbrev pub machine : Machine (Os Nodes)
machine = record {
  memory = record Sample.memory {
    pager = record (resident false) { page_mem = λ _. word b'H' b'A' b'0' b'0' };
  };
  proc_table = Sample.sample;
  next_pid = 3;
  sem_table = λ _. 0;
  sem_wq = λ s. if s == 5 then 2 ∷ [] else [];
  recv_wq = λ d. if d == 1 then 0 ∷ [] else [];
  send_wq = λ _. [];
  sched = record {
    rq = queue;
    stdin = record { rest = []; eof = false };
    printed = [];
    files = λ _ _. none;
    buffer = λ _. 0;
  };
}

abbrev pub places : Places
places k =
    if k == 1
    then ready
    else if k == 2
    then at (semaphore 5)
    else if k == 0
    then at (receiving 1)
    else off

queue-Queued : Queued laws queue []
unfolding inorder has_task
queue-Queued = record {
  built = laws.create-Built empty_tree refl;
  is_queue = ap inorder (laws.create-shape empty_tree refl);
  pids = λ i h. refl;
  small = λ i h. omega arith;
  small_min = omega arith;
  sorted = tt;
  distinct = tt;
  entries = tt;
  idle = λ i h e. refl;
}

queue-Inv : Inv laws queue
unfolding length has_task
queue-Inv = record { queue = []; queued = queue-Queued; counted = awake refl (omega arith) refl }

pub machine-Sys : Sys laws machine places
unfolding has_task is_ready is_at same_queue count queue-Inv
machine-Sys = record {
  scheduled = record { inv = queue-Inv; runs = λ k. ground arith };
  waits = by_queue;
  nobody_any = refl;
  few = omega arith;
  pids = λ k h. refl;
  later = λ k h. ground arith;
}
  where
    by_queue : Waiting machine places
    by_queue (semaphore s) k = ground arith
    by_queue (sending d) k = ground arith
    by_queue (receiving d) k = ground arith

one_runs : Current machine 1
one_runs = record { same = refl; busy = refl }

one_ready : is_ready (places 1) ≡ true
unfolding is_ready
one_ready = refl

send_lem_example : Returns (Sent laws 1 0 machine places) (send (cfs sample) 1 (pos 0) machine)
send_lem_example = send_lem laws 1 0 machine-Sys one_ready

recv_lem_example : Receives laws 1 2 machine places (recv (cfs sample) 1 (pos 2) machine)
recv_lem_example = recv_lem laws 1 2 machine-Sys one_ready

halt_lem_example :
    (m' : Machine (Os Nodes)) × (halt (cfs sample) 1 (pos 0) machine ≡ some (pos 0, m'))
    × Sys laws m' (set places 1 off)
halt_lem_example = halt_lem laws 1 machine-Sys one_runs (pos 0)

fork_proc_lem_example :
    After (Forked laws 1 machine places) (fork_proc (cfs sample) 1 (pos 0) machine)
fork_proc_lem_example = fork_proc_lem laws machine-Sys 1 (pos 0)
