-- ===== src/Sched/Tests.antt =====
-- Run queues over the sample tree, and the theorems at them.
use brain_project.Prelude.{
  ◌≡◌, ◌==◌, refl, arith, true, false, if◌then◌else◌, pos, none, some, [], ◌∷◌, ap,
}
use brain_project.RbTree.{RbTreeLaws, inorder}
use brain_project.RbTree.Sample.{Nodes, sample, sample-RbTreeLaws}
use brain_project.Sched.{Rq, key_comp, leftmost, sched_suspend, sched_resume, rebalance}
use brain_project.Sched.Key.{sign, key_comp-wraps}
use brain_project.Sched.Leftmost.{length, leftmost_lem}
use brain_project.Sched.Order.{has_task}
use brain_project.Sched.Inv.{Queued, Counted, awake, Inv, runnable}
use brain_project.Sched.Suspend.{Suspended, sched_suspend_lem}
use brain_project.Sched.Resume.{Resumed, sched_resume_lem}
use brain_project.Sched.Round.{Balanced, rebalance_lem}

abbrev empty_tree : Nodes
empty_tree = record { list = []; next = 2 }

-- One node, 2, of the task 4.
abbrev one_node : Nodes
one_node = (sample.insert (λ _ _. pos 0) 4 empty_tree).1

-- Process 1 runs, and 4 waits. They have run for 9 and 7.
abbrev two_running : Rq Nodes
two_running = record {
  t = one_node;
  min_vruntime = 5;
  current = 1;
  nr_running = 2;
  task_table = λ i. record {
    pid = i;
    vruntime = if i == 4 then 7 else 9;
    n = if i == 4 then some 2 else none;
  };
  ctx_switches = 0;
  ops = 0;
}

abbrev laws : RbTreeLaws sample
laws = sample-RbTreeLaws

empty_inorder : inorder (laws.shape empty_tree) ≡ []
unfolding inorder
empty_inorder = ap inorder (laws.create-shape empty_tree refl)

one_built : laws.Built one_node
one_built = laws.insert-Built empty_tree (λ _ _. pos 0) 4 (laws.create-Built empty_tree refl)

one_inorder : inorder (laws.shape one_node) ≡ (2, 4) ∷ []
one_inorder =
    laws.insert-inorder empty_tree (λ _ _. pos 0) 4 [] [] (laws.create-Built empty_tree refl)
      empty_inorder tt tt

two_Queued : Queued laws two_running ((2, 4) ∷ [])
unfolding has_task
two_Queued = record {
  built = one_built;
  is_queue = one_inorder;
  pids = λ i h. refl;
  small = λ i h. ground arith;
  small_min = omega arith;
  sorted = (tt, tt);
  distinct = (refl, tt);
  entries = ((omega arith, refl), tt);
  idle = λ i h e. ground arith;
}

two_Counted : Counted laws two_running ((2, 4) ∷ [])
unfolding has_task length
two_Counted = awake refl (omega arith) refl

abbrev two_Inv : Inv laws two_running
two_Inv = record { queue = (2, 4) ∷ []; queued = two_Queued; counted = two_Counted }

can_suspend : runnable two_running two_Inv.queue 4 ≡ true
unfolding has_task
can_suspend = refl

cannot_run : runnable two_running two_Inv.queue 6 ≡ false
unfolding has_task
cannot_run = refl

-- 2 ^ 32 + 3 is later than 2 ^ 32 - 1, though stored as a smaller number.
abbrev wrapped : Rq Nodes
wrapped = record two_running {
  min_vruntime = 4294967295;
  task_table = λ i. record { pid = i; vruntime = if i == 4 then 3 else 4294967295; n = none };
}

key_comp-wraps_example : key_comp wrapped 4 1 ≡ sign 4294967299 4294967295
key_comp-wraps_example =
    key_comp-wraps wrapped 4 1 4294967299 4294967295 4294967295 refl refl refl
      (omega arith, omega arith) (omega arith, omega arith)

leftmost_lem_example : (leftmost sample one_node ≡ some 2) × (sample.info one_node 2 ≡ some 4)
unfolding length
leftmost_lem_example = leftmost_lem sample laws one_node one_built 2 4 [] one_inorder (omega arith)

sched_suspend_lem_example :
    (s' : Rq Nodes) × (sched_suspend sample 4 two_running ≡ some (pos 0, s'))
    × Suspended laws two_running ((2, 4) ∷ []) 4 s'
sched_suspend_lem_example = sched_suspend_lem laws two_Inv 4 (omega arith) can_suspend

sched_resume_lem_example :
    (s' : Rq Nodes) × (sched_resume sample 6 two_running ≡ some (pos 0, s'))
    × Resumed laws two_running ((2, 4) ∷ []) 6 s'
sched_resume_lem_example = sched_resume_lem laws two_Inv 6 (omega arith) cannot_run

rebalance_lem_example :
    (s' : Rq Nodes) × (rebalance sample two_running ≡ some (tt, s'))
    × Balanced laws two_running ((2, 4) ∷ []) s'
rebalance_lem_example = rebalance_lem laws two_Inv (omega arith)
