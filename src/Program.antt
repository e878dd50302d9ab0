-- ===== src/Program.antt =====
-- The running program: the loop of the scheduler (sched_run of sched.c) over the machine, and main
-- (loader.c).
use brain_project.Prelude.{
  ℕ, zero, suc, Bool, true, false, not, ltb, ◌==◌, if◌then◌else◌, ℤ, pos, minus_one, is_zero,
  is_pos, to_unsigned, add_u32, List, [], ◌∷◌, Run, pure, fault, get, modify, ◌>>=◌, ◌>>◌,
  fill_first,
}
use brain_project.Word.{fill}
use brain_project.Layout.{mem_size}
use brain_project.Pager.{Mallocs, half}
use brain_project.Mem.{pagemem_init}
use brain_project.RbTree.{RbTree}
use brain_project.Sched.{Rq, set_vruntime, rebalance, sched_init}
use brain_project.Os.{Os, on_rq}
use brain_project.Loader.Start.{load_file, get_uint}
use brain_project.Vm.Machine.{Machine, on_memory, on_sched}
use brain_project.Vm.Msg.{msg_init}
use brain_project.Vm.Sem.{sem_op_init}
use brain_project.Vm.Io.{emit, set_stdin}
use brain_project.Vm.Tick.{tick}

module _ {T : Type 0} where
  unfoldable pub on_queue : {A : Type 0} → Run (Rq T) A → Run (Machine (Os T)) A
  unfolding on_sched on_rq
  on_queue f = on_sched (on_rq f)

  abbrev pub queue_of : Machine (Os T) → Rq T
  queue_of m = m.sched.rq

module _ {T : Type 0} (tree : RbTree T) where
  -- At most `n` ticks, as long as a process runs; false if one of them fails.
  unfoldable pub ticks : ℕ → Run (Machine (Os T)) Bool
  unfolding on_queue tick
  ticks zero = pure true
  ticks (suc n) = do
    m ← get
    let rest = ticks n
    if (queue_of m).nr_running == 0 then pure true else do
      let cur = (queue_of m).current
      on_queue (set_vruntime cur (add_u32 ((queue_of m).task_table cur).vruntime 1))
      res ← tick tree cur
      if is_zero res
          then (do on_queue (modify λ q. record q { ops = add_u32 q.ops 1 }); rest)
          else pure false

  -- A round: SCHED_GRANULARITY ticks, and a switch if another process has run less.
  unfoldable pub run_round : Run (Machine (Os T)) Bool
  unfolding ticks on_queue
  run_round = do
    ok ← ticks 20
    if not ok then pure false else do
      m ← get
      if ltb (queue_of m).nr_running 2 then pure true else do on_queue (rebalance tree); pure true

  -- The loop on a number of rounds: the machine's programs need not end.
  unfoldable pub sched_run : ℕ → Run (Machine (Os T)) ℤ
  unfolding run_round
  sched_run zero = fault
  sched_run (suc n) = do
    m ← get
    let rest = sched_run n
    if (queue_of m).nr_running == 0
        then pure (pos 0)
        else do ok ← run_round; if ok then rest else pure minus_one

  -- memset(mem, a, MEMBYTES)
  unfoldable pub set_mem : ℕ → Run (Machine (Os T)) (Unit {0})
  unfolding on_memory
  set_mem a = on_memory (
      modify
        λ s. record s { pager = record s.pager { mem = fill_first s.pager.mem mem_size (fill a) } })

  abbrev usage : List ℕ
  usage =
      b'U' ∷ b's' ∷ b'a' ∷ b'g' ∷ b'e' ∷ b':' ∷ b' ' ∷ b'b' ∷ b'r' ∷ b'a' ∷ b'i' ∷ b'n' ∷ b' '
      ∷ b'p' ∷ b'a' ∷ b'g' ∷ b'e' ∷ b'_' ∷ b's' ∷ b'i' ∷ b'z' ∷ b'e' ∷ 10 ∷ []

  -- main behind the page table.
  unfoldable pub boot : ℕ → Run (Machine (Os T)) ℤ
  unfolding set_mem on_queue msg_init sem_op_init load_file sched_run
  boot rounds = do
    set_mem b'0'
    started ← on_queue (sched_init tree)
    if not (is_zero started) then pure (pos 1) else do
      msg_init
      sem_op_init
      m ← get
      loaded ← load_file tree m.sched.stdin
      set_stdin tree loaded.1
      if not (is_zero loaded.0) then pure (pos 1) else do ran ← sched_run rounds; pure (pos 0)

  unfoldable pub main : ℕ → Mallocs → ℕ → List ℕ → Run (Machine (Os T)) ℤ
  unfolding on_memory get_uint boot
  main rounds mallocs argc arg =
      if not (argc == 2)
      then (do emit tree usage; pure (pos 1))
      else if not (is_pos (get_uint arg))
      then pure (pos 1)
      else do
        ready ← on_memory (pagemem_init (to_unsigned (get_uint arg)) half mallocs)
        if is_zero ready then boot rounds else pure (pos 1)
