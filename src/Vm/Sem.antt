-- ===== src/Vm/Sem.antt =====
-- Semaphores: sem.c and vm/sem.c.
use brain_project.Prelude.{
  ℕ, zero, suc, ◌-◌, ◌==◌, ltb, if◌then◌else◌, ℤ, pos, negsuc, minus_one, is_zero, add_u32, List,
  [], ◌∷◌, Run, pure, get, modify, ◌>>=◌, ◌>>◌, set,
}
use brain_project.Word.{word2int}
use brain_project.Vm.Machine.{
  Scheduler, Machine, on_sched, this, insert_proc, retry_op, remove_first,
}

module _ {S : Type 0} where
  abbrev pub set_sem_table : ℕ → ℕ → Machine S → Machine S
  set_sem_table sem val m = record m { sem_table = set m.sem_table sem val }

  abbrev pub set_sem_wq : ℕ → List ℕ → Machine S → Machine S
  set_sem_wq sem l m = record m { sem_wq = set m.sem_wq sem l }

  -- sem_op_init and sem_init, which set the 100 entries of each table.
  unfoldable pub sem_op_init : Run (Machine S) (Unit {0})
  sem_op_init = modify λ m. record m {
    sem_table = λ i. if ltb i 100 then 1 else m.sem_table i;
    sem_wq = λ i. if ltb i 100 then [] else m.sem_wq i;
  }

  unfoldable pub sem_set : ℕ → ℕ → Run (Machine S) ℤ
  sem_set sem val =
      if ltb 99 sem then pure (pos 1) else do modify (set_sem_table sem val); pure (pos 0)

  -- 0: down, -1: no such semaphore, 1: block
  unfoldable pub sem_p : ℕ → Run (Machine S) ℤ
  sem_p sem = do
    m ← get
    if ltb 99 sem
        then pure minus_one
        else if m.sem_table sem == 0
        then pure (pos 1)
        else do modify (set_sem_table sem (m.sem_table sem - 1)); pure (pos 0)

  unfoldable pub sem_v : ℕ → Run (Machine S) ℤ
  sem_v sem = do
    m ← get
    if ltb 99 sem
        then pure (pos 1)
        else do modify (set_sem_table sem (add_u32 (m.sem_table sem) 1)); pure (pos 0)

  unfoldable pub set_sem_to : ℤ → ℤ → Run (Machine S) ℤ
  unfolding sem_set
  set_sem_to (negsuc _) sem = pure (pos 1)
  set_sem_to (pos val) (negsuc _) = pure (pos 1)
  set_sem_to (pos val) (pos sem) = do
    res ← sem_set sem val
    if is_zero res then pure (pos 0) else pure (pos 1)

  unfoldable pub set_sem : ℕ → ℤ → Run (Machine S) ℤ
  unfolding set_sem_to
  set_sem i sem = do p ← this i; set_sem_to (word2int p.r) sem

module _ {S : Type 0} (sch : Scheduler S) where
  -- The process is set back to its instruction, suspended, and queued.
  unfoldable pub block : ℕ → ℕ → Run (Machine S) ℤ
  unfolding on_sched insert_proc retry_op
  block i sem = do
    p ← this i
    retried ← retry_op i
    if is_zero retried
        then (do
          suspended ← on_sched (sch.suspend p.pid)
          queued ← insert_proc (set_sem_wq sem) (λ m. m.sem_wq sem) i
          if is_zero queued then pure (pos 0) else pure (pos 1))
        else pure (pos 1)

  -- The cases of the result of sem_p.
  unfoldable pub after_p : ℕ → ℕ → ℤ → Run (Machine S) ℤ
  unfolding block
  after_p i sem (negsuc _) = pure (pos 1)
  after_p i sem (pos zero) = pure (pos 0)
  after_p i sem (pos (suc _)) = block i sem

  unfoldable pub sem_down : ℕ → ℤ → Run (Machine S) ℤ
  unfolding sem_p after_p
  sem_down i (negsuc _) = pure (pos 1)
  sem_down i (pos sem) = do res ← sem_p sem; after_p i sem res

  -- The first waiting process, if any, is resumed and leaves the queue. remove_proc returns 0.
  unfoldable pub wake_first : ℕ → List ℕ → Run (Machine S) ℤ
  unfolding on_sched remove_first
  wake_first sem [] = pure (pos 0)
  wake_first sem (w ∷ _) = do
    waiter ← this w
    resumed ← on_sched (sch.resume waiter.pid)
    m ← get
    modify (set_sem_wq sem (remove_first w (m.sem_wq sem)))
    pure (pos 0)

  unfoldable pub sem_up : ℕ → ℤ → Run (Machine S) ℤ
  unfolding sem_v wake_first
  sem_up i (negsuc _) = pure (pos 1)
  sem_up i (pos sem) = do
    raised ← sem_v sem
    m ← get
    if is_zero raised then wake_first sem (m.sem_wq sem) else pure (pos 1)
