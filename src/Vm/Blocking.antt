-- ===== src/Vm/Blocking.antt =====
-- Waiting and waking: semaphores (vm/sem.c) and messages (vm/msg.c).
use brain_project.Prelude.{
  ℕ, suc, ◌-◌, ◌<◌, ◌≡◌, ◌==◌, refl, arith, ℤ, pos, ◌∙◌, some, set, List, [], ◌∷◌, ◌++◌, true,
  false, bind_some, ◌>>=◌, ltb, add_u32, uint_mod,
}
use brain_project.Word.{word2int}
use brain_project.Proc.{ic_word}
use brain_project.Mem.{malloc}
use brain_project.Vm.Retry.{set_back, retry_op_run}
use brain_project.Vm.Machine.{
  Scheduler, on_memory, Machine, retry_op, insert_proc, insert_back, remove_first, on_sched,
  on_sched-some,
}
use brain_project.Vm.Sem.{
  sem_down, after_p, block, sem_p, sem_v, sem_up, wake_first, set_sem_wq, set_sem_table,
}

module _ {S : Type 0} (sem : ℕ) (m : Machine S) (known : sem < 100) where
  raised : Machine S
  raised = set_sem_table sem (add_u32 (m.sem_table sem) 1) m

  -- An up and a down after it both return 0, and give the semaphores their values back. The up is
  -- assumed not to wrap around.
  sem_p-sem_v :
      suc (m.sem_table sem) < uint_mod
      → (m' : Machine S) × (m'' : Machine S) × (sem_v sem m ≡ some (pos 0, m'))
        × (sem_p sem m' ≡ some (pos 0, m''))
        × ((k : ℕ) → m''.sem_table k ≡ m.sem_table k)
  unfolding sem_v sem_p set raised
  sem_p-sem_v fits = (
    raised,
    set_sem_table sem (raised.sem_table sem - 1) raised,
    rw in_range refl,
    rw (in_range, self, positive) refl,
    λ k. ground (arith, fits),
  )
    where
      in_range : ltb 99 sem ≡ false
      in_range = ground arith

      self : sem == sem ≡ true
      self = ground arith

      positive : add_u32 (m.sem_table sem) 1 == 0 ≡ false
      positive = ground (arith, fits)

module _ {S : Type 0} (sch : Scheduler S) (i sem w : ℕ) (l : List ℕ) (m : Machine S)
    (known : sem < 100) (waiting : m.sem_wq sem ≡ w ∷ l) {r : ℤ} {s : S}
    (resumed : sch.resume (m.proc_table w).pid m.sched ≡ some (r, s)) where
  -- An up with processes that wait returns 0, resumes the first and takes it off the queue; the
  -- others stay in their order. The scheduler's resume is assumed to return.
  sem_up_waiting :
      sem_up sch i (pos sem) m
      ≡ some (
        pos 0,
        record m {
          sem_table = set m.sem_table sem (add_u32 (m.sem_table sem) 1);
          sem_wq = set m.sem_wq sem l;
          sched = s;
        },
      )
  unfolding sem_up sem_v wake_first remove_first on_sched
  sem_up_waiting =
      rw (in_range, waiting)
        (bind_some (on_sched (sch.resume (m.proc_table w).pid)) _ up
            (on_sched-some up (sch.resume (m.proc_table w).pid) resumed)
          ∙ rw (waiting, remove_first, self) refl)
    where
      up : Machine S
      up = set_sem_table sem (add_u32 (m.sem_table sem) 1) m

      in_range : ltb 99 sem ≡ false
      in_range = ground arith

      self : w == w ≡ true
      self = ground arith

-- The machine after a call of malloc.
abbrev pub malloced : {S : Type 0} → Machine S → Machine S
malloced m = record m { memory = record m.memory { malloc_calls = suc m.memory.malloc_calls } }

insert_proc_queued :
    {S : Type 0} (put_queue : List ℕ → Machine S → Machine S) (queue : Machine S → List ℕ) (p : ℕ)
    (m : Machine S)
    → m.memory.mallocs m.memory.malloc_calls ≡ true
    → insert_proc put_queue queue p m
      ≡ some (pos 0, put_queue (queue (malloced m) ++ p ∷ []) (malloced m))
unfolding insert_proc on_memory malloc insert_back
insert_proc_queued put_queue queue p m has_memory = rw (◌>>=◌, has_memory) refl

module _ {S : Type 0} (sch : Scheduler S) (i sem n : ℕ) (m : Machine S) (known : sem < 100)
    (taken : m.sem_table sem ≡ 0) (counter : word2int (ic_word (m.proc_table i)) ≡ pos n) {r : ℤ}
    {s : S} (suspended : sch.suspend (m.proc_table i).pid m.sched ≡ some (r, s))
    (has_memory : m.memory.mallocs m.memory.malloc_calls ≡ true) where
  -- A down of a semaphore at 0 returns 0: the process is set back to its instruction, suspended, and
  -- queued behind those that wait. The counter is assumed to be a number, the scheduler's suspend to
  -- return, and malloc to succeed.
  sem_down_blocks :
      sem_down sch i (pos sem) m
      ≡ some (
        pos 0,
        record m {
          memory = record m.memory { malloc_calls = suc m.memory.malloc_calls };
          proc_table = set m.proc_table i (set_back (m.proc_table i) n);
          sem_wq = set m.sem_wq sem (m.sem_wq sem ++ i ∷ []);
          sched = s;
        },
      )
  unfolding sem_down sem_p after_p block insert_proc on_memory malloc insert_back
  sem_down_blocks =
      bind_some (sem_p sem) _ m is_taken
      ∙ bind_some (retry_op i) _ m (retry_op_run i n m counter)
      ∙ bind_some (on_sched (sch.suspend (m.proc_table i).pid)) _ back
          (on_sched-some back (sch.suspend (m.proc_table i).pid) suspended)
      ∙ bind_some (insert_proc (set_sem_wq sem) (λ x. x.sem_wq sem) i) _ (record back { sched = s })
          (insert_proc_queued (set_sem_wq sem) (λ x. x.sem_wq sem) i (record back { sched = s })
            has_memory)
    where
      back : Machine S
      back = record m { proc_table = set m.proc_table i (set_back (m.proc_table i) n) }

      in_range : ltb 99 sem ≡ false
      in_range = ground arith

      is_taken : sem_p sem m ≡ some (pos 1, m)
      is_taken = rw (in_range, taken) refl
