-- ===== src/Vm/Machine.antt =====
-- The machine that the instructions work on: memory, the process table (vm/vm.c), the semaphores
-- (sem.c, vm/sem.c), the wait queues (vm/sem.c, vm/msg.c) and the scheduler behind an interface.
-- A `struct proc *` is the index of its entry in proc_table.
use brain_project.Prelude.{
  ◌≡◌, refl, ℕ, suc, ◌-◌, if◌then◌else◌, ◌==◌, ltb, ℤ, pos, minus_one, is_neg, to_signed, sub_u32,
  Option, none, some, List, [], ◌∷◌, ◌++◌, Run, pure, get, modify, ◌>>=◌, ◌>>◌, set, pred_ℤ,
}
use brain_project.Word.{Word, fill, word2int, int2word}
use brain_project.Layout.{procs}
use brain_project.Proc.{Proc, ic_word, set_ic}
use brain_project.Mem.{
  Memory, malloc, memalloc, get_wordref, release_wordref, fetch_word, store_word,
}

-- What the instructions call of sched.c, over its state: the counter of operations, and the three
-- functions on a process id.
pub record Scheduler (S : Type 0) : Type 0 where
  pub ops : S → ℕ
  pub suspend : ℕ → Run S ℤ
  pub resume : ℕ → Run S ℤ
  pub reset : ℕ → Run S ℤ

pub record Machine (S : Type 0) : Type 0 where
  pub memory : Memory
  pub proc_table : ℕ → Proc
  pub next_pid : ℕ
  pub sem_table : ℕ → ℕ
  pub sem_wq : ℕ → List ℕ
  pub recv_wq : ℕ → List ℕ
  pub send_wq : ℕ → List ℕ
  pub sched : S

-- The wait queues of wait_queue.c as the lists of the processes in them, the head first.
unfoldable pub insert_back : ℕ → List ℕ → List ℕ
insert_back p l = l ++ p ∷ []

unfoldable pub remove_first : ℕ → List ℕ → List ℕ
remove_first p [] = []
remove_first p (q ∷ l) = if q == p then l else q ∷ remove_first p l

-- A fresh entry: memset with '0', and the fields that procalloc sets.
abbrev pub fresh_proc : ℕ → ℤ → ℕ → Proc
fresh_proc pid base_addr procsize = record {
  r = fill b'0';
  sp = fill b'0';
  br = int2word base_addr;
  lr = int2word (to_signed (sub_u32 procsize 1));
  ic0 = b'0';
  ic1 = b'0';
  c = b'F';
  stack_base = 0;
  pid = pid;
}

module _ {S : Type 0} where
  unfoldable pub on_memory : {A : Type 0} → Run Memory A → Run (Machine S) A
  on_memory f m = elim (f m.memory) [
    | none ↦ none
    | some (a, s) ↦ some (a, record m { memory = s })
  ]

  unfoldable pub on_sched : {A : Type 0} → Run S A → Run (Machine S) A
  on_sched f m = elim (f m.sched) [ none ↦ none | some (a, s) ↦ some (a, record m { sched = s }) ]

  abbrev pub this : ℕ → Run (Machine S) Proc
  this i m = some (m.proc_table i, m)

  unfoldable pub set_proc : ℕ → Proc → Run (Machine S) (Unit {0})
  set_proc i p m = some (tt, record m { proc_table = set m.proc_table i p })

  -- NULL makes an instruction return -1.
  unfoldable pub or_fail : {A : Type 0} → Option A → (A → Run (Machine S) ℤ) → Run (Machine S) ℤ
  or_fail none k = pure minus_one
  or_fail (some a) k = k a

  -- insert_proc, which returns 1 where malloc fails, on one of the queues.
  unfoldable pub insert_proc :
      (List ℕ → Machine S → Machine S) → (Machine S → List ℕ) → ℕ → Run (Machine S) ℤ
  unfolding on_memory insert_back
  insert_proc put_queue queue p = do
    malloc_ok ← on_memory malloc
    m ← get
    if malloc_ok
        then (do modify (put_queue (insert_back p (queue m))); pure (pos 0))
        else pure (pos 1)

  -- vm/vm.c: the process runs its current instruction again.
  unfoldable pub retry_op : ℕ → Run (Machine S) ℤ
  unfolding set_proc
  retry_op i = do
    p ← this i
    let ic = word2int (ic_word p)
    if is_neg ic
        then pure (pos 1)
        else do set_proc i (set_ic p (int2word (pred_ℤ ic))); pure (pos 0)

  unfoldable pub enter_proc : ℕ → ℤ → Run (Machine S) (Option ℕ)
  enter_proc procsize base_addr m = some (
    some m.next_pid,
    record m {
      proc_table = set m.proc_table m.next_pid (fresh_proc m.next_pid base_addr procsize);
      next_pid = suc m.next_pid;
    },
  )

  -- The new entry's index, or NULL.
  unfoldable pub procalloc : ℕ → Run (Machine S) (Option ℕ)
  unfolding on_memory enter_proc
  procalloc procsize = do
    m ← get
    if ltb (procs - 1) m.next_pid then pure none else do
      base_addr ← on_memory (memalloc (to_signed procsize))
      if is_neg base_addr then pure none else enter_proc procsize base_addr

module _ {S : Type 0} (sch : Scheduler S) where
  -- The references of mem.c, at the present count of operations.
  unfoldable pub wordref : ℕ → ℤ → Run (Machine S) (Option ℕ)
  unfolding on_memory
  wordref i addr = do m ← get; on_memory (get_wordref (sch.ops m.sched) (m.proc_table i) addr)

  unfoldable pub release : ℕ → ℤ → Run (Machine S) (Unit {0})
  unfolding on_memory
  release i addr = do m ← get; on_memory (release_wordref (m.proc_table i) addr)

  unfoldable pub load : ℕ → ℤ → Run (Machine S) (Option Word)
  unfolding on_memory
  load i addr = do m ← get; on_memory (fetch_word (sch.ops m.sched) (m.proc_table i) addr)

  unfoldable pub store : ℕ → ℤ → Word → Run (Machine S) (Option (Unit {0}))
  unfolding on_memory
  store i addr x = do m ← get; on_memory (store_word (sch.ops m.sched) (m.proc_table i) addr x)

-- A part that returns, run on its component of the machine.
module _ {S A : Type 0} (m : Machine S) {a : A} where
  pub on_memory-some :
      (f : Run Memory A) {s : Memory}
      → f m.memory ≡ some (a, s)
      → on_memory f m ≡ some (a, record m { memory = s })
  unfolding on_memory
  on_memory-some f e = rw (e, on_memory) refl

  pub on_sched-some :
      (f : Run S A) {s : S}
      → f m.sched ≡ some (a, s)
      → on_sched f m ≡ some (a, record m { sched = s })
  unfolding on_sched
  on_sched-some f e = rw (e, on_sched) refl
