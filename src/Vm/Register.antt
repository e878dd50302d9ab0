-- ===== src/Vm/Register.antt =====
-- Instructions on the register and one word: vm/load.c, vm/store.c, vm/cmp.c, vm/math.c, vm/shm.c and
-- vm/pid.c. What is copied out of a word is copied before its reference is given up; the register is
-- written after that, which nothing in between can see.
use brain_project.Prelude.{
  ℕ, Bool, if◌then◌else◌, ℤ, pos, minus_one, is_neg, none, some, Run, pure, get, ◌>>=◌, ◌>>◌,
}
use brain_project.Word.{Word, word, int2word, memcmp_eq, memcmp_lt, Op, do_binop}
use brain_project.Proc.{Proc}
use brain_project.Mem.{read_ref, load_shm, store_shm}
use brain_project.Vm.Machine.{
  Scheduler, Machine, on_memory, this, set_proc, or_fail, wordref, release, load, store,
}

module _ {S : Type 0} (sch : Scheduler S) where
  -- An instruction that reads a word and changes its own registers.
  unfoldable pub from_word : (Proc → Word → Proc) → ℕ → ℤ → Run (Machine S) ℤ
  unfolding load or_fail set_proc
  from_word change i addr = do
    found ← load sch i addr
    or_fail found λ x. do p ← this i; set_proc i (change p x); pure (pos 0)

  abbrev pub take_all : Proc → Word → Proc
  take_all p x = record p { r = x }

  abbrev pub take_low : Proc → Word → Proc
  take_low p x = record p { r = word p.r.b0 p.r.b1 x.b2 x.b3 }

  abbrev pub take_high : Proc → Word → Proc
  take_high p x = record p { r = word x.b0 x.b1 p.r.b2 p.r.b3 }

  abbrev pub flag : Bool → Proc → Proc
  flag b p = record p { c = if b then b'T' else b'F' }

  unfoldable pub load_all : ℕ → ℤ → Run (Machine S) ℤ
  unfolding from_word
  load_all = from_word take_all

  unfoldable pub load_low : ℕ → ℤ → Run (Machine S) ℤ
  unfolding from_word
  load_low = from_word take_low

  unfoldable pub load_high : ℕ → ℤ → Run (Machine S) ℤ
  unfolding from_word
  load_high = from_word take_high

  unfoldable pub cmp_eql : ℕ → ℤ → Run (Machine S) ℤ
  unfolding from_word
  cmp_eql = from_word λ p x. flag (memcmp_eq p.r x) p

  unfoldable pub cmp_less : ℕ → ℤ → Run (Machine S) ℤ
  unfolding from_word
  cmp_less = from_word λ p x. flag (memcmp_lt p.r x) p

  unfoldable pub store_register : ℕ → ℤ → Run (Machine S) ℤ
  unfolding store or_fail
  store_register i addr = do
    p ← this i
    stored ← store sch i addr p.r
    or_fail stored λ _. pure (pos 0)

  -- do_register_op: where do_binop fails the reference is kept.
  unfoldable pub register_op : Op → ℕ → ℤ → Run (Machine S) ℤ
  unfolding wordref release on_memory or_fail set_proc
  register_op op i addr = do
    ref ← wordref sch i addr
    or_fail ref λ a. do
      p ← this i
      x ← on_memory (read_ref a)
      let res = do_binop p.r x op
      if is_neg res
          then pure minus_one
          else do release sch i addr; set_proc i (record p { r = int2word res }); pure (pos 0)

module _ {S : Type 0} where
  unfoldable pub load_shared : ℕ → ℤ → Run (Machine S) ℤ
  unfolding set_proc
  load_shared i addr = do
    m ← get
    p ← this i
    elim (load_shm addr m.memory) [
      | none ↦ pure (pos 1)
      | some x ↦ (do set_proc i (record p { r = x }); pure (pos 0))
    ]

  unfoldable pub store_shared : ℕ → ℤ → Run (Machine S) ℤ
  unfolding on_memory
  store_shared i addr = do p ← this i; on_memory (store_shm p.r addr)

  unfoldable pub identify : ℕ → ℤ → Run (Machine S) ℤ
  unfolding set_proc
  identify i addr = do p ← this i; set_proc i (record p { r = int2word (pos p.pid) }); pure (pos 0)
