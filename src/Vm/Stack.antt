-- ===== src/Vm/Stack.antt =====
-- The stack instructions (vm/stack.c and vm/stackmath.c). stack_base is unsigned, so the stack pointer
-- is compared with it as an unsigned number.
use brain_project.Prelude.{
  ℕ, ltb, leb, if◌then◌else◌, ℤ, pos, minus_one, is_neg, add_ℕ, pred_ℤ, to_unsigned, add_u32, Run,
  pure, ◌>>=◌, ◌>>◌,
}
use brain_project.Word.{Word, word2int, int2word, Op, do_binop}
use brain_project.Mem.{read_ref}
use brain_project.Vm.Machine.{
  Scheduler, Machine, on_memory, this, set_proc, or_fail, wordref, release, load, store,
}

module _ {S : Type 0} where
  unfoldable pub set_sp : ℕ → ℤ → Run (Machine S) ℤ
  unfolding set_proc
  set_sp i addr = do
    p ← this i
    set_proc i (record p { stack_base = to_unsigned (word2int p.r); sp = p.r })
    pure (pos 0)

  unfoldable pub get_sp : ℕ → ℤ → Run (Machine S) ℤ
  unfolding set_proc
  get_sp i addr = do p ← this i; set_proc i (record p { r = p.sp }); pure (pos 0)

module _ {S : Type 0} (sch : Scheduler S) where
  -- word2int returns -1 or a number, so the test for -1 is a test of the sign.
  unfoldable pub push : ℕ → ℤ → Run (Machine S) ℤ
  unfolding set_proc store or_fail
  push i _ = do
    p ← this i
    let addr = word2int p.sp
    if is_neg addr then pure minus_one else do
      set_proc i (record p { sp = int2word (add_ℕ addr 1) })
      stored ← store sch i (add_ℕ addr 1) p.r
      or_fail stored λ _. pure (pos 0)

  unfoldable pub pop : ℕ → ℤ → Run (Machine S) ℤ
  unfolding set_proc load or_fail
  pop i _ = do
    p ← this i
    let addr = word2int p.sp
    if leb (to_unsigned addr) p.stack_base then pure (pos 0) else do
      found ← load sch i addr
      or_fail found
          λ x. do set_proc i (record p { r = x; sp = int2word (pred_ℤ addr) }); pure (pos 0)

  -- The end of stack_op: the result goes to the new top of the stack.
  unfoldable pub put_result : ℕ → ℤ → ℤ → Run (Machine S) ℤ
  unfolding set_proc store or_fail
  put_result i addr res = do
    p ← this i
    set_proc i (record p { sp = int2word (pred_ℤ addr) })
    stored ← store sch i (pred_ℤ addr) (int2word res)
    or_fail stored λ _. pure (pos 0)

  -- The operands, with both references given up; a reference taken before the other is NULL is kept.
  unfoldable pub operands : ℕ → ℤ → (Word → Word → Run (Machine S) ℤ) → Run (Machine S) ℤ
  unfolding wordref release on_memory or_fail
  operands i addr body = do
    ref1 ← wordref sch i addr
    ref2 ← wordref sch i (pred_ℤ addr)
    or_fail ref1 λ a. or_fail ref2 λ b. do
      word1 ← on_memory (read_ref a)
      word2 ← on_memory (read_ref b)
      release sch i addr
      release sch i (pred_ℤ addr)
      body word2 word1

  unfoldable pub stack_op : Op → ℕ → ℤ → Run (Machine S) ℤ
  unfolding operands put_result
  stack_op op i _ = do
    p ← this i
    let addr = word2int p.sp
    if ltb (to_unsigned addr) (add_u32 p.stack_base 1)
        then pure minus_one
        else operands i addr λ word2 word1.
          let res = do_binop word2 word1 op in
          if is_neg res then pure minus_one else put_result i addr res
