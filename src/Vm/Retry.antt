-- ===== src/Vm/Retry.antt =====
-- The instruction counter of a process that is to run its instruction again (retry_op in vm/vm.c).
use brain_project.Prelude.{
  ℕ, zero, suc, ◌<◌, ◌≡◌, refl, arith, pos, minus_one, pred_ℤ, ap, ◌∙◌, some, set, set_self,
}
use brain_project.Word.{word2int, int2word}
use brain_project.Word.Decimal.{value, word2int-IsNumeric}
use brain_project.Proc.{Proc, ic_word, set_ic}
use brain_project.Vm.Machine.{Machine, retry_op, set_proc}

-- The process with its counter set back by one.
abbrev pub set_back : Proc → ℕ → Proc
set_back p n = set_ic p (int2word (pred_ℤ (pos n)))

module _ {S : Type 0} (i n : ℕ) (m : Machine S)
    (counter : word2int (ic_word (m.proc_table i)) ≡ pos n) where
  pub retry_op_run :
      retry_op i m
      ≡ some (pos 0, record m { proc_table = set m.proc_table i (set_back (m.proc_table i) n) })
  unfolding retry_op set_proc
  retry_op_run = rw counter refl

two_digits : (p : Proc) (k : ℕ) → k < 100 → word2int (ic_word (set_ic p (int2word (pos k)))) ≡ pos k
unfolding int2word value
two_digits p k h =
    let w = ic_word (set_ic p (int2word (pos k))) in
    word2int-IsNumeric w
      (record { d0 = omega arith; d1 = omega arith; d2 = omega arith; d3 = omega arith })
    ∙ ap pos (omega (arith, h))

no_digit : (p : Proc) → word2int (ic_word (set_ic p (int2word minus_one))) ≡ minus_one
unfolding int2word word2int
no_digit p = refl

pub counter-set_back :
    (p : Proc) (n : ℕ) → n < 100 → word2int (ic_word (set_back p n)) ≡ pred_ℤ (pos n)
counter-set_back p zero h = no_digit p
counter-set_back p (suc n) h = two_digits p n (omega arith)

-- retry_op sets a counter of one more than `n` back to `n`: the next instruction is then the one
-- that is running. It sets a counter of 0, which follows the instruction at 99, to one that is not
-- a number.
retry_op_lem :
    {S : Type 0} (i n : ℕ) (m : Machine S)
    → word2int (ic_word (m.proc_table i)) ≡ pos n
    → n < 100
    → (m' : Machine S) × (retry_op i m ≡ some (pos 0, m'))
      × (word2int (ic_word (m'.proc_table i)) ≡ pred_ℤ (pos n))
retry_op_lem i n m e h =
    (_, retry_op_run i n m e, rw set_self (counter-set_back (m.proc_table i) n h))
