-- ===== src/System/Parts.antt =====
-- The parts that the waiting instructions share: retry_op (vm/vm.c) and insert_proc (wait_queue.c).
use brain_project.Prelude.{
  Bool, ℕ, zero, suc, negsuc, is_zero, ℤ, ◌<◌, ap, sym, ◌∙◌, arith, true, false, set, set_self, ◌≡◌,
  refl, if◌then◌else◌, pos, is_neg, pred_ℤ, some, List, Bool-cases, inl, inr, Returns,
}
use brain_project.Word.{word2int}
use brain_project.Word.Decimal.{IsNumeric-of-word2int, value, word2int_cases}
use brain_project.Proc.{Proc, ic_word}
use brain_project.Mem.{Memory, malloc}
use brain_project.Os.{Os}
use brain_project.Vm.Machine.{Machine, on_memory, retry_op, insert_proc, insert_back}
use brain_project.Vm.Retry
use brain_project.Vm.Quiet.{Kept, with_proc}

-- The machine with one more malloc made.
abbrev pub allocated : {S : Type 0} → Machine S → Machine S
allocated m = record m { memory = record m.memory { malloc_calls = suc m.memory.malloc_calls } }

module _ {S : Type 0} (put : List ℕ → Machine S → Machine S) (queue : Machine S → List ℕ) (i : ℕ)
    (m : Machine S) where
  -- insert_proc, as malloc has it.
  pub insert_proc-run : insert_proc put queue i m ≡ (
      if m.memory.mallocs m.memory.malloc_calls
      then some (pos 0, put (insert_back i (queue (allocated m))) (allocated m))
      else some (pos 1, allocated m))
  unfolding insert_proc on_memory malloc
  insert_proc-run = elim (Bool-cases (m.memory.mallocs m.memory.malloc_calls)) [
    | inl e ↦ rw (insert_proc, e) refl
    | inr e ↦ rw (insert_proc, e) refl
  ]

-- The answer of malloc in a memory.
abbrev pub answer : Memory → Bool
answer s = s.mallocs s.malloc_calls

-- The instruction counter of a process, or -1.
abbrev pub counter : {S : Type 0} → Machine S → ℕ → ℤ
counter m i = word2int (ic_word (m.proc_table i))

counter-below : (p : Proc) (n : ℕ) → word2int (ic_word p) ≡ pos n → n < 100
unfolding value
counter-below p n e =
    let (d, v) = IsNumeric-of-word2int (ic_word p) n e in omega (arith, d.d2, d.d3, v)

-- What retry_op does: the counter is one less, which is no counter if it was 0; or there is no
-- counter.
pub data Retried {S : Type 0} (i : ℕ) (m : Machine S) : ℤ → Machine S → Type 0 where
  set_back :
      {m' : Machine S}
      → is_neg (counter m i) ≡ false
      → counter m' i ≡ pred_ℤ (counter m i)
      → m'.memory ≡ m.memory
      → Retried i m (pos 0) m'
  no_counter : is_neg (counter m i) ≡ true → Retried i m (pos 1) m

-- retry_op always returns.
pub retry_op-Returns :
    {T : Type 0} {m0 : Machine (Os T)} (i : ℕ) (m : Machine (Os T))
    → Kept m0 m
    → Returns (λ r m'. Kept m0 m' × Retried i m r m') (retry_op i m)
unfolding retry_op
retry_op-Returns i m k = elim (word2int_cases (ic_word (m.proc_table i))) [
  | inl e ↦ (pos 1, m, rw (e) refl, (k, no_counter (rw e refl)))
  | inr (n, e, _) ↦
      let p = m.proc_table i in
      (
        pos 0,
        record m { proc_table = set m.proc_table i (Retry.set_back p n) },
        Retry.retry_op_run i n m e,
        (
          with_proc i (Retry.set_back p n) m (k.same_pids i) k,
          set_back (rw e refl)
              (ap (λ (x : Proc). word2int (ic_word x))
                  (set_self m.proc_table i (Retry.set_back p n))
                ∙ Retry.counter-set_back p n (counter-below p n e)
                ∙ ap pred_ℤ (sym e))
              refl,
        ),
      )
]

pub is_zero-≡ : (r : ℤ) → is_zero r ≡ true → r ≡ pos 0
is_zero-≡ (pos zero) e = refl
is_zero-≡ (pos (suc n)) e = cc
is_zero-≡ (negsuc n) e = cc
