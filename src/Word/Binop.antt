-- ===== src/Word/Binop.antt =====
-- Arithmetic on words (vm/math.c: do_binop).
use brain_project.Prelude.{
  ℕ, ◌+◌, refl, Bool-cases, ltb→lt, ==_iff, ◌*◌, ◌/◌, ◌<◌, ◌≤◌, ◌≡◌, ◌-◌, sym, ℤ, ◌⊎◌, ◌^◌, arith,
  inl, inr, pos, minus_one, ltb, ◌==◌,
}
use brain_project.Word.{Word, word2int, Op, plus, minus, times, over, compute, do_binop}
use brain_project.Word.Decimal.{
  IsNumeric, value, word2int_cases, IsNumeric-of-word2int, word2int-IsNumeric_iff,
}

-- The number that an operation means, said without the machine's operators.
pub data Means (i j n : ℕ) : Op → Type 0 where
  sum : n ≡ i + j → Means i j n plus
  difference : n + j ≡ i → Means i j n minus
  product : n ≡ i * j → Means i j n times
  quotient : n * j ≤ i → i < n * j + j → Means i j n over

-- What makes do_binop refuse: a character that is no digit, a difference below 0, a division by 0.
pub data Refuses (a b : Word) : Op → Type 0 where
  left_word : {op : Op} → (¬ IsNumeric a) → Refuses a b op
  right_word : {op : Op} → (¬ IsNumeric b) → Refuses a b op
  below_zero : value a < value b → Refuses a b minus
  by_zero : value b ≡ 0 → Refuses a b over

-- A result of do_binop: both words are numerals, and the number is what the operation means.
pub record Succeeds (a b : Word) (op : Op) (n : ℕ) : Type 0 where
  pub left_numeric : IsNumeric a
  pub right_numeric : IsNumeric b
  pub means : Means (value a) (value b) n op
  pub no_overflow : n < 2 ^ 31

product_bound : (i j : ℕ) → i < 10000 → j < 10000 → i * j < 2 ^ 31
product_bound i j h k = grind arith

quotient_bounds : (i j : ℕ) → 0 < j → (i / j * j ≤ i) × (i < i / j * j + j)
quotient_bounds i j h = grind arith

quotient-le : (i j : ℕ) → i / j ≤ i
quotient-le i j = grind arith

-- What `compute` may do on two values: refuse, or give a number that an int holds.
data Outcome (i j : ℕ) (op : Op) (r : ℤ) : Type 0 where
  refused :
      r ≡ minus_one → ((a b : Word) → value a ≡ i → value b ≡ j → Refuses a b op) → Outcome i j op r
  result : (n : ℕ) → r ≡ pos n → Means i j n op → n < 2 ^ 31 → Outcome i j op r

compute-Outcome : (op : Op) (i j : ℕ) → i < 10000 → j < 10000 → Outcome i j op (compute op i j)
compute-Outcome plus i j h k = result (i + j) refl (sum refl) (omega arith)
compute-Outcome minus i j h k = elim (Bool-cases (ltb i j)) [
  | inl e ↦ refused (rw e) (λ a b p q. below_zero (rw (p, q) (ltb→lt i j e)))
  | inr e ↦ result (i - j) (rw e) (difference (ground arith)) (omega arith)
]
compute-Outcome times i j h k = result (i * j) refl (product refl) (product_bound i j h k)
compute-Outcome over i j h k = elim (Bool-cases (j == 0)) [
  | inl e ↦ refused (rw e) (λ a b p q. by_zero (rw q ((==_iff j 0).0 e)))
  | inr e ↦
      let (lo, hi) = quotient_bounds i j (ground arith) in
      result (i / j) (rw e) (quotient lo hi) (omega (arith, quotient-le i j))
]

-- Every run of do_binop either refuses, for one of the four reasons, and returns -1, or returns
-- what the operation means, a number that an int holds.
pub do_binop_cases :
    (a b : Word) (op : Op)
    → ((do_binop a b op ≡ minus_one) × Refuses a b op)
      ⊎ ((n : ℕ) × (do_binop a b op ≡ pos n) × Succeeds a b op n)
unfolding do_binop
do_binop_cases a b op = go (word2int_cases a) (word2int_cases b)
  where
    Cases : Type 0
    Cases =
        ((do_binop a b op ≡ minus_one) × Refuses a b op)
        ⊎ ((n : ℕ) × (do_binop a b op ≡ pos n) × Succeeds a b op n)

    numeric :
        (i j : ℕ)
        → word2int a ≡ pos i
        → word2int b ≡ pos j
        → IsNumeric a
        → IsNumeric b
        → i ≡ value a
        → j ≡ value b
        → Outcome i j op (compute op i j)
        → Cases
    numeric i j ea eb da db va vb (refused e why) = inl (rw (ea, eb) e, why a b (sym va) (sym vb))
    numeric i j ea eb da db va vb (result n e m l) = inr (
      n,
      rw (ea, eb) e,
      record { left_numeric = da; right_numeric = db; means = rw (va, vb) at m; no_overflow = l },
    )

    go :
        (word2int a ≡ minus_one) ⊎ ((n : ℕ) × (word2int a ≡ pos n) × (n < 10000))
        → (word2int b ≡ minus_one) ⊎ ((n : ℕ) × (word2int b ≡ pos n) × (n < 10000))
        → Cases
    go (inl e) _ = inl (rw e, left_word ((word2int-IsNumeric_iff a).1 e))
    go (inr (i, ea, _)) (inl e) = inl (rw (ea, e), right_word ((word2int-IsNumeric_iff b).1 e))
    go (inr (i, ea, hi)) (inr (j, eb, hj)) =
        let (da, va) = IsNumeric-of-word2int a i ea in
        let (db, vb) = IsNumeric-of-word2int b j eb in
        numeric i j ea eb da db va vb (compute-Outcome op i j hi hj)
