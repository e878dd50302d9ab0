-- ===== src/Word/Decimal.antt =====
-- Words as decimal numerals (word2int and int2word of vm/vm.c).
use brain_project.Prelude.{
  ◌↔◌, ℕ, suc, ◌+◌, ◌-◌, ◌*◌, ◌/◌, ◌%◌, ◌<◌, ◌≤◌, ◌≡◌, ◌≢◌, refl, arith, ℤ, pos, negsuc, minus_one,
  ◌⊎◌, inl, inr, ◌∙◌, ap, Bool-cases,
}
use brain_project.Word.{Word, word, word2int, int2word, not_digit, read_digit}

-- A character `'0' .. '9'`.
abbrev pub IsDigit : ℕ → Type 0
IsDigit c = (48 ≤ c) × (c ≤ 57)

pub record IsNumeric (w : Word) : Type 0 where
  pub d0 : IsDigit w.b0
  pub d1 : IsDigit w.b1
  pub d2 : IsDigit w.b2
  pub d3 : IsDigit w.b3

-- The number that four digits stand for.
unfoldable pub value : Word → ℕ
value w = (w.b0 - 48) * 1000 + (w.b1 - 48) * 100 + (w.b2 - 48) * 10 + (w.b3 - 48)

pub read_digit-IsDigit : (i c : ℕ) → IsDigit c → read_digit (pos i) c ≡ pos (i * 10 + (c - 48))
unfolding read_digit
read_digit-IsDigit i c h = ground arith

pub word2int-IsNumeric : (w : Word) → IsNumeric w → word2int w ≡ pos (value w)
unfolding word2int value
word2int-IsNumeric w h =
    rw
      (
        read_digit-IsDigit 0 w.b0 h.d0,
        read_digit-IsDigit _ w.b1 h.d1,
        read_digit-IsDigit _ w.b2 h.d2,
        read_digit-IsDigit _ w.b3 h.d3,
      )
      (ap pos (omega arith))

-- A round that does not fail has read a digit.
pub read_digit-pos :
    (a : ℤ) (c n : ℕ)
    → read_digit a c ≡ pos n
    → (i : ℕ) × (a ≡ pos i) × IsDigit c × (n ≡ i * 10 + (c - 48))
unfolding read_digit
read_digit-pos (pos i) c n h = (i, refl, ground arith, ground arith)
read_digit-pos (negsuc i) c n h = ground arith

first-IsDigit : (c n : ℕ) → read_digit (pos 0) c ≡ pos n → IsDigit c × (n ≡ c - 48)
unfolding read_digit
first-IsDigit c n h = ground arith

-- A word that has a value is a numeral, and has its value.
pub IsNumeric-of-word2int : (w : Word) (n : ℕ) → word2int w ≡ pos n → IsNumeric w × (n ≡ value w)
unfolding word2int value
IsNumeric-of-word2int w n h =
    let a0 : ℤ = read_digit (pos 0) w.b0 in
    let a1 : ℤ = read_digit a0 w.b1 in
    let (i2, e2, h3, v3) = read_digit-pos (read_digit a1 w.b2) w.b3 n h in
    let (i1, e1, h2, v2) = read_digit-pos a1 w.b2 i2 e2 in
    let (i0, e0, h1, v1) = read_digit-pos a0 w.b1 i1 e1 in
    let (h0, v0) = first-IsDigit w.b0 i0 e0 in
    (record { d0 = h0; d1 = h1; d2 = h2; d3 = h3 }, omega arith)

pub value-lt : (w : Word) → IsNumeric w → value w < 10000
unfolding value
value-lt w h = omega arith

pub int2word-IsNumeric : (n : ℕ) → IsNumeric (int2word (pos n))
unfolding int2word
int2word-IsNumeric n = record {
  d0 = omega arith;
  d1 = omega arith;
  d2 = omega arith;
  d3 = omega arith;
}

pub value-int2word : (n : ℕ) → value (int2word (pos n)) ≡ n % 10000
unfolding int2word value
value-int2word n = omega arith

-- Writing a number that is not negative and reading it back keeps it modulo 10000, the number of
-- words: larger numbers lose their leading digits.
pub word2int-int2word : (n : ℕ) → word2int (int2word (pos n)) ≡ pos (n % 10000)
word2int-int2word n = word2int-IsNumeric _ (int2word-IsNumeric n) ∙ ap pos (value-int2word n)

int2word-value : (w : Word) → IsNumeric w → int2word (pos (value w)) ≡ w
unfolding int2word value
int2word-value w h = let (e0, e1, e2, e3) = digits in λ i. word (e0 i) (e1 i) (e2 i) (e3 i)
  where
    n : ℕ
    n = value w

    digits :
        (n / 10 / 10 / 10 % 10 + 48 ≡ w.b0)
        × (n / 10 / 10 % 10 + 48 ≡ w.b1)
        × (n / 10 % 10 + 48 ≡ w.b2)
        × (n % 10 + 48 ≡ w.b3)
    digits = omega arith

-- A word with a value is the numeral of that value, so reading and writing it back changes nothing.
pub int2word-word2int : (w : Word) (n : ℕ) → word2int w ≡ pos n → int2word (pos n) ≡ w
unfolding int2word
int2word-word2int w n h = let (d, v) = IsNumeric-of-word2int w n h in rw v (int2word-value w d)

-- What the rounds of word2int hold: -1 after a character that is no digit, a number before.
abbrev IsRead : ℤ → Type 0
IsRead a = (a ≡ minus_one) ⊎ ((n : ℕ) × (a ≡ pos n))

read_digit-IsRead : (a : ℤ) (c : ℕ) → IsRead a → IsRead (read_digit a c)
unfolding read_digit
read_digit-IsRead (pos i) c h = elim (Bool-cases (not_digit c)) [
  | inl e ↦ inl (rw e)
  | inr e ↦ inr (i * 10 + c - 48, rw e)
]
read_digit-IsRead (negsuc i) c h = h

word2int-IsRead : (w : Word) → IsRead (word2int w)
unfolding word2int
word2int-IsRead w = read_digit-IsRead _ w.b3 (
    read_digit-IsRead _ w.b2
      (read_digit-IsRead _ w.b1 (read_digit-IsRead (pos 0) w.b0 (inr (0, refl)))))

-- word2int returns -1 or a number below 10000, and nothing else.
pub word2int_cases :
    (w : Word) → (word2int w ≡ minus_one) ⊎ ((n : ℕ) × (word2int w ≡ pos n) × (n < 10000))
word2int_cases w = elim (word2int-IsRead w) [
  | inl e ↦ inl e
  | inr (n, e) ↦ let (d, v) = IsNumeric-of-word2int w n e in inr (n, e, rw v (value-lt w d))
]

-- The value is -1 exactly where some character is no digit.
pub word2int-IsNumeric_iff : (w : Word) → (¬ IsNumeric w) ↔ (word2int w ≡ minus_one)
word2int-IsNumeric_iff w = (
  λ h. elim (word2int_cases w) [
    | inl e ↦ e
    | inr (n, e, _) ↦ absurd (h (IsNumeric-of-word2int w n e).0)
  ],
  λ e d. cc (word2int-IsNumeric w d),
)

-- A number below 0 whose last four digits are not all 0 is written as characters below '0', so the
-- word has no value.
pub word2int-int2word_negsuc :
    (n : ℕ) → suc n % 10000 ≢ 0 → word2int (int2word (negsuc n)) ≡ minus_one
unfolding int2word
word2int-int2word_negsuc n h =
    (word2int-IsNumeric_iff _).0 λ d. h (ground (arith, d.d0, d.d1, d.d2, d.d3))

-- A split on a word: no numeral, or a numeral with its value.
pub word2int_split :
    (w : Word)
    → ((¬ IsNumeric w) × (word2int w ≡ minus_one)) ⊎ (IsNumeric w × (word2int w ≡ pos (value w)))
word2int_split w = elim (word2int_cases w) [
  | inl e ↦ inl ((word2int-IsNumeric_iff w).1 e, e)
  | inr (n, e, _) ↦ let (d, v) = IsNumeric-of-word2int w n e in inr (d, e ∙ ap pos v)
]

-- A value has at most four digits.
pub word2int-bounded : (w : Word) (n : ℕ) → word2int w ≡ pos n → n < 10000
word2int-bounded w n h = let (d, v) = IsNumeric-of-word2int w n h in rw v (value-lt w d)
