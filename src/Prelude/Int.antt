-- ===== src/Prelude/Int.antt =====
-- C's `int` and `unsigned int`. An `int` is an integer over the native numbers, an `unsigned int` a
-- number below 2 ^ 32; the conversions between the two are written out.
use Prim.Native.Nat.{ℕ, zero, suc, ◌+◌, ◌-◌, ◌%◌, ◌^◌}
use mathlib.Core.Bool.{Bool, true, false}
use brain_project.Prelude.Tests.{ltb, leb, ◌==◌, if◌then◌else◌}

-- `negsuc n` is -(n + 1).
pub data ℤ : Type 0 where
  pos : ℕ → ℤ
  negsuc : ℕ → ℤ

abbrev pub uint_mod : ℕ
uint_mod = 2 ^ 32

-- The return values of the C functions.
abbrev pub minus_one : ℤ
minus_one = negsuc 0

-- a - b, as an integer.
abbrev pub sub_ℕ : ℕ → ℕ → ℤ
sub_ℕ a b = if leb b a then pos (a - b) else negsuc (b - a - 1)

-- `a + i` for a loop counter `i`.
abbrev pub add_ℕ : ℤ → ℕ → ℤ
add_ℕ (pos a) i = pos (a + i)
add_ℕ (negsuc a) i = sub_ℕ i (suc a)

-- `a - 1`.
abbrev pub pred_ℤ : ℤ → ℤ
pred_ℤ (pos zero) = negsuc 0
pred_ℤ (pos (suc n)) = pos n
pred_ℤ (negsuc n) = negsuc (suc n)

-- `a < 0`.
abbrev pub is_neg : ℤ → Bool
is_neg (pos _) = false
is_neg (negsuc _) = true

-- `a == 0`.
abbrev pub is_zero : ℤ → Bool
is_zero (pos zero) = true
is_zero (pos (suc _)) = false
is_zero (negsuc _) = false

-- `(unsigned int)a`, and `(int)n` on a machine with two's complement.
abbrev pub to_unsigned : ℤ → ℕ
to_unsigned (pos n) = n % uint_mod
to_unsigned (negsuc n) = uint_mod - 1 - n % uint_mod

abbrev pub to_signed : ℕ → ℤ
to_signed n = if ltb n (2 ^ 31) then pos n else negsuc (uint_mod - 1 - n)

-- Unsigned sums and differences wrap.
abbrev pub add_u32 : ℕ → ℕ → ℕ
add_u32 a b = (a + b) % uint_mod

abbrev pub sub_u32 : ℕ → ℕ → ℕ
sub_u32 a b = (a + uint_mod - b) % uint_mod

-- `a < b`, `a == b` and `0 < a`.
abbrev pub ltb_ℤ : ℤ → ℤ → Bool
ltb_ℤ (pos a) (pos b) = ltb a b
ltb_ℤ (pos a) (negsuc b) = false
ltb_ℤ (negsuc a) (pos b) = true
ltb_ℤ (negsuc a) (negsuc b) = ltb b a

abbrev pub eq_ℤ : ℤ → ℤ → Bool
eq_ℤ (pos a) (pos b) = a == b
eq_ℤ (pos a) (negsuc b) = false
eq_ℤ (negsuc a) (pos b) = false
eq_ℤ (negsuc a) (negsuc b) = a == b

abbrev pub is_pos : ℤ → Bool
is_pos (pos zero) = false
is_pos (pos (suc _)) = true
is_pos (negsuc _) = false
