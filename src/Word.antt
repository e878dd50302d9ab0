-- ===== src/Word.antt =====
-- Words of four characters (vm/vm.c: word2int, int2word; vm/math.c: do_binop).
-- A character is its code. A `char` above 127 is no digit under either signedness.
pub mod Decimal
pub mod Compare
pub mod Binop
mod Tests
use brain_project.Prelude.{
  ℕ, suc, ◌+◌, ◌-◌, ◌*◌, ◌/◌, ◌%◌, Bool, true, false, ◌||◌, ◌&&◌, ltb, ◌==◌, if◌then◌else◌, ℤ, pos,
  negsuc, minus_one, is_neg,
}

-- `char[4]`.
pub record Word : Type 0 where
  pub b0 : ℕ
  pub b1 : ℕ
  pub b2 : ℕ
  pub b3 : ℕ

abbrev pub word : ℕ → ℕ → ℕ → ℕ → Word
word a b c d = record { b0 = a; b1 = b; b2 = c; b3 = d }

-- `memset(p, c, 4)`.
abbrev pub fill : ℕ → Word
fill c = word c c c c

-- p[j] < '0' || p[j] > '9'
pub not_digit : ℕ → Bool
not_digit c = ltb c b'0' || ltb b'9' c

-- One round of the loop of word2int: `none` of the value is the early `return -1`.
pub read_digit : ℤ → ℕ → ℤ
unfolding not_digit
read_digit (pos i) c = if not_digit c then minus_one else pos (i * 10 + c - b'0')
read_digit (negsuc n) c = negsuc n

unfoldable pub word2int : Word → ℤ
unfolding read_digit
word2int p = read_digit (read_digit (read_digit (read_digit (pos 0) p.b0) p.b1) p.b2) p.b3

-- (a % 10) + '0' and a / 10, which truncate towards 0.
pub last_digit : ℤ → ℕ
last_digit (pos n) = n % 10 + b'0'
last_digit (negsuc n) = b'0' - suc n % 10

pub div_ten : ℤ → ℤ
div_ten (pos n) = pos (n / 10)
div_ten (negsuc n) = if suc n / 10 == 0 then pos 0 else negsuc (suc n / 10 - 1)

-- The four rounds fill the word from its last character.
unfoldable pub int2word : ℤ → Word
unfolding last_digit div_ten
int2word a =
    let a1 = div_ten a in
    let a2 = div_ten a1 in
    let a3 = div_ten a2 in word (last_digit a3) (last_digit a2) (last_digit a1) (last_digit a)

-- The first differing character decides, as in `memcmp(a, b, 4)`, of which only the sign is used.
abbrev pub memcmp_eq : Word → Word → Bool
memcmp_eq a b = (a.b0 == b.b0) && (a.b1 == b.b1) && (a.b2 == b.b2) && (a.b3 == b.b3)

abbrev byte_lt : ℕ → ℕ → Bool → Bool
byte_lt a b rest = ltb a b || ((a == b) && rest)

abbrev pub memcmp_lt : Word → Word → Bool
memcmp_lt a b = byte_lt a.b0 b.b0 (byte_lt a.b1 b.b1 (byte_lt a.b2 b.b2 (byte_lt a.b3 b.b3 false)))

-- The operators of do_binop, by the character that selects them.
pub data Op : Type 0 where
  plus minus times over : Op

abbrev pub compute : Op → ℕ → ℕ → ℤ
compute plus i j = pos (i + j)
compute minus i j = if ltb i j then minus_one else pos (i - j)
compute times i j = pos (i * j)
compute over i j = if j == 0 then minus_one else pos (i / j)

abbrev binop_of : ℤ → ℤ → Op → ℤ
binop_of (pos i) (pos j) op = compute op i j
binop_of (pos i) (negsuc _) op = minus_one
binop_of (negsuc _) j op = minus_one

-- A word's value is never below -1, so the test for -1 is a test of the sign.
unfoldable pub do_binop : Word → Word → Op → ℤ
do_binop a b op = binop_of (word2int a) (word2int b) op
