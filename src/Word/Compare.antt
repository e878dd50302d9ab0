-- ===== src/Word/Compare.antt =====
-- memcmp on numerals is the order of their values (vm/cmp.c compares words by memcmp).
use brain_project.Prelude.{◌<◌, ◌≡◌, ◌↔◌, true, arith}
use brain_project.Word.{Word, memcmp_eq, memcmp_lt}
use brain_project.Word.Decimal.{IsNumeric, value}

-- On numerals the comparison of characters decides the order of the numbers.
pub memcmp_lt-value :
    (a b : Word) → IsNumeric a → IsNumeric b → (memcmp_lt a b ≡ true) ↔ (value a < value b)
unfolding value
memcmp_lt-value a b h k = ground arith

pub memcmp_eq-value :
    (a b : Word) → IsNumeric a → IsNumeric b → (memcmp_eq a b ≡ true) ↔ (value a ≡ value b)
unfolding value
memcmp_eq-value a b h k = ground arith

pub memcmp_eq_iff : (a b : Word) → (memcmp_eq a b ≡ true) ↔ (a ≡ b)
memcmp_eq_iff a b = ground arith
