-- ===== src/Word/Tests.antt =====
-- The functions of vm/vm.c and vm/math.c at words of the programs, and the theorems at them.
use brain_project.Prelude.{ℕ, ◌≡◌, refl, pos, negsuc, minus_one, arith, ◌⊎◌, ◌<◌}
use brain_project.Word.{Word, word, word2int, int2word, minus, over, do_binop}
use brain_project.Word.Decimal.{IsNumeric, word2int_cases, word2int-int2word_negsuc}
use brain_project.Word.Binop.{Refuses, Succeeds, do_binop_cases}

-- "0042"
abbrev forty_two : Word
forty_two = word b'0' b'0' b'4' b'2'

-- "LR02"
abbrev load_two : Word
load_two = word b'L' b'R' b'0' b'2'

-- "0100"
abbrev hundred : Word
hundred = word b'0' b'1' b'0' b'0'

IsNumeric-forty_two : IsNumeric forty_two
IsNumeric-forty_two = omega arith

IsNumeric-hundred : IsNumeric hundred
IsNumeric-hundred = omega arith

reads_42 : word2int forty_two ≡ pos 42
unfolding word2int
reads_42 = refl

refuses_code : word2int load_two ≡ minus_one
unfolding word2int
refuses_code = refl

writes_wrapped : int2word (pos 10042) ≡ forty_two
unfolding int2word
writes_wrapped = refl

-- The counter of a process that retries at address 0.
writes_negative : int2word (negsuc 0) ≡ word b'0' b'0' b'0' b'/'
unfolding int2word
writes_negative = refl

subtracts : do_binop hundred forty_two minus ≡ pos 58
unfolding do_binop word2int
subtracts = refl

divides_by_zero : do_binop hundred (word b'0' b'0' b'0' b'0') over ≡ minus_one
unfolding do_binop word2int
divides_by_zero = refl

word2int_cases_example :
    (word2int load_two ≡ minus_one) ⊎ ((n : ℕ) × (word2int load_two ≡ pos n) × (n < 10000))
word2int_cases_example = word2int_cases load_two

word2int-int2word_negsuc_example : word2int (int2word (negsuc 0)) ≡ minus_one
word2int-int2word_negsuc_example = word2int-int2word_negsuc 0 (omega arith)

do_binop_cases_example :
    ((do_binop hundred forty_two minus ≡ minus_one) × Refuses hundred forty_two minus)
    ⊎ ((n : ℕ) × (do_binop hundred forty_two minus ≡ pos n) × Succeeds hundred forty_two minus n)
do_binop_cases_example = do_binop_cases hundred forty_two minus
