-- ===== src/Stdio.antt =====
-- What the program uses of C's standard input and output: streams of characters, fgetc, the formats
-- %s and %u of scanf, and comparisons of strings. A character is its code, and a string the
-- characters in front of its NUL.
pub mod Fields
use brain_project.Prelude.{
  ℕ, zero, suc, ◌+◌, ◌-◌, ◌*◌, Bool, true, false, ◌&&◌, ◌||◌, ltb, ◌==◌, if◌then◌else◌, Option,
  none, some, List, [], ◌∷◌, sub_u32, set,
}
use brain_project.Word.{Word, word, not_digit}

-- The characters that are left, and the end-of-file indicator.
pub record Stream : Type 0 where
  pub rest : List ℕ
  pub eof : Bool

-- isspace
abbrev pub is_space : ℕ → Bool
is_space c = (c == 32) || (ltb 8 c && ltb c 14)

unfoldable pub skip_space : List ℕ → List ℕ
skip_space [] = []
skip_space (c ∷ l) = let rest = skip_space l in if is_space c then rest else c ∷ l

-- At most `n` characters up to a space, and what is left.
unfoldable pub take_field : ℕ → List ℕ → List ℕ × List ℕ
take_field zero l = ([], l)
take_field (suc n) [] = ([], [])
take_field (suc n) (c ∷ l) =
    let rest = take_field n l in if is_space c then ([], c ∷ l) else (c ∷ rest.0, rest.1)

unfoldable pub length : List ℕ → ℕ
length [] = 0
length (c ∷ l) = suc (length l)

abbrev pub is_empty : List ℕ → Bool
is_empty [] = true
is_empty (c ∷ l) = false

-- The indicator is set where a read met the end: a full field is read without a look behind it.
unfoldable pub end_field : ℕ → Bool → List ℕ × List ℕ → Option (List ℕ) × Stream
unfolding length
end_field n eof (field, rest) =
    (some field, record { rest = rest; eof = eof || (is_empty rest && ltb (length field) n) })

unfoldable pub scan_field : ℕ → Bool → List ℕ → Option (List ℕ) × Stream
unfolding end_field take_field
scan_field n eof [] = (none, record { rest = []; eof = true })
scan_field n eof (c ∷ l) = end_field n eof (take_field n (c ∷ l))

-- fscanf(fh, "%ns", ...): the string, or none where the result is not 1.
unfoldable pub scan_string : ℕ → Stream → Option (List ℕ) × Stream
unfolding scan_field skip_space
scan_string n s = scan_field n s.eof (skip_space s.rest)

-- The digits in front, as a number if there are any, and what is left.
unfoldable pub scan_digits : Option ℕ → List ℕ → Option ℕ × List ℕ
scan_digits acc [] = (acc, [])
scan_digits acc (c ∷ l) =
    let next = scan_digits (some (elim acc [ none ↦ 0 | some a ↦ a * 10 ] + (c - b'0'))) l in
    if not_digit c then (acc, c ∷ l) else next

abbrev pub minus_sign : List ℕ → Bool
minus_sign [] = false
minus_sign (c ∷ l) = c == b'-'

abbrev pub skip_sign : List ℕ → List ℕ
skip_sign [] = []
skip_sign (c ∷ l) = if (c == b'-') || (c == b'+') then l else c ∷ l

-- fscanf(fh, "%u", ...), as the number and its sign, with what is left.
unfoldable pub scan_number : Stream → (Option ℕ × Bool) × Stream
unfolding scan_digits skip_space
scan_number s =
    let l = skip_space s.rest in
    let d = scan_digits none (skip_sign l) in
    ((d.0, minus_sign l), record { rest = d.1; eof = s.eof || is_empty d.1 })

-- A string, and its NUL, is written into a buffer.
unfoldable pub put_string : ℕ → List ℕ → (ℕ → ℕ) → ℕ → ℕ
put_string i [] buf = set buf i 0
put_string i (c ∷ l) buf = put_string (suc i) l (set buf i c)

-- strlen stops at a NUL among the characters that scanf has read.
unfoldable pub strlen : List ℕ → ℕ
strlen [] = 0
strlen (c ∷ l) = let rest = strlen l in if c == 0 then 0 else suc rest

-- strncmp(a, b, n) == 0
unfoldable pub strncmp_eq : ℕ → List ℕ → List ℕ → Bool
strncmp_eq zero a b = true
strncmp_eq (suc n) [] [] = true
strncmp_eq (suc n) [] (d ∷ b) = d == 0
strncmp_eq (suc n) (c ∷ a) [] = c == 0
strncmp_eq (suc n) (c ∷ a) (d ∷ b) = let rest = strncmp_eq n a b in (c == d) && ((c == 0) || rest)

-- tolower
abbrev pub to_lower : ℕ → ℕ
to_lower c = if ltb 64 c && ltb c 91 then c + 32 else c

abbrev pub buf_word : (ℕ → ℕ) → Word
buf_word buf = word (buf 0) (buf 1) (buf 2) (buf 3)
