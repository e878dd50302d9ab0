-- ===== src/Stdio/Fields.antt =====
-- What a scan takes from a stream.
use brain_project.Prelude.{
  ℕ, zero, suc, ◌<◌, ◌≤◌, ◌≡◌, refl, arith, ap, ◌∙◌, Bool, true, false, ◌&&◌, ◌||◌, ltb, some, List,
  [], ◌∷◌, ◌++◌, Bool-cases, inl, inr,
}
use brain_project.Stdio.{
  Stream, is_space, is_empty, skip_space, take_field, length, end_field, scan_field, scan_string,
}

-- Characters that scanf skips, and that it takes.
abbrev pub Spaces : List ℕ → Type 0
Spaces [] = Unit {0}
Spaces (c ∷ l) = (is_space c ≡ true) × Spaces l

abbrev pub Plain : List ℕ → Type 0
Plain [] = Unit {0}
Plain (c ∷ l) = (is_space c ≡ false) × Plain l

pub skip_space-Spaces :
    (pre : List ℕ) (c : ℕ) (l : List ℕ)
    → Spaces pre
    → is_space c ≡ false
    → skip_space (pre ++ c ∷ l) ≡ c ∷ l
unfolding skip_space
skip_space-Spaces [] c l h e = rw (e) refl
skip_space-Spaces (d ∷ pre) c l (g, h) e = rw (g) (skip_space-Spaces pre c l h e)

pub take_field-Plain :
    (field l : List ℕ) → Plain field → take_field (length field) (field ++ l) ≡ (field, l)
unfolding take_field length
take_field-Plain [] l h = refl
take_field-Plain (c ∷ field) l (e, h) =
    rw (e) (ap (λ (x : List ℕ × List ℕ). (c ∷ x.0, x.1)) (take_field-Plain field l h))

not_short : (eof b : Bool) (n : ℕ) → (eof || (b && ltb n n)) ≡ eof
not_short eof b n = ground arith

-- A full field behind spaces is taken, and nothing behind it.
pub scan_string-Plain :
    (n : ℕ) (pre : List ℕ) (c : ℕ) (field l : List ℕ) (eof : Bool)
    → n ≡ length (c ∷ field)
    → Spaces pre
    → Plain (c ∷ field)
    → scan_string n (record { rest = pre ++ c ∷ (field ++ l); eof = eof })
      ≡ (some (c ∷ field), record { rest = l; eof = eof })
unfolding scan_string scan_field end_field
scan_string-Plain n pre c field l eof e h p =
    ap (scan_field n eof) (skip_space-Spaces pre c (field ++ l) h p.0)
    ∙ ap (end_field n eof)
        (ap (λ k. take_field k (c ∷ (field ++ l))) e ∙ take_field-Plain (c ∷ field) l p)
    ∙ ap (λ b. (some (c ∷ field), record { rest = l; eof = b }))
        (ap (λ k. eof || (is_empty l && ltb (length (c ∷ field)) k)) e
          ∙ not_short eof (is_empty l) (length (c ∷ field)))

pub skip_space-length : (l : List ℕ) → length (skip_space l) ≤ length l
unfolding skip_space length
skip_space-length [] = omega arith
skip_space-length (c ∷ l) = elim (Bool-cases (is_space c)) [
  | inl e ↦ rw (e) (omega (arith, skip_space-length l))
  | inr e ↦ rw (e) (omega arith)
]

pub take_field-length : (n : ℕ) (l : List ℕ) → length (take_field n l).1 ≤ length l
unfolding take_field length
take_field-length zero l = omega arith
take_field-length (suc n) [] = omega arith
take_field-length (suc n) (c ∷ l) = elim (Bool-cases (is_space c)) [
  | inl e ↦ rw (e) (omega arith)
  | inr e ↦ rw (e) (omega (arith, take_field-length n l))
]

-- What is left behind the spaces does not begin with one.
abbrev Begins : List ℕ → Type 0
Begins [] = Unit {0}
Begins (c ∷ l) = is_space c ≡ false

skip_space-Begins : (l : List ℕ) → Begins (skip_space l)
unfolding skip_space
skip_space-Begins [] = tt
skip_space-Begins (c ∷ l) = elim (Bool-cases (is_space c)) [
  | inl e ↦ rw (e) (skip_space-Begins l)
  | inr e ↦ rw (e) e
]

scan_field-length :
    (n : ℕ) (eof : Bool) (l str : List ℕ)
    → Begins l
    → (scan_field (suc n) eof l).0 ≡ some str
    → length (scan_field (suc n) eof l).1.rest < length l
unfolding scan_field end_field take_field length
scan_field-length n eof [] str h e = absurd (cc)
scan_field-length n eof (c ∷ l) str h e = rw (h) (omega (arith, take_field-length n l))

-- A string that is read takes at least one character.
pub scan_string-length :
    (n : ℕ) (s : Stream) (str : List ℕ)
    → (scan_string (suc n) s).0 ≡ some str
    → length (scan_string (suc n) s).1.rest < length s.rest
unfolding scan_string
scan_string-length n s str e = omega (
  arith,
  skip_space-length s.rest,
  scan_field-length n s.eof (skip_space s.rest) str (skip_space-Begins s.rest) e,
)

take_field-space :
    (n : ℕ) (field : List ℕ) (c : ℕ) (l : List ℕ)
    → length field < n
    → Plain field
    → is_space c ≡ true
    → take_field n (field ++ c ∷ l) ≡ (field, c ∷ l)
unfolding take_field length
take_field-space zero field c l h p e = absurd (omega arith)
take_field-space (suc n) [] c l h p e = rw (e) refl
take_field-space (suc n) (d ∷ field) c l h (g, p) e =
    rw (g) (
      ap (λ (x : List ℕ × List ℕ). (d ∷ x.0, x.1)) (take_field-space n field c l (omega arith) p e))

-- A field that ends at a space, which is left in the stream.
pub scan_string-space :
    (n : ℕ) (pre : List ℕ) (c : ℕ) (field : List ℕ) (sp : ℕ) (l : List ℕ) (eof : Bool)
    → length (c ∷ field) < n
    → Spaces pre
    → Plain (c ∷ field)
    → is_space sp ≡ true
    → scan_string n (record { rest = pre ++ c ∷ (field ++ sp ∷ l); eof = eof })
      ≡ (some (c ∷ field), record { rest = sp ∷ l; eof = eof })
unfolding scan_string scan_field end_field
scan_string-space n pre c field sp l eof small h p e =
    ap (scan_field n eof) (skip_space-Spaces pre c (field ++ sp ∷ l) h p.0)
    ∙ ap (end_field n eof) (take_field-space n (c ∷ field) sp l small p e)
    ∙ ap (λ b. (some (c ∷ field), record { rest = sp ∷ l; eof = b })) (or_false eof)
  where
    or_false : (b : Bool) → (b || false) ≡ b
    or_false true = refl
    or_false false = refl

scan_field-left : (n : ℕ) (eof : Bool) (l : List ℕ) → length (scan_field n eof l).1.rest ≤ length l
unfolding scan_field end_field length
scan_field-left n eof [] = omega arith
scan_field-left n eof (c ∷ l) = take_field-length n (c ∷ l)

-- A scan leaves at most what the stream had.
pub scan_string-left : (n : ℕ) (s : Stream) → length (scan_string n s).1.rest ≤ length s.rest
unfolding scan_string
scan_string-left n s =
    omega (arith, skip_space-length s.rest, scan_field-left n s.eof (skip_space s.rest))
