-- ===== src/Loader/Fuel.antt =====
-- The loops of the loader end (load_code and load_file of loader.c).
use brain_project.Prelude.{
  ℕ, zero, suc, ◌<◌, ◌≡◌, refl, arith, ap, sym, ◌∙◌, false, if◌then◌else◌, pos, negsuc, ℤ,
  to_signed, add_u32, Option, none, some, List, [], ◌∷◌, Bool-cases, inl, inr, ◌==◌,
}
use brain_project.Mem.{page_store}
use brain_project.Stdio.{Stream, scan_string, strncmp_eq, put_string, buf_word, length}
use brain_project.Stdio.Fields.{scan_string-length}
use brain_project.Loader.{
  load_loop, skip_line, read_line, end_line, behind_line, brain10, data_mark,
}
use brain_project.Vm.Machine.{Machine, on_memory}

length_or : ℕ → Option (List ℕ) → ℕ
length_or n none = n
length_or n (some l) = length l

skip_line-length : (l r : List ℕ) → skip_line l ≡ some r → length r < length l
unfolding skip_line length length_or
skip_line-length [] r e = absurd (cc)
skip_line-length (c ∷ l) r e = elim (Bool-cases (c == 10)) [
  | inl g ↦
      omega (arith, ap (length_or 0) (ap (λ b. if b then some l else skip_line l) (sym g) ∙ e))
  | inr g ↦
      omega (arith, skip_line-length l r (ap (λ b. if b then some l else skip_line l) (sym g) ∙ e))
]

-- The number of characters behind a line that was read.
unfoldable pub behind : ℕ → Option (Option (List ℕ) × Stream) → ℕ
behind n none = n
behind n (some (none, s)) = n
behind n (some (some str, s)) = length s.rest

end_line-length :
    (x : Option (List ℕ) × Stream) (s' : Stream) (str : List ℕ)
    → end_line x ≡ some (some str, s')
    → ((str' : List ℕ) × (x.0 ≡ some str')) × (length s'.rest < length x.1.rest)
unfolding end_line behind
end_line-length (none, t) s' str e = absurd (cc)
end_line-length (some a, t) s' str e = ((a, refl), by_line (skip_line t.rest) refl e)
  where
    by_line :
        (r : Option (List ℕ))
        → skip_line t.rest ≡ r
        → behind_line a t r ≡ some (some str, s')
        → length s'.rest < length t.rest
    by_line none f g = absurd (cc)
    by_line (some l) f g = omega (arith, skip_line-length t.rest l f, ap (behind 0) g)

-- A line that is read takes at least one character.
pub read_line-length :
    (s s' : Stream) (str : List ℕ)
    → read_line s ≡ some (some str, s')
    → length s'.rest < length s.rest
unfolding read_line
read_line-length s s' str e =
    let ((a, scanned), shorter) = end_line-length (scan_string 7 s) s' str e in
    omega (arith, shorter, scan_string-length 6 s a scanned)

module _ {S : Type 0} (i k j addr : ℕ) (buf : ℕ → ℕ) (s : Stream) (m : Machine S)
    (again : (buf' : ℕ → ℕ) (s' : Stream) (m' : Machine S)
      → length s'.rest < length s.rest
      → load_loop k i buf' (add_u32 addr 1) s' m' ≡ load_loop j i buf' (add_u32 addr 1) s' m') where
  -- A round is the same with two amounts of fuel, if the rounds behind it are.
  same_store :
      (str : List ℕ) (s' : Stream) (r : Option (ℤ × Machine S))
      → read_line s ≡ some (some str, s')
      → strncmp_eq 7 brain10 str ≡ false
      → strncmp_eq 4 data_mark str ≡ false
      → on_memory (page_store (m.proc_table i) (buf_word (put_string 0 str buf)) (to_signed addr)) m
        ≡ r
      → load_loop (suc k) i buf addr s m ≡ load_loop (suc j) i buf addr s m
  unfolding load_loop
  same_store str s' none e b d f = rw (load_loop, e, b, d, f) refl
  same_store str s' (some (pos zero, m')) e b d f =
      rw (load_loop, e, b, d, f) (again (put_string 0 str buf) s' m' (read_line-length s s' str e))
  same_store str s' (some (pos (suc n), m')) e b d f = rw (load_loop, e, b, d, f) refl
  same_store str s' (some (negsuc n, m')) e b d f = rw (load_loop, e, b, d, f) refl

  same_round :
      (r : Option (Option (List ℕ) × Stream))
      → read_line s ≡ r
      → load_loop (suc k) i buf addr s m ≡ load_loop (suc j) i buf addr s m
  unfolding load_loop
  same_round none e = rw (load_loop, e) refl
  same_round (some (none, s')) e = rw (load_loop, e) refl
  same_round (some (some str, s')) e = elim (Bool-cases (strncmp_eq 7 brain10 str)) [
    | inl b ↦ rw (load_loop, e, b) refl
    | inr b ↦ elim (Bool-cases (strncmp_eq 4 data_mark str)) [
      | inl d ↦ rw (load_loop, e, b, d) refl
      | inr d ↦ same_store str s' _ e b d refl
    ]
  ]

-- The loop of load_code gives the same with any two amounts of fuel above the length of its stream:
-- with that much it never runs out.
pub load_loop-enough :
    {S : Type 0} (i k j : ℕ) (buf : ℕ → ℕ) (addr : ℕ) (s : Stream) (m : Machine S)
    → length s.rest < k
    → length s.rest < j
    → load_loop k i buf addr s m ≡ load_loop j i buf addr s m
load_loop-enough i zero j buf addr s m h g = absurd (omega arith)
load_loop-enough i (suc k) zero buf addr s m h g = absurd (omega arith)
load_loop-enough i (suc k) (suc j) buf addr s m h g =
    same_round i k j addr buf s m
      (λ buf' s' m' l.
        load_loop-enough i k j buf' (add_u32 addr 1) s' m' (omega (arith, h, l))
          (omega (arith, g, l)))
      (read_line s) refl
