-- ===== src/Loader/Procs.antt =====
-- The loop over the processes of a program file ends (load_file of loader.c).
use brain_project.Prelude.{
  ℕ, zero, suc, ◌+◌, ◌-◌, ◌<◌, ◌≤◌, ◌≡◌, refl, arith, ap, sym, ◌∙◌, Bool, true, false, ltb,
  if◌then◌else◌, pos, negsuc, is_neg, ℤ, to_signed, to_unsigned, uint_mod, add_u32, Option, none,
  some, List, [], ◌∷◌, Bool-cases, inl, inr, ◌==◌, ◌||◌,
}
use brain_project.Word.{not_digit}
use brain_project.Stdio.{Stream, scan_digits, scan_number, skip_sign, skip_space, length}
use brain_project.Stdio.Fields.{skip_space-length, scan_string-left}
use brain_project.Mem.{page_store}
use brain_project.Stdio.{scan_string, strncmp_eq, put_string, buf_word}
use brain_project.Prelude.{bind-cong}
use brain_project.Loader.{
  load_header, load_loop, load_code, read_line, end_line, behind_line, brain10, data_mark,
  skip_line,
}
use brain_project.Loader.Fuel.{read_line-length}
use brain_project.Loader.Start.{load_procs, after_code, start_proc, load_into}
use brain_project.RbTree.{RbTree}
use brain_project.Os.{Os}
use brain_project.Vm.Machine.{Machine, on_memory, procalloc}

scan_digits-length : (acc : Option ℕ) (l : List ℕ) → length (scan_digits acc l).1 ≤ length l
unfolding scan_digits length
scan_digits-length acc [] = omega arith
scan_digits-length acc (c ∷ l) = elim (Bool-cases (not_digit c)) [
  | inl e ↦ rw (e) (omega arith)
  | inr e ↦ rw (e) (omega (arith, scan_digits-length (some _) l))
]

no_confusion : {n : ℕ} → none ≡ some n → ⊥
no_confusion e = cc

-- A number takes a digit.
number-length :
    (l : List ℕ) (n : ℕ)
    → (scan_digits none l).0 ≡ some n
    → length (scan_digits none l).1 < length l
unfolding scan_digits length
number-length [] n e = absurd (cc)
number-length (c ∷ l) n e = elim (Bool-cases (not_digit c)) [
  | inl d ↦ absurd (
      no_confusion (
        ap (λ b. (if b then (none, c ∷ l) else scan_digits (some (0 + (c - b'0'))) l).0) (sym d)
        ∙ e))
  | inr d ↦ rw (d) (omega (arith, scan_digits-length (some _) l))
]

skip_sign-length : (l : List ℕ) → length (skip_sign l) ≤ length l
unfolding length
skip_sign-length [] = omega arith
skip_sign-length (c ∷ l) = elim (Bool-cases ((c == b'-') || (c == b'+'))) [
  | inl e ↦ rw (e) (omega arith)
  | inr e ↦ rw (e) (omega arith)
]

-- What a function leaves of its stream, and the sign of what it returns.
left_behind : Option (ℤ × Stream) → ℕ
left_behind none = 0
left_behind (some (z, t)) = length t.rest

returns_error : Option (ℤ × Stream) → Bool
returns_error none = true
returns_error (some (z, t)) = is_neg z

load_header-length :
    (s s' : Stream) (z : ℤ)
    → load_header s ≡ some (z, s')
    → is_neg z ≡ false
    → length s'.rest < length s.rest
unfolding load_header left_behind returns_error
load_header-length s s' z e h = by_number (scan_number s).0.0 refl
  where
    digits : (n : ℕ) → (scan_number s).0.0 ≡ some n → length (scan_number s).1.rest < length s.rest
    digits n f = omega (
      arith,
      number-length (skip_sign (skip_space s.rest)) n f,
      skip_sign-length (skip_space s.rest),
      skip_space-length s.rest,
    )

    by_size :
        (n : ℕ) (b : Bool)
        → (scan_number s).0.0 ≡ some n
        → ltb n uint_mod ≡ b
        → length s'.rest < length s.rest
    by_size n true f g = omega (arith, digits n f, ap left_behind (rw (load_header, f, g) at e))
    by_size n false f g = absurd (cc (rw (load_header, f, g) at e))

    by_number : (r : Option ℕ) → (scan_number s).0.0 ≡ r → length s'.rest < length s.rest
    by_number none f = absurd (cc (ap returns_error (rw (load_header, f) at e), h))
    by_number (some n) f = by_size n (ltb n uint_mod) f refl

left_line : Option (Option (List ℕ) × Stream) → ℕ
left_line none = 0
left_line (some (x, t)) = length t.rest

-- A failed scan ends the reading of the line.
no_line :
    (x : Option (List ℕ) × Stream) (t : Stream)
    → end_line x ≡ some (none, t)
    → length x.1.rest ≡ length t.rest
unfolding end_line left_line
no_line (none, t') t e = ap left_line e
no_line (some a, t') t e = absurd (by_line (skip_line t'.rest) e)
  where
    has_text : Option (Option (List ℕ) × Stream) → Bool
    has_text none = true
    has_text (some (none, u)) = false
    has_text (some (some str, u)) = true

    by_line : (r : Option (List ℕ)) → behind_line a t' r ≡ some (none, t) → ⊥
    by_line none f = cc
    by_line (some l) f = cc (ap has_text f)

left_run : {S : Type 0} → Option ((ℤ × Stream) × Machine S) → ℕ
left_run none = 0
left_run (some ((z, t), m)) = length t.rest

module _ {S : Type 0} (k i addr : ℕ) (buf : ℕ → ℕ) (s : Stream) (m : Machine S)
    (again : (buf' : ℕ → ℕ) (s' : Stream) (m' : Machine S)
      → left_run (load_loop k i buf' (add_u32 addr 1) s' m') ≤ length s'.rest) where
  left_store :
      (str : List ℕ) (s' : Stream) (r : Option (ℤ × Machine S))
      → read_line s ≡ some (some str, s')
      → strncmp_eq 7 brain10 str ≡ false
      → strncmp_eq 4 data_mark str ≡ false
      → on_memory (page_store (m.proc_table i) (buf_word (put_string 0 str buf)) (to_signed addr)) m
        ≡ r
      → left_run (load_loop (suc k) i buf addr s m) ≤ length s.rest
  unfolding load_loop left_run
  left_store str s' none e b d f = rw (load_loop, e, b, d, f) (omega arith)
  left_store str s' (some (pos zero, m')) e b d f =
      rw (load_loop, e, b, d, f)
        (omega (arith, again (put_string 0 str buf) s' m', read_line-length s s' str e))
  left_store str s' (some (pos (suc n), m')) e b d f =
      rw (load_loop, e, b, d, f) (omega (arith, read_line-length s s' str e))
  left_store str s' (some (negsuc n, m')) e b d f =
      rw (load_loop, e, b, d, f) (omega (arith, read_line-length s s' str e))

  left_round :
      (r : Option (Option (List ℕ) × Stream))
      → read_line s ≡ r
      → left_run (load_loop (suc k) i buf addr s m) ≤ length s.rest
  unfolding load_loop left_run read_line
  left_round none e = rw (load_loop, e) (omega arith)
  left_round (some (none, s')) e =
      rw (load_loop, e) (omega (arith, no_line (scan_string 7 s) s' e, scan_string-left 7 s))
  left_round (some (some str, s')) e = elim (Bool-cases (strncmp_eq 7 brain10 str)) [
    | inl b ↦ rw (load_loop, e, b) (omega (arith, read_line-length s s' str e))
    | inr b ↦ elim (Bool-cases (strncmp_eq 4 data_mark str)) [
      | inl d ↦ rw (load_loop, e, b, d) (omega (arith, read_line-length s s' str e))
      | inr d ↦ left_store str s' _ e b d refl
    ]
  ]

-- load_code leaves at most what its stream had.
load_loop-left :
    {S : Type 0} (k i addr : ℕ) (buf : ℕ → ℕ) (s : Stream) (m : Machine S)
    → left_run (load_loop k i buf addr s m) ≤ length s.rest
unfolding load_loop left_run
load_loop-left zero i addr buf s m = omega arith
load_loop-left (suc k) i addr buf s m =
    left_round k i addr buf s m (λ buf' s' m'. load_loop-left k i (add_u32 addr 1) buf' s' m')
      (read_line s) refl

module _ {T : Type 0} (tree : RbTree T) (k j : ℕ) (s : Stream)
    (again : (s' : Stream) (m' : Machine (Os T))
      → length s'.rest < length s.rest
      → load_procs tree k s' m' ≡ load_procs tree j s' m') where
  same_rest :
      (i : ℕ) (w : ℤ) (s2 : Stream) (m2 : Machine (Os T))
      → length s2.rest < length s.rest
      → after_code tree i (λ t. load_procs tree k t) (w, s2) m2
        ≡ after_code tree i (λ t. load_procs tree j t) (w, s2) m2
  unfolding after_code
  same_rest i (pos zero) s2 m2 l =
      bind-cong (start_proc tree i) (λ _. load_procs tree k s2) (λ _. load_procs tree j s2) m2
        λ _ m3 _. again s2 m3 l
  same_rest i (pos (suc n)) s2 m2 l = refl
  same_rest i (negsuc n) s2 m2 l = refl

  same_into :
      (p : Option ℕ) (s1 : Stream) (m1 : Machine (Os T))
      → length s1.rest < length s.rest
      → load_into tree s1 (λ t. load_procs tree k t) p m1
        ≡ load_into tree s1 (λ t. load_procs tree j t) p m1
  unfolding load_into load_code left_run
  same_into none s1 m1 l = refl
  same_into (some i) s1 m1 l = bind-cong (load_code m1.sched.buffer i s1) _ _ m1 λ (w, s2) m2 e.
      same_rest i w s2 m2 (
        omega (
          arith,
          l,
          load_loop-left (suc (length s1.rest)) i 0 m1.sched.buffer s1 m1,
          ap left_run e,
        ))

  same_entry :
      (z : ℤ) (s1 : Stream) (m : Machine (Os T))
      → load_header s ≡ some (z, s1)
      → is_neg z ≡ false
      → load_procs tree (suc k) s m ≡ load_procs tree (suc j) s m
  unfolding load_procs
  same_entry z s1 m e pos_size =
      rw (load_procs, e, pos_size)
        (bind-cong (procalloc (to_unsigned z)) (load_into tree s1 (λ t. load_procs tree k t))
          (load_into tree s1 (λ t. load_procs tree j t)) m
          λ p m1 _. same_into p s1 m1 (load_header-length s s1 z e pos_size))

  same_process :
      (r : Option (ℤ × Stream)) (m : Machine (Os T))
      → load_header s ≡ r
      → load_procs tree (suc k) s m ≡ load_procs tree (suc j) s m
  unfolding load_procs
  same_process none m e = rw (load_procs, e) refl
  same_process (some (z, s1)) m e = elim (Bool-cases (is_neg z)) [
    | inl neg ↦ rw (load_procs, e, neg) refl
    | inr size ↦ same_entry z s1 m e size
  ]

-- The loop of load_file gives the same with any two amounts of fuel above the length of its stream,
-- so the fuel of load_file is enough.
pub load_procs-enough :
    {T : Type 0} (tree : RbTree T) (k j : ℕ) (s : Stream) (m : Machine (Os T))
    → length s.rest < k
    → length s.rest < j
    → load_procs tree k s m ≡ load_procs tree j s m
load_procs-enough tree zero j s m h g = absurd (omega arith)
load_procs-enough tree (suc k) zero s m h g = absurd (omega arith)
load_procs-enough tree (suc k) (suc j) s m h g =
    same_process tree k j s
      (λ s' m' l. load_procs-enough tree k j s' m' (omega (arith, h, l)) (omega (arith, g, l)))
      (load_header s) m refl
