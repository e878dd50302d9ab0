-- ===== src/HoleList/Fit.antt =====
-- First fit (get_first_hole of hole_list.c) against a description by a split of the list.
use brain_project.Prelude.{
  ℕ, ◌+◌, ◌%◌, ◌^◌, ◌≤◌, ◌<◌, ◌≡◌, ap, refl, ◌⊎◌, inl, inr, arith, ◌==◌, if◌then◌else◌, ltb, ℤ,
  minus_one, to_signed, List, [], ◌∷◌, ◌++◌, Bool-cases,
}
use brain_project.HoleList.{Hole, hole, advance, first_after, get_first_hole}

-- Every hole of the list is too small.
abbrev pub AllSmaller : ℕ → List Hole → Type 0
AllSmaller size [] = Unit {0}
AllSmaller size (h ∷ rest) = (h.size < size) × AllSmaller size rest

-- What is left of the hole that serves a request: nothing where the size is exact, and else a hole
-- whose address is `size` words on, modulo 2 ^ 32. Its size is the one it had.
abbrev pub served : ℕ → Hole → List Hole → List Hole
served size h after =
    if h.size == size then after else hole ((h.addr + size) % 2 ^ 32) h.size ∷ after

-- `before` is passed over, `h` serves the request, `after` is not looked at.
pub record FitsAt (size : ℕ) (holes : List Hole) (r : ℤ × List Hole) : Type 0 where
  pub before : List Hole
  pub chosen : Hole
  pub after : List Hole
  pub split : holes ≡ before ++ chosen ∷ after
  pub passed : AllSmaller size before
  pub fits : size ≤ chosen.size
  pub address : r.0 ≡ to_signed chosen.addr
  pub remains : r.1 ≡ before ++ served size chosen after

abbrev FirstFit : ℕ → List Hole → ℤ × List Hole → Type 0
FirstFit size holes r =
    (AllSmaller size holes × (r.0 ≡ minus_one) × (r.1 ≡ holes)) ⊎ FitsAt size holes r

FitsAt-cons :
    (size : ℕ) (p : Hole) (holes : List Hole) (r : ℤ × List Hole)
    → p.size < size
    → FirstFit size holes r
    → FirstFit size (p ∷ holes) (r.0, p ∷ r.1)
FitsAt-cons size p holes r h (inl (s, e, f)) = inl ((h, s), e, ap (λ l. p ∷ l) f)
FitsAt-cons size p holes r h (inr f) = inr (record {
  before = p ∷ f.before;
  chosen = f.chosen;
  after = f.after;
  split = ap (λ l. p ∷ l) f.split;
  passed = (h, f.passed);
  fits = f.fits;
  address = f.address;
  remains = ap (λ l. p ∷ l) f.remains;
})

FitsAt-head :
    (size : ℕ) (h : Hole) (rest : List Hole)
    → size ≤ h.size
    → FitsAt size (h ∷ rest) (to_signed h.addr, served size h rest)
FitsAt-head size h rest le = record {
  before = [];
  chosen = h;
  after = rest;
  split = refl;
  passed = tt;
  fits = le;
  address = refl;
  remains = refl;
}

-- The two tests of the source at one hole, and what is done where both fail.
module _ (size : ℕ) (h : Hole) (rest : List Hole) where
  abbrev tested : ℤ × List Hole → ℤ × List Hole
  tested other =
      if h.size == size
      then (to_signed h.addr, rest)
      else if ltb size h.size
      then (to_signed h.addr, advance size h ∷ rest)
      else other

  tested_cases :
      (other : ℤ × List Hole)
      → (FitsAt size (h ∷ rest) (tested other)) ⊎ ((h.size < size) × (tested other ≡ other))
  unfolding advance
  tested_cases other = elim (Bool-cases (h.size == size)) [
    | inl e ↦ inl (rw e (rw e at (FitsAt-head size h rest (ground arith))))
    | inr e ↦ elim (Bool-cases (ltb size h.size)) [
      | inl f ↦ inl (rw (e, f) (rw e at (FitsAt-head size h rest (ground arith))))
      | inr f ↦ inr (ground arith, rw (e, f))
    ]
  ]

  tested-FirstFit :
      (other : ℤ × List Hole)
      → (h.size < size → FirstFit size (h ∷ rest) other)
      → FirstFit size (h ∷ rest) (tested other)
  tested-FirstFit other further = elim (tested_cases other) [
    | inl f ↦ inr f
    | inr (small, e) ↦ rw e (further small)
  ]

first_after-tested :
    (size : ℕ) (p q : Hole) (rest : List Hole)
    → first_after size p (q ∷ rest) ≡ (
      (tested size q rest (first_after size q rest)).0,
      p ∷ (tested size q rest (first_after size q rest)).1,
    )
unfolding first_after
first_after-tested size p q rest = ground arith

first_after-FirstFit :
    (size : ℕ) (p : Hole) (rest : List Hole)
    → p.size < size
    → FirstFit size (p ∷ rest) (first_after size p rest)
unfolding first_after
first_after-FirstFit size p [] h = inl ((h, tt), refl, refl)
first_after-FirstFit size p (q ∷ rest) h = rw (first_after-tested size p q rest) (
    FitsAt-cons size p (q ∷ rest) _ h
      (tested-FirstFit size q rest _ (first_after-FirstFit size q rest)))

-- get_first_hole takes the first hole that is large enough. It returns that hole's address, drops
-- the hole if the size is exact and else adds the size to its address, modulo 2 ^ 32, but leaves its
-- size; the others are left as they are; where every hole
-- is too small it returns -1 and changes nothing.
pub get_first_hole-FirstFit :
    (size : ℕ) (holes : List Hole)
    → (AllSmaller size holes
        × ((get_first_hole size holes).0 ≡ minus_one)
        × ((get_first_hole size holes).1 ≡ holes))
      ⊎ FitsAt size holes (get_first_hole size holes)
unfolding get_first_hole
get_first_hole-FirstFit size [] = inl (tt, refl, refl)
get_first_hole-FirstFit size (h ∷ rest) =
    tested-FirstFit size h rest _ (first_after-FirstFit size h rest)
