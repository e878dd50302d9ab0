-- ===== src/Pager/Spare.antt =====
-- Room for a page where fewer pages are in use than there are frames (touch_page of pagemem.c).
use brain_project.Prelude.{
  ℕ, zero, suc, ◌*◌, ◌/◌, ◌<◌, ◌≡◌, ◌≢◌, ◌⊎◌, inl, inr, refl, arith, Bool, true, false,
  if◌then◌else◌, ◌==◌, List, [], ◌∷◌, cases_eq, lt_cases, ap, ◌∙◌, sym, ◌^◌, pos, some,
}
use brain_project.Layout.{vaddr_size}
use brain_project.Pager.{Pager, frame_count, first_free, touch_page}
use brain_project.Pager.Inv.{Inv}
use brain_project.Pager.Victim.{first_free_cases}
use brain_project.Pager.Room.{CanMakeRoom, free_frame, evictable}
use brain_project.Pager.Touch.{Touched, touch_page_lem}

-- Lists of pages.
unfoldable pub listed : ℕ → List ℕ → Bool
listed p [] = false
listed p (q ∷ l) = if q == p then true else listed p l

unfoldable pub length : List ℕ → ℕ
length [] = 0
length (q ∷ l) = suc (length l)

-- A bounded search.
hit_or_miss : (f : ℕ → ℕ) (q n : ℕ) → ((j : ℕ) × (j < n) × (f j ≡ q)) ⊎ ((j : ℕ) → j < n → f j ≢ q)
hit_or_miss f q zero = inr (λ j h. absurd (omega arith))
hit_or_miss f q (suc n) = elim (hit_or_miss f q n) [
  | inl (j, h, e) ↦ inl (j, omega arith, e)
  | inr none ↦ elim (cases_eq (f n) q) [
    | inl e ↦ inl (n, omega arith, e)
    | inr ne ↦ inr (λ j h e. elim (lt_cases j n) [
      | inl same ↦ ne (ap f (sym same) ∙ e)
      | inr (inl l) ↦ none j l e
      | inr (inr l) ↦ absurd (omega arith)
    ])
  ]
]

abbrev InjectiveBelow : ℕ → (ℕ → ℕ) → Type 0
InjectiveBelow n f = (j k : ℕ) → j < n → k < n → f j ≡ f k → j ≡ k

-- The numbers below `n` without `i`, if `n` stands for `i`.
abbrev moved : ℕ → ℕ → ℕ → ℕ
moved i n j = if j == i then n else j

moved-lt : (i n j : ℕ) → j < n → moved i n j < suc n
moved-lt i n j h = ground arith

moved_ne : (i n j : ℕ) → j < n → moved i n j ≢ i
moved_ne i n j h = ground arith

moved-injective : (i n j k : ℕ) → j < n → k < n → moved i n j ≡ moved i n k → j ≡ k
moved-injective i n j k hj hk e = ground arith

listed_cons : (p q : ℕ) (l : List ℕ) → p ≢ q → listed p l ≡ false → listed p (q ∷ l) ≡ false
unfolding listed
listed_cons p q l n e = ground (arith, n)

-- More values than a list has places: one is not in the list.
pub one_is_unlisted :
    (l : List ℕ) (n : ℕ) (f : ℕ → ℕ)
    → InjectiveBelow n f
    → length l < n
    → (j : ℕ) × (j < n) × (listed (f j) l ≡ false)
unfolding listed length
one_is_unlisted [] n f inj h = (0, h, refl)
one_is_unlisted (q ∷ l) zero f inj h = absurd (omega arith)
one_is_unlisted (q ∷ l) (suc n) f inj h = elim (hit_or_miss f q (suc n)) [
  | inr none ↦
      let (j, hj, out) = one_is_unlisted l (suc n) f inj (omega arith) in
      (j, hj, listed_cons (f j) q l (none j hj) out)
  | inl (i, hi, e) ↦
      let rest : InjectiveBelow n (λ j. f (moved i n j)) = λ j k hj hk same.
        moved-injective i n j k hj hk
          (inj (moved i n j) (moved i n k) (moved-lt i n j hj) (moved-lt i n k hk) same) in
      let (j, hj, out) = one_is_unlisted l n (λ k. f (moved i n k)) rest (omega arith) in
      (
        moved i n j,
        moved-lt i n j hj,
        listed_cons (f (moved i n j)) q l
            (λ same. moved_ne i n j hj (inj (moved i n j) i (moved-lt i n j hj) hi (same ∙ sym e)))
            out,
      )
]

-- The pages with references are all in a list of fewer places than there are frames.
pub record Spare (s : Pager) (l : List ℕ) : Type 0 where
  pub in_use : (p : ℕ) → p < s.pg_count → listed p l ≡ false → (s.pg_table p).refcount ≡ 0
  pub fewer : length l < frame_count s

module _ {s : Pager} (v : Inv s)
    (full : (j : ℕ) → j < frame_count s → s.free_frames j ≡ false) where
  -- The page in each frame.
  owner :
      (j : ℕ)
      → (p : ℕ) × (j < frame_count s
          → (p < s.pg_count)
            × ((s.pg_table p).valid ≡ true)
            × ((s.pg_table p).frame_addr ≡ j * s.pg_size))
  owner j = elim (lt_cases j (frame_count s)) [
    | inl e ↦ (0, λ h. absurd (omega arith))
    | inr (inl h) ↦
        let o = v.owned j h (full j h) in (o.page, λ _. (o.in_table, o.resident, o.stands))
    | inr (inr l) ↦ (0, λ h. absurd (omega arith))
  ]

  owner-injective : InjectiveBelow (frame_count s) (λ j. (owner j).0)
  owner-injective j k hj hk same =
      let (_, _, at_j) = (owner j).1 hj in
      let (_, _, at_k) = (owner k).1 hk in
      frames_eq (sym at_j ∙ ap (λ (p : ℕ). (s.pg_table p).frame_addr) same ∙ at_k)
    where
      frames_eq : j * s.pg_size ≡ k * s.pg_size → j ≡ k
      frames_eq e = grind (arith, e, v.size_pos)

pub CanMakeRoom-of-Spare : {s : Pager} {l : List ℕ} → Inv s → Spare s l → CanMakeRoom s
CanMakeRoom-of-Spare {s} {l} v spare = elim (first_free_cases s) [
  | inl (free, h) ↦ free_frame (first_free s) h free
  | inr (_, full) ↦
      let (j, hj, out) =
        one_is_unlisted l (frame_count s) (λ j. (owner v full j).0) (owner-injective v full)
          spare.fewer in
      let (h, resident, _) = (owner v full j).1 hj in
      evictable (owner v full j).0 h (rw (resident, spare.in_use (owner v full j).0 h out) refl)
]

-- Where fewer pages have references than there are frames, a touch of an address of the virtual
-- space always succeeds, with what touch_page_lem says of the result. The page's count of
-- references is assumed not to wrap.
pub touch_page-Spare :
    {s : Pager} (ops w : ℕ) (l : List ℕ)
    → Inv s
    → w < vaddr_size
    → Spare s l
    → suc (s.pg_table (w / s.pg_size)).refcount < 2 ^ 32
    → (a : ℕ) × (s' : Pager) × (touch_page ops w s ≡ some (pos a, s')) × Touched s s' w a
touch_page-Spare ops w l v h spare fits =
    touch_page_lem ops w v h (inr (CanMakeRoom-of-Spare v spare)) fits
