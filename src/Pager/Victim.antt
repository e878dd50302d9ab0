-- ===== src/Pager/Victim.antt =====
-- The choice of a page to evict (get_removal_page of pagemem.c), and the search for a free frame.
use brain_project.Prelude.{
  ℕ, zero, suc, ◌+◌, ◌<◌, ◌≤◌, ◌≡◌, ◌⊎◌, refl, arith, Bool, true, false, ◌&&◌, if◌then◌else◌, inl,
  inr, ap, subst, ◌↔◌, Option, none, some, Bool-cases,
}
use brain_project.Pager.{
  Pager, PageEnt, removable, exceeds, removal_loop, get_removal_page, find_free, first_free,
  frame_count,
}

-- No page up to a bound can be evicted.
abbrev pub NoneRemovable : Pager → ℕ → Type 0
NoneRemovable s n = (p : ℕ) → p < n → removable (s.pg_table p) ≡ false

-- `page` can be evicted, and no other such page below the bound has a longer period.
pub record Longest (s : Pager) (n page period : ℕ) : Type 0 where
  pub in_table : page < n
  pub allowed : removable (s.pg_table page) ≡ true
  pub is_period : period ≡ (s.pg_period page).period
  pub longest : (p : ℕ) → p < n → removable (s.pg_table p) ≡ true → (s.pg_period p).period ≤ period

abbrev pub IsVictim : Pager → ℕ → Option (ℕ × ℕ) → Type 0
IsVictim s n none = NoneRemovable s n
IsVictim s n (some (page, period)) = Longest s n page period

lt_suc : (p i : ℕ) → p < suc i → (p < i) ⊎ (p ≡ i)
lt_suc p i h = grind arith

module _ (s : Pager) where
  skip :
      (i : ℕ) (best : Option (ℕ × ℕ))
      → removable (s.pg_table i) ≡ false
      → IsVictim s i best
      → IsVictim s (suc i) best
  skip i none e v = λ p h. elim (lt_suc p i h) [ inl l ↦ v p l | inr q ↦ rw q e ]
  skip i (some (page, period)) e v = record {
    in_table = omega (arith, v.in_table);
    allowed = v.allowed;
    is_period = v.is_period;
    longest = λ p h r. elim (lt_suc p i h) [
      | inl l ↦ v.longest p l r
      | inr q ↦ cc (ap (λ (t : ℕ). removable (s.pg_table t)) q)
    ];
  }

  -- The page `i` takes the place of a choice that it exceeds.
  take :
      (i : ℕ) (best : Option (ℕ × ℕ))
      → removable (s.pg_table i) ≡ true
      → exceeds (s.pg_period i).period best ≡ true
      → IsVictim s i best
      → Longest s (suc i) i (s.pg_period i).period
  take i none e x v = record {
    in_table = omega arith;
    allowed = e;
    is_period = refl;
    longest = λ p h r. elim (lt_suc p i h) [ inl l ↦ cc (v p l) | inr q ↦ rw q (omega arith) ];
  }
  take i (some (page, period)) e x v = record {
    in_table = omega arith;
    allowed = e;
    is_period = refl;
    longest = λ p h r. elim (lt_suc p i h) [
      | inl l ↦ ground (arith, v.longest p l r)
      | inr q ↦ rw q (omega arith)
    ];
  }

  -- A choice that the page `i` does not exceed stays.
  stay :
      (i : ℕ) (best : Option (ℕ × ℕ))
      → exceeds (s.pg_period i).period best ≡ false
      → IsVictim s i best
      → IsVictim s (suc i) best
  stay i none x v = cc
  stay i (some (page, period)) x v = record {
    in_table = omega (arith, v.in_table);
    allowed = v.allowed;
    is_period = v.is_period;
    longest =
        λ p h r. elim (lt_suc p i h) [ inl l ↦ v.longest p l r | inr q ↦ rw q (ground arith) ];
  }

  removal_loop-IsVictim :
      (k i n : ℕ) (best : Option (ℕ × ℕ))
      → k + i ≡ n
      → IsVictim s i best
      → IsVictim s n (removal_loop s k i best)
  unfolding removal_loop
  removal_loop-IsVictim zero i n best e v =
      let p : i ≡ n = omega arith in subst (λ t. IsVictim s t best) p v
  removal_loop-IsVictim (suc k) i n best e v =
      removal_loop-IsVictim k (suc i) n _ (omega arith) (next (Bool-cases _) (Bool-cases _))
    where
      found : Bool
      found = removable (s.pg_table i)

      better : Bool
      better = exceeds (s.pg_period i).period best

      next :
          (found ≡ true) ⊎ (found ≡ false)
          → (better ≡ true) ⊎ (better ≡ false)
          → IsVictim s (suc i) (if found && better then some (i, (s.pg_period i).period) else best)
      next (inl f) (inl b) = rw (f, b) (take i best f b v)
      next (inl f) (inr b) = rw (f, b) (stay i best b v)
      next (inr f) _ = rw f (skip i best f v)

pub get_removal_page-IsVictim : (s : Pager) → IsVictim s s.pg_count (get_removal_page s)
unfolding get_removal_page
get_removal_page-IsVictim s =
    removal_loop-IsVictim s s.pg_count 0 s.pg_count none (omega arith) λ p h. absurd (omega arith)

-- A page in memory that is not in use.
abbrev pub Evictable : PageEnt → Type 0
Evictable e = (e.valid ≡ true) × (e.refcount ≡ 0)

removable_iff : (e : PageEnt) → (removable e ≡ true) ↔ Evictable e
removable_iff e = ground arith

-- What get_removal_page is for, said of its result.
abbrev pub Chosen : Pager → Option (ℕ × ℕ) → Type 0
Chosen s none = (p : ℕ) → p < s.pg_count → ¬ Evictable (s.pg_table p)
Chosen s (some (page, period)) =
    (page < s.pg_count)
    × Evictable (s.pg_table page)
    × (period ≡ (s.pg_period page).period)
    × ((p : ℕ) → p < s.pg_count → Evictable (s.pg_table p) → (s.pg_period p).period ≤ period)

Chosen-of-IsVictim :
    (s : Pager) (best : Option (ℕ × ℕ)) → IsVictim s s.pg_count best → Chosen s best
Chosen-of-IsVictim s none v = λ p h e. cc (v p h, (removable_iff (s.pg_table p)).1 e)
Chosen-of-IsVictim s (some (page, period)) v = (
  v.in_table,
  (removable_iff (s.pg_table page)).0 v.allowed,
  v.is_period,
  λ p h e. v.longest p h ((removable_iff (s.pg_table p)).1 e),
)

-- get_removal_page returns a page that is in memory and not in use, and that has the longest period
-- of those, and returns -1 only where there is no such page.
pub get_removal_page_lem : (s : Pager) → Chosen s (get_removal_page s)
get_removal_page_lem s = Chosen-of-IsVictim s (get_removal_page s) (get_removal_page-IsVictim s)

find_free_cases :
    (free : ℕ → Bool) (k i n : ℕ)
    → k + i ≡ n
    → ((free (find_free free k i) ≡ true) × (find_free free k i < n))
      ⊎ ((find_free free k i ≡ n) × ((j : ℕ) → i ≤ j → j < n → free j ≡ false))
unfolding find_free
find_free_cases free zero i n e = inr (omega arith, λ j h l. absurd (omega arith))
find_free_cases free (suc k) i n e = elim (Bool-cases (free i)) [
  | inl f ↦ inl (rw f f, rw f (omega arith))
  | inr f ↦ rw f (elim (find_free_cases free k (suc i) n (omega arith)) [
    | inl found ↦ inl found
    | inr (q, all) ↦
        inr (q, λ j h l. elim (lt_suc i j (omega arith)) [ inl m ↦ all j m l | inr q ↦ rw (← q) f ])
  ])
]

-- The search for a frame finds one that is free, or reaches frame_count and none is free.
pub first_free_cases :
    (s : Pager)
    → ((s.free_frames (first_free s) ≡ true) × (first_free s < frame_count s))
      ⊎ ((first_free s ≡ frame_count s) × ((j : ℕ) → j < frame_count s → s.free_frames j ≡ false))
unfolding first_free
first_free_cases s =
    elim (find_free_cases s.free_frames (frame_count s) 0 (frame_count s) (omega arith)) [
      | inl h ↦ inl h
      | inr (e, all) ↦ inr (e, λ j l. all j (omega arith) l)
    ]
