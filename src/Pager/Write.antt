-- ===== src/Pager/Write.antt =====
-- Writes to the virtual address space: through a physical address (get_wordref of mem.c), and
-- behind the back of the pages in memory (page_store of pagemem.c).
use brain_project.Prelude.{
  ℕ, ◌+◌, ◌*◌, ◌/◌, ◌%◌, ◌<◌, ◌≡◌, ◌≢◌, refl, arith, true, false, if◌then◌else◌, ◌==◌, some, ap,
  ◌∙◌, sym, set, set_self, set_ne, Bool-cases, inl, inr, cases_eq, lt_cases, subst,
}
use native.Mathlib.Nat.{mod-lt}
use brain_project.Word.{Word}
use brain_project.Layout.{vaddr_size}
use brain_project.Pager.{Pager, page_write}
use brain_project.Pager.Inv.{Placed, Inv, view, page-lt}

-- A store through a reference.
abbrev pub write_word : Pager → ℕ → Word → Pager
write_word s a x = record s { mem = set s.mem a x }

-- The physical address of a virtual address whose page is in memory.
abbrev pub address : Pager → ℕ → ℕ
address s w = (s.pg_table (w / s.pg_size)).frame_addr + w % s.pg_size

split_eq : (a b n k l : ℕ) → k < n → l < n → a * n + k ≡ b * n + l → (a ≡ b) × (k ≡ l)
split_eq a b n k l hk hl e = elim (lt_cases a b) [
  | inl p ↦ (p, rest p)
  | inr (inl p) ↦ absurd (apart a b n k l hk p e)
  | inr (inr p) ↦ absurd (apart b a n l k hl p (sym e))
]
  where
    rest : a ≡ b → k ≡ l
    rest p = let q = ap (λ (t : ℕ). t * n) p in omega arith

    apart : (a b n k l : ℕ) → k < n → a < b → a * n + k ≢ b * n + l
    apart a b n k l h p e = grind arith

div_mod_eq : (u w n : ℕ) → u / n ≡ w / n → u % n ≡ w % n → u ≡ w
div_mod_eq u w n e f = grind arith

-- The test of a number against itself, and against another one.
if_self {ℓ} : {A : Type ℓ} (w : ℕ) (x y : A) → (if w == w then x else y) ≡ x
if_self w x y = ground arith

if_ne {ℓ} : {A : Type ℓ} (w u : ℕ) (x y : A) → w ≢ u → (if w == u then x else y) ≡ y
if_ne w u x y n = ground arith

module _ {s : Pager} (v : Inv s) where
  -- Addresses of two pages in memory differ if the virtual ones do.
  address-injective :
      (u w : ℕ)
      → u < vaddr_size
      → w < vaddr_size
      → (s.pg_table (u / s.pg_size)).valid ≡ true
      → (s.pg_table (w / s.pg_size)).valid ≡ true
      → address s u ≡ address s w
      → u ≡ w
  address-injective u w hu hw ru rw' e =
      let home_u : Placed s (u / s.pg_size) = v.placed _ (page-lt v u hu) ru in
      let home_w : Placed s (w / s.pg_size) = v.placed _ (page-lt v w hw) rw' in
      let (f, k) =
        split_eq home_u.frame home_w.frame s.pg_size (u % s.pg_size) (w % s.pg_size)
          (mod-lt u v.size_pos) (mod-lt w v.size_pos)
          (sym (ap (λ (n : ℕ). n + u % s.pg_size) home_u.starts)
            ∙ e
            ∙ ap (λ (n : ℕ). n + w % s.pg_size) home_w.starts) in
      div_mod_eq u w s.pg_size
        (v.apart _ _ (page-lt v u hu) (page-lt v w hw) ru rw'
          (home_u.starts ∙ ap (λ (n : ℕ). n * s.pg_size) f ∙ sym home_w.starts))
        k

  -- A store through the reference of an address changes the word of that address and no other.
  pub view-write_word :
      (w : ℕ) (x : Word)
      → w < vaddr_size
      → (s.pg_table (w / s.pg_size)).valid ≡ true
      → (u : ℕ) → u < vaddr_size
      → view (write_word s (address s w) x) u ≡ (if w == u then x else view s u)
  view-write_word w x hw r u hu = elim (cases_eq w u) [
    | inl e ↦
        subst (λ t. view (write_word s (address s w) x) t ≡ (if w == t then x else view s t)) e own
    | inr n ↦ other n ∙ sym (if_ne w u x (view s u) n)
  ]
    where
      own : view (write_word s (address s w) x) w ≡ (if w == w then x else view s w)
      own = rw r (set_self s.mem (address s w) x) ∙ sym (if_self w x (view s w))

      other : w ≢ u → view (write_word s (address s w) x) u ≡ view s u
      other n = elim (Bool-cases (s.pg_table (u / s.pg_size)).valid) [
        | inl ru ↦
            rw ru (
              set_ne s.mem (address s w) (address s u) x
                λ e. n (address-injective w u hw hu r ru e))
        | inr ru ↦ rw ru refl
      ]

  abbrev stored_word : ℕ → Word → Pager
  stored_word w x = record s { page_mem = set s.page_mem w x }

  div_mod : (u : ℕ) → u / s.pg_size * s.pg_size + u % s.pg_size ≡ u
  div_mod u = grind (arith, v.size_pos)

  own :
      (w : ℕ) (x : Word)
      → (s.pg_table (w / s.pg_size)).valid ≡ false
      → view (stored_word w x) w ≡ (if w == w then x else view s w)
  own w x r = rw (r, div_mod w) (set_self s.page_mem w x) ∙ sym (if_self w x (view s w))

  other : (w : ℕ) (x : Word) (u : ℕ) → w ≢ u → view (stored_word w x) u ≡ view s u
  other w x u n = elim (Bool-cases (s.pg_table (u / s.pg_size)).valid) [
    | inl ru ↦ rw ru refl
    | inr ru ↦ rw (ru, div_mod u) (set_ne s.page_mem w u x n)
  ]

  -- page_store writes to secondary storage only. For a page that is not in memory this changes the word
  -- of the address and no other.
  pub view-page_write :
      (w : ℕ) (x : Word)
      → w < vaddr_size
      → (s.pg_table (w / s.pg_size)).valid ≡ false
      → (s' : Pager) × (page_write w x s ≡ some (tt, s'))
        × ((u : ℕ) → u < vaddr_size → view s' u ≡ (if w == u then x else view s u))
  unfolding page_write
  view-page_write w x hw r = (
    record s { page_mem = set s.page_mem w x },
    ground arith,
    λ u hu. elim (cases_eq w u) [
      | inl e ↦
          subst (λ t. view (stored_word w x) t ≡ (if w == t then x else view s t)) e (own w x r)
      | inr n ↦ other w x u n ∙ sym (if_ne w u x (view s u) n)
    ],
  )

  -- page_store to a word whose page is in memory succeeds and changes no word of the virtual space,
  -- that of the address included.
  page_write_lost :
      (w : ℕ) (x : Word)
      → w < vaddr_size
      → (s.pg_table (w / s.pg_size)).valid ≡ true
      → (s' : Pager) × (page_write w x s ≡ some (tt, s'))
        × ((u : ℕ) → u < vaddr_size → view s' u ≡ view s u)
  unfolding page_write
  page_write_lost w x hw r = (
    stored_word w x,
    ground arith,
    λ u hu. elim (cases_eq w u) [
      | inl e ↦ subst (λ t. view (stored_word w x) t ≡ view s t) e (rw r refl)
      | inr n ↦ other w x u n
    ],
  )
