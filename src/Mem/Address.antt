-- ===== src/Mem/Address.antt =====
-- Base and limit (get_global_address of mem.c).
use brain_project.Prelude.{
  ℕ, ◌+◌, ◌<◌, ◌≤◌, ◌≡◌, ◌≢◌, ◌⊎◌, inl, inr, refl, arith, Bool-cases, ltb, ltb→lt, ℤ, pos, negsuc,
  minus_one, ◌∙◌, sym, subst,
}
use brain_project.Word.Decimal.{IsNumeric, value, word2int_split}
use brain_project.Proc.{Proc}
use brain_project.Mem.{get_global_address, translate}

-- The registers are numerals, and `g` is the word number `addr` of the region that they describe.
pub record InRegion (p : Proc) (addr : ℤ) (g : ℕ) : Type 0 where
  pub offset : ℕ
  pub is_offset : addr ≡ pos offset
  pub base_numeric : IsNumeric p.br
  pub limit_numeric : IsNumeric p.lr
  pub within : offset ≤ value p.lr
  pub is_global : g ≡ value p.br + offset

-- Why an address is refused.
pub data Rejected (p : Proc) : ℤ → Type 0 where
  negative : (n : ℕ) → Rejected p (negsuc n)
  bad_base : {addr : ℤ} → (¬ IsNumeric p.br) → Rejected p addr
  bad_limit : {addr : ℤ} → (¬ IsNumeric p.lr) → Rejected p addr
  past_limit : (n : ℕ) → value p.lr < n → Rejected p (pos n)

-- get_global_address either refuses an address, for one of the four reasons, and returns -1, or
-- returns the address of that word in the region of the process.
pub get_global_address_cases :
    (p : Proc) (addr : ℤ)
    → ((get_global_address p addr ≡ minus_one) × Rejected p addr)
      ⊎ ((g : ℕ) × (get_global_address p addr ≡ pos g) × InRegion p addr g)
unfolding get_global_address
get_global_address_cases p (negsuc n) = inl (refl, negative n)
get_global_address_cases p (pos n) = elim (word2int_split p.br) [
  | inl (d, e) ↦ inl (rw (e, translate) refl, bad_base d)
  | inr (d, e) ↦ elim (word2int_split p.lr) [
    | inl (d', f) ↦ inl (rw (e, f, translate) refl, bad_limit d')
    | inr (d', f) ↦ elim (Bool-cases (ltb (value p.lr) n)) [
      | inl past ↦ inl (rw (e, f, translate, past) refl, past_limit n (ltb→lt _ _ past))
      | inr inside ↦ inr (
        value p.br + n,
        rw (e, f, translate, inside) refl,
        record {
          offset = n;
          is_offset = refl;
          base_numeric = d;
          limit_numeric = d';
          within = ground arith;
          is_global = refl;
        },
      )
    ]
  ]
]

-- An address that is translated lies in the region.
pub InRegion-of-global :
    (p : Proc) (addr : ℤ) (g : ℕ) → get_global_address p addr ≡ pos g → InRegion p addr g
InRegion-of-global p addr g e = elim (get_global_address_cases p addr) [
  | inl (f, _) ↦ cc
  | inr (h, f, region) ↦ subst (InRegion p addr) (pos-injective (sym f ∙ e)) region
]
  where
    pos-injective : {m n : ℕ} → pos m ≡ pos n → m ≡ n
    pos-injective q = ground arith

-- One region ends before the other begins.
abbrev pub Separate : Proc → Proc → Type 0
Separate p q = (value p.br + value p.lr < value q.br) ⊎ (value q.br + value q.lr < value p.br)

-- Processes with separate regions never reach the same word.
pub regions_apart :
    (p q : Proc) (a b : ℤ) (g h : ℕ)
    → Separate p q
    → get_global_address p a ≡ pos g
    → get_global_address q b ≡ pos h
    → g ≢ h
regions_apart p q a b g h sep e f same =
    let x = InRegion-of-global p a g e in
    let y = InRegion-of-global q b h f in
    absurd (omega (arith, x.within, x.is_global, y.within, y.is_global))
