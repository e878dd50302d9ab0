-- ===== src/Prelude/Array.antt =====
-- Arrays as functions of an index: a write at one index, and `memcpy` of a run of entries.
use Prim.Native.Nat.{ℕ, ◌+◌, ◌*◌, ◌-◌, ◌≤◌, ◌<◌}
use mathlib.Core.Path.{◌≡◌, refl, ap, subst, ◌∙◌}
use mathlib.Core.Logic.{◌≢◌, inl, inr}
use mathlib.Core.Bool.{◌&&◌}
use native.Mathlib.Omega.{arith}
use brain_project.Prelude.Tests.{
  ltb, leb, ◌==◌, if◌then◌else◌, Bool-cases, ==_iff, lt_cases, cases_eq,
}

-- Block number `i` of `n` entries ends before a later block begins.
block-le : (i b n : ℕ) → i < b → i * n + n ≤ b * n
block-le i b n h = grind arith

-- The test of `copy` for the start of a block holds in that block alone.
in_block :
    (i b n k : ℕ) → k < n → (leb (i * n) (b * n + k) && ltb (b * n + k) (i * n + n)) ≡ (i == b)
in_block i b n k h = elim (lt_cases i b) [
  | inl e ↦ rw e (ground arith)
  | inr (inl l) ↦ ground (arith, block-le i b n l)
  | inr (inr l) ↦ ground (arith, block-le b i n l)
]

module _ {A : Type 0} where
  unfoldable pub set : (ℕ → A) → ℕ → A → ℕ → A
  set f i v j = if i == j then v else f j

  pub set_self : (f : ℕ → A) (i : ℕ) (v : A) → set f i v i ≡ v
  unfolding set
  set_self f i v = ground arith

  pub set_ne : (f : ℕ → A) (i j : ℕ) (v : A) → i ≢ j → set f i v j ≡ f j
  unfolding set
  set_ne f i j v h = ground arith

  -- `for (i=0; i<n; i++) f[i] = v;`
  unfoldable pub fill_first : (ℕ → A) → ℕ → A → ℕ → A
  fill_first f n v j = if ltb j n then v else f j

  -- memcpy of `n` entries, from `src` at `from` to `dst` at `at`.
  unfoldable pub copy : (ℕ → A) → ℕ → (ℕ → A) → ℕ → ℕ → ℕ → A
  copy dst at src from n j = if leb at j && ltb j (at + n) then src (j - at + from) else dst j

  -- Copied blocks of `n` entries: block number `i` changes, every other block stays.
  pub copy-block :
      (dst src : ℕ → A) (i b from n k : ℕ)
      → k < n
      → copy dst (i * n) src from n (b * n + k)
        ≡ (if i == b then src (k + from) else dst (b * n + k))
  unfolding copy
  copy-block dst src i b from n k h = rw (in_block i b n k h) (elim (Bool-cases (i == b)) [
    | inl e ↦ rw e (ap (λ (t : ℕ). src (t + from)) (offset ((==_iff i b).0 e)))
    | inr e ↦ rw e refl
  ])
    where
      offset : i ≡ b → b * n + k - i * n ≡ k
      offset p = rw p (omega arith)

-- A write that leaves a field of the entry alone leaves that field of every entry alone.
pub set-field :
    {A B : Type 0} (g : A → B) (f : ℕ → A) (i : ℕ) (v : A)
    → g v ≡ g (f i)
    → (j : ℕ) → g (set f i v j) ≡ g (f j)
set-field g f i v e j = elim (cases_eq i j) [
  | inl p ↦ subst (λ t. g (set f i v t) ≡ g (f t)) p (ap g (set_self f i v) ∙ e)
  | inr n ↦ ap g (set_ne f i j v n)
]
