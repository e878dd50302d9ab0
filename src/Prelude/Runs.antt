-- ===== src/Prelude/Runs.antt =====
-- What holds of the results of a run, and the rules for the parts that a run is built of.
use mathlib.Core.Path.{◌≡◌, refl, sym, ap, subst, ◌∙◌}
use mathlib.Core.Bool.{Bool, true, false}
use mathlib.Core.Option.{Option, none, some}
use brain_project.Prelude.Tests.{if◌then◌else◌}
use brain_project.Prelude.State.{Run, ◌>>=◌, bind_none, bind_some}

-- The run faults, or ends with a value and a state that `Q` holds of.
pub data After {S A : Type 0} (Q : A → S → Type 0) (r : Option (A × S)) : Type 0 where
  faults : r ≡ none → After Q r
  ends : (a : A) (s : S) → r ≡ some (a, s) → Q a s → After Q r

result_or : {B : Type 0} → B → Option B → B
result_or b none = b
result_or b (some c) = c

pub After-result :
    {S A : Type 0} {Q : A → S → Type 0} {r : Option (A × S)} (a : A) (s : S)
    → r ≡ some (a, s)
    → After Q r
    → Q a s
unfolding result_or
After-result a s f (faults e) = cc
After-result {S} {A} {Q} a s f (ends b t e h) =
    subst (λ (x : A × S). Q x.0 x.1) (ap (result_or (b, t)) (sym e ∙ f)) h

pub After-≡ :
    {S A : Type 0} {Q : A → S → Type 0} {q r : Option (A × S)} → q ≡ r → After Q r → After Q q
After-≡ e (faults g) = faults (e ∙ g)
After-≡ e (ends b t g h) = ends b t (e ∙ g) h

pub After-bind :
    {S A B : Type 0} {P : A → S → Type 0} {Q : B → S → Type 0} (m : Run S A) (f : A → Run S B)
    (s : S)
    → After P (m s)
    → ((a : A) (s' : S) → P a s' → After Q (f a s'))
    → After Q ((m >>= f) s)
After-bind m f s (faults e) k = faults (bind_none m f s e)
After-bind m f s (ends a s' e h) k = After-≡ (bind_some m f s e) (k a s' h)

-- As `After-bind`, with the run of the first part at hand.
pub After-step :
    {S A B : Type 0} {P : A → S → Type 0} {Q : B → S → Type 0} (m : Run S A) (f : A → Run S B)
    (s : S)
    → After P (m s)
    → ((a : A) (s' : S) → m s ≡ some (a, s') → P a s' → After Q (f a s'))
    → After Q ((m >>= f) s)
After-step m f s (faults e) k = faults (bind_none m f s e)
After-step m f s (ends a s' e h) k = After-≡ (bind_some m f s e) (k a s' e h)

pub After-if :
    {S A : Type 0} {Q : A → S → Type 0} (b : Bool) (m n : Run S A) (s : S)
    → After Q (m s)
    → After Q (n s)
    → After Q ((if b then m else n) s)
After-if true m n s x y = x
After-if false m n s x y = y

pub After-option :
    {S A B : Type 0} {Q : B → S → Type 0} (o : Option A) (m : Run S B) (f : A → Run S B) (s : S)
    → After Q (m s)
    → ((a : A) → After Q (f a s))
    → After Q ((elim o as (λ _. Run S B) [ none ↦ m | some a ↦ f a ]) s)
After-option none m f s x y = x
After-option (some a) m f s x y = y a

pub After-mono :
    {S A : Type 0} {P Q : A → S → Type 0} {r : Option (A × S)}
    → ((a : A) (s : S) → P a s → Q a s)
    → After P r
    → After Q r
After-mono k (faults e) = faults e
After-mono k (ends a s e h) = ends a s e (k a s h)

pub After-any : {S A : Type 0} (r : Option (A × S)) → After (λ _ _. Unit {0}) r
After-any none = faults refl
After-any (some (a, s)) = ends a s refl tt

-- The run ends with a value and a state that `Q` holds of.
abbrev pub Returns : {S A : Type 0} → (A → S → Type 0) → Option (A × S) → Type 0
Returns {S} {A} Q r = (a : A) × (s : S) × (r ≡ some (a, s)) × Q a s

pub Returns-bind :
    {S A B : Type 0} {P : A → S → Type 0} {Q : B → S → Type 0} (m : Run S A) (f : A → Run S B)
    (s : S)
    → Returns P (m s)
    → ((a : A) (s' : S) → P a s' → Returns Q (f a s'))
    → Returns Q ((m >>= f) s)
Returns-bind m f s (a, s', e, h) k = let (b, t, g, q) = k a s' h in (b, t, bind_some m f s e ∙ g, q)

pub Returns-if :
    {S A : Type 0} {Q : A → S → Type 0} (b : Bool) (m n : Run S A) (s : S)
    → Returns Q (m s)
    → Returns Q (n s)
    → Returns Q ((if b then m else n) s)
Returns-if true m n s x y = x
Returns-if false m n s x y = y

pub Returns-After :
    {S A : Type 0} {Q : A → S → Type 0} {r : Option (A × S)} → Returns Q r → After Q r
Returns-After (a, s, e, h) = ends a s e h

pub Returns-≡ :
    {S A : Type 0} {Q : A → S → Type 0} {q r : Option (A × S)} → q ≡ r → Returns Q r → Returns Q q
Returns-≡ e (a, s, f, h) = (a, s, e ∙ f, h)
