-- ===== src/Prelude/State.antt =====
-- Stateful code with undefined behaviour: `none` is a fault (a NULL dereference, an index outside
-- an array). Return codes are values, so what was written before an error stays written.
use mathlib.Core.Path.{◌≡◌, refl, sym, ◌∙◌}
use mathlib.Core.Option.{Option, none, some}

abbrev pub Run : Type 0 → Type 0 → Type 0
Run S A = S → Option (A × S)

module _ {S : Type 0} where
  abbrev pub pure : {A : Type 0} → A → Run S A
  pure a s = some (a, s)

  abbrev pub fault : {A : Type 0} → Run S A
  fault s = none

  abbrev pub get : Run S S
  get s = some (s, s)

  abbrev pub put : S → Run S (Unit {0})
  put s' s = some (tt, s')

  abbrev pub modify : (S → S) → Run S (Unit {0})
  modify f s = some (tt, f s)

  infixl 5 ◌>>=◌ ◌>>◌
  abbrev pub ◌>>=◌ : {A B : Type 0} → Run S A → (A → Run S B) → Run S B
  ◌>>=◌ m f s = elim (m s) [ none ↦ none | some (a, s') ↦ f a s' ]

  abbrev pub ◌>>◌ : {B : Type 0} → Run S (Unit {0}) → Run S B → Run S B
  m >> k = m >>= λ _. k

-- A part that returns hands its value and state to the rest.
pub bind_some :
    {S A B : Type 0} (m : Run S A) (f : A → Run S B) (s : S) {s' : S} {a : A}
    → m s ≡ some (a, s')
    → (m >>= f) s ≡ f a s'
bind_some m f s e = rw (e, ◌>>=◌)

-- A part that faults makes the whole fault.
pub bind_none :
    {S A B : Type 0} (m : Run S A) (f : A → Run S B) (s : S) → m s ≡ none → (m >>= f) s ≡ none
bind_none m f s e = rw (e, ◌>>=◌)

-- Two runs of the same first part agree if what follows agrees on its results.
pub bind-cong :
    {S A B : Type 0} (m : Run S A) (f g : A → Run S B) (s : S)
    → ((a : A) (s' : S) → m s ≡ some (a, s') → f a s' ≡ g a s')
    → (m >>= f) s ≡ (m >>= g) s
bind-cong {S} {A} {B} m f g s h = go (m s) refl
  where
    go : (r : Option (A × S)) → m s ≡ r → (m >>= f) s ≡ (m >>= g) s
    go none e = bind_none m f s e ∙ sym (bind_none m g s e)
    go (some (a, s')) e = bind_some m f s e ∙ h a s' e ∙ sym (bind_some m g s e)

pub bind_assoc :
    {S A B C : Type 0} (m : Run S A) (f : A → Run S B) (g : B → Run S C) (s : S)
    → (m >>= λ a. f a >>= g) s ≡ ((m >>= f) >>= g) s
bind_assoc {S} {A} {B} {C} m f g s = go (m s) refl
  where
    go : (r : Option (A × S)) → m s ≡ r → (m >>= λ a. f a >>= g) s ≡ ((m >>= f) >>= g) s
    go none e = bind_none m _ s e ∙ sym (bind_none (m >>= f) g s (bind_none m f s e))
    go (some (a, s')) e = rw (◌>>=◌, e) refl
