-- ===== src/Base/Panics.antt =====
-- A Go call that may panic: it returns a value, or it panics.
use mathlib.Core.Path.{◌≡◌, refl}
use mathlib.Core.Logic.{◌⊎◌, inl, inr}

pub data Outcome {ℓ} (A : Type ℓ) : Type ℓ where
  returns : A → Outcome A
  panics : Outcome A

infixl 5 ◌>>=◌
abbrev pub ◌>>=◌ {ℓ κ} : {A : Type ℓ} {B : Type κ} → Outcome A → (A → Outcome B) → Outcome B
returns a >>= f = f a
panics >>= f = panics

pub Outcome-cases {ℓ} : {A : Type ℓ} (o : Outcome A) → (o ≡ panics) ⊎ ((a : A) × (o ≡ returns a))
Outcome-cases (returns a) = inr (a, refl)
Outcome-cases panics = inl refl
