-- ===== src/Prelude/Results.antt =====
-- How a call of the program can end: with a value, at a failed `assert`, in behaviour that the
-- language leaves undefined, or with an exception.
use mathlib.Core.Path.{◌≡◌, refl}
use mathlib.Core.Logic.{◌⊎◌, inl, inr}

pub data Fault : Type 0 where
  assertion undefined thrown : Fault

pub data Outcome {ℓ} (A : Type ℓ) : Type ℓ where
  ok : A → Outcome A
  fault : Fault → Outcome A

infixl 5 ◌>>=◌
abbrev pub ◌>>=◌ {ℓ κ} : {A : Type ℓ} {B : Type κ} → Outcome A → (A → Outcome B) → Outcome B
ok a >>= f = f a
fault e >>= f = fault e

pub Outcome-cases {ℓ} :
    {A : Type ℓ} (o : Outcome A) → ((f : Fault) × (o ≡ fault f)) ⊎ ((a : A) × (o ≡ ok a))
Outcome-cases (ok a) = inr (a, refl)
Outcome-cases (fault f) = inl (f, refl)
