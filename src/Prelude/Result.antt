-- ===== src/Prelude/Result.antt =====
-- What a Go function returns as a value and an error: the error where there is one, else the value.
use mathlib.Core.Path.{◌≡◌, refl}
use mathlib.Core.Logic.{◌⊎◌, inl, inr}

pub data Result {ℓ} (Fault Value : Type ℓ) : Type ℓ where
  err : Fault → Result Fault Value
  ok : Value → Result Fault Value

pub Result-cases {ℓ} :
    {Fault Value : Type ℓ} (r : Result Fault Value)
    → ((f : Fault) × (r ≡ err f)) ⊎ ((a : Value) × (r ≡ ok a))
Result-cases (err f) = inl (f, refl)
Result-cases (ok a) = inr (a, refl)
