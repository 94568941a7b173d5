-- ===== src/Base/Errors.antt =====
-- A Go pair `(value, error)`, and chains of such calls.
use Prim.Native.String.{String}
use mathlib.Core.Path.{◌≡◌, refl}
use mathlib.Core.Logic.{◌⊎◌, inl, inr}

-- An error is known by its text.
abbrev pub Error : Type 0
Error = String

pub data Result {ℓ} (V : Type ℓ) : Type ℓ where
  ok : V → Result V
  err : Error → Result V

-- `v, err := …; if err != nil { return err }`.
infixl 5 ◌>>=◌
abbrev pub ◌>>=◌ {ℓ κ} : {V : Type ℓ} {W : Type κ} → Result V → (V → Result W) → Result W
◌>>=◌ outcome next = elim outcome [ ok value ↦ next value | err message ↦ err message ]

pub Result-cases {ℓ} :
    {V : Type ℓ} (o : Result V) → ((v : V) × (o ≡ ok v)) ⊎ ((e : Error) × (o ≡ err e))
Result-cases (ok v) = inl (v, refl)
Result-cases (err e) = inr (e, refl)
