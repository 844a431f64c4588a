-- ===== src/Prelude/Outcome.antt =====
-- The exceptions that the services throw, by their HTTP class and their message (without the
-- values that a message quotes), and the result of a call that may throw.
use Prim.Native.String.{String}
use mathlib.Core.Path.{◌≡◌, refl}
use mathlib.Core.Logic.{◌⊎◌, inl, inr}
use mathlib.Core.Bool.{Bool, true, false}
use mathlib.Core.Option.{Option, none, some}

pub data Error : Type 0 where
  bad_request not_found conflict forbidden plain_error : String → Error

-- The value of a call, or what it throws.
pub data Result {ℓ} (Value : Type ℓ) : Type ℓ where
  ok : Value → Result Value
  err : Error → Result Value

-- `if (c) throw e`
abbrev pub throw_if : Bool → Error → Result (Unit {0})
throw_if true e = err e
throw_if false e = ok tt

module _ {ℓ} {A : Type ℓ} where
  -- `if (!x) throw e`
  abbrev pub or_throw : Option A → Error → Result A
  or_throw none e = err e
  or_throw (some a) e = ok a

  pub Result-cases : (r : Result A) → ((e : Error) × (r ≡ err e)) ⊎ ((a : A) × (r ≡ ok a))
  Result-cases (err thrown) = inl (thrown, refl)
  Result-cases (ok value) = inr (value, refl)

module _ {κ} {B : Type κ} where
  infixl 5 ◌>>=◌ ◌>>◌
  -- A call and what is done with its value; a call that throws ends it.
  abbrev pub ◌>>=◌ {ℓ} : {A : Type ℓ} → Result A → (A → Result B) → Result B
  err thrown >>= next = err thrown
  ok value >>= next = next value

  abbrev pub ◌>>◌ : Result (Unit {0}) → Result B → Result B
  check >> next = elim check [ ok _ ↦ next | err thrown ↦ err thrown ]

  pub >>=-eq-ok {ℓ} :
      {A : Type ℓ} (call : Result A) (next : A → Result B) {b : B}
      → (call >>= next) ≡ ok b
      → (a : A) × (call ≡ ok a) × (next a ≡ ok b)
  >>=-eq-ok (err thrown) next h = cc
  >>=-eq-ok (ok value) next h = (value, refl, h)
