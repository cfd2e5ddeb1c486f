-- ===== src/Exec/Fallible.antt =====
-- Errors as values: pkg/controller/presto/errors.go, the errors of the Kubernetes API machinery,
-- and functions that return a value and an error.
use steerd_presto_operator.Base.{String, ◌≡◌, refl, Bool, true, false}

-- The reason of an API error, as far as `errors.IsNotFound` and `errors.IsAlreadyExists` ask.
pub data Reason : Type 0 where
  not_found already_exists other : Reason

pub data Error : Type 0 where
  operator_error : String → Error
  api_error : Reason → String → Error

-- `Error()`
unfoldable pub message : Error → String
message (operator_error errormsg) = errormsg
message (api_error reason text) = text

unfoldable pub is_not_found : Error → Bool
is_not_found (api_error not_found text) = true
is_not_found e = false

unfoldable pub is_already_exists : Error → Bool
is_already_exists (api_error already_exists text) = true
is_already_exists e = false

-- A function that returns `(value, error)`.
pub data Result {ℓ} (A : Type ℓ) : Type ℓ where
  ok : A → Result A
  err : Error → Result A

abbrev pub is_ok {ℓ} : {A : Type ℓ} → Result A → Bool
is_ok (ok a) = true
is_ok (err e) = false

module _ {ℓ κ} {A : Type ℓ} {B : Type κ} where
  infixl 5 ◌>>=◌
  -- The rest of the function runs only on a value.
  abbrev pub ◌>>=◌ : Result A → (A → Result B) → Result B
  err e >>= next = err e
  ok value >>= next = next value

  -- What returned a value has gone through both of its parts.
  pub >>=-eq-ok :
      (first : Result A) (next : A → Result B) {b : B}
      → (first >>= next) ≡ ok b
      → (value : A) × (first ≡ ok value) × (next value ≡ ok b)
  >>=-eq-ok (err e) next h = cc
  >>=-eq-ok (ok value) next h = (value, refl, h)
