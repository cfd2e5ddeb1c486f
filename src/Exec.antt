-- ===== src/Exec.antt =====
-- Methods that change shared state, fail and panic.
pub mod Fallible
pub mod Ensures
pub use Fallible.{Error, Result, ok, err}
use steerd_presto_operator.Base.{Option, none, some}

-- `panicked` is a run-time panic: a nil dereference, or a slice or an index out of range.
pub data Outcome {ℓ} (A : Type ℓ) : Type ℓ where
  done : A → Outcome A
  failed : Error → Outcome A
  panicked : Outcome A

-- What a method has written before it fails or panics stays written.
abbrev pub Exec {ℓ} : Type ℓ → Type ℓ → Type ℓ
Exec S A = S → Outcome A × S

abbrev pub of_result {ℓ} : {A : Type ℓ} → Result A → Outcome A
of_result (ok a) = done a
of_result (err e) = failed e

-- `*p`
abbrev pub of_pointer {ℓ} : {A : Type ℓ} → Option A → Outcome A
of_pointer none = panicked
of_pointer (some a) = done a

module _ {ℓ} {S A : Type ℓ} where
  unfoldable pub pure : A → Exec S A
  pure a s = (done a, s)

  unfoldable pub raise : Error → Exec S A
  raise e s = (failed e, s)

  unfoldable pub panic : Exec S A
  panic s = (panicked, s)

  unfoldable pub lift : Result A → Exec S A
  lift r s = (of_result r, s)

  unfoldable pub deref : Option A → Exec S A
  deref p s = (of_pointer p, s)

  unfoldable pub gets : (S → A) → Exec S A
  gets f s = (done (f s), s)

  abbrev pub to_result : Outcome A × S → Outcome (Result A) × S
  to_result (done a, s) = (done (ok a), s)
  to_result (failed e, s) = (done (err e), s)
  to_result (panicked, s) = (panicked, s)

  -- The caller looks at the error itself. A panic goes through.
  unfoldable pub attempt : Exec S A → Exec S (Result A)
  attempt m s = to_result (m s)

module _ {ℓ} {S A B : Type ℓ} where
  abbrev pub continue : Outcome A × S → (A → Exec S B) → Outcome B × S
  continue (done a, s) f = f a s
  continue (failed e, s) f = (failed e, s)
  continue (panicked, s) f = (panicked, s)

  infixl 5 ◌>>=◌ ◌>>◌
  -- Opening this opens the other actions too.
  unfoldable pub ◌>>=◌ : Exec S A → (A → Exec S B) → Exec S B
  unfolding pure raise panic lift deref gets attempt
  ◌>>=◌ m f s = continue (m s) f

  abbrev pub ◌>>◌ : Exec S A → Exec S B → Exec S B
  m >> n = m >>= λ _. n
