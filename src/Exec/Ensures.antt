-- ===== src/Exec/Ensures.antt =====
-- What holds of the value that an action returns, if it returns one.
use steerd_presto_operator.Base.{Bool, true, false, if◌then◌else◌}
use steerd_presto_operator.Exec.Fallible.{Error, Result, ok, err}
use steerd_presto_operator.Exec.{
  Exec, Outcome, done, failed, panicked, continue, pure, raise, ◌>>=◌,
}

-- Failures and panics return nothing.
abbrev pub Returns : {A : Type 0} → (A → Type 0) → Outcome A → Type 0
Returns P (done a) = P a
Returns P (failed e) = Unit {0}
Returns P panicked = Unit {0}

pub record Ensures {S A : Type 0} (P : A → Type 0) (m : Exec S A) : Type 0 where
  pub ensures : (s : S) → Returns P (m s).0

module _ {S A : Type 0} (P : A → Type 0) where
  pub Ensures-pure : (a : A) → P a → Ensures {S = S} P (pure a)
  unfolding pure
  Ensures-pure a h = record { ensures = λ s. h }

  pub Ensures-raise : (e : Error) → Ensures {S = S} P (raise e)
  unfolding raise
  Ensures-raise e = record { ensures = λ s. tt }

  pub Ensures-if :
      (b : Bool) {m n : Exec S A} → Ensures P m → Ensures P n → Ensures P (if b then m else n)
  Ensures-if true h k = h
  Ensures-if false h k = k

  module _ {B : Type 0} where
    pub Ensures-Result :
        {f : Error → Exec S A} {g : B → Exec S A} (r : Result B)
        → ((e : Error) → Ensures P (f e))
        → ((b : B) → Ensures P (g b))
        → Ensures P (elim r [ err e ↦ f e | ok b ↦ g b ])
    Ensures-Result (err e) h k = h e
    Ensures-Result (ok b) h k = k b

    continue-Returns :
        (f : B → Exec S A)
        → ((b : B) → Ensures P (f b))
        → (r : Outcome B × S) → Returns P (continue r f).0
    continue-Returns f k (done b, s) = (k b).ensures s
    continue-Returns f k (failed e, s) = tt
    continue-Returns f k (panicked, s) = tt

    -- The value of a sequence is that of its last part.
    pub Ensures->>= :
        (m : Exec S B) {f : B → Exec S A} → ((b : B) → Ensures P (f b)) → Ensures P (m >>= f)
    unfolding ◌>>=◌
    Ensures->>= m {f} k = record { ensures = λ s. continue-Returns f k (m s) }
