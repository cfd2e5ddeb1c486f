-- ===== src/Calls/Rules.antt =====
-- What has been sent after a part, by what has been sent after its parts.
use steerd_presto_operator.Base.{
  Bool, true, false, Option, none, some, List, [], ◌∷◌, if◌then◌else◌,
}
use steerd_presto_operator.Exec.{
  Error, Result, ok, err, Outcome, done, failed, panicked, pure, raise, attempt, lift, deref, gets,
  to_result, continue, Exec, ◌>>=◌,
}

-- `D` holds of the value and the log where there is a value, and `F` of the log where there is none.
abbrev pub Ends : {A L : Type 0} → (A → L → Type 0) → (L → Type 0) → Outcome A → L → Type 0
Ends D F (done a) l = D a l
Ends D F (failed e) l = F l
Ends D F panicked l = F l

pub Ends-state : {A L : Type 0} (I : L → Type 0) {l : L} (o : Outcome A) → Ends (λ _. I) I o l → I l
Ends-state I (done a) i = i
Ends-state I (failed e) i = i
Ends-state I panicked i = i

module _ {S L : Type 0} (log : S → L) where
  -- From a log of which `I` holds, the part ends with one of which `D` or `F` holds.
  pub record Runs {A : Type 0} (I : L → Type 0) (D : A → L → Type 0) (F : L → Type 0) (m : Exec S A)
      : Type 0 where
    pub runs : (s : S) → I (log s) → Ends D F (m s).0 (log (m s).1)

  abbrev pub Moves : {A : Type 0} → (I J : L → Type 0) → Exec S A → Type 0
  Moves I J m = Runs I (λ _. J) J m

  abbrev pub Keeps : {A : Type 0} → (I : L → Type 0) → Exec S A → Type 0
  Keeps I m = Moves I I m

  module _ {J F : L → Type 0} {A B : Type 0} {D : B → L → Type 0} where
    continue-Ends :
        (f : A → Exec S B)
        → ((a : A) → Runs J D F (f a))
        → ((l : L) → J l → F l)
        → (r : Outcome A × S) → Ends (λ _. J) J r.0 (log r.1)
        → Ends D F (continue r f).0 (log (continue r f).1)
    continue-Ends f k h (done a, s) j = (k a).runs s j
    continue-Ends f k h (failed e, s) j = h (log s) j
    continue-Ends f k h (panicked, s) j = h (log s) j

  module _ {I J F : L → Type 0} {A B : Type 0} {D : B → L → Type 0} where
    pub Runs->>= :
        {m : Exec S A} {f : A → Exec S B}
        → Moves I J m
        → ((a : A) → Runs J D F (f a))
        → ((l : L) → J l → F l)
        → Runs I D F (m >>= f)
    unfolding ◌>>=◌
    Runs->>= {m} {f} g k h = record { runs = λ s i. continue-Ends f k h (m s) (g.runs s i) }

  module _ {I : L → Type 0} {A B : Type 0} where
    pub Keeps->>= :
        {m : Exec S A} {f : A → Exec S B}
        → Keeps I m
        → ((a : A) → Keeps I (f a))
        → Keeps I (m >>= f)
    Keeps->>= g k = Runs->>= g k (λ l i. i)

  module _ {A : Type 0} where
    to_result-Ends :
        (J : L → Type 0) (r : Outcome A × S)
        → Ends (λ _. J) J r.0 (log r.1)
        → Ends (λ _. J) J (to_result r).0 (log (to_result r).1)
    to_result-Ends J (done a, s) j = j
    to_result-Ends J (failed e, s) j = j
    to_result-Ends J (panicked, s) j = j

  module _ {I J : L → Type 0} {A : Type 0} where
    pub Moves-attempt : {m : Exec S A} → Moves I J m → Moves I J (attempt m)
    unfolding attempt
    Moves-attempt {m} h = record { runs = λ s i. to_result-Ends J (m s) (h.runs s i) }

  module _ {I F : L → Type 0} {A : Type 0} {D : A → L → Type 0} where
    pub Runs-pure : (a : A) → ((l : L) → I l → D a l) → Runs I D F (pure a)
    unfolding pure
    Runs-pure a h = record { runs = λ s i. h (log s) i }

    pub Runs-raise : (e : Error) → ((l : L) → I l → F l) → Runs I D F (raise e)
    unfolding raise
    Runs-raise e h = record { runs = λ s i. h (log s) i }

    pub Runs-if :
        (b : Bool) {m n : Exec S A} → Runs I D F m → Runs I D F n → Runs I D F (if b then m else n)
    Runs-if true h k = h
    Runs-if false h k = k

    pub Runs-Result :
        {B : Type 0} {f : Error → Exec S A} {g : B → Exec S A} (r : Result B)
        → ((e : Error) → Runs I D F (f e))
        → ((b : B) → Runs I D F (g b))
        → Runs I D F (elim r [ err e ↦ f e | ok b ↦ g b ])
    Runs-Result (err e) h k = h e
    Runs-Result (ok b) h k = k b

    pub Runs-Option :
        {B : Type 0} {m : Exec S A} {f : B → Exec S A} (o : Option B)
        → Runs I D F m
        → ((b : B) → Runs I D F (f b))
        → Runs I D F (elim o [ none ↦ m | some b ↦ f b ])
    Runs-Option none h k = h
    Runs-Option (some b) h k = k b

    pub Runs-List :
        {B : Type 0} {m : Exec S A} {f : B → List B → Exec S A} (bs : List B)
        → Runs I D F m
        → ((b : B) (bs : List B) → Runs I D F (f b bs))
        → Runs I D F (elim bs [ [] ↦ m | b ∷ bs ↦ f b bs ])
    Runs-List [] h k = h
    Runs-List (b ∷ bs) h k = k b bs

  module _ {A : Type 0} where
    Ends-any : (I : L → Type 0) {l : L} (o : Outcome A) → I l → Ends (λ _. I) I o l
    Ends-any I (done a) i = i
    Ends-any I (failed e) i = i
    Ends-any I panicked i = i

  module _ {I : L → Type 0} {A : Type 0} where
    pub Keeps-pure : (a : A) → Keeps I (pure a)
    Keeps-pure a = Runs-pure a (λ l i. i)

    pub Keeps-raise : (e : Error) → Keeps {A = A} I (raise e)
    Keeps-raise e = Runs-raise e (λ l i. i)

    pub Keeps-gets : (f : S → A) → Keeps I (gets f)
    unfolding gets
    Keeps-gets f = record { runs = λ s i. i }

    pub Moves-state :
        {J : L → Type 0} (m : Exec S A) → ((s : S) → J (log s) → I (log (m s).1)) → Moves J I m
    Moves-state m h = record { runs = λ s i. Ends-any I (m s).0 (h s i) }

    pub Keeps-lift : (r : Result A) → Keeps I (lift r)
    unfolding lift
    Keeps-lift r = Moves-state (lift r) (λ s i. i)

    pub Keeps-deref : (o : Option A) → Keeps I (deref o)
    unfolding deref
    Keeps-deref o = Moves-state (deref o) (λ s i. i)
