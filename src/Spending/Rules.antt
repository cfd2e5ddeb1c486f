-- ===== src/Spending/Rules.antt =====
-- How the counts of writes of a part follow from those of its parts.
use steerd_presto_operator.Base.{
  ℕ, ◌+◌, ◌≤◌, ◌≡◌, refl, Bool, true, false, Option, none, some, List, [], ◌∷◌, arith,
  if◌then◌else◌,
}
use steerd_presto_operator.Exec.{
  Error, Result, ok, err, Outcome, done, failed, panicked, pure, panic, raise, attempt, lift, deref,
  gets, to_result, of_result, continue, Exec, ◌>>=◌,
}
use steerd_presto_operator.Platform.{Call, Platform}
use steerd_presto_operator.Session.{call, ask}
use steerd_presto_operator.Spending.{Quiet, Spends, budget, budget_after, of_result_spent, writes}

module _ {S A : Type 0} where
  to_result-state : (r : Outcome A × S) → (to_result r).1 ≡ r.1
  to_result-state (done a, s) = refl
  to_result-state (failed e, s) = refl
  to_result-state (panicked, s) = refl

  to_result-budget :
      (d : A → Bool) (n : ℕ) (r : Outcome A × S)
      → budget_after n (of_result_spent d) (to_result r).0 ≡ budget_after n d r.0
  to_result-budget d n (done a, s) = refl
  to_result-budget d n (failed e, s) = refl
  to_result-budget d n (panicked, s) = refl

module _ {A : Type 0} where
  budget_after-before :
      (before : Bool) (n : ℕ) (o : Outcome A) → budget n before ≤ budget_after n (λ _. before) o
  budget_after-before before n (done a) = omega arith
  budget_after-before true n (failed e) = omega arith
  budget_after-before false n (failed e) = omega arith
  budget_after-before true n panicked = omega arith
  budget_after-before false n panicked = omega arith

module _ {S : Type 0} {count : S → ℕ} where
  module _ {A : Type 0} where
    pub Quiet-pure : (a : A) → Quiet count (pure a)
    unfolding pure
    Quiet-pure a = record { quiet = λ s. omega arith }

    pub Quiet-raise : (e : Error) → Quiet {A = A} count (raise e)
    unfolding raise
    Quiet-raise e = record { quiet = λ s. omega arith }

    pub Quiet-panic : Quiet {A = A} count panic
    unfolding panic
    Quiet-panic = record { quiet = λ s. omega arith }

    pub Quiet-lift : (r : Result A) → Quiet count (lift r)
    unfolding lift
    Quiet-lift r = record { quiet = λ s. omega arith }

    pub Quiet-deref : (a : Option A) → Quiet count (deref a)
    unfolding deref
    Quiet-deref a = record { quiet = λ s. omega arith }

    pub Quiet-gets : (f : S → A) → Quiet count (gets f)
    unfolding gets
    Quiet-gets f = record { quiet = λ s. omega arith }

    pub Quiet-attempt : {m : Exec S A} → Quiet count m → Quiet count (attempt m)
    unfolding attempt
    Quiet-attempt {m} h = record { quiet = λ s. rw (to_result-state (m s)) (h.quiet s) }

    pub Quiet-if :
        (b : Bool) {m n : Exec S A}
        → Quiet count m
        → Quiet count n
        → Quiet count (if b then m else n)
    Quiet-if true h k = h
    Quiet-if false h k = k

    pub Spends-Quiet :
        {before : Bool} {m : Exec S A} → Quiet count m → Spends count before m (λ _. before)
    Spends-Quiet {before} {m} h = record {
      spends = λ n s le.
          let a = h.quiet s in let b = budget_after-before before n (m s).0 in omega arith;
    }

    pub Spends-pure : (d : A → Bool) (a : A) → Spends count (d a) (pure a) d
    unfolding pure
    Spends-pure d a = record { spends = λ n s le. le }

    pub Spends-raise : {before : Bool} {d : A → Bool} (e : Error) → Spends count before (raise e) d
    unfolding raise
    Spends-raise {before = true} e = record { spends = λ n s le. le }
    Spends-raise {before = false} e = record { spends = λ n s le. omega arith }

    -- A write that has not been made yet may still be made.
    pub Spends-later :
        {before : Bool} {m : Exec S A} {d : A → Bool}
        → Spends count true m d
        → Spends count before m d
    Spends-later {before = true} h = h
    Spends-later {before = false} h = record { spends = λ n s le. h.spends n s (omega arith) }

    pub Spends-if :
        {before : Bool} {d : A → Bool} (b : Bool) {m n : Exec S A}
        → Spends count before m d
        → Spends count before n d
        → Spends count before (if b then m else n) d
    Spends-if true h k = h
    Spends-if false h k = k

    pub Spends-attempt :
        {before : Bool} {m : Exec S A} {d : A → Bool}
        → Spends count before m d
        → Spends count before (attempt m) (of_result_spent d)
    unfolding attempt
    Spends-attempt {m} {d} h = record {
      spends = λ n s le. rw (to_result-state (m s), to_result-budget d n (m s)) (h.spends n s le);
    }

  module _ {A B : Type 0} where
    continue-count :
        (f : A → Exec S B)
        → ((a : A) → Quiet count (f a))
        → (r : Outcome A × S) → count (continue r f).1 ≤ count r.1
    continue-count f k (done a, s) = (k a).quiet s
    continue-count f k (failed e, s) = omega arith
    continue-count f k (panicked, s) = omega arith

    pub Quiet->>= :
        {m : Exec S A} {f : A → Exec S B}
        → Quiet count m
        → ((a : A) → Quiet count (f a))
        → Quiet count (m >>= f)
    unfolding ◌>>=◌
    Quiet->>= {m} {f} h k = record {
      quiet = λ s. let a = h.quiet s in let b = continue-count f k (m s) in omega (arith, a, b);
    }

    -- What holds after the first part is the condition of the second.
    continue-Spends :
        (f : A → Exec S B) (d : A → Bool) (e : B → Bool)
        → ((a : A) → Spends count (d a) (f a) e)
        → (n : ℕ) (r : Outcome A × S) → count r.1 ≤ budget_after n d r.0
        → count (continue r f).1 ≤ budget_after n e (continue r f).0
    continue-Spends f d e k n (done a, s) le = (k a).spends n s le
    continue-Spends f d e k n (failed x, s) le = le
    continue-Spends f d e k n (panicked, s) le = le

    pub Spends->>= :
        {before : Bool} {m : Exec S A} {f : A → Exec S B} {d : A → Bool} {e : B → Bool}
        → Spends count before m d
        → ((a : A) → Spends count (d a) (f a) e)
        → Spends count before (m >>= f) e
    unfolding ◌>>=◌
    Spends->>= {m} {f} {d} {e} h k = record {
      spends = λ n s le. continue-Spends f d e k n (m s) (h.spends n s le);
    }

-- The rules for the cases of a computed value.
module _ {S A B : Type 0} {count : S → ℕ} where
  pub Quiet-Option :
      {m : Exec S B} {f : A → Exec S B} (o : Option A)
      → Quiet count m
      → ((a : A) → Quiet count (f a))
      → Quiet count (elim o [ none ↦ m | some a ↦ f a ])
  Quiet-Option none h k = h
  Quiet-Option (some a) h k = k a

  module _ {before : Bool} {d : B → Bool} where
    pub Spends-Option :
        {m : Exec S B} {f : A → Exec S B} (o : Option A)
        → Spends count before m d
        → ((a : A) → Spends count before (f a) d)
        → Spends count before (elim o [ none ↦ m | some a ↦ f a ]) d
    Spends-Option none h k = h
    Spends-Option (some a) h k = k a

    pub Spends-List :
        {m : Exec S B} {f : A → List A → Exec S B} (xs : List A)
        → Spends count before m d
        → ((x : A) (xs : List A) → Spends count before (f x xs) d)
        → Spends count before (elim xs [ [] ↦ m | x ∷ xs ↦ f x xs ]) d
    Spends-List [] h k = h
    Spends-List (x ∷ xs) h k = k x xs

    pub Spends-found :
        {f : Error → Exec S B} {g : A → Exec S B} (r : Result A)
        → ((e : Error) → Spends count before (f e) d)
        → ((a : A) → Spends count before (g a) d)
        → Spends count before (elim r [ err e ↦ f e | ok a ↦ g a ]) d
    Spends-found (err e) h k = h e
    Spends-found (ok a) h k = k a

  -- What a step does with the result of the part that may write.
  pub Spends-made :
      {d : B → Bool} {c : A → Bool} {f : Error → Exec S B} {g : A → Exec S B} (r : Result A)
      → ((e : Error) → Spends count true (f e) d)
      → ((a : A) → Spends count (c a) (g a) d)
      → Spends count (of_result_spent c r) (elim r [ err e ↦ f e | ok a ↦ g a ]) d
  Spends-made (err e) h k = h e
  Spends-made (ok a) h k = k a

module _ {S B : Type 0} {count : S → ℕ} where
  pub Spends-changed :
      {d : B → Bool} {m n : Exec S B} (b : Bool)
      → Spends count true m d
      → Spends count false n d
      → Spends count b (elim b [ true ↦ m | false ↦ n ]) d
  Spends-changed true h k = h
  Spends-changed false h k = k

module _ (p : Platform) (count : p.World → ℕ) {A : Type 0} where
  pub Quiet-call :
      (c : Call p.World A)
      → ((w : p.World) → count (c w).1 ≤ count w)
      → Quiet (writes p count) (call p c)
  unfolding call
  Quiet-call c h = record { quiet = λ s. h s.world }

  budget_after-of_result :
      (n k : ℕ) (r : Result A) → k ≤ 1 + n → k ≤ budget_after n (λ _. true) (of_result r)
  budget_after-of_result n k (ok a) le = le
  budget_after-of_result n k (err e) le = le

  pub Spends-call :
      (c : Call p.World A)
      → ((w : p.World) → count (c w).1 ≤ 1 + count w)
      → Spends (writes p count) false (call p c) (λ _. true)
  unfolding call
  Spends-call c h = record {
    spends = λ n s le.
        budget_after-of_result n _ (c s.world).0 (let a = h s.world in omega (arith, a, le));
  }

  pub Quiet-ask :
      (c : p.World → A × p.World)
      → ((w : p.World) → count (c w).1 ≤ count w)
      → Quiet (writes p count) (ask p c)
  unfolding ask
  Quiet-ask c h = record { quiet = λ s. h s.world }
