-- ===== src/Watches/Laws.antt =====
-- The watches that `add` leaves.
use steerd_presto_operator.Base.{
  ℕ, zero, suc, String, ◌≡◌, refl, sym, ap, ◌∙◌, true, List, [], ◌∷◌, ◌++◌,
}
use steerd_presto_operator.Base.Int.{ℤ, pos}
use steerd_presto_operator.Exec.{Exec, Outcome, continue, done, failed, panicked, pure, ◌>>=◌}
use steerd_presto_operator.Exec.Ensures.{Returns}
use steerd_presto_operator.Watches.{
  Source, Watch, add, config_maps, controller_name, enqueue_request_for_object,
  enqueue_request_for_owner, periodic_prestos, prestos, replica_sets, services, watch_of,
}

abbrev pub for_owner : Source → Watch
for_owner source = watch_of source (enqueue_request_for_owner true)

-- The watches in their order.
abbrev pub watched : List Watch
watched =
    watch_of periodic_prestos enqueue_request_for_object
    ∷ record { source = prestos; handler = enqueue_request_for_object; generation_changed = true }
    ∷ for_owner services
    ∷ for_owner config_maps
    ∷ for_owner replica_sets
    ∷ []

abbrev pub take : {A : Type 0} → ℕ → List A → List A
take zero xs = []
take (suc n) [] = []
take (suc n) (x ∷ xs) = x ∷ take n xs

append_assoc : {A : Type 0} (xs ys zs : List A) → (xs ++ ys) ++ zs ≡ xs ++ (ys ++ zs)
append_assoc [] ys zs = refl
append_assoc (x ∷ xs) ys zs = ap (λ l. x ∷ l) (append_assoc xs ys zs)

Returns-map :
    {P Q : Type 0} (out : Outcome (Unit {0}))
    → (P → Q)
    → Returns (λ _. P) out
    → Returns (λ _. Q) out
Returns-map (done a) k h = k h
Returns-map (failed e) k h = tt
Returns-map panicked k h = tt

-- The watches that the controller has after a call.
abbrev pub with_watch : Outcome (Unit {0}) → Watch → List Watch → List Watch
with_watch (done _) x xs = xs ++ x ∷ []
with_watch (failed e) x xs = xs
with_watch panicked x xs = xs

module _ {World : Type 0} (new_controller : String → ℤ → Exec World (Unit {0}))
    (watch : Watch → Exec World (Unit {0})) where
  -- One watch after the other, until one fails.
  abbrev watch_all : List Watch → Exec World (Unit {0})
  watch_all [] = pure tt
  watch_all (x ∷ xs) = watch x >>= λ _. watch_all xs

-- A new controller has no watches; a call of `Watch` that succeeds adds one, and one that fails none.
pub record Keeps {World : Type 0} (new_controller : String → ℤ → Exec World (Unit {0}))
    (watch : Watch → Exec World (Unit {0})) (watches : World → List Watch) : Type 0 where
  pub of_new : (name : String) (n : ℤ) (w : World) → watches (new_controller name n w).1 ≡ []
  pub of_watch :
      (x : Watch) (w : World) → watches (watch x w).1 ≡ with_watch (watch x w).0 x (watches w)

module _ {World : Type 0} (new_controller : String → ℤ → Exec World (Unit {0}))
    (watch : Watch → Exec World (Unit {0})) (watches : World → List Watch)
    (keeps : Keeps new_controller watch watches) where
  abbrev Partly : List Watch → List Watch → Outcome (Unit {0}) × World → Type 0
  Partly old xs (out, w) =
      ((n : ℕ) × (watches w ≡ old ++ take n xs)) × Returns (λ _. watches w ≡ old ++ xs) out

  append_nil : {A : Type 0} (xs : List A) → xs ≡ xs ++ []
  append_nil [] = refl
  append_nil (x ∷ xs) = ap (λ l. x ∷ l) (append_nil xs)

  Partly-watch :
      (x : Watch) (xs old : List Watch) (r : Outcome (Unit {0}) × World)
      → watches r.1 ≡ with_watch r.0 x old
      → ((w : World) → Partly (watches w) xs (watch_all new_controller watch xs w))
      → Partly old (x ∷ xs) (continue r (λ _. watch_all new_controller watch xs))
  Partly-watch x xs old (done a, w) e k =
      let ((n, e'), full) = k w in
      let joined : (ys : List Watch) → watches w ++ ys ≡ old ++ (x ∷ ys) =
        λ ys. ap (λ l. l ++ ys) e ∙ append_assoc old (x ∷ []) ys in
      (
        (suc n, e' ∙ joined (take n xs)),
        Returns-map (watch_all new_controller watch xs w).0 (λ h. h ∙ joined xs) full,
      )
  Partly-watch x xs old (failed err, w) e k = ((0, e ∙ append_nil old), tt)
  Partly-watch x xs old (panicked, w) e k = ((0, e ∙ append_nil old), tt)

  Partly-watch_all :
      (xs : List Watch) (w : World) → Partly (watches w) xs (watch_all new_controller watch xs w)
  unfolding ◌>>=◌ pure
  Partly-watch_all [] w = ((0, append_nil (watches w)), append_nil (watches w))
  Partly-watch_all (x ∷ xs) w =
      Partly-watch x xs (watches w) (watch x w) (keeps.of_watch x w) (Partly-watch_all xs)

  Partly-from :
      (xs : List Watch) (r : Outcome (Unit {0}) × World) {old old' : List Watch}
      → old ≡ old'
      → Partly old xs r
      → Partly old' xs r
  Partly-from xs r e h = rw (sym e) h

  Partly-add :
      (r : Outcome (Unit {0}) × World)
      → watches r.1 ≡ []
      → Partly [] watched (continue r (λ _. watch_all new_controller watch watched))
  Partly-add (done a, w) e =
      Partly-from watched (watch_all new_controller watch watched w) e (Partly-watch_all watched w)
  Partly-add (failed err, w) e = ((0, e), tt)
  Partly-add (panicked, w) e = ((0, e), tt)

  -- If a call of Watch adds its watch exactly when it succeeds: after add the controller has the first
  -- few of five watches, and all five if add returns no error. They are the periodic events and the
  -- Presto objects, of which the latter pass the predicate, and the services, the config maps and the
  -- replica sets that a Presto object controls.
  pub watches-add :
      (w : World)
      → let (out, w') = add new_controller watch w in
        ((n : ℕ) × (watches w' ≡ take n watched)) × Returns (λ _. watches w' ≡ watched) out
  unfolding add ◌>>=◌
  watches-add w =
      Partly-add (new_controller controller_name (pos 1) w) (keeps.of_new controller_name (pos 1) w)
