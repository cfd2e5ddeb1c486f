-- ===== src/Reconcile/Ticks.antt =====
-- The registry over any run of the operator, and the requests of a tick. A run is a sequence of calls
-- of `Reconcile`, between which the world changes in any way.
use steerd_presto_operator.Base.{
  ◌≡◌, refl, sym, Bool, true, false, ◌||◌, List, [], ◌∷◌, if◌then◌else◌, arith,
}
use steerd_presto_operator.Exec.{Outcome, done, failed, Result, ok, err}
use steerd_presto_operator.Exec.Fallible.{is_not_found}
use steerd_presto_operator.Kube.{NamespacedName}
use steerd_presto_operator.Resource.{Presto, namespaced_name}
use steerd_presto_operator.Platform.{Platform}
use steerd_presto_operator.Reconcile.{
  Answer, no_requeue, Reconciler, Registry, is_registered, on_read, reconcile, register, same_name,
  tick, unregister,
}

abbrev is_in : NamespacedName → List NamespacedName → Bool
is_in name [] = false
is_in name (n ∷ names) = same_name n name || is_in name names

-- No name comes twice.
abbrev pub Distinct : List NamespacedName → Type 0
Distinct [] = Unit {0}
Distinct (n ∷ names) = (is_in n names ≡ false) × Distinct names

abbrev names : Registry → List NamespacedName
names [] = []
names ((n, presto) ∷ registry) = n ∷ names registry

-- Every object stands under its own name.
abbrev Named : Registry → Type 0
Named [] = Unit {0}
Named ((n, presto) ∷ registry) = (namespaced_name presto ≡ n) × Named registry

is_registered-names :
    (name : NamespacedName) (registry : Registry)
    → is_registered name registry ≡ is_in name (names registry)
unfolding is_registered
is_registered-names name [] = refl
is_registered-names name ((n, presto) ∷ registry) =
    let ih = is_registered-names name registry in ground (arith, ih)

tick-names : (registry : Registry) → Named registry → tick registry ≡ names registry
unfolding tick
tick-names [] h = refl
tick-names ((n, presto) ∷ registry) (e, h) = rw (e, tick-names registry h) refl

still_absent :
    (name m : NamespacedName) (registry : Registry)
    → is_in m (names registry) ≡ false
    → is_in m (names (unregister name registry)) ≡ false
unfolding unregister
still_absent name m [] h = refl
still_absent name m ((n, presto) ∷ registry) h =
    let ih = still_absent name m registry in ground (arith, h, ih)

-- What holds of the registry in every run.
abbrev Good : Registry → Type 0
Good registry = Named registry × Distinct (names registry)

Good-unregister :
    (name : NamespacedName) (registry : Registry) → Good registry → Good (unregister name registry)
unfolding unregister
Good-unregister name [] h = h
Good-unregister name ((n, presto) ∷ registry) ((e, named), (absent, distinct)) =
    dropped (same_name n name) (Good-unregister name registry (named, distinct))
      (still_absent name n registry absent)
  where
    dropped :
        (b : Bool)
        → Good (unregister name registry)
        → is_in n (names (unregister name registry)) ≡ false
        → Good (if b then unregister name registry else (n, presto) ∷ unregister name registry)
    dropped true good k = good
    dropped false good k = ((e, good.0), (k, good.1))

Good-register :
    (presto : Presto) (registry : Registry) (name : NamespacedName)
    → namespaced_name presto ≡ name
    → Good registry
    → Good (register name presto registry)
unfolding register
Good-register presto registry name e good =
    added (is_registered name registry) (is_registered-names name registry)
  where
    added :
        (b : Bool)
        → b ≡ is_in name (names registry)
        → Good (if b then registry else (name, presto) ∷ registry)
    added true k = good
    added false k = ((e, good.0), (sym k, good.1))

-- A run of the operator.
pub data Run (p : Platform) (start : Reconciler p) : Reconciler p → Type 0 where
  begun : Run p start start
  reconciled :
      (request : NamespacedName) {r : Reconciler p}
      → Run p start r
      → Run p start (reconcile p request r).1
  meanwhile :
      (w : p.World) {r : Reconciler p} → Run p start r → Run p start (record r { world = w })

-- The server answers a `Get` with the object of that name.
abbrev pub Answers : Platform → Type 0
Answers p =
    (request : NamespacedName) (w : p.World) (presto : Presto)
    → (p.get_presto request w).0 ≡ ok presto
    → namespaced_name presto ≡ request

module _ (p : Platform) (answers : Answers p) where
  Good-if :
      (b : Bool) (x y : Outcome Answer × Reconciler p)
      → Good x.1.registered_prestos
      → Good y.1.registered_prestos
      → Good (if◌then◌else◌ {A = Outcome Answer × Reconciler p} b x y).1.registered_prestos
  Good-if true x y h k = h
  Good-if false x y h k = k

  Good-on_read :
      (request : NamespacedName) (read : Result Presto) (r : Reconciler p)
      → ((presto : Presto) → read ≡ ok presto → namespaced_name presto ≡ request)
      → Good r.registered_prestos
      → Good (on_read p request read r).1.registered_prestos
  Good-on_read request (err e) r h good =
      Good-if (is_not_found e)
        (done no_requeue, record r { registered_prestos = unregister request r.registered_prestos })
        (failed e, r) (Good-unregister request r.registered_prestos good) good
  Good-on_read request (ok presto) r h good =
      Good-register presto r.registered_prestos request (h presto refl) good

  Good-Run :
      {start r : Reconciler p}
      → Run p start r
      → Good start.registered_prestos
      → Good r.registered_prestos
  unfolding reconcile
  Good-Run begun good = good
  Good-Run (reconciled request {r} run) good =
      Good-on_read request (p.get_presto request r.world).0 _ (answers request r.world)
        (Good-Run run good)
  Good-Run (meanwhile w run) good = Good-Run run good

  -- If the server answers a Get with the object of that name: in every run of the operator that begins
  -- with an empty registry, however the calls of the API end and whatever else happens to the world
  -- in between, no request comes twice in a tick.
  pub Distinct-tick :
      {start r : Reconciler p}
      → Run p start r
      → start.registered_prestos ≡ []
      → Distinct (tick r.registered_prestos)
  Distinct-tick {start} {r} run e =
      let good = Good-Run run (rw e (tt, tt)) in
      rw (tick-names r.registered_prestos good.0) (good.1)
