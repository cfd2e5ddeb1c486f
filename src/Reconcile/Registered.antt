-- ===== src/Reconcile/Registered.antt =====
-- Which objects are registered for the periodic requests after a call of `Reconcile`.
use steerd_presto_operator.Base.{
  ◌≡◌, refl, Bool, true, false, [], ◌∷◌, if◌then◌else◌, eq_iff, arith,
}
use steerd_presto_operator.Exec.{Result, ok, err}
use steerd_presto_operator.Exec.Fallible.{is_not_found}
use steerd_presto_operator.Kube.{NamespacedName}
use steerd_presto_operator.Resource.{Presto}
use steerd_presto_operator.Platform.{Platform}
use steerd_presto_operator.Reconcile.{
  Reconciler, Registry, is_registered, on_read, reconcile, register, same_name, unregister,
}

abbrev pub registered : {p : Platform} → NamespacedName → Reconciler p → Bool
registered name r = is_registered name r.registered_prestos

same_name_refl : (name : NamespacedName) → same_name name name ≡ true
same_name_refl name =
    ground (arith, eq_iff name.namespace name.namespace, eq_iff name.name name.name)

-- Names that are the same are found together.
same_name_trans : (a b c : NamespacedName) → same_name a b ≡ true → same_name a c ≡ same_name b c
same_name_trans a b c h = ground (
  arith,
  eq_iff a.namespace b.namespace,
  eq_iff a.name b.name,
  eq_iff a.namespace c.namespace,
  eq_iff a.name c.name,
  eq_iff b.namespace c.namespace,
  eq_iff b.name c.name,
)

is_registered-register :
    (name : NamespacedName) (presto : Presto) (registry : Registry)
    → is_registered name (register name presto registry) ≡ true
unfolding is_registered register
is_registered-register name presto registry = ground (arith, same_name_refl name)

is_registered-unregister :
    (name : NamespacedName) (registry : Registry)
    → is_registered name (unregister name registry) ≡ false
unfolding is_registered unregister
is_registered-unregister name [] = refl
is_registered-unregister name ((n, presto) ∷ registry) =
    let ih = is_registered-unregister name registry in ground (arith, ih)

-- Writing off one object leaves the others.
is_registered-unregister_other :
    (other name : NamespacedName) (registry : Registry)
    → same_name name other ≡ false
    → is_registered other (unregister name registry) ≡ is_registered other registry
unfolding is_registered unregister
is_registered-unregister_other other name [] h = refl
is_registered-unregister_other other name ((n, presto) ∷ registry) h =
    let ih = is_registered-unregister_other other name registry h in
    let e = same_name_trans n name other in ground (arith, ih, e, h)

is_registered-register_other :
    (other name : NamespacedName) (presto : Presto) (registry : Registry)
    → same_name name other ≡ false
    → is_registered other (register name presto registry) ≡ is_registered other registry
unfolding is_registered register
is_registered-register_other other name presto registry h = ground (arith, h)

-- Whether the request's object was found, or the read failed for another reason.
abbrev pub still_registered : Result Presto → Bool → Bool
still_registered (ok presto) before = true
still_registered (err e) before = if is_not_found e then false else before

module _ {p : Platform} (request : NamespacedName) (r : Reconciler p) where
  on_read-registered :
      (read : Result Presto) (r : Reconciler p)
      → registered request (on_read p request read r).1
        ≡ still_registered read (registered request r)
  on_read-registered (ok presto) r = is_registered-register request presto r.registered_prestos
  on_read-registered (err e) r =
      ground (arith, is_registered-unregister request r.registered_prestos)

  on_read-registered_other :
      (other : NamespacedName) (read : Result Presto) (r : Reconciler p)
      → same_name request other ≡ false
      → registered other (on_read p request read r).1 ≡ registered other r
  on_read-registered_other other (ok presto) r h =
      is_registered-register_other other request presto r.registered_prestos h
  on_read-registered_other other (err e) r h =
      ground (arith, is_registered-unregister_other other request r.registered_prestos h)

  -- After `Reconcile` the object of the request is registered if it could be read, is not if it was
  -- not found, and is as it was if the read failed for another reason. It does not matter how the
  -- steps that follow the read end.
  pub reconcile-registered :
      registered request (reconcile p request r).1
      ≡ still_registered (p.get_presto request r.world).0 (registered request r)
  unfolding reconcile
  reconcile-registered = on_read-registered _ _

  -- After `Reconcile` an object of another name or namespace than the request's is registered
  -- exactly if it was before.
  pub reconcile-registered_other :
      (other : NamespacedName)
      → same_name request other ≡ false
      → registered other (reconcile p request r).1 ≡ registered other r
  unfolding reconcile
  reconcile-registered_other other h = on_read-registered_other other _ _ h
