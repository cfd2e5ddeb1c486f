-- ===== src/Steps/Errors.antt =====
-- What the steps of `Reconcile` do with an error: each records an event, writes the status, and
-- returns the error.
use steerd_presto_operator.Base.{
  String, ◌<>◌, ◌≡◌, refl, Bool, true, false, Option, none, some, if◌then◌else◌,
}
use steerd_presto_operator.Exec.{
  Error, Exec, Outcome, Result, attempt, continue, deref, done, err, failed, gets, of_result, ok,
  panicked, pure, raise, to_result, ◌>>=◌,
}
use steerd_presto_operator.Exec.Fallible.{message}
use steerd_presto_operator.Kube.{ReplicaSet}
use steerd_presto_operator.Resource.{Presto}
use steerd_presto_operator.Platform.{Call, Platform}
use steerd_presto_operator.Names.{get_coordinator_pod_labels, get_worker_pod_labels}
use steerd_presto_operator.Session.{Op, Session, ask, call, eventf, ignore, set_presto}
use steerd_presto_operator.Status.{
  ClusterUpdateAction, get_presto, send_status, update_status, update_with,
}
use steerd_presto_operator.Services.{create_head_less_pod_discovery_svc, create_or_get_service}
use steerd_presto_operator.ConfigMaps.{
  create_catalog_config, create_coordinator_config, create_worker_config,
}
use steerd_presto_operator.ReplicaSets.{
  create_update_replica_set_for_coordinator, create_update_replica_set_for_worker,
}
use steerd_presto_operator.Autoscaling.{handle_replica_set}
use steerd_presto_operator.Steps.{
  catalog_config, coordinator_config, failed_action, headless_service_config, put_status,
  put_then_report, report_then_put, service_config, worker_config,
}
use steerd_presto_operator.Steps.Sets.{coordinator_replicaset, hpa_replicaset, worker_replicaset}
use steerd_presto_operator.Cluster.Safe.{apply_action-is_safe, is_safe}

-- The operation does not panic.
record Defined {S A : Type 0} (m : Exec S A) : Type 0 where
  defined : (s : S) → (r : Result A) × (s' : S) × (m s ≡ (of_result r, s'))

module _ {S A : Type 0} where
  Defined-pure : (a : A) → Defined {S = S} (pure a)
  unfolding pure
  Defined-pure a = record { defined = λ s. (ok a, s, refl) }

  Defined-deref : {a : A} (r : Option A) → r ≡ some a → Defined {S = S} (deref r)
  unfolding deref
  Defined-deref {a} r e = record { defined = λ s. (ok a, s, rw e refl) }

  Defined-gets : (f : S → A) → Defined (gets f)
  unfolding gets
  Defined-gets f = record { defined = λ s. (ok (f s), s, refl) }

  Defined-if : (b : Bool) {m n : Exec S A} → Defined m → Defined n → Defined (if b then m else n)
  Defined-if true h k = h
  Defined-if false h k = k

  module _ {B : Type 0} (f : B → Exec S A) where
    Defined-after :
        (r : Result B) (s : S)
        → ((b : B) → Defined (f b))
        → (r' : Result A) × (s' : S) × (continue (of_result r, s) f ≡ (of_result r', s'))
    Defined-after (ok b) s k = (k b).defined s
    Defined-after (err e) s k = (err e, s, refl)

    Defined->>= : {m : Exec S B} → Defined m → ((b : B) → Defined (f b)) → Defined (m >>= f)
    unfolding ◌>>=◌
    Defined->>= {m} c k = record {
      defined = λ s. let (r, s', e) = c.defined s in rw e (Defined-after r s' k);
    }

module _ {p : Platform} where
  Defined-call : {A : Type 0} (c : Call p.World A) → Defined (call p c)
  unfolding call
  Defined-call c = record {
    defined = λ s. ((c s.world).0, record s { world = (c s.world).1 }, refl);
  }

  Defined-ask : {A : Type 0} (c : p.World → A × p.World) → Defined (ask p c)
  unfolding ask pure
  Defined-ask c = record {
    defined = λ s. (ok (c s.world).0, record s { world = (c s.world).1 }, refl);
  }

  Defined-set_presto : (presto : Presto) → Defined (set_presto p presto)
  unfolding set_presto pure
  Defined-set_presto presto = record { defined = λ s. (ok tt, record s { presto = presto }, refl) }

  Defined-send_status : (aliased : Bool) (copy : Presto) → Defined (send_status p aliased copy)
  unfolding send_status
  Defined-send_status aliased copy = Defined->>= _ (Defined-ask p.now) λ time.
      Defined->>= _ (Defined-if aliased (Defined-set_presto _) (Defined-pure tt)) λ _.
        Defined->>= _ (Defined-call _) λ written.
          Defined->>= _ (Defined-if aliased (Defined-set_presto _) (Defined-pure tt))
            λ _. Defined-pure true

  module _ (action : ClusterUpdateAction p.Quantity) (safe : is_safe action ≡ true) where
    Defined-update_with :
        (aliased : Bool) (copy : Presto) → Defined (update_with p action aliased copy)
    unfolding update_with
    Defined-update_with aliased copy =
        let (d, e) = apply_action-is_safe action copy.status safe in
        Defined->>= _ (Defined-deref _ e)
          λ (_, update). Defined-if update (Defined-send_status aliased _) (Defined-pure false)

    Defined-found :
        (presto : Presto) (found : Option Presto)
        → Defined (elim found [
          | none ↦ update_with p action true presto
          | some copy ↦ update_with p action false copy
        ])
    Defined-found presto none = Defined-update_with true presto
    Defined-found presto (some copy) = Defined-update_with false copy

    Defined-update_status : Defined (update_status p action)
    unfolding update_status get_presto
    Defined-update_status = Defined->>= _ (Defined-gets _) λ presto.
        Defined->>= _ (Defined->>= _ (Defined-call _) λ items. Defined-pure _)
          (Defined-found presto)

    -- A status update ends, whether it succeeds or not.
    put_status-done : (s : Session p) → (s' : Session p) × (put_status p action s ≡ (done tt, s'))
    unfolding put_status ignore attempt ◌>>=◌ pure
    put_status-done s =
        let (r, s', e) = Defined-update_status.defined s in (s', rw e (dropped r s'))
      where
        dropped :
            {A : Type 0} (r : Result A) (s : Session p)
            → continue (to_result (of_result r, s)) (λ _. pure tt) ≡ (done tt, s)
        dropped (ok a) s = refl
        dropped (err e) s = refl

-- The second outcome is the failure or the panic that the first one is.
abbrev pub Forwards : {A B : Type 0} → Outcome A → Outcome B → Type 0
Forwards (done a) out = Unit {0}
Forwards (failed e) out = out ≡ failed e
Forwards panicked out = out ≡ panicked

module _ {p : Platform} {A B : Type 0} where
  -- An error that is reported is returned.
  forwarded :
      (r : Outcome A × Session p) (f : Result A → Op p B)
      → ((e : Error) (s : Session p) → (f (err e) s).0 ≡ failed e)
      → Forwards r.0 (continue (to_result r) f).0
  forwarded (done a, s) f h = tt
  forwarded (failed e, s) f h = h e s
  forwarded (panicked, s) f h = refl

module _ (p : Platform) {A : Type 0} where
  report_then_put-failed :
      (text : String) (e : Error) (s : Session p)
      → (report_then_put p {A = A} text e s).0 ≡ failed e
  unfolding report_then_put eventf pure raise ◌>>=◌
  report_then_put-failed text e s =
      let reported : Session p = record s {
        world = p.record_event s.presto "Warning" "Failed" (text <> message e) s.world;
      } in
      let (s', e') = put_status-done (failed_action p (text <> message e)) refl reported in
      rw e' refl

  put_then_report-failed :
      (text event_text : String) (e : Error) (s : Session p)
      → (put_then_report p {A = A} text event_text e s).0 ≡ failed e
  unfolding put_then_report eventf pure raise ◌>>=◌
  put_then_report-failed text event_text e s =
      let (s', e') = put_status-done (failed_action p (text <> message e)) refl s in rw e' refl

module _ (p : Platform) (s : Session p) where
  -- If the creation of its object fails with an error, then each of the eight steps fails with that
  -- very error, after its report and whether the report succeeds or not; and a panic stays one.
  pub Forwards-steps :
      (replica_set : ReplicaSet p.Quantity)
      → Forwards (create_head_less_pod_discovery_svc p s).0 (headless_service_config p s).0
        × Forwards (create_or_get_service p s).0 (service_config p s).0
        × Forwards (create_coordinator_config p s).0 (coordinator_config p s).0
        × Forwards (create_worker_config p s).0 (worker_config p s).0
        × Forwards (create_catalog_config p s).0 (catalog_config p s).0
        × Forwards
            (create_update_replica_set_for_coordinator p
              (get_coordinator_pod_labels s.base_labels s.presto.status.uuid)
              s).0
            (coordinator_replicaset p s).0
        × Forwards
            (create_update_replica_set_for_worker p
              (get_worker_pod_labels s.base_labels s.presto.status.uuid)
              s).0
            (worker_replicaset p s).0
        × Forwards (handle_replica_set p replica_set s).0 (hpa_replicaset p replica_set s).0
  unfolding headless_service_config service_config coordinator_config worker_config catalog_config
      coordinator_replicaset worker_replicaset hpa_replicaset gets attempt ◌>>=◌
  Forwards-steps replica_set = (
    forwarded (create_head_less_pod_discovery_svc p s) _ (report_then_put-failed p _),
    forwarded (create_or_get_service p s) _ (report_then_put-failed p _),
    forwarded (create_coordinator_config p s) _ (put_then_report-failed p _ _),
    forwarded (create_worker_config p s) _ (put_then_report-failed p _ _),
    forwarded (create_catalog_config p s) _ (put_then_report-failed p _ _),
    forwarded
        (create_update_replica_set_for_coordinator p
          (get_coordinator_pod_labels s.base_labels s.presto.status.uuid) s)
        _ (put_then_report-failed p _ _),
    forwarded
        (create_update_replica_set_for_worker p
          (get_worker_pod_labels s.base_labels s.presto.status.uuid) s)
        _ (put_then_report-failed p _ _),
    forwarded (handle_replica_set p replica_set s) _ (put_then_report-failed p _ _),
  )
