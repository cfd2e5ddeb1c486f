-- ===== src/Tests/CallWitnesses.antt =====
-- The theorems on what is sent to the API, and on the identifier of a new object, at a concrete resource.
use steerd_presto_operator.Base.{
  false, String, ◌≡◌, refl, true, List, [], ◌∷◌, if◌then◌else◌, ◌==◌, Bool-cases, inl, inr,
}
use steerd_presto_operator.Exec.{done, ok}
use steerd_presto_operator.Exec.Ensures.{Returns}
use steerd_presto_operator.Kube.{NamespacedName}
use steerd_presto_operator.Platform.{Api, Platform}
use steerd_presto_operator.Resource.{Presto, namespaced_name}
use steerd_presto_operator.Session.{Session}
use steerd_presto_operator.Autoscaling.{check_autoscaling_enabled, handle_replica_set}
use steerd_presto_operator.Autoscaling.Decision.{handle_replica_set-fits}
use steerd_presto_operator.Autoscaling.Sending.{Decision, fits, reported}
use steerd_presto_operator.Calls.{emptied, nothing_sent, recorded, sent}
use steerd_presto_operator.Reconcile.{no_requeue, reconcile_presto, same_name}
use steerd_presto_operator.Reconcile.Identifier.{
  AllOf, Saves, reconcile_presto-identifier, replaced,
}
use steerd_presto_operator.Reconcile.Labels.{after_service}
use steerd_presto_operator.Tests.{found_set, new_status, sample, sample_world}
use steerd_presto_operator.Tests.Memory.{memory}

abbrev recorded_session : Session (recorded memory)
recorded_session = record {
  world = (sample_world, nothing_sent);
  presto = sample;
  base_labels = [];
}

-- The session of the same pass, at the steps for the replica sets.
abbrev later_session : Session (recorded memory)
later_session = record recorded_session {
  base_labels = (after_service memory recorded_session).base_labels;
}

handle_replica_set-fits_example :
    let (returned, s') =
      handle_replica_set (recorded memory) found_set (emptied memory recorded_session) in
    (fits (check_autoscaling_enabled sample) (sent memory s').hpas ≡ true)
    × Returns
        (λ change.
          ((sent memory s').hpas ≡ reported change)
          × Decision (check_autoscaling_enabled sample) false change)
        returned
handle_replica_set-fits_example = handle_replica_set-fits memory found_set recorded_session

-- A server that keeps an identifier for each name, and lists the objects of a namespace.
abbrev Identifiers : Type 0
Identifiers = List (NamespacedName × String)

abbrev identifier : Identifiers → NamespacedName → String
identifier [] n = ""
identifier ((name, uuid) ∷ kept) n = if same_name name n then uuid else identifier kept n

abbrev of_entry : String → NamespacedName × String → Presto
of_entry namespace (name, uuid) = record sample {
  namespace = namespace;
  name = name.name;
  status = record new_status { uuid = uuid };
}

abbrev of_namespace : String → Identifiers → List Presto
of_namespace namespace [] = []
of_namespace namespace ((name, uuid) ∷ kept) =
    let rest = of_namespace namespace kept in
    if name.namespace == namespace then of_entry namespace (name, uuid) ∷ rest else rest

AllOf-of_namespace :
    (namespace : String) (kept : Identifiers) → AllOf namespace (of_namespace namespace kept)
AllOf-of_namespace namespace [] = tt
AllOf-of_namespace namespace ((name, uuid) ∷ kept) =
    let ih = AllOf-of_namespace namespace kept in
    elim (Bool-cases (name.namespace == namespace)) [ inl e ↦ rw e (refl, ih) | inr e ↦ rw e ih ]

abbrev silent_api : {Object : Type 0} → Api Identifiers Object
silent_api = record {
  list = λ namespace labels w. (ok [], w);
  create = λ o w. (ok o, w);
  update = λ o w. (ok o, w);
  delete = λ o w. (ok tt, w);
}

abbrev registry_server : Platform
registry_server = record {
  World = Identifiers;
  Quantity = memory.Quantity;
  parse_quantity = memory.parse_quantity;
  zero_quantity = memory.zero_quantity;
  milli_value = memory.milli_value;
  quantity_value = memory.quantity_value;
  services = silent_api;
  config_maps = silent_api;
  replica_sets = silent_api;
  hpas = silent_api;
  get_presto = λ name w. (ok (of_entry name.namespace (name, identifier w name)), w);
  list_prestos = λ namespace labels w. (ok (of_namespace namespace w), w);
  update_presto_status = λ o w. (ok o, (namespaced_name o, o.status.uuid) ∷ w);
  list_pods = λ namespace labels w. (ok [], w);
  list_pod_metrics = λ namespace labels w. (ok [], w);
  new_uuid = λ w. ("0123456789abcdef", w);
  now = λ w. ("now", w);
  record_event = λ presto event_type reason text w. w;
  not_found_message = memory.not_found_message;
  range = memory.range;
}

registry_server-Saves : Saves registry_server identifier
registry_server-Saves = record {
  lists =
      λ namespace labels w. (of_namespace namespace w, refl, AllOf-of_namespace namespace w, refl);
  updates = λ o w. (o, refl, refl);
  now_keeps = λ w. refl;
  new_uuid_keeps = λ w. refl;
}

-- Two objects of one namespace, of which the second has no identifier yet.
abbrev two_objects : Identifiers
two_objects =
    (record { namespace = "default"; name = "other" }, "fedcba9876543210")
    ∷ (record { namespace = "default"; name = "mycluster" }, "")
    ∷ []

reconcile_presto-identifier_example :
    (s' : Session registry_server) × (reconcile_presto registry_server (record {
      world = two_objects;
      presto = record sample { status = new_status };
      base_labels = [];
    })
      ≡ (done no_requeue, s'))
    × (identifier s'.world
        ≡ replaced (namespaced_name sample) "0123456789abcdef" (identifier two_objects))
reconcile_presto-identifier_example =
    reconcile_presto-identifier registry_server identifier registry_server-Saves
      (record sample { status = new_status }) two_objects refl
