-- ===== src/Tests/PassWitnesses.antt =====
-- The theorems on whole passes of `Reconcile`, at a concrete resource on the platform in memory.
use steerd_presto_operator.Session.{Session}
use steerd_presto_operator.Reconcile.{reconcile_presto}
use steerd_presto_operator.Spending.Identifier.{reconcile_presto-writes_nothing}
use steerd_presto_operator.Tests.{new_status}
use steerd_presto_operator.Base.{refl}
use steerd_presto_operator.Autoscaling.{handle_replica_set}
use steerd_presto_operator.Base.{◌+◌, ◌≤◌, ◌≡◌, refl, true, []}
use steerd_presto_operator.Kube.{NamespacedName}
use steerd_presto_operator.Resource.{namespaced_name}
use steerd_presto_operator.Names.{get_coordinator_pod_labels, get_worker_pod_labels}
use steerd_presto_operator.Steps.{
  catalog_config, coordinator_config, headless_service_config, service_config, worker_config,
}
use steerd_presto_operator.Steps.Sets.{coordinator_replicaset, hpa_replicaset}
use steerd_presto_operator.Reconcile.{Reconciler, reconcile}
use steerd_presto_operator.Reconcile.Answers.{IsFinal, reconcile-IsFinal}
use steerd_presto_operator.Reconcile.Registered.{
  registered, reconcile-registered, reconcile-registered_other,
}
use steerd_presto_operator.Spending.{budget_after}
use steerd_presto_operator.Spending.Pass.{
  reconcile-writes_once, step_budget, unchanged_step-writes_nothing,
}
use steerd_presto_operator.Tests.{sample, sample_session, sample_world}
use steerd_presto_operator.Exec.{err}
use steerd_presto_operator.Reconcile.{tick}
use steerd_presto_operator.Reconcile.Ticks.{Answers, Distinct, Distinct-tick, begun, reconciled}
use steerd_presto_operator.Base.{ap, sym, arith}
use steerd_presto_operator.Exec.{ok}
use steerd_presto_operator.Exec.Fallible.{operator_error}
use steerd_presto_operator.Platform.{Api, Platform}
use steerd_presto_operator.Services.{create_head_less_pod_discovery_svc, create_or_get_service}
use steerd_presto_operator.ConfigMaps.{
  create_catalog_config, create_coordinator_config, create_worker_config,
}
use steerd_presto_operator.ReplicaSets.{
  create_update_replica_set_for_coordinator, create_update_replica_set_for_worker,
}
use steerd_presto_operator.Steps.Sets.{worker_replicaset}
use steerd_presto_operator.Steps.Errors.{Forwards, Forwards-steps}
use steerd_presto_operator.Tests.Memory.{Cluster, logged, memory, memory-Counts, written_count}
use steerd_presto_operator.Tests.{found_set}

abbrev start : Reconciler memory
start = record { world = sample_world; registered_prestos = [] }

abbrev request : NamespacedName
request = namespaced_name sample

reconcile-writes_once_example :
    written_count (reconcile memory request start).1.world ≤ 1 + written_count start.world
reconcile-writes_once_example =
    reconcile-writes_once memory written_count memory-Counts request start

reconcile-IsFinal_example : IsFinal (reconcile memory request start).0
reconcile-IsFinal_example = reconcile-IsFinal memory request start

reconcile-registered_example : registered request (reconcile memory request start).1 ≡ true
reconcile-registered_example = reconcile-registered request start

abbrev other : NamespacedName
other = record { namespace = "default"; name = "other" }

reconcile-registered_other_example :
    registered other (reconcile memory request start).1 ≡ registered other start
reconcile-registered_other_example = reconcile-registered_other request start other refl

unchanged_step-writes_nothing_example :
    (written_count (headless_service_config memory sample_session).1.world
      ≤ step_budget 0 (headless_service_config memory sample_session).0)
    × (written_count (service_config memory sample_session).1.world
        ≤ step_budget 0 (service_config memory sample_session).0)
    × (written_count (coordinator_config memory sample_session).1.world
        ≤ step_budget 0 (coordinator_config memory sample_session).0)
    × (written_count (worker_config memory sample_session).1.world
        ≤ step_budget 0 (worker_config memory sample_session).0)
    × (written_count (catalog_config memory sample_session).1.world
        ≤ step_budget 0 (catalog_config memory sample_session).0)
    × (written_count (coordinator_replicaset memory sample_session).1.world
        ≤ step_budget 0 (coordinator_replicaset memory sample_session).0)
    × (written_count (worker_replicaset memory sample_session).1.world
        ≤ budget_after 0 (λ made. made.0) (worker_replicaset memory sample_session).0)
    × (written_count (hpa_replicaset memory found_set sample_session).1.world
        ≤ step_budget 0 (hpa_replicaset memory found_set sample_session).0)
unchanged_step-writes_nothing_example =
    unchanged_step-writes_nothing memory written_count memory-Counts found_set sample_session

abbrev unnamed_session : Session memory
unnamed_session = record sample_session { presto = record sample { status = new_status } }

reconcile_presto-writes_nothing_example :
    written_count (reconcile_presto memory unnamed_session).1.world ≤ 0
reconcile_presto-writes_nothing_example =
    reconcile_presto-writes_nothing memory written_count memory-Counts unnamed_session refl

-- The API server answers no list call.
abbrev down : {Object : Type 0} → Api Cluster Object
down = record (logged []) { list = λ namespace labels w. (err (operator_error "down"), w) }

abbrev down_platform : Platform
down_platform = record memory {
  services = down;
  config_maps = down;
  replica_sets = down;
  hpas = down;
}

abbrev down_session : Session down_platform
down_session = record {
  world = sample_world;
  presto = sample;
  base_labels = sample_session.base_labels;
}

Forwards-steps_example :
    let s = down_session in
    let p = down_platform in
    Forwards (create_head_less_pod_discovery_svc p s).0 (headless_service_config p s).0
    × Forwards (create_or_get_service p s).0 (service_config p s).0
    × Forwards (create_coordinator_config p s).0 (coordinator_config p s).0
    × Forwards (create_worker_config p s).0 (worker_config p s).0
    × Forwards (create_catalog_config p s).0 (catalog_config p s).0
    × Forwards
        (create_update_replica_set_for_coordinator p
          (get_coordinator_pod_labels s.base_labels s.presto.status.uuid)
          s).0
        (coordinator_replicaset p s).0
    × Forwards
        (create_update_replica_set_for_worker p
          (get_worker_pod_labels s.base_labels s.presto.status.uuid)
          s).0
        (worker_replicaset p s).0
    × Forwards (handle_replica_set p found_set s).0 (hpa_replicaset p found_set s).0
Forwards-steps_example = Forwards-steps down_platform down_session found_set

-- The server answers with the object of the name that it is asked for.
abbrev name_server : Platform
name_server = record memory {
  get_presto =
      λ request w. (ok (record sample { namespace = request.namespace; name = request.name }), w);
}

name_server-Answers : Answers name_server
name_server-Answers request w presto h =
    let e : record sample { namespace = request.namespace; name = request.name } ≡ presto =
      ground (arith, h) in
    ap namespaced_name (sym e)

abbrev nobody : Reconciler name_server
nobody = record { world = sample_world; registered_prestos = [] }

-- Two calls for the same object.
abbrev called_twice : Reconciler name_server
called_twice = (reconcile name_server request (reconcile name_server request nobody).1).1

Distinct-tick_example : Distinct (tick called_twice.registered_prestos)
Distinct-tick_example =
    Distinct-tick name_server name_server-Answers {start = nobody} {r = called_twice}
      (reconciled request (reconciled request begun)) refl
