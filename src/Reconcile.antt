-- ===== src/Reconcile.antt =====
-- `Reconcile` of pkg/controller/presto/presto_controller.go, the registry of periodic events, and
-- the requests that a tick of `newReconciler`'s goroutine sends.
pub mod Identifier
pub mod Ticks
pub mod Labels
pub mod Registered
pub mod Answers
use steerd_presto_operator.Base.{
  String, ◌<>◌, Bool, true, false, ◌&&◌, some, List, [], ◌∷◌, map, ◌==◌, if◌then◌else◌,
}
use steerd_presto_operator.Base.Int.{ℤ, pos, format_int}
use steerd_presto_operator.Exec.{
  Result, ok, err, Outcome, done, failed, Exec, pure, gets, ◌>>=◌, ◌>>◌,
}
use steerd_presto_operator.Exec.Fallible.{is_not_found}
use steerd_presto_operator.Kube.{NamespacedName, ReplicaSet}
use steerd_presto_operator.Resource.{Presto, namespaced_name}
use steerd_presto_operator.Resource.ClusterState
use steerd_presto_operator.Platform.{Platform}
use steerd_presto_operator.Session.{Op, ask}
use steerd_presto_operator.Status.{no_action, update_status}
use steerd_presto_operator.Cpu.{get_coordinator_pod_phase, get_cpu_usage}
use steerd_presto_operator.Steps.{
  catalog_config, coordinator_config, headless_service_config, put_status, service_config,
  worker_config,
}
use steerd_presto_operator.Steps.Sets.{coordinator_replicaset, hpa_replicaset, worker_replicaset}

-- `reconcile.Result`; `requeue_after` is in nanoseconds.
pub record Answer : Type 0 where
  pub requeue : Bool
  pub requeue_after : ℤ

abbrev pub no_requeue : Answer
no_requeue = record { requeue = false; requeue_after = pos 0 }

module _ (p : Platform) where
  -- `if changesMade { return reconcile.Result{}, nil }`, else the rest
  unfoldable pub then_continue : Op p Bool → Op p Answer → Op p Answer
  then_continue step rest = do changes_made ← step; if changes_made then pure no_requeue else rest

  -- `fmt.Sprintf("%d%%", n)`
  abbrev percent : ℤ → String
  percent n = format_int n <> "%"

  unfoldable pub ready_status : ReplicaSet p.Quantity → Op p (Unit {0})
  ready_status worker_replica_set = do
    worker_cpu ← get_cpu_usage p false
    coordinator_cpu ← get_cpu_usage p true
    put_status p (record no_action {
      cluster_state = ClusterState.ready;
      worker_replica_set = some worker_replica_set;
      worker_cpu_usage = some (percent worker_cpu);
      coordinator_cpu_usage = some (percent coordinator_cpu);
    })

  unfoldable pub state_status : ReplicaSet p.Quantity → String → Op p (Unit {0})
  state_status worker_replica_set state =
      put_status p
        (record no_action { cluster_state = state; worker_replica_set = some worker_replica_set })

  -- The last part: the status by the phase of the coordinator's pod.
  unfoldable pub phase_status : ReplicaSet p.Quantity → Op p Answer
  phase_status worker_replica_set = do
    phase ← get_coordinator_pod_phase p
    if phase == "Pending"
        then state_status worker_replica_set ClusterState.pending
        else if phase == "Failed"
        then state_status worker_replica_set ClusterState.failed
        else if phase == "Running"
        then ready_status worker_replica_set
        else state_status worker_replica_set ClusterState.unknown
    pure no_requeue

  -- The steps from the workers' replica set on.
  unfoldable pub worker_steps : Op p Answer
  worker_steps = do
    (changes_made, worker_replica_set) ← worker_replicaset p
    if changes_made
        then pure no_requeue
        else then_continue (hpa_replicaset p worker_replica_set) (phase_status worker_replica_set)

  -- `baseLabels`
  unfoldable pub set_base_labels : Op p (Unit {0})
  unfolding pure
  set_base_labels s = pure tt (record s {
    base_labels = ("clusterUUID", s.presto.status.uuid) ∷ ("clusterName", s.presto.name) ∷ [];
  })

  unfoldable pub build_cluster : Op p Answer
  build_cluster = do
    set_base_labels
    then_continue (headless_service_config p) (
        then_continue (service_config p) (
          then_continue (coordinator_config p) (
            then_continue (worker_config p) (
              then_continue (catalog_config p)
                (then_continue (coordinator_replicaset p) worker_steps)))))

  -- A cluster without an identifier gets one first, and the pass ends. `RequeueAfter` is
  -- `0*time.Millisecond`.
  unfoldable pub assign_uuid : Op p Answer
  assign_uuid = do
    cluster_uuid ← ask p p.new_uuid
    updated ← update_status p (record no_action { cluster_uuid = some cluster_uuid })
    if updated then pure (record { requeue = false; requeue_after = pos 0 }) else build_cluster

  unfoldable pub reconcile_presto : Op p Answer
  reconcile_presto = do
    presto ← gets (λ s. s.presto)
    if presto.status.uuid == "" then assign_uuid else build_cluster

abbrev pub same_name : NamespacedName → NamespacedName → Bool
same_name a b = a.namespace == b.namespace && a.name == b.name

-- `registeredPrestos`, a `sync.Map` from names to events; an event holds the object.
abbrev pub Registry : Type 0
Registry = List (NamespacedName × Presto)

unfoldable pub is_registered : NamespacedName → Registry → Bool
is_registered name [] = false
is_registered name ((n, presto) ∷ registry) =
    if same_name n name then true else is_registered name registry

unfoldable pub unregister : NamespacedName → Registry → Registry
unregister name [] = []
unregister name ((n, presto) ∷ registry) =
    let rest = unregister name registry in if same_name n name then rest else (n, presto) ∷ rest

unfoldable pub register : NamespacedName → Presto → Registry → Registry
unfolding is_registered
register name presto registry =
    if is_registered name registry then registry else (name, presto) ∷ registry

-- One tick sends the event of every registered object, and `EnqueueRequestForObject` makes a
-- request of its name and namespace.
unfoldable pub tick : Registry → List NamespacedName
tick registry = map (λ (name, presto). namespaced_name presto) registry

-- `ReconcilePresto`, with the world that its clients talk to.
pub record Reconciler (p : Platform) : Type 0 where
  pub world : p.World
  pub registered_prestos : Registry

module _ (p : Platform) where
  -- Runs the steps on the object that was read.
  abbrev pub run : Op p Answer → Presto → Reconciler p → Outcome Answer × Reconciler p
  run steps presto r =
      let (answer, s) = steps (record { world = r.world; presto = presto; base_labels = [] }) in
      (answer, record r { world = s.world })

  abbrev pub on_read : NamespacedName → Result Presto → Exec (Reconciler p) Answer
  on_read request (err e) r =
      if is_not_found e
      then (
        done no_requeue,
        record r { registered_prestos = unregister request r.registered_prestos },
      )
      else (failed e, r)
  on_read request (ok presto) r =
      run (reconcile_presto p) presto
        (record r { registered_prestos = register request presto r.registered_prestos })

  unfoldable pub reconcile : NamespacedName → Exec (Reconciler p) Answer
  unfolding reconcile_presto register unregister
  reconcile request r =
      let (read, w) = p.get_presto request r.world in on_read request read (record r { world = w })
