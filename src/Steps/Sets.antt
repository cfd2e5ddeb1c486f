-- ===== src/Steps/Sets.antt =====
-- The steps of `Reconcile` for the replica sets and the autoscaler.
use steerd_presto_operator.Base.{String, ◌<>◌, Bool, true, false, ◌||◌, some, if◌then◌else◌}
use steerd_presto_operator.Exec.{ok, err, pure, gets, attempt, ◌>>=◌, ◌>>◌}
use steerd_presto_operator.Kube.{ReplicaSet}
use steerd_presto_operator.Resource.ClusterState
use steerd_presto_operator.Platform.{Platform}
use steerd_presto_operator.Names.{
  get_coordinator_pod_labels, get_coordinator_replicaset, get_hpa_name, get_worker_pod_labels,
}
use steerd_presto_operator.Session.{Op, eventf, need_short}
use steerd_presto_operator.Status.{no_action}
use steerd_presto_operator.ReplicaSets.{
  create_update_replica_set_for_coordinator, create_update_replica_set_for_worker,
}
use steerd_presto_operator.Autoscaling.{HpaChange, handle_replica_set}
use steerd_presto_operator.Steps.{config_created, put_status, put_then_report}

abbrev pub is_change : HpaChange → Bool
is_change change = change.created || change.updated || change.deleted

module _ (p : Platform) where
  unfoldable pub coordinator_replicaset : Op p Bool
  coordinator_replicaset = do
    presto ← gets (λ s. s.presto)
    lbls ← gets (λ s. s.base_labels)
    made ← attempt (
        create_update_replica_set_for_coordinator p
          (get_coordinator_pod_labels lbls presto.status.uuid))
    let cr = get_coordinator_replicaset presto.status.uuid
    elim made [
      | err e ↦
          put_then_report p "Failed to create coordinator replicaset "
            "Failed to create/update coordinator replicaset " e
      | ok (_, true) ↦
          config_created p (record no_action { coordinator_replica_set_name = some cr })
            ("Created Coordinator Replicaset. " <> cr)
      | ok (_, false) ↦ pure false
    ]

  -- The event and the status of an update, in this order.
  unfoldable pub worker_set_updated : ReplicaSet p.Quantity → Op p (Unit {0})
  worker_set_updated replica_set = do
    eventf p "Normal" "Updated" ("Updated Worker Replicaset. " <> (replica_set.meta.name <> " "))
    put_status p (record no_action {
      worker_replica_set = some replica_set;
      cluster_state = ClusterState.pending;
    })

  -- The status and the event of a creation, in this order.
  unfoldable pub worker_set_created : ReplicaSet p.Quantity → Op p (Unit {0})
  worker_set_created replica_set = do
    put_status p (record no_action {
      worker_replica_set = some replica_set;
      cluster_state = ClusterState.pending;
    })
    eventf p "Normal" "Created" ("Created Worker Replicaset. " <> replica_set.meta.name)

  -- Whether a change was made, and the workers' replica set.
  unfoldable pub worker_replicaset : Op p (Bool × ReplicaSet p.Quantity)
  worker_replicaset = do
    presto ← gets (λ s. s.presto)
    lbls ← gets (λ s. s.base_labels)
    made ←
        attempt
          (create_update_replica_set_for_worker p (get_worker_pod_labels lbls presto.status.uuid))
    elim made [
      | err e ↦
          put_then_report p "Failed to create worker replicaset "
            "Failed to create worker replicaset " e
      | ok (replica_set, created, updated) ↦ do
        if updated then worker_set_updated replica_set else pure tt
        if created then worker_set_created replica_set else pure tt
        pure (updated || created, replica_set)
    ]

  unfoldable pub hpa_created : String → Op p (Unit {0})
  hpa_created hpa_name = do
    put_status p
        (record no_action { hpa_name = some hpa_name; cluster_state = ClusterState.pending })
    eventf p "Normal" "Created" ("Created HPA. " <> hpa_name)

  unfoldable pub hpa_deleted : String → Op p (Unit {0})
  hpa_deleted hpa_name = do
    eventf p "Normal" "Deleted" ("Deleted HPA. " <> hpa_name)
    put_status p (record no_action { hpa_name = some ""; cluster_state = ClusterState.pending })

  unfoldable pub hpa_reported : HpaChange → Op p Bool
  hpa_reported change = do
    presto ← gets (λ s. s.presto)
    if is_change change then need_short p presto.status.uuid else pure tt
    let hpa_name = get_hpa_name presto.status.uuid
    if change.created then hpa_created hpa_name else pure tt
    if change.updated then eventf p "Normal" "Updated" ("Updated HPA. " <> hpa_name) else pure tt
    if change.deleted then hpa_deleted hpa_name else pure tt
    pure (is_change change)

  unfoldable pub hpa_replicaset : ReplicaSet p.Quantity → Op p Bool
  hpa_replicaset worker_replica_set = do
    made ← attempt (handle_replica_set p worker_replica_set)
    elim made [
      | err e ↦
          put_then_report p "Failed to create autoscale config "
            "failed to create/update autoscale replicaset " e
      | ok change ↦ hpa_reported change
    ]
