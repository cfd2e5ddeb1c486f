-- ===== src/ReplicaSets.antt =====
-- The replica sets of the coordinator and of the workers, as pkg/controller/presto/presto_pods.go
-- finds, creates and scales them.
pub mod Scaling
use steerd_presto_operator.Base.{
  String, Bool, true, false, not, Option, none, some, List, [], ◌∷◌, if◌then◌else◌,
}
use steerd_presto_operator.Base.Int.{ℤ, ◌==ℤ◌}
use steerd_presto_operator.Exec.{
  Result, ok, err, pure, raise, lift, deref, gets, attempt, ◌>>=◌, ◌>>◌,
}
use steerd_presto_operator.Exec.Fallible.{is_not_found}
use steerd_presto_operator.Kube.{StringMap, ReplicaSet}
use steerd_presto_operator.Platform.{Platform}
use steerd_presto_operator.Names.{get_coordinator_pod_label, get_worker_pod_label}
use steerd_presto_operator.Pods.Build.{
  create_replica_set_for_coordinator, create_replica_set_for_worker,
}
use steerd_presto_operator.Session.{Op, call, need_short, new_not_found}

-- `Enabled == nil` counts as false.
abbrev pub is_enabled : Option Bool → Bool
is_enabled none = false
is_enabled (some enabled) = enabled

module _ (p : Platform) where
  -- The end of `getReplicaSet`, on what the list call returned.
  unfoldable pub replica_set_listed :
      Result (List (ReplicaSet p.Quantity)) → Op p (ReplicaSet p.Quantity)
  replica_set_listed (ok []) = raise (new_not_found p "replicasets")
  replica_set_listed (ok (replica_set ∷ items)) = pure replica_set
  replica_set_listed (err e) =
      if is_not_found e then raise (new_not_found p "replicasets") else raise e

  unfoldable pub get_replica_set : (String → String × String) → Op p (ReplicaSet p.Quantity)
  get_replica_set get_label = do
    presto ← gets (λ s. s.presto)
    let label = get_label presto.status.uuid
    listed ← attempt (call p (p.replica_sets.list presto.namespace (label ∷ [])))
    replica_set_listed listed

  -- The workers' replica set does not exist yet.
  unfoldable pub create_worker_set : StringMap → Op p (ReplicaSet p.Quantity × Bool × Bool)
  create_worker_set lbls = do
    presto ← gets (λ s. s.presto)
    count ← deref presto.spec.worker.count
    replica_set ← lift (create_replica_set_for_worker p presto lbls count)
    need_short p presto.status.uuid
    created ← call p (p.replica_sets.create replica_set)
    pure (created, true, false)

  unfoldable pub set_replicas :
      ReplicaSet p.Quantity → ℤ → Op p (ReplicaSet p.Quantity × Bool × Bool)
  set_replicas replica_set count = do
    updated ← call p (p.replica_sets.update (record replica_set { replicas = some count }))
    pure (updated, false, true)

  -- `*presto.Spec.Worker.Count != *replicaSet.Spec.Replicas`, and the update.
  unfoldable pub scale_to : ReplicaSet p.Quantity → ℤ → Op p (ReplicaSet p.Quantity × Bool × Bool)
  scale_to replica_set count = do
    replicas ← deref replica_set.replicas
    if not (count ==ℤ replicas)
        then set_replicas replica_set count
        else pure (replica_set, false, false)

  -- The workers' replica set exists.
  unfoldable pub scale_worker_set :
      ReplicaSet p.Quantity → Op p (ReplicaSet p.Quantity × Bool × Bool)
  scale_worker_set replica_set = do
    presto ← gets (λ s. s.presto)
    if not (is_enabled presto.spec.worker.autoscaling.enabled)
        then elim presto.spec.worker.count [
          | none ↦ pure (replica_set, false, false)
          | some count ↦ scale_to replica_set count
        ]
        else pure (replica_set, false, false)

  -- The replica set, whether it was created, and whether it was updated.
  unfoldable pub create_update_replica_set_for_worker :
      StringMap → Op p (ReplicaSet p.Quantity × Bool × Bool)
  create_update_replica_set_for_worker lbls = do
    found ← attempt (get_replica_set get_worker_pod_label)
    elim found [
      | err e ↦ if is_not_found e then create_worker_set lbls else raise e
      | ok replica_set ↦ scale_worker_set replica_set
    ]

  unfoldable pub create_coordinator_set : StringMap → Op p (ReplicaSet p.Quantity × Bool)
  create_coordinator_set lbls = do
    presto ← gets (λ s. s.presto)
    replica_set ← lift (create_replica_set_for_coordinator p presto lbls)
    need_short p presto.status.uuid
    created ← call p (p.replica_sets.create replica_set)
    pure (created, true)

  unfoldable pub create_update_replica_set_for_coordinator :
      StringMap → Op p (ReplicaSet p.Quantity × Bool)
  create_update_replica_set_for_coordinator lbls = do
    found ← attempt (get_replica_set get_coordinator_pod_label)
    elim found [
      | err e ↦ if is_not_found e then create_coordinator_set lbls else raise e
      | ok replica_set ↦ pure (replica_set, false)
    ]
