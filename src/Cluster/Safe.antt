-- ===== src/Cluster/Safe.antt =====
-- When a status update cannot panic.
use steerd_presto_operator.Base.{
  ◌≡◌, refl, Bool, true, false, not, ◌&&◌, ◌||◌, Option, none, some, List, [], ◌∷◌, arith,
  Option-cases, inl, inr,
}
use steerd_presto_operator.Base.Int.{ℤ}
use steerd_presto_operator.Kube.{ReplicaSet, Service, ServicePort}
use steerd_presto_operator.Resource.{PrestoStatus}
use steerd_presto_operator.Status.{
  ClusterUpdateAction, Draft, apply_action, write_address, write_service, write_workers,
}
use steerd_presto_operator.Status.Assignments.{given}
use steerd_presto_operator.Status.Laws.{
  fields_given, fields_written, uuid_written, workers_written as workers_status, apply_action-rest,
}
use steerd_presto_operator.Cluster.{is_empty}

-- The status can be written from the action without a panic: a service has ports, and a replica set
-- its number of replicas.
abbrev pub service_is_safe : Option Service → Bool
service_is_safe none = true
service_is_safe (some service) = not (is_empty service.spec.ports)

abbrev pub workers_are_safe : {Quantity : Type 0} → Option (ReplicaSet Quantity) → Bool
workers_are_safe none = true
workers_are_safe (some replica_set) = elim replica_set.replicas [ none ↦ false | some n ↦ true ]

abbrev pub is_safe : {Quantity : Type 0} → ClusterUpdateAction Quantity → Bool
is_safe action = service_is_safe action.service && workers_are_safe action.worker_replica_set

both_true : (a b : Bool) → (a && b) ≡ true → (a ≡ true) × (b ≡ true)
both_true a b h = ground arith

false-true : ¬ (false ≡ true)
false-true h = cc

abbrev workers_given : {Quantity : Type 0} → ReplicaSet Quantity → ℤ → PrestoStatus → Draft
workers_given replica_set n s = (workers_status replica_set n s, true)

module _ {Quantity : Type 0} (action : ClusterUpdateAction Quantity) where
  workers_written :
      (w : Option (ReplicaSet Quantity)) (d : Draft)
      → workers_are_safe w ≡ true
      → (d' : Draft) × (write_workers w d ≡ some d')
  workers_written none d h = (d, refl)
  workers_written (some replica_set) (s, u) h = elim (Option-cases replica_set.replicas) [
    | inl e ↦ absurd (false-true (rw e at h))
    | inr (n, e) ↦ (workers_given replica_set n s, rw e refl)
  ]

  service_written :
      (service : Option Service) (d : Draft)
      → service_is_safe service ≡ true
      → (d' : Draft) × (write_service service d ≡ some d')
  service_written none d h = (d, refl)
  service_written (some service) (s, u) h = ports service.spec.ports h
    where
      ports :
          (l : List ServicePort)
          → not (is_empty l) ≡ true
          → (d' : Draft) × (write_address service l s ≡ some d')
      ports [] h = cc
      ports (port ∷ l) h = (_, refl)

  pub apply_action-is_safe :
      (status : PrestoStatus)
      → is_safe action ≡ true
      → (d : Draft) × (apply_action action status ≡ some d)
  apply_action-is_safe status h =
      let (safe, safe') =
        both_true (service_is_safe action.service) (workers_are_safe action.worker_replica_set) h in
      let begun : Draft = (uuid_written action status, given action.cluster_uuid || false) in
      let ((s, u), e) = service_written action.service begun safe in
      let (d', e') =
        workers_written action.worker_replica_set (fields_written action s, fields_given action u)
          safe' in
      (d', rw (apply_action-rest action status, e) e')
