-- ===== src/Autoscaling/Laws.antt =====
-- The autoscaler follows the resource.
use steerd_presto_operator.Exec.Fallible.{is_ok}
use steerd_presto_operator.Base.{
  String, ◌≡◌, Bool, true, false, ◌&&◌, Option, none, some, ◌==◌, arith,
}
use steerd_presto_operator.Base.Int.{ℤ}
use steerd_presto_operator.Exec.{ok, done, ◌>>=◌}
use steerd_presto_operator.Kube.{StringMap, Hpa, ReplicaSet}
use steerd_presto_operator.Resource.{Presto}
use steerd_presto_operator.Platform.{Platform}
use steerd_presto_operator.Session.{Session}
use steerd_presto_operator.Autoscaling.{
  autoscale_spec_changed, create_hpa_spec, is_created_by_hpa_controller, is_owned_by,
  pointers_differ,
}
use steerd_presto_operator.Names.{get_owner_reference}

abbrev is_given : Option ℤ → Bool
is_given none = false
is_given (some n) = true

module _ {Quantity : Type 0} (presto : Presto) (replica_set : ReplicaSet Quantity)
    (lbls : StringMap) (resource_version : String) where
  -- An autoscaler can be described exactly when the resource gives its three numbers.
  pub create_hpa_spec-is_ok :
      let a = presto.spec.worker.autoscaling in
      is_ok (create_hpa_spec presto replica_set lbls resource_version) ≡ (
        is_given a.min_replicas
        && is_given a.max_replicas
        && is_given a.target_cpu_utilization_percentage)
  unfolding create_hpa_spec
  create_hpa_spec-is_ok = ground arith

  -- If an autoscaler can be described, then what is described is not found to differ from the
  -- resource that it was made from. The comparison reads no nil pointer and changes nothing.
  pub autoscale_spec_changed-create_hpa_spec :
      (p : Platform) (hpa : Hpa) (s : Session p)
      → create_hpa_spec presto replica_set lbls resource_version ≡ ok hpa
      → autoscale_spec_changed p hpa presto s ≡ (done false, s)
  unfolding create_hpa_spec autoscale_spec_changed pointers_differ ◌>>=◌
  autoscale_spec_changed-create_hpa_spec p hpa s h = ground arith

module _ {Quantity : Type 0} (presto : Presto) (replica_set : ReplicaSet Quantity)
    (lbls : StringMap) (resource_version : String) where
  -- If an autoscaler can be described, then isCreatedByHpaController takes what is described for the
  -- autoscaler of a resource exactly when that has the name and the kind of the described one.
  pub is_created_by_hpa_controller-create_hpa_spec :
      (other : Presto) (hpa : Hpa)
      → create_hpa_spec presto replica_set lbls resource_version ≡ ok hpa
      → is_created_by_hpa_controller hpa other
        ≡ ((presto.name == other.name) && (presto.kind == other.kind))
  unfolding create_hpa_spec is_created_by_hpa_controller is_owned_by get_owner_reference
  is_created_by_hpa_controller-create_hpa_spec other hpa h = ground (arith, h)
