-- ===== src/Autoscaling.antt =====
-- pkg/controller/presto/hpa_handler.go: the horizontal pod autoscaler of the workers.
pub mod Laws
pub mod Sending
pub mod Decision
use steerd_presto_operator.Base.{
  String, Bool, true, false, not, ◌&&◌, Option, none, some, List, [], ◌∷◌, ◌==◌, if◌then◌else◌,
}
use steerd_presto_operator.Base.Int.{ℤ, ◌==ℤ◌}
use steerd_presto_operator.Exec.{
  Result, ok, err, pure, raise, lift, deref, gets, attempt, ◌>>=◌, ◌>>◌,
}
use steerd_presto_operator.Exec.Fallible.{
  operator_error, is_already_exists, is_not_found, ◌>>=◌ as ◌>>=ᴿ◌,
}
use steerd_presto_operator.Kube.{StringMap, Hpa, OwnerReference, ReplicaSet, no_meta}
use steerd_presto_operator.Resource.{Presto}
use steerd_presto_operator.Platform.{Platform}
use steerd_presto_operator.Names.{get_hpa_name, get_owner_reference}
use steerd_presto_operator.ReplicaSets.{is_enabled}
use steerd_presto_operator.Session.{Op, call, need_short, new_not_found}

unfoldable pub check_autoscaling_enabled : Presto → Bool
check_autoscaling_enabled presto = is_enabled presto.spec.worker.autoscaling.enabled

-- Nothing calls `isCreatedByHpaController`.
unfoldable pub is_owned_by : List OwnerReference → Presto → Bool
is_owned_by [] presto = false
is_owned_by (ref ∷ refs) presto =
    if ref.name == presto.name && ref.kind == presto.kind then true else is_owned_by refs presto

unfoldable pub is_created_by_hpa_controller : Hpa → Presto → Bool
unfolding is_owned_by
is_created_by_hpa_controller hpa presto = is_owned_by hpa.meta.owner_references presto

-- `if p == nil { return nil, &OperatorError{…} }`
abbrev required : Option ℤ → String → Result ℤ
required none errormsg = err (operator_error errormsg)
required (some n) errormsg = ok n

unfoldable pub create_hpa_spec :
    {Quantity : Type 0} → Presto → ReplicaSet Quantity → StringMap → String → Result Hpa
create_hpa_spec presto worker_replica_set lbls resource_version =
    required autoscaling.min_replicas "MinReplicas cannot be null" >>=ᴿ λ min_replicas.
    required autoscaling.max_replicas "MaxReplicas cannot be null" >>=ᴿ λ max_replicas.
    required autoscaling.target_cpu_utilization_percentage
      "TargetCPUUtilizationPercentage cannot be null"
    >>=ᴿ λ target_cpu_utilization. ok (record {
      meta = record no_meta {
        name = get_hpa_name presto.status.uuid;
        namespace = presto.namespace;
        labels = lbls;
        resource_version = resource_version;
        owner_references = get_owner_reference presto ∷ [];
      };
      scale_target_ref = record {
        api_version = worker_replica_set.api_version;
        kind = worker_replica_set.kind;
        name = worker_replica_set.meta.name;
      };
      min_replicas = some min_replicas;
      max_replicas = max_replicas;
      target_cpu_utilization_percentage = some target_cpu_utilization;
    })
  where
    open presto.spec.worker use {autoscaling}

-- What happened to the autoscaler.
pub record HpaChange : Type 0 where
  pub created : Bool
  pub updated : Bool
  pub deleted : Bool

abbrev pub no_change : HpaChange
no_change = record { created = false; updated = false; deleted = false }

module _ (p : Platform) where
  -- `*a != *b`, where both pointers are read
  unfoldable pub pointers_differ : Option ℤ → Option ℤ → Op p Bool
  pointers_differ a b = do x ← deref a; y ← deref b; pure (not (x ==ℤ y))

  -- `||` reads its right side only if the left one is false.
  unfoldable pub autoscale_spec_changed : Hpa → Presto → Op p Bool
  autoscale_spec_changed hpa presto = do
    max_differs ← pointers_differ (some hpa.max_replicas) autoscaling.max_replicas
    if max_differs then pure true else do
      min_differs ← pointers_differ hpa.min_replicas autoscaling.min_replicas
      if min_differs
          then pure true
          else pointers_differ hpa.target_cpu_utilization_percentage
              autoscaling.target_cpu_utilization_percentage
    where
      open presto.spec.worker use {autoscaling}

  -- The end of `getPrestoHPA`, on what the list call returned.
  unfoldable pub hpa_listed : Result (List Hpa) → Op p Hpa
  hpa_listed (ok []) = raise (new_not_found p "HPA")
  hpa_listed (ok (hpa ∷ items)) = pure hpa
  hpa_listed (err e) = if is_not_found e then raise (new_not_found p "HPA") else raise e

  unfoldable pub get_presto_hpa : Op p Hpa
  get_presto_hpa = do
    presto ← gets (λ s. s.presto)
    lbls ← gets (λ s. s.base_labels)
    listed ← attempt (call p (p.hpas.list presto.namespace lbls))
    hpa_listed listed

  -- `if err != nil && !errors.IsAlreadyExists(err) { return err }`
  abbrev pub unless_exists : Result Hpa → HpaChange → Op p HpaChange
  unless_exists (ok _) change = pure change
  unless_exists (err e) change = if is_already_exists e then pure change else raise e

  -- The Presto resource's spec as an autoscaler, or the error.
  abbrev pub desired_hpa : ReplicaSet p.Quantity → String → Op p Hpa
  desired_hpa worker_replica_set resource_version = do
    presto ← gets (λ s. s.presto)
    lbls ← gets (λ s. s.base_labels)
    hpa ← lift (create_hpa_spec presto worker_replica_set lbls resource_version)
    need_short p presto.status.uuid
    pure hpa

  unfoldable pub update_hpa : ReplicaSet p.Quantity → Hpa → Op p HpaChange
  update_hpa worker_replica_set old = do
    hpa ← desired_hpa worker_replica_set old.meta.resource_version
    written ← attempt (call p (p.hpas.update hpa))
    unless_exists written (record no_change { updated = true })

  unfoldable pub create_hpa : ReplicaSet p.Quantity → Op p HpaChange
  create_hpa worker_replica_set = do
    hpa ← desired_hpa worker_replica_set ""
    written ← attempt (call p (p.hpas.create hpa))
    unless_exists written (record no_change { created = true })

  unfoldable pub delete_hpa : Hpa → Op p HpaChange
  delete_hpa hpa = do call p (p.hpas.delete hpa); pure (record no_change { deleted = true })

  unfoldable pub refresh_hpa : ReplicaSet p.Quantity → Hpa → Op p HpaChange
  refresh_hpa worker_replica_set hpa = do
    presto ← gets (λ s. s.presto)
    changed ← autoscale_spec_changed hpa presto
    if changed then update_hpa worker_replica_set hpa else pure no_change

  unfoldable pub handle_replica_set : ReplicaSet p.Quantity → Op p HpaChange
  handle_replica_set worker_replica_set = do
    presto ← gets (λ s. s.presto)
    let auto_scaling_enabled = check_autoscaling_enabled presto
    found ← attempt get_presto_hpa
    elim found [
      | err e ↦
          if is_not_found e
          then if auto_scaling_enabled then create_hpa worker_replica_set else pure no_change
          else raise e
      | ok hpa ↦ if auto_scaling_enabled then refresh_hpa worker_replica_set hpa else delete_hpa hpa
    ]
