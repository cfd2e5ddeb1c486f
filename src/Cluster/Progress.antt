-- ===== src/Cluster/Progress.antt =====
-- How far a cluster has been built: which of the eight objects the operator finds, in the order of
-- its steps.
use steerd_presto_operator.Base.{
  String, ℕ, ◌≡◌, refl, Bool, true, false, not, ◌&&◌, Option, none, some, List, [], ◌∷◌, ◌==◌,
}
use steerd_presto_operator.Base.Int.{ℤ, ◌==ℤ◌}
use steerd_presto_operator.Exec.Fallible.{is_ok}
use steerd_presto_operator.Kube.{Hpa, ObjectMeta, StringMap}
use steerd_presto_operator.Resource.{Presto}
use steerd_presto_operator.Platform.{Platform}
use steerd_presto_operator.Cluster.Settle.{mark}
use steerd_presto_operator.Names.{
  get_catalog_config_map_name, get_coordinator_config_map_name, get_coordinator_pod_label,
  get_external_service_label, get_external_service_name, get_hpa_name,
  get_pod_discovery_service_label, get_pod_discovery_service_name, get_worker_config_map_name,
  get_worker_pod_label, has_short, get_coordinator_pod_labels, get_worker_pod_labels,
}
use steerd_presto_operator.Properties.Files.{build_config_map}
use steerd_presto_operator.Pods.Build.{
  create_replica_set_for_coordinator, create_replica_set_for_worker,
}
use steerd_presto_operator.ReplicaSets.Scaling.{is_settled}
use steerd_presto_operator.Autoscaling.{check_autoscaling_enabled}
use steerd_presto_operator.Reconcile.Labels.{shared_labels}
use steerd_presto_operator.Cluster.{Objects, SameMeta, all, any, is_empty, named, selects}
use steerd_presto_operator.Cluster.Found.{follows}

abbrev pub same_numbers : Option ℤ → Option ℤ → Bool
same_numbers none b = false
same_numbers (some m) none = false
same_numbers (some m) (some n) = m ==ℤ n

abbrev pub is_given : {A : Type 0} → Option A → Bool
is_given none = false
is_given (some a) = true

-- The autoscaler has the resource's numbers.
abbrev pub agrees : Presto → Hpa → Bool
agrees presto hpa =
    same_numbers (some hpa.max_replicas) presto.spec.worker.autoscaling.max_replicas
    && same_numbers hpa.min_replicas presto.spec.worker.autoscaling.min_replicas
    && same_numbers hpa.target_cpu_utilization_percentage
        presto.spec.worker.autoscaling.target_cpu_utilization_percentage

module _ (presto : Presto) where
  abbrev pub labels : StringMap
  labels = shared_labels presto.status.uuid presto.name

  abbrev pub is_headless : ObjectMeta → Bool
  is_headless meta =
      selects presto.namespace (get_pod_discovery_service_label presto.status.uuid ∷ []) meta

  abbrev pub is_external : ObjectMeta → Bool
  is_external meta =
      selects presto.namespace (get_external_service_label presto.status.uuid ∷ []) meta

  abbrev pub is_shared : ObjectMeta → Bool
  is_shared meta = selects presto.namespace labels meta

  abbrev pub is_coordinator_set : ObjectMeta → Bool
  is_coordinator_set meta =
      selects presto.namespace (get_coordinator_pod_label presto.status.uuid ∷ []) meta

  abbrev pub is_worker_set : ObjectMeta → Bool
  is_worker_set meta = selects presto.namespace (get_worker_pod_label presto.status.uuid ∷ []) meta

  abbrev pub has_config : {Quantity : Type 0} → String → Objects Quantity → Bool
  has_config name o = any (λ x. is_shared x.meta && (x.meta.name == name)) o.config_maps

  -- What the steps find, in their order. An autoscaler is missing only if one is wanted.
  abbrev pub progress : {Quantity : Type 0} → Objects Quantity → List Bool
  progress o =
      any (λ x. is_headless x.meta) o.services
      ∷ any (λ x. is_external x.meta) o.services
      ∷ has_config (get_coordinator_config_map_name presto.status.uuid) o
      ∷ has_config (get_worker_config_map_name presto.status.uuid) o
      ∷ has_config (get_catalog_config_map_name presto.status.uuid) o
      ∷ any (λ x. is_coordinator_set x.meta) o.replica_sets
      ∷ any (λ x. is_worker_set x.meta) o.replica_sets
      ∷ follows (check_autoscaling_enabled presto) (any (λ x. is_shared x.meta) o.hpas)
      ∷ []

  abbrev pub is_named : String → ObjectMeta → Bool
  is_named name meta = named presto.namespace name meta

  -- Nobody else uses the operator's names, the external service has ports, the workers' replica set
  -- has the wanted number of workers, and an autoscaler is there only if it is wanted and as it is
  -- wanted.
  pub record Sound {Quantity : Type 0} (o : Objects Quantity) : Type 0 where
    pub headless_named :
        all
          (λ x.
            follows
              (is_named (get_pod_discovery_service_name presto.status.uuid) x.meta)
              (is_headless x.meta))
          o.services
        ≡ true
    pub external_named :
        all
          (λ x.
            follows
              (is_named (get_external_service_name presto.status.uuid) x.meta)
              (is_external x.meta))
          o.services
        ≡ true
    pub external_ports :
        all (λ x. follows (is_external x.meta) (not (is_empty x.spec.ports))) o.services ≡ true
    pub coordinator_config_named :
        all
          (λ x.
            follows
              (is_named (get_coordinator_config_map_name presto.status.uuid) x.meta)
              (is_shared x.meta))
          o.config_maps
        ≡ true
    pub worker_config_named :
        all
          (λ x.
            follows
              (is_named (get_worker_config_map_name presto.status.uuid) x.meta)
              (is_shared x.meta))
          o.config_maps
        ≡ true
    pub catalog_config_named :
        all
          (λ x.
            follows
              (is_named (get_catalog_config_map_name presto.status.uuid) x.meta)
              (is_shared x.meta))
          o.config_maps
        ≡ true
    pub workers_settled :
        all
          (λ x. follows (is_worker_set x.meta) (is_settled presto x && is_given x.replicas))
          o.replica_sets
        ≡ true
    pub hpas_agree :
        all
          (λ x. follows (is_shared x.meta) (check_autoscaling_enabled presto && agrees presto x))
          o.hpas
        ≡ true
    pub hpas_named :
        all
          (λ x. follows (is_named (get_hpa_name presto.status.uuid) x.meta) (is_shared x.meta))
          o.hpas
        ≡ true

  -- The resource can be built: its texts parse, and what the chosen features need is given.
  pub record Valid (p : Platform) : Type 0 where
    pub is_short : has_short presto.status.uuid ≡ true
    pub has_uuid : (presto.status.uuid == "") ≡ false
    pub has_type : (presto.spec.service.type == "ExternalName") ≡ false
    pub has_count : is_given presto.spec.worker.count ≡ true
    pub coordinator_config_built :
        is_ok (
          build_config_map p presto true
            (get_coordinator_config_map_name presto.status.uuid)
            labels)
        ≡ true
    pub worker_config_built :
        is_ok
          (build_config_map p presto false (get_worker_config_map_name presto.status.uuid) labels)
        ≡ true
    pub coordinator_built :
        is_ok (
          create_replica_set_for_coordinator p presto
            (get_coordinator_pod_labels labels presto.status.uuid))
        ≡ true
    pub workers_built :
        (n : ℤ)
        → is_ok (
            create_replica_set_for_worker p presto
              (get_worker_pod_labels labels presto.status.uuid)
              n)
          ≡ true
    pub numbers_given :
        follows (check_autoscaling_enabled presto) (
          is_given presto.spec.worker.autoscaling.min_replicas
          && is_given presto.spec.worker.autoscaling.max_replicas
          && is_given presto.spec.worker.autoscaling.target_cpu_utilization_percentage)
        ≡ true

pub selects-SameMeta :
    (namespace : String) (selector : StringMap) {o o' : ObjectMeta}
    → SameMeta o o'
    → selects namespace selector o' ≡ selects namespace selector o
selects-SameMeta namespace selector same = rw (same.same_namespace, same.same_labels) refl

pub named-SameMeta :
    (namespace name : String) {o o' : ObjectMeta}
    → (o.name == "") ≡ false
    → SameMeta o o'
    → named namespace name o' ≡ named namespace name o
named-SameMeta namespace name h same = rw (same.same_namespace, same.same_name h) refl

-- After a step that built its object: it says so, and the cluster is sound and has one object more.
abbrev pub Built :
    {Quantity : Type 0} → Presto → ℕ → Objects Quantity → Bool → Objects Quantity → Type 0
Built presto n o changed o' =
    (changed ≡ true) × Sound presto o' × (progress presto o' ≡ mark n (progress presto o))
