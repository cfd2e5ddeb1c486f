-- ===== src/Reconcile/Labels.antt =====
-- The labels of the pods and the selectors of the services, as they are sent to the API. The two
-- steps for services write into the map of base labels that they are given, and the pods are
-- labelled from that map later.
use steerd_presto_operator.Base.{String, ◌≡◌, some, List, [], ◌∷◌}
use steerd_presto_operator.Base.Dict.{lookup}
use steerd_presto_operator.Kube.{ReplicaSet, Service, StringMap}
use steerd_presto_operator.Platform.{Platform}
use steerd_presto_operator.Names.{get_coordinator_pod_labels, get_worker_pod_labels}
use steerd_presto_operator.Session.{Session}
use steerd_presto_operator.Services.{create_head_less_pod_discovery_svc, create_or_get_service}
use steerd_presto_operator.Calls.{emptied, recorded}
use steerd_presto_operator.Reconcile.{set_base_labels}

-- A service with this selector picks a pod with these labels: they have each entry of the selector.
abbrev pub Selects : StringMap → StringMap → Type 0
Selects [] labels = Unit {0}
Selects ((k, v) ∷ selector) labels = (lookup k labels ≡ some v) × Selects selector labels

-- The labels of the pods of a replica set.
abbrev pub pod_labels : {Quantity : Type 0} → ReplicaSet Quantity → StringMap
pod_labels replica_set = replica_set.template_meta.labels

abbrev pub Each : {A : Type 0} → (A → Type 0) → List A → Type 0
Each P [] = Unit {0}
Each P (x ∷ xs) = P x × Each P xs

-- Each of the services picks the pods of each of the replica sets, or of none of them.
abbrev pub PickPods : {Quantity : Type 0} → List Service → List (ReplicaSet Quantity) → Type 0
PickPods services sets =
    Each (λ service. Each (λ o. Selects service.spec.selector (pod_labels o)) sets) services

abbrev pub PickNoPods : {Quantity : Type 0} → List Service → List (ReplicaSet Quantity) → Type 0
PickNoPods services sets =
    Each (λ service. Each (λ o. ¬ Selects service.spec.selector (pod_labels o)) sets) services

-- The replica sets count the pods that they make.
abbrev pub CountOwnPods : {Quantity : Type 0} → List (ReplicaSet Quantity) → Type 0
CountOwnPods sets = Each (λ o. Selects o.match_labels (pod_labels o)) sets

-- The map of base labels after the two steps.
abbrev pub shared_labels : String → String → StringMap
shared_labels uuid name =
    ("clusterUUID", uuid)
    ∷ ("clusterName", name)
    ∷ ("pod-discovery", uuid)
    ∷ ("external-presto-svc", uuid)
    ∷ []

-- The map of base labels when the headless service is created.
abbrev pub headless_labels : String → String → StringMap
headless_labels uuid name =
    ("clusterUUID", uuid) ∷ ("clusterName", name) ∷ ("pod-discovery", uuid) ∷ []

module _ (uuid name : String) where
  abbrev worker_labels : StringMap
  worker_labels = get_worker_pod_labels (shared_labels uuid name) uuid

  abbrev coordinator_labels : StringMap
  coordinator_labels = get_coordinator_pod_labels (shared_labels uuid name) uuid

module _ (p : Platform) where
  module _ (s : Session (recorded p)) where
    -- The sessions after the headless service and after the external one, nothing having been sent
    -- before either.
    abbrev pub after_headless : Session (recorded p)
    after_headless =
        (create_head_less_pod_discovery_svc (recorded p)
          (emptied p (set_base_labels (recorded p) s).1)).1

    abbrev pub after_service : Session (recorded p)
    after_service = (create_or_get_service (recorded p) (emptied p after_headless)).1
