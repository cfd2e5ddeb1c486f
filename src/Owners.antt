-- ===== src/Owners.antt =====
-- To whom the objects that the operator builds belong: `getOwnerReference` of
-- pkg/controller/presto/common_util.go, as services.go, presto_properties.go, catalog.go,
-- presto_pods.go and hpa_handler.go use it.
use steerd_presto_operator.Base.{String, ◌≡◌, refl, Bool, true, some, [], ◌∷◌, arith}
use steerd_presto_operator.Base.Int.{ℤ}
use steerd_presto_operator.Exec.{Result, ok, err}
use steerd_presto_operator.Kube.{ObjectMeta, OwnerReference, ReplicaSet, StringMap}
use steerd_presto_operator.Resource.{Presto}
use steerd_presto_operator.Platform.{Platform}
use steerd_presto_operator.Names.{get_owner_reference}
use steerd_presto_operator.Services.{external_service, headless_service}
use steerd_presto_operator.Properties.Files.{build_config_map}
use steerd_presto_operator.Catalog.{build_catalog_config_map}
use steerd_presto_operator.Pods.Build.{
  create_replica_set_for_coordinator, create_replica_set_for_worker, replica_set_of,
}
use steerd_presto_operator.Autoscaling.{create_hpa_spec}

-- The object lies in the resource's namespace, and the resource is its only owner and controls it.
pub record IsOwned (presto : Presto) (meta : ObjectMeta) : Type 0 where
  pub owner_namespace : meta.namespace ≡ presto.namespace
  pub owner :
      (ref : OwnerReference) × (meta.owner_references ≡ ref ∷ [])
      × (ref.name ≡ presto.name)
      × (ref.kind ≡ presto.kind)
      × (ref.uid ≡ presto.uid)
      × (ref.controller ≡ some true)

-- What a builder that may fail builds, if it does not.
abbrev pub Builds : {A : Type 0} → (A → Type 0) → Result A → Type 0
Builds P (ok a) = P a
Builds P (err e) = Unit {0}

Builds-ok : {A : Type 0} (P : A → Type 0) (r : Result A) → ((a : A) → r ≡ ok a → P a) → Builds P r
Builds-ok P (ok a) k = k a refl
Builds-ok P (err e) k = tt

module _ (presto : Presto) where
  of_resource :
      (meta : ObjectMeta)
      → meta.namespace ≡ presto.namespace
      → meta.owner_references ≡ get_owner_reference presto ∷ []
      → IsOwned presto meta
  unfolding get_owner_reference
  of_resource meta e e' = record {
    owner_namespace = e;
    owner = (get_owner_reference presto, e', refl, refl, refl, refl);
  }

  abbrev pub SetOwned : {Quantity : Type 0} → ReplicaSet Quantity → Type 0
  SetOwned replica_set = IsOwned presto replica_set.meta × IsOwned presto replica_set.template_meta

  module _ (p : Platform) (lbls : StringMap) where
    IsOwned-build_config_map :
        (is_coordinator : Bool) (name : String)
        → Builds (λ cm. IsOwned presto cm.meta) (build_config_map p presto is_coordinator name lbls)
    unfolding build_config_map
    IsOwned-build_config_map is_coordinator name =
        Builds-ok _ (build_config_map p presto is_coordinator name lbls)
          λ cm h. of_resource cm.meta (ground (arith, h)) (ground (arith, h))

    SetOwned-coordinator : Builds SetOwned (create_replica_set_for_coordinator p presto lbls)
    unfolding create_replica_set_for_coordinator replica_set_of
    SetOwned-coordinator = Builds-ok _ (create_replica_set_for_coordinator p presto lbls) λ x h. (
      of_resource x.meta (ground (arith, h)) (ground (arith, h)),
      of_resource x.template_meta (ground (arith, h)) (ground (arith, h)),
    )

    SetOwned-worker : (n : ℤ) → Builds SetOwned (create_replica_set_for_worker p presto lbls n)
    unfolding create_replica_set_for_worker replica_set_of
    SetOwned-worker n = Builds-ok _ (create_replica_set_for_worker p presto lbls n) λ x h. (
      of_resource x.meta (ground (arith, h)) (ground (arith, h)),
      of_resource x.template_meta (ground (arith, h)) (ground (arith, h)),
    )

    IsOwned-create_hpa_spec :
        (replica_set : ReplicaSet p.Quantity) (version : String)
        → Builds (λ hpa. IsOwned presto hpa.meta) (create_hpa_spec presto replica_set lbls version)
    unfolding create_hpa_spec
    IsOwned-create_hpa_spec replica_set version =
        Builds-ok _ (create_hpa_spec presto replica_set lbls version)
          λ x h. of_resource x.meta (ground (arith, h)) (ground (arith, h))

    -- Whatever labels, names and numbers they are given: the two services, the config maps, the replica
    -- sets with their pods, and the autoscaler, if they can be built, lie in the namespace of the
    -- resource, and the resource is their only owner and controls them.
    pub IsOwned-builders :
        (is_coordinator : Bool) (name : String) (n : ℤ) (replica_set : ReplicaSet p.Quantity)
        (version : String)
        → IsOwned presto (headless_service presto lbls).meta
          × IsOwned presto (external_service presto lbls).meta
          × Builds
              (λ cm. IsOwned presto cm.meta)
              (build_config_map p presto is_coordinator name lbls)
          × IsOwned presto (build_catalog_config_map p presto name lbls).meta
          × Builds SetOwned (create_replica_set_for_coordinator p presto lbls)
          × Builds SetOwned (create_replica_set_for_worker p presto lbls n)
          × Builds
              (λ hpa. IsOwned presto hpa.meta)
              (create_hpa_spec presto replica_set lbls version)
    unfolding headless_service external_service build_catalog_config_map
    IsOwned-builders is_coordinator name n replica_set version = (
      of_resource _ refl refl,
      of_resource _ refl refl,
      IsOwned-build_config_map is_coordinator name,
      of_resource _ refl refl,
      SetOwned-coordinator,
      SetOwned-worker n,
      IsOwned-create_hpa_spec replica_set version,
    )
