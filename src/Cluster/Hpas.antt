-- ===== src/Cluster/Hpas.antt =====
-- The autoscalers that the operator finds, describes and compares.
use steerd_presto_operator.Base.{
  ◌≡◌, refl, true, false, ◌&&◌, Option, none, some, List, [], ◌∷◌, ◌++◌, arith,
}
use steerd_presto_operator.Base.Int.{ℤ, ◌==ℤ◌, ==ℤ_iff}
use steerd_presto_operator.Exec.{done, failed, ok}
use steerd_presto_operator.Kube.{no_meta, Hpa, ReplicaSet, StringMap}
use steerd_presto_operator.Resource.{Presto}
use steerd_presto_operator.Platform.{Platform}
use steerd_presto_operator.Session.{new_not_found}
use steerd_presto_operator.Autoscaling.{
  autoscale_spec_changed, check_autoscaling_enabled, create_hpa_spec, get_presto_hpa, hpa_listed,
  pointers_differ,
}
use steerd_presto_operator.Cluster.{Keeper, Objects, keep}
use steerd_presto_operator.Names.{get_owner_reference, get_hpa_name}
use steerd_presto_operator.Cluster.Runs.{
  Runs, Runs->>=, Runs-attempt, Runs-deref, Runs-labels, Runs-list, Runs-presto, Runs-pure,
  Runs-raise,
}
use steerd_presto_operator.Cluster.Settle.{mark}
use steerd_presto_operator.Cluster.Progress.{
  Sound, agrees, is_given, is_shared, same_numbers, Built, labels,
}
use steerd_presto_operator.Cluster.Found.{all-grows, any-found}
use steerd_presto_operator.Cluster.ConfigMaps.{OfCluster, is_shared-OfCluster}
use steerd_presto_operator.Cluster.Workers.{is_given-some}

module _ {Quantity : Type 0} (presto : Presto) (o : Objects Quantity) where
  abbrev pub with_hpa : Hpa → Objects Quantity
  with_hpa y = record o { hpas = o.hpas ++ y ∷ [] }

  module _ (y : Hpa) (of : OfCluster presto (get_hpa_name presto.status.uuid) y.meta)
      (good : (check_autoscaling_enabled presto && agrees presto y) ≡ true) where
    shared : is_shared presto y.meta ≡ true
    shared = is_shared-OfCluster presto _ y.meta of

    Sound-with_hpa : Sound presto o → Sound presto (with_hpa y)
    Sound-with_hpa sound = record {
      headless_named = sound.headless_named;
      external_named = sound.external_named;
      external_ports = sound.external_ports;
      coordinator_config_named = sound.coordinator_config_named;
      worker_config_named = sound.worker_config_named;
      catalog_config_named = sound.catalog_config_named;
      workers_settled = sound.workers_settled;
      hpas_agree = all-grows _ o.hpas y sound.hpas_agree (rw good (ground arith));
      hpas_named = all-grows _ o.hpas y sound.hpas_named (rw shared (ground arith));
    }

    pub hpa_grown : Sound presto o → Built presto 7 o true (with_hpa y)
    unfolding mark
    hpa_grown sound =
        let enabled : check_autoscaling_enabled presto ≡ true = ground (arith, good) in
        (
          refl,
          Sound-with_hpa sound,
          rw (any-found (λ x. is_shared presto x.meta) o.hpas y shared, enabled) refl,
        )

both_given :
    (a b : Option ℤ)
    → same_numbers a b ≡ true
    → is_given b ≡ true
    → (m : ℤ) × (n : ℤ) × (a ≡ some m) × (b ≡ some n) × ((m ==ℤ n) ≡ true)
both_given none b h k = cc
both_given (some m) none h k = cc
both_given (some m) (some n) h k = (m, n, refl, refl, h)

-- A described autoscaler is the cluster's and has the resource's numbers.
pub hpa_described :
    {Quantity : Type 0} (presto : Presto) (y : ReplicaSet Quantity)
    → (is_given presto.spec.worker.autoscaling.min_replicas
        && is_given presto.spec.worker.autoscaling.max_replicas
        && is_given presto.spec.worker.autoscaling.target_cpu_utilization_percentage)
      ≡ true
    → (hpa : Hpa) × (create_hpa_spec presto y (labels presto) "" ≡ ok hpa)
      × OfCluster presto (get_hpa_name presto.status.uuid) hpa.meta
      × (agrees presto hpa ≡ true)
unfolding create_hpa_spec
hpa_described presto y h =
    let (m, e) = is_given-some autoscaling.min_replicas (ground (arith, h)) in
    let (n, e') = is_given-some autoscaling.max_replicas (ground (arith, h)) in
    let (k, e'') =
      is_given-some autoscaling.target_cpu_utilization_percentage (ground (arith, h)) in
    (
      record {
        meta = record no_meta {
          name = get_hpa_name presto.status.uuid;
          namespace = presto.namespace;
          labels = labels presto;
          owner_references = get_owner_reference presto ∷ [];
        };
        scale_target_ref = record {
          api_version = y.api_version;
          kind = y.kind;
          name = y.meta.name;
        };
        min_replicas = some m;
        max_replicas = n;
        target_cpu_utilization_percentage = some k;
      },
      rw (e, e', e'') refl,
      record { of_namespace = refl; of_labels = refl; of_name = refl },
      rw (e, e', e'', (==ℤ_iff m m).1 refl, (==ℤ_iff n n).1 refl, (==ℤ_iff k k).1 refl) refl,
    )
  where
    open presto.spec.worker use {autoscaling}

module _ (p : Platform) (presto : Presto) (view : p.World → Objects p.Quantity)
    (keeper : Keeper p presto view) (o : Objects p.Quantity) where
  same_pointers :
      (m n : ℤ) {l : StringMap}
      → (m ==ℤ n) ≡ true
      → Runs p presto view l o (pointers_differ p (some m) (some n)) (done false) l o
  unfolding pointers_differ
  same_pointers m n h =
      Runs->>= _ (Runs-deref (some m) refl)
        (Runs->>= _ (Runs-deref (some n) refl) (rw h (Runs-pure false)))

  Runs-pointers_differ :
      (a b : Option ℤ) {l : StringMap}
      → same_numbers a b ≡ true
      → is_given b ≡ true
      → Runs p presto view l o (pointers_differ p a b) (done false) l o
  Runs-pointers_differ a b h k =
      let (m, n, e, e', same) = both_given a b h k in rw (e, e') (same_pointers m n same)

  pub Runs-autoscale_spec_changed :
      (hpa : Hpa) {l : StringMap}
      → agrees presto hpa ≡ true
      → (is_given presto.spec.worker.autoscaling.min_replicas
          && is_given presto.spec.worker.autoscaling.max_replicas
          && is_given presto.spec.worker.autoscaling.target_cpu_utilization_percentage)
        ≡ true
      → Runs p presto view l o (autoscale_spec_changed p hpa presto) (done false) l o
  unfolding autoscale_spec_changed
  Runs-autoscale_spec_changed hpa h k =
      Runs->>= _ (Runs-pointers_differ _ _ (ground (arith, h)) (ground (arith, k))) (
        Runs->>= _ (Runs-pointers_differ _ _ (ground (arith, h)) (ground (arith, k)))
          (Runs-pointers_differ _ _ (ground (arith, h)) (ground (arith, k))))

  abbrev pub listed_hpas : List Hpa
  listed_hpas = keep (λ x. is_shared presto x.meta) o.hpas

  pub Runs-get_presto_hpa :
      {y : Hpa} {rest : List Hpa}
      → listed_hpas ≡ y ∷ rest
      → Runs p presto view (labels presto) o (get_presto_hpa p) (done y) (labels presto) o
  unfolding get_presto_hpa hpa_listed
  Runs-get_presto_hpa {y} e = Runs-presto _ (
      Runs-labels _
        (Runs->>= _ (Runs-attempt (Runs-list keeper.keeps_hpas _ _)) (rw e (Runs-pure y))))

  pub Runs-get_presto_hpa-failed :
      listed_hpas ≡ []
      → Runs p presto view
          (labels presto)
          o
          (get_presto_hpa p)
          (failed (new_not_found p "HPA"))
          (labels presto)
          o
  unfolding get_presto_hpa hpa_listed
  Runs-get_presto_hpa-failed e = Runs-presto _ (
      Runs-labels _
        (Runs->>= _ (Runs-attempt (Runs-list keeper.keeps_hpas _ _)) (rw e (Runs-raise _))))
