-- ===== src/Cluster/ConfigMaps.antt =====
-- The three steps for config maps: each builds its config map if it is missing.
use steerd_presto_operator.Base.{
  ◌∙◌, String, ◌≡◌, refl, Bool, true, false, ◌&&◌, List, [], ◌∷◌, ◌++◌, ◌==◌, arith, eq_iff,
  Bool-cases, inl, inr,
}
use steerd_presto_operator.Base.Dict.{lookup}
use steerd_presto_operator.Exec.{Result, done, ok, err}
use steerd_presto_operator.Exec.Fallible.{is_ok}
use steerd_presto_operator.Kube.{ConfigMap, ObjectMeta}
use steerd_presto_operator.Resource.{Presto}
use steerd_presto_operator.Platform.{Platform}
use steerd_presto_operator.Properties.Files.{build_config_map}
use steerd_presto_operator.Catalog.{build_catalog_config_map}
use steerd_presto_operator.ConfigMaps.{create_config_map, has_name}
use steerd_presto_operator.Cluster.{Keeper, Objects, SameMeta, all, any, keep, name_is_free}
use steerd_presto_operator.Cluster.Runs.{
  Makes, Runs, Runs->>=, Runs-labels, Runs-list, Runs-presto, Runs-pure,
}
use steerd_presto_operator.Cluster.Makes.{
  Makes->>=, Makes->>=_Runs, Makes-create, Makes-presto, Makes-labels, Makes-pure,
}
use steerd_presto_operator.Cluster.Progress.{Sound, has_config, is_named, is_shared, labels}
use steerd_presto_operator.Cluster.Found.{any-false, follows, all-grows, any-found, any-same}

-- What the loop over the listed config maps looks for.
has_name-keep :
    (name : String) (f : ObjectMeta → Bool) (xs : List ConfigMap)
    → has_name name (keep (λ x. f x.meta) xs) ≡ any (λ x. f x.meta && (x.meta.name == name)) xs
unfolding has_name
has_name-keep name f [] = refl
has_name-keep name f (x ∷ xs) =
    let ih = has_name-keep name f xs in
    elim (Bool-cases (f x.meta)) [ inl e ↦ rw e (ground (arith, ih)) | inr e ↦ rw e ih ]

-- The config map is one of this cluster's.
pub record OfCluster (presto : Presto) (name : String) (meta : ObjectMeta) : Type 0 where
  pub of_namespace : meta.namespace ≡ presto.namespace
  pub of_labels : meta.labels ≡ labels presto
  pub of_name : meta.name ≡ name

pub OfCluster-build_config_map :
    (p : Platform) (presto : Presto) (is_coordinator : Bool) (name : String) {cm : ConfigMap}
    → build_config_map p presto is_coordinator name (labels presto) ≡ ok cm
    → OfCluster presto name cm.meta
unfolding build_config_map
OfCluster-build_config_map p presto is_coordinator name {cm} h = record {
  of_namespace = ground (arith, h);
  of_labels = ground (arith, h);
  of_name = ground (arith, h);
}

pub OfCluster-build_catalog_config_map :
    (p : Platform) (presto : Presto) (name : String)
    → OfCluster presto name (build_catalog_config_map p presto name (labels presto)).meta
unfolding build_catalog_config_map
OfCluster-build_catalog_config_map p presto name = record {
  of_namespace = refl;
  of_labels = refl;
  of_name = refl;
}

pub is_shared-OfCluster :
    (presto : Presto) (name : String) (meta : ObjectMeta)
    → OfCluster presto name meta
    → is_shared presto meta ≡ true
unfolding lookup
is_shared-OfCluster presto name meta of =
    rw (of.of_namespace, of.of_labels)
      (ground (
        arith,
        eq_iff presto.namespace presto.namespace,
        eq_iff presto.status.uuid presto.status.uuid,
        eq_iff presto.name presto.name,
      ))

pub OfCluster-SameMeta :
    (presto : Presto) (name : String) (meta meta' : ObjectMeta)
    → (name == "") ≡ false
    → OfCluster presto name meta
    → SameMeta meta meta'
    → OfCluster presto name meta'
OfCluster-SameMeta presto name meta meta' h of same = record {
  of_namespace = same.same_namespace ∙ of.of_namespace;
  of_labels = same.same_labels ∙ of.of_labels;
  of_name = same.same_name (rw of.of_name h) ∙ of.of_name;
}

pub is_ok-ok : {A : Type 0} (r : Result A) → is_ok r ≡ true → (a : A) × (r ≡ ok a)
is_ok-ok (ok a) h = (a, refl)
is_ok-ok (err e) h = cc

-- What has the name is found by the labels and the name.
all_both :
    {A : Type 0} (f g h : A → Bool) (xs : List A)
    → ((x : A) → f x ≡ true → h x ≡ true)
    → all (λ x. follows (f x) (g x)) xs ≡ true
    → all (λ x. follows (f x) (g x && h x)) xs ≡ true
all_both f g h [] k e = refl
all_both f g h (x ∷ xs) k e =
    let ih = all_both f g h xs k in let kx = k x in ground (arith, e, ih, kx)

module _ {Quantity : Type 0} (presto : Presto) (o : Objects Quantity) where
  abbrev pub with_config : ConfigMap → Objects Quantity
  with_config y = record o { config_maps = o.config_maps ++ y ∷ [] }

  -- The config map was missing, and is there now.
  abbrev pub MadeConfig : String → Bool → Objects Quantity → Type 0
  MadeConfig name made o' =
      (made ≡ true) × (y : ConfigMap) × OfCluster presto name y.meta × (o' ≡ with_config y)

  config_is_free :
      (name : String) (cm : ConfigMap)
      → OfCluster presto name cm.meta
      → all (λ x. follows (is_named presto name x.meta) (is_shared presto x.meta)) o.config_maps
        ≡ true
      → has_config presto name o ≡ false
      → name_is_free (λ x. x.meta) cm o.config_maps ≡ true
  config_is_free name cm of h missing =
      let free =
        any-false (λ x. is_named presto name x.meta)
          (λ x. is_shared presto x.meta && (x.meta.name == name)) o.config_maps
          (all_both (λ x. is_named presto name x.meta) (λ x. is_shared presto x.meta)
            (λ x. x.meta.name == name) o.config_maps (λ x e. ground (arith, e)) h)
          missing in
      rw (of.of_namespace, of.of_name, free) (ground arith)

  module _ (name : String) (y : ConfigMap) (of : OfCluster presto name y.meta) where
    pub Sound-with_config : Sound presto o → Sound presto (with_config y)
    Sound-with_config sound =
        let shared = is_shared-OfCluster presto name y.meta of in
        record {
          headless_named = sound.headless_named;
          external_named = sound.external_named;
          external_ports = sound.external_ports;
          coordinator_config_named =
              all-grows _ o.config_maps y sound.coordinator_config_named (rw shared (ground arith));
          worker_config_named =
              all-grows _ o.config_maps y sound.worker_config_named (rw shared (ground arith));
          catalog_config_named =
              all-grows _ o.config_maps y sound.catalog_config_named (rw shared (ground arith));
          workers_settled = sound.workers_settled;
          hpas_agree = sound.hpas_agree;
          hpas_named = sound.hpas_named;
        }

    pub has_config-found : has_config presto name (with_config y) ≡ true
    has_config-found = any-found _ o.config_maps y (
        rw (is_shared-OfCluster presto name y.meta of, of.of_name)
          (ground (arith, eq_iff name name)))

    pub has_config-same :
        (other : String)
        → (name == other) ≡ false
        → has_config presto other (with_config y) ≡ has_config presto other o
    has_config-same other h = any-same _ o.config_maps y (rw (of.of_name, h) (ground arith))

module _ (p : Platform) (presto : Presto) (view : p.World → Objects p.Quantity)
    (keeper : Keeper p presto view) (o : Objects p.Quantity) where
  pub config_kept :
      (name : String) (cm : ConfigMap)
      → has_config presto name o ≡ true
      → Runs p presto view
          (labels presto)
          o
          (create_config_map p name cm)
          (done false)
          (labels presto)
          o
  unfolding create_config_map
  config_kept name cm h =
      let found : has_name name (keep (λ x. is_shared presto x.meta) o.config_maps) ≡ true =
        has_name-keep name (is_shared presto) o.config_maps ∙ h in
      Runs-presto _ (
        Runs-labels _
          (Runs->>= _ (Runs-list keeper.keeps_config_maps _ _) (rw found (Runs-pure false))))

  pub config_made :
      (name : String) (cm : ConfigMap)
      → (name == "") ≡ false
      → OfCluster presto name cm.meta
      → all (λ x. follows (is_named presto name x.meta) (is_shared presto x.meta)) o.config_maps
        ≡ true
      → has_config presto name o ≡ false
      → Makes p presto view
          (labels presto)
          o
          (create_config_map p name cm)
          (labels presto)
          (MadeConfig presto o name)
  unfolding create_config_map
  config_made name cm nonempty of h missing =
      let found : has_name name (keep (λ x. is_shared presto x.meta) o.config_maps) ≡ false =
        has_name-keep name (is_shared presto) o.config_maps ∙ missing in
      Makes-presto _ (
        Makes-labels _ (
          Makes->>=_Runs _ (Runs-list keeper.keeps_config_maps _ _) (
            rw found (
              Makes->>= _
                (Makes-create keeper.keeps_config_maps cm
                  (config_is_free presto o name cm of h missing))
                λ y o' (same, _, e').
                  Makes-pure true (
                    refl,
                    y,
                    OfCluster-SameMeta presto name cm.meta y.meta nonempty of same,
                    e',
                  )))))
