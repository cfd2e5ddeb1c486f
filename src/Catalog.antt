-- ===== src/Catalog.antt =====
-- pkg/controller/presto/catalog.go: the catalog config map and its volume.
pub mod Laws
use steerd_presto_operator.Base.{
  String, ◌<>◌, Bool, true, false, none, List, [], ◌∷◌, ◌++◌, ◌==◌, if◌then◌else◌,
}
use steerd_presto_operator.Base.Dict.{insert}
use steerd_presto_operator.Kube.{StringMap, ConfigMap, no_meta}
use steerd_presto_operator.Kube.Pod.{
  VolumeProjection, config_map_projection, secret_projection, projected, VolumeMount, PodSpec,
}
use steerd_presto_operator.Resource.{Presto, CatalogSpec, CatalogSecret}
use steerd_presto_operator.Platform.{Platform}
use steerd_presto_operator.Names.{
  get_catalog_config_map_name, get_catalog_vol_name, get_owner_reference, get_presto_path,
}
use steerd_presto_operator.Properties.{render}

abbrev pub catalog_file_suffix : String
catalog_file_suffix = ".properties"

abbrev pub default_catalogs : StringMap
default_catalogs =
    ("jmx", "connector.name=jmx\n")
    ∷ ("tpch", "connector.name=tpch\n")
    ∷ ("tpcds", "connector.name=tpcds\n")
    ∷ []

-- The first inner loop of `getDefaultCatalogs`: it goes on after a hit, and a hit stays.
unfoldable pub named_in_specs : List CatalogSpec → String → Bool → Bool
named_in_specs [] catalog_name present = present
named_in_specs (spec ∷ specs) catalog_name present =
    named_in_specs specs catalog_name (if spec.name == catalog_name then true else present)

unfoldable pub named_in_secrets : List CatalogSecret → String → Bool → Bool
named_in_secrets [] catalog_name present = present
named_in_secrets (secret ∷ secrets) catalog_name present =
    named_in_secrets secrets catalog_name
      (if secret.secret_key == catalog_name then true else present)

unfoldable pub catalog_present_in_spec : Presto → String → Bool
unfolding named_in_specs named_in_secrets
catalog_present_in_spec presto catalog_name =
    named_in_secrets presto.spec.catalogs.catalog_secrets catalog_name
      (named_in_specs presto.spec.catalogs.catalog_spec catalog_name false)

-- The outer loop, over the defaults in some order.
unfoldable pub prune_defaults : Presto → StringMap → StringMap → StringMap
prune_defaults presto [] pruned = pruned
prune_defaults presto ((catalog_name, content) ∷ defaults) pruned = prune_defaults presto defaults (
    if catalog_present_in_spec presto catalog_name
    then pruned
    else insert catalog_name content pruned)

-- `for k, v := range defaultCatalogs { catalogData[k+catalogFileSuffix] = v }`
unfoldable pub add_files : StringMap → StringMap → StringMap
add_files [] catalog_data = catalog_data
add_files ((k, v) ∷ m) catalog_data = add_files m (insert (k <> catalog_file_suffix) v catalog_data)

module _ (p : Platform) where
  unfoldable pub get_default_catalogs : Presto → StringMap
  unfolding prune_defaults
  get_default_catalogs presto = prune_defaults presto (p.range default_catalogs) []

  unfoldable pub add_catalogs : List CatalogSpec → StringMap → StringMap
  add_catalogs [] catalog_data = catalog_data
  add_catalogs (catalog ∷ catalogs) catalog_data =
      add_catalogs catalogs (
        insert (catalog.name <> catalog_file_suffix) (render (p.range catalog.content))
          catalog_data)

  unfoldable pub catalog_data : Presto → StringMap
  unfolding add_catalogs add_files
  catalog_data presto =
      add_files (p.range (get_default_catalogs presto))
        (add_catalogs presto.spec.catalogs.catalog_spec [])

  -- The error that the source returns beside the map is always `nil`.
  unfoldable pub build_catalog_config_map : Presto → String → StringMap → ConfigMap
  build_catalog_config_map presto catalog_config_name labels = record {
    meta = record no_meta {
      name = catalog_config_name;
      namespace = presto.namespace;
      labels = labels;
      owner_references = get_owner_reference presto ∷ [];
    };
    entries = catalog_data presto;
  }

-- One projection for each secret, with one file.
unfoldable pub secret_projections : List CatalogSecret → List VolumeProjection
secret_projections [] = []
secret_projections (catalog_secret ∷ secrets) =
    secret_projection catalog_secret.secret_name (
      record {
        key = catalog_secret.secret_key;
        path = catalog_secret.secret_key <> catalog_file_suffix;
      }
      ∷ [])
    ∷ secret_projections secrets

-- Appends the volume to the pod, and returns the mount.
unfoldable pub get_catalog_volume_mount :
    {Quantity : Type 0} → Presto → PodSpec Quantity → VolumeMount × PodSpec Quantity
unfolding secret_projections
get_catalog_volume_mount presto pod_spec =
    let name = get_catalog_vol_name presto.status.uuid in
    (
      record {
        name = name;
        read_only = true;
        mount_path = get_presto_path presto <> "/catalog/";
        sub_path = "";
        mount_propagation = none;
        sub_path_expr = "";
      },
      record pod_spec {
        volumes =
            pod_spec.volumes
            ++ record {
              name = name;
              source = projected (
                  config_map_projection (get_catalog_config_map_name presto.status.uuid)
                  ∷ secret_projections presto.spec.catalogs.catalog_secrets);
            }
              ∷ [];
      },
    )
