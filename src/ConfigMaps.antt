-- ===== src/ConfigMaps.antt =====
-- The config maps: `createConfigMap` of pkg/controller/presto/common_util.go, and its callers in
-- presto_properties.go and catalog.go.
use steerd_presto_operator.Base.{String, Bool, true, false, List, [], ◌∷◌, ◌==◌, if◌then◌else◌}
use steerd_presto_operator.Exec.{pure, lift, gets, ◌>>=◌, ◌>>◌}
use steerd_presto_operator.Kube.{ConfigMap}
use steerd_presto_operator.Platform.{Platform}
use steerd_presto_operator.Names.{
  get_catalog_config_map_name, get_coordinator_config_map_name, get_worker_config_map_name,
}
use steerd_presto_operator.Properties.Files.{build_config_map}
use steerd_presto_operator.Catalog.{build_catalog_config_map}
use steerd_presto_operator.Session.{Op, call, need_short}

-- The loop over the old config maps.
unfoldable pub has_name : String → List ConfigMap → Bool
has_name config_map_name [] = false
has_name config_map_name (cm ∷ items) =
    if cm.meta.name == config_map_name then true else has_name config_map_name items

module _ (p : Platform) where
  -- Every caller passes the base labels.
  unfoldable pub create_config_map : String → ConfigMap → Op p Bool
  create_config_map config_map_name config_map = do
    presto ← gets (λ s. s.presto)
    lbls ← gets (λ s. s.base_labels)
    old_config_maps ← call p (p.config_maps.list presto.namespace lbls)
    if has_name config_map_name old_config_maps
        then pure false
        else do call p (p.config_maps.create config_map); pure true

  unfoldable pub create_coordinator_config : Op p Bool
  create_coordinator_config = do
    presto ← gets (λ s. s.presto)
    lbls ← gets (λ s. s.base_labels)
    need_short p presto.status.uuid
    let config_map_name = get_coordinator_config_map_name presto.status.uuid
    config_map ← lift (build_config_map p presto true config_map_name lbls)
    create_config_map config_map_name config_map

  unfoldable pub create_worker_config : Op p Bool
  create_worker_config = do
    presto ← gets (λ s. s.presto)
    lbls ← gets (λ s. s.base_labels)
    need_short p presto.status.uuid
    let config_map_name = get_worker_config_map_name presto.status.uuid
    config_map ← lift (build_config_map p presto false config_map_name lbls)
    create_config_map config_map_name config_map

  unfoldable pub create_catalog_config : Op p Bool
  create_catalog_config = do
    presto ← gets (λ s. s.presto)
    lbls ← gets (λ s. s.base_labels)
    need_short p presto.status.uuid
    let catalog_config_name = get_catalog_config_map_name presto.status.uuid
    create_config_map catalog_config_name
        (build_catalog_config_map p presto catalog_config_name lbls)
