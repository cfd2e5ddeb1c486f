-- ===== src/Cluster/CatalogConfig.antt =====
-- The step for the catalog config map: it builds the config map if it is missing.
use steerd_presto_operator.Base.{String, ◌≡◌, refl, true, false, some, ◌==◌}
use steerd_presto_operator.Exec.{done}
use steerd_presto_operator.Kube.{ConfigMap}
use steerd_presto_operator.Resource.{Presto}
use steerd_presto_operator.Platform.{Platform}
use steerd_presto_operator.Status.{no_action}
use steerd_presto_operator.ConfigMaps.{create_catalog_config}
use steerd_presto_operator.Steps.{catalog_config}
use steerd_presto_operator.Cluster.{Keeper, Objects}
use steerd_presto_operator.Names.{
  short, get_catalog_config_map_name, get_coordinator_config_map_name, get_worker_config_map_name,
}
use steerd_presto_operator.Names.Distinct.{append_distinct, append_nonempty}
use steerd_presto_operator.Cluster.Runs.{
  Makes, Runs, Runs->>=, Runs-attempt, Runs-labels, Runs-need_short, Runs-presto, Runs-pure,
}
use steerd_presto_operator.Cluster.Makes.{
  Makes->>=, Makes->>=_Runs, Makes-attempt, Makes-presto, Makes-labels,
}
use steerd_presto_operator.Cluster.Settle.{mark}
use steerd_presto_operator.Cluster.Reports.{Makes-config_created}
use steerd_presto_operator.Cluster.Progress.{Sound, Valid, has_config, Built, labels}
use steerd_presto_operator.Cluster.ConfigMaps.{
  MadeConfig, OfCluster, OfCluster-build_catalog_config_map, Sound-with_config, config_kept,
  config_made, has_config-found, has_config-same, with_config,
}

module _ (p : Platform) (presto : Presto) (view : p.World → Objects p.Quantity)
    (keeper : Keeper p presto view) (valid : Valid presto p) (o : Objects p.Quantity) where
  abbrev catalog_name : String
  catalog_name = get_catalog_config_map_name presto.status.uuid

  catalog_nonempty : (catalog_name == "") ≡ false
  unfolding get_catalog_config_map_name
  catalog_nonempty = append_nonempty "catalogconfig-" (short presto.status.uuid) refl

  catalog_found :
      has_config presto catalog_name o ≡ true
      → Runs p presto view
          (labels presto)
          o
          (create_catalog_config p)
          (done false)
          (labels presto)
          o
  unfolding create_catalog_config
  catalog_found h = Runs-presto _ (
      Runs-labels _ (
        Runs->>= _ (Runs-need_short _ valid.is_short)
          (config_kept p presto view keeper o catalog_name _ h)))

  -- The catalog config map is there.
  pub catalog_config-kept :
      has_config presto catalog_name o ≡ true
      → Runs p presto view (labels presto) o (catalog_config p) (done false) (labels presto) o
  unfolding catalog_config
  catalog_config-kept h =
      Runs->>= _ (Runs-attempt (catalog_found h)) (Runs-presto _ (Runs-pure false))

  catalog_made :
      has_config presto catalog_name o ≡ false
      → Sound presto o
      → Makes p presto view
          (labels presto)
          o
          (create_catalog_config p)
          (labels presto)
          (MadeConfig presto o catalog_name)
  unfolding create_catalog_config
  catalog_made h sound = Makes-presto _ (
      Makes-labels _ (
        Makes->>=_Runs _ (Runs-need_short _ valid.is_short) (
          config_made p presto view keeper o catalog_name _ catalog_nonempty
            (OfCluster-build_catalog_config_map p presto catalog_name) sound.catalog_config_named
            h)))

  catalog_grown :
      (y : ConfigMap)
      → OfCluster presto catalog_name y.meta
      → Sound presto o
      → Built presto 4 o true (with_config presto o y)
  unfolding mark get_coordinator_config_map_name get_worker_config_map_name
      get_catalog_config_map_name
  catalog_grown y of sound = (
    refl,
    Sound-with_config presto o catalog_name y of sound,
    rw
        (
          has_config-found presto o catalog_name y of,
          has_config-same presto o catalog_name y of
              (get_coordinator_config_map_name presto.status.uuid)
              (append_distinct "catalogconfig-" "coordinatorconfig-" (short presto.status.uuid)
                refl),
          has_config-same presto o catalog_name y of (get_worker_config_map_name presto.status.uuid)
              (append_distinct "catalogconfig-" "workerconfig-" (short presto.status.uuid) refl),
        )
        refl,
  )

  -- The catalog config map is missing, and is built.
  pub catalog_config-Built :
      has_config presto catalog_name o ≡ false
      → Sound presto o
      → Makes p presto view (labels presto) o (catalog_config p) (labels presto) (Built presto 4 o)
  unfolding catalog_config
  catalog_config-Built h sound =
      Makes->>= _ (Makes-attempt (catalog_made h sound)) λ r o' (made, e, (made_it, y, of, e')).
        Makes-presto _ (
          rw (e, made_it, e')
            (Makes-config_created keeper (record no_action { catalog_conf_map = some catalog_name })
              _ refl (catalog_grown y of sound)))
