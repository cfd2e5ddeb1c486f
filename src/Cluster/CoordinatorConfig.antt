-- ===== src/Cluster/CoordinatorConfig.antt =====
-- The step for the coordinator config map: it builds the config map if it is missing.
use steerd_presto_operator.Base.{String, ◌≡◌, refl, true, false, some, ◌==◌}
use steerd_presto_operator.Exec.{done}
use steerd_presto_operator.Kube.{ConfigMap}
use steerd_presto_operator.Resource.{Presto}
use steerd_presto_operator.Platform.{Platform}
use steerd_presto_operator.Status.{no_action}
use steerd_presto_operator.Properties.Files.{build_config_map}
use steerd_presto_operator.ConfigMaps.{create_coordinator_config}
use steerd_presto_operator.Steps.{coordinator_config}
use steerd_presto_operator.Cluster.{Keeper, Objects}
use steerd_presto_operator.Names.{
  short, get_catalog_config_map_name, get_coordinator_config_map_name, get_worker_config_map_name,
}
use steerd_presto_operator.Names.Distinct.{append_distinct, append_nonempty}
use steerd_presto_operator.Cluster.Runs.{
  Makes, Runs, Runs->>=, Runs-attempt, Runs-labels, Runs-lift, Runs-need_short, Runs-presto,
  Runs-pure,
}
use steerd_presto_operator.Cluster.Makes.{
  Makes->>=, Makes->>=_Runs, Makes-attempt, Makes-presto, Makes-labels,
}
use steerd_presto_operator.Cluster.Settle.{mark}
use steerd_presto_operator.Cluster.Reports.{Makes-config_created}
use steerd_presto_operator.Cluster.Progress.{Sound, Valid, has_config, Built, labels}
use steerd_presto_operator.Cluster.ConfigMaps.{
  MadeConfig, OfCluster, OfCluster-build_config_map, Sound-with_config, config_kept, config_made,
  has_config-found, has_config-same, is_ok-ok, with_config,
}

module _ (p : Platform) (presto : Presto) (view : p.World → Objects p.Quantity)
    (keeper : Keeper p presto view) (valid : Valid presto p) (o : Objects p.Quantity) where
  abbrev coordinator_name : String
  coordinator_name = get_coordinator_config_map_name presto.status.uuid

  coordinator_nonempty : (coordinator_name == "") ≡ false
  unfolding get_coordinator_config_map_name
  coordinator_nonempty = append_nonempty "coordinatorconfig-" (short presto.status.uuid) refl

  coordinator_found :
      has_config presto coordinator_name o ≡ true
      → Runs p presto view
          (labels presto)
          o
          (create_coordinator_config p)
          (done false)
          (labels presto)
          o
  unfolding create_coordinator_config
  coordinator_found h =
      let (cm, e) =
        is_ok-ok (build_config_map p presto true coordinator_name (labels presto))
          valid.coordinator_config_built in
      Runs-presto _ (
        Runs-labels _ (
          Runs->>= _ (Runs-need_short _ valid.is_short)
            (Runs->>= _ (Runs-lift _ e) (config_kept p presto view keeper o coordinator_name _ h))))

  -- The coordinator config map is there.
  pub coordinator_config-kept :
      has_config presto coordinator_name o ≡ true
      → Runs p presto view (labels presto) o (coordinator_config p) (done false) (labels presto) o
  unfolding coordinator_config
  coordinator_config-kept h =
      Runs->>= _ (Runs-attempt (coordinator_found h)) (Runs-presto _ (Runs-pure false))

  coordinator_made :
      has_config presto coordinator_name o ≡ false
      → Sound presto o
      → Makes p presto view
          (labels presto)
          o
          (create_coordinator_config p)
          (labels presto)
          (MadeConfig presto o coordinator_name)
  unfolding create_coordinator_config
  coordinator_made h sound =
      let (cm, e) =
        is_ok-ok (build_config_map p presto true coordinator_name (labels presto))
          valid.coordinator_config_built in
      Makes-presto _ (
        Makes-labels _ (
          Makes->>=_Runs _ (Runs-need_short _ valid.is_short) (
            Makes->>=_Runs _ (Runs-lift _ e) (
              config_made p presto view keeper o coordinator_name _ coordinator_nonempty
                (OfCluster-build_config_map p presto true coordinator_name e)
                sound.coordinator_config_named h))))

  coordinator_grown :
      (y : ConfigMap)
      → OfCluster presto coordinator_name y.meta
      → Sound presto o
      → Built presto 2 o true (with_config presto o y)
  unfolding mark get_coordinator_config_map_name get_worker_config_map_name
      get_catalog_config_map_name
  coordinator_grown y of sound = (
    refl,
    Sound-with_config presto o coordinator_name y of sound,
    rw
        (
          has_config-found presto o coordinator_name y of,
          has_config-same presto o coordinator_name y of
              (get_worker_config_map_name presto.status.uuid)
              (append_distinct "coordinatorconfig-" "workerconfig-" (short presto.status.uuid)
                refl),
          has_config-same presto o coordinator_name y of
              (get_catalog_config_map_name presto.status.uuid)
              (append_distinct "coordinatorconfig-" "catalogconfig-" (short presto.status.uuid)
                refl),
        )
        refl,
  )

  -- The coordinator config map is missing, and is built.
  pub coordinator_config-Built :
      has_config presto coordinator_name o ≡ false
      → Sound presto o
      → Makes p presto view
          (labels presto)
          o
          (coordinator_config p)
          (labels presto)
          (Built presto 2 o)
  unfolding coordinator_config
  coordinator_config-Built h sound =
      Makes->>= _ (Makes-attempt (coordinator_made h sound)) λ r o' (made, e, (made_it, y, of, e')).
        Makes-presto _ (
          rw (e, made_it, e')
            (Makes-config_created keeper
              (record no_action { coordinator_conf_map = some coordinator_name }) _ refl
              (coordinator_grown y of sound)))
