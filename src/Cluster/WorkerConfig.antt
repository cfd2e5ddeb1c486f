-- ===== src/Cluster/WorkerConfig.antt =====
-- The step for the workers' config map: it builds the config map if it is missing.
use steerd_presto_operator.Base.{String, ◌≡◌, refl, true, false, some, ◌==◌}
use steerd_presto_operator.Exec.{done}
use steerd_presto_operator.Kube.{ConfigMap}
use steerd_presto_operator.Resource.{Presto}
use steerd_presto_operator.Platform.{Platform}
use steerd_presto_operator.Status.{no_action}
use steerd_presto_operator.Properties.Files.{build_config_map}
use steerd_presto_operator.ConfigMaps.{create_worker_config}
use steerd_presto_operator.Steps.{worker_config}
use steerd_presto_operator.Cluster.{Keeper, Objects}
use steerd_presto_operator.Names.{
  short, get_catalog_config_map_name, get_coordinator_config_map_name, get_worker_config_map_name,
}
use steerd_presto_operator.Names.Distinct.{append_distinct, append_nonempty}
use steerd_presto_operator.Cluster.Runs.{
  Makes, Runs, Runs->>=, Runs-attempt, Runs-labels, Runs-lift, Runs-need_short, Runs-presto,
  Runs-pure,
}
use steerd_presto_operator.Cluster.Makes.{
  Makes->>=, Makes->>=_Runs, Makes-attempt, Makes-presto, Makes-labels,
}
use steerd_presto_operator.Cluster.Settle.{mark}
use steerd_presto_operator.Cluster.Reports.{Makes-config_created}
use steerd_presto_operator.Cluster.Progress.{Sound, Valid, has_config, Built, labels}
use steerd_presto_operator.Cluster.ConfigMaps.{
  MadeConfig, OfCluster, OfCluster-build_config_map, Sound-with_config, config_kept, config_made,
  has_config-found, has_config-same, is_ok-ok, with_config,
}

module _ (p : Platform) (presto : Presto) (view : p.World → Objects p.Quantity)
    (keeper : Keeper p presto view) (valid : Valid presto p) (o : Objects p.Quantity) where
  abbrev worker_name : String
  worker_name = get_worker_config_map_name presto.status.uuid

  worker_nonempty : (worker_name == "") ≡ false
  unfolding get_worker_config_map_name
  worker_nonempty = append_nonempty "workerconfig-" (short presto.status.uuid) refl

  worker_found :
      has_config presto worker_name o ≡ true
      → Runs p presto view (labels presto) o (create_worker_config p) (done false) (labels presto) o
  unfolding create_worker_config
  worker_found h =
      let (cm, e) =
        is_ok-ok (build_config_map p presto false worker_name (labels presto))
          valid.worker_config_built in
      Runs-presto _ (
        Runs-labels _ (
          Runs->>= _ (Runs-need_short _ valid.is_short)
            (Runs->>= _ (Runs-lift _ e) (config_kept p presto view keeper o worker_name _ h))))

  -- The worker config map is there.
  pub worker_config-kept :
      has_config presto worker_name o ≡ true
      → Runs p presto view (labels presto) o (worker_config p) (done false) (labels presto) o
  unfolding worker_config
  worker_config-kept h =
      Runs->>= _ (Runs-attempt (worker_found h)) (Runs-presto _ (Runs-pure false))

  worker_made :
      has_config presto worker_name o ≡ false
      → Sound presto o
      → Makes p presto view
          (labels presto)
          o
          (create_worker_config p)
          (labels presto)
          (MadeConfig presto o worker_name)
  unfolding create_worker_config
  worker_made h sound =
      let (cm, e) =
        is_ok-ok (build_config_map p presto false worker_name (labels presto))
          valid.worker_config_built in
      Makes-presto _ (
        Makes-labels _ (
          Makes->>=_Runs _ (Runs-need_short _ valid.is_short) (
            Makes->>=_Runs _ (Runs-lift _ e) (
              config_made p presto view keeper o worker_name _ worker_nonempty
                (OfCluster-build_config_map p presto false worker_name e) sound.worker_config_named
                h))))

  worker_grown :
      (y : ConfigMap)
      → OfCluster presto worker_name y.meta
      → Sound presto o
      → Built presto 3 o true (with_config presto o y)
  unfolding mark get_coordinator_config_map_name get_worker_config_map_name
      get_catalog_config_map_name
  worker_grown y of sound = (
    refl,
    Sound-with_config presto o worker_name y of sound,
    rw
        (
          has_config-found presto o worker_name y of,
          has_config-same presto o worker_name y of
              (get_coordinator_config_map_name presto.status.uuid)
              (append_distinct "workerconfig-" "coordinatorconfig-" (short presto.status.uuid)
                refl),
          has_config-same presto o worker_name y of (get_catalog_config_map_name presto.status.uuid)
              (append_distinct "workerconfig-" "catalogconfig-" (short presto.status.uuid) refl),
        )
        refl,
  )

  -- The worker config map is missing, and is built.
  pub worker_config-Built :
      has_config presto worker_name o ≡ false
      → Sound presto o
      → Makes p presto view (labels presto) o (worker_config p) (labels presto) (Built presto 3 o)
  unfolding worker_config
  worker_config-Built h sound =
      Makes->>= _ (Makes-attempt (worker_made h sound)) λ r o' (made, e, (made_it, y, of, e')).
        Makes-presto _ (
          rw (e, made_it, e')
            (Makes-config_created keeper (record no_action { worker_conf_map = some worker_name }) _
              refl (worker_grown y of sound)))
