-- ===== src/Spending/Writes.antt =====
-- The parts of `Reconcile` that may write: the services and the config maps.
use steerd_presto_operator.Base.{String, ℕ, Bool, true, false, Option}
use steerd_presto_operator.Kube.{StringMap, ConfigMap, Service}
use steerd_presto_operator.Platform.{Platform}
use steerd_presto_operator.Status.{ClusterUpdateAction}
use steerd_presto_operator.Services.{
  create_head_less_pod_discovery_svc, create_or_get_service, get_service,
}
use steerd_presto_operator.ConfigMaps.{
  create_catalog_config, create_config_map, create_coordinator_config, create_worker_config,
}
use steerd_presto_operator.Steps.{
  catalog_config, config_created, coordinator_config, headless_service_config,
  headless_service_created, service_config, service_found, worker_config,
}
use steerd_presto_operator.Spending.{Counts, Quiet, Spends, writes}
use steerd_presto_operator.Spending.Rules.{
  Quiet->>=, Quiet-call, Quiet-gets, Quiet-if, Quiet-lift, Quiet-pure, Spends->>=, Spends-Option,
  Spends-List, Spends-Quiet, Spends-attempt, Spends-call, Spends-changed, Spends-if, Spends-made,
  Spends-pure, Spends-raise,
}
use steerd_presto_operator.Spending.Reads.{
  Quiet-eventf, Quiet-need_short, Quiet-put_label, Quiet-put_status, Spends-put_then_report,
  Spends-report_then_put,
}

module _ (p : Platform) (count : p.World → ℕ) (law : Counts p count) where
  Spends-headless :
      Spends (writes p count) false (create_head_less_pod_discovery_svc p) (λ made. made)
  unfolding create_head_less_pod_discovery_svc
  Spends-headless = Spends->>= (Spends-Quiet (Quiet-gets _)) λ _.
      Spends->>= (Spends-Quiet (Quiet-put_label p count law _)) λ _.
        Spends->>= (Spends-Quiet (Quiet-gets _)) λ _.
          Spends->>= (Spends-Quiet (Quiet-need_short p count law _)) λ _.
            Spends->>= (Spends-Quiet (Quiet-call p count _ (law.services_count.list_count _ _)))
              λ old_service.
                Spends-List old_service
                  (Spends->>= (Spends-call p count _ (law.services_count.create_count _))
                    λ _. Spends-pure (λ made. made) true)
                  (λ _ _. Spends-pure (λ made. made) false)

  Quiet-get_service : (lbls : StringMap) → Quiet (writes p count) (get_service p lbls)
  unfolding get_service
  Quiet-get_service lbls =
      Quiet->>= (Quiet-gets _)
        λ _. Quiet->>= (Quiet-call p count _ (law.services_count.list_count _ _)) λ _. Quiet-pure _

  Spends-service :
      Spends (writes p count) false (create_or_get_service p) (λ (service, created). created)
  unfolding create_or_get_service
  Spends-service = Spends->>= (Spends-Quiet (Quiet-gets _)) λ _.
      Spends->>= (Spends-Quiet (Quiet-put_label p count law _)) λ _. Spends-if _ (Spends-raise _) (
        Spends->>= (Spends-Quiet (Quiet-gets _)) λ _.
          Spends->>= (Spends-Quiet (Quiet-need_short p count law _)) λ _.
            Spends->>= (Spends-Quiet (Quiet-get_service _)) λ ret_service.
              Spends-Option ret_service
                (Spends->>= (Spends-call p count _ (law.services_count.create_count _)) λ _.
                  Spends->>= (Spends-Quiet (Quiet-get_service _))
                    λ _. Spends-pure (λ (service, created). created) _)
                (λ _. Spends-pure (λ (service, created). created) _))

  Spends-create_config_map :
      (name : String) (config_map : ConfigMap)
      → Spends (writes p count) false (create_config_map p name config_map) (λ made. made)
  unfolding create_config_map
  Spends-create_config_map name config_map = Spends->>= (Spends-Quiet (Quiet-gets _)) λ _.
      Spends->>= (Spends-Quiet (Quiet-gets _)) λ _.
        Spends->>= (Spends-Quiet (Quiet-call p count _ (law.config_maps_count.list_count _ _))) λ _.
          Spends-if _ (Spends-pure (λ made. made) false) (
            Spends->>= (Spends-call p count _ (law.config_maps_count.create_count _))
              λ _. Spends-pure (λ made. made) true)

  Spends-create_coordinator_config :
      Spends (writes p count) false (create_coordinator_config p) (λ made. made)
  unfolding create_coordinator_config
  Spends-create_coordinator_config = Spends->>= (Spends-Quiet (Quiet-gets _)) λ _.
      Spends->>= (Spends-Quiet (Quiet-gets _)) λ _.
        Spends->>= (Spends-Quiet (Quiet-need_short p count law _))
          λ _. Spends->>= (Spends-Quiet (Quiet-lift _)) λ _. Spends-create_config_map _ _

  Spends-create_worker_config :
      Spends (writes p count) false (create_worker_config p) (λ made. made)
  unfolding create_worker_config
  Spends-create_worker_config = Spends->>= (Spends-Quiet (Quiet-gets _)) λ _.
      Spends->>= (Spends-Quiet (Quiet-gets _)) λ _.
        Spends->>= (Spends-Quiet (Quiet-need_short p count law _))
          λ _. Spends->>= (Spends-Quiet (Quiet-lift _)) λ _. Spends-create_config_map _ _

  Spends-create_catalog_config :
      Spends (writes p count) false (create_catalog_config p) (λ made. made)
  unfolding create_catalog_config
  Spends-create_catalog_config = Spends->>= (Spends-Quiet (Quiet-gets _)) λ _.
      Spends->>= (Spends-Quiet (Quiet-gets _)) λ _.
        Spends->>= (Spends-Quiet (Quiet-need_short p count law _)) λ _. Spends-create_config_map _ _

  Quiet-headless_service_created : Quiet (writes p count) (headless_service_created p)
  unfolding headless_service_created
  Quiet-headless_service_created =
      Quiet->>= (Quiet-gets _)
        λ _. Quiet->>= (Quiet-eventf p count law _ _ _) λ _. Quiet-put_status p count law _

  pub Spends-headless_service_config :
      Spends (writes p count) false (headless_service_config p) (λ changed. changed)
  unfolding headless_service_config
  Spends-headless_service_config = Spends->>= (Spends-attempt Spends-headless) λ made.
      Spends-made made (λ e. Spends-report_then_put p count law _ e)
        λ created.
          Spends-changed created
            (Spends->>= (Spends-Quiet Quiet-headless_service_created)
              λ _. Spends-pure (λ changed. changed) true)
            (Spends-pure (λ changed. changed) false)

  Quiet-service_found :
      (service : Option Service) (created : Bool)
      → Quiet (writes p count) (service_found p service created)
  unfolding service_found
  Quiet-service_found service created = Quiet->>= (Quiet-gets _) λ _.
      Quiet->>= (Quiet-if created (Quiet-eventf p count law _ _ _) (Quiet-pure _))
        λ _. Quiet-if _ (Quiet-put_status p count law _) (Quiet-pure _)

  pub Spends-service_config : Spends (writes p count) false (service_config p) (λ changed. changed)
  unfolding service_config
  Spends-service_config = Spends->>= (Spends-attempt Spends-service) λ made.
      Spends-made made (λ e. Spends-report_then_put p count law _ e)
        λ (service, created).
          Spends->>= (Spends-Quiet (Quiet-service_found _ _))
            λ _. Spends-pure (λ changed. changed) created

  -- The common end of the steps for config maps.
  pub Spends-config_created :
      (action : ClusterUpdateAction p.Quantity) (event_text : String)
      → Spends (writes p count) true (config_created p action event_text) (λ changed. changed)
  unfolding config_created
  Spends-config_created action event_text =
      Spends->>= (Spends-Quiet (Quiet-put_status p count law _)) λ _.
        Spends->>= (Spends-Quiet (Quiet-eventf p count law _ _ _))
          λ _. Spends-pure (λ changed. changed) true

  pub Spends-coordinator_config :
      Spends (writes p count) false (coordinator_config p) (λ changed. changed)
  unfolding coordinator_config
  Spends-coordinator_config = Spends->>= (Spends-attempt Spends-create_coordinator_config) λ made.
      Spends->>= (Spends-Quiet (Quiet-gets _)) λ _.
        Spends-made made (λ e. Spends-put_then_report p count law _ _ e)
          λ created.
            Spends-changed created (Spends-config_created _ _)
              (Spends-pure (λ changed. changed) false)

  pub Spends-worker_config : Spends (writes p count) false (worker_config p) (λ changed. changed)
  unfolding worker_config
  Spends-worker_config = Spends->>= (Spends-attempt Spends-create_worker_config) λ made.
      Spends->>= (Spends-Quiet (Quiet-gets _)) λ _.
        Spends-made made (λ e. Spends-put_then_report p count law _ _ e)
          λ created.
            Spends-changed created (Spends-config_created _ _)
              (Spends-pure (λ changed. changed) false)

  pub Spends-catalog_config : Spends (writes p count) false (catalog_config p) (λ changed. changed)
  unfolding catalog_config
  Spends-catalog_config = Spends->>= (Spends-attempt Spends-create_catalog_config) λ made.
      Spends->>= (Spends-Quiet (Quiet-gets _)) λ _.
        Spends-made made (λ e. Spends-put_then_report p count law _ _ e)
          λ created.
            Spends-changed created (Spends-config_created _ _)
              (Spends-pure (λ changed. changed) false)
