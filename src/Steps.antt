-- ===== src/Steps.antt =====
-- The steps of `Reconcile` in pkg/controller/presto/presto_controller.go. Each returns whether it
-- made a change. An event is recorded, and the status is written; a failure to write the status is
-- dropped.
pub mod Sets
pub mod Errors
use steerd_presto_operator.Base.{
  String, ◌<>◌, Bool, true, false, ◌||◌, Option, some, if◌then◌else◌, ◌==◌,
}
use steerd_presto_operator.Exec.{Error, Result, ok, err, pure, raise, gets, attempt, ◌>>=◌, ◌>>◌}
use steerd_presto_operator.Exec.Fallible.{message}
use steerd_presto_operator.Resource.{Presto}
use steerd_presto_operator.Kube.{Service}
use steerd_presto_operator.Resource.ClusterState
use steerd_presto_operator.Platform.{Platform}
use steerd_presto_operator.Names.{
  get_catalog_config_map_name, get_coordinator_config_map_name, get_external_service_name,
  get_pod_discovery_service_name, get_worker_config_map_name,
}
use steerd_presto_operator.Session.{Op, ignore, eventf, need_short}
use steerd_presto_operator.Status.{ClusterUpdateAction, no_action, update_status}
use steerd_presto_operator.Services.{create_head_less_pod_discovery_svc, create_or_get_service}
use steerd_presto_operator.ConfigMaps.{
  create_catalog_config, create_coordinator_config, create_worker_config,
}

module _ (p : Platform) where
  -- `r.updateStatus(presto, ctx, …)` as a statement
  unfoldable pub put_status : ClusterUpdateAction p.Quantity → Op p (Unit {0})
  put_status action = ignore p (update_status p action)

  abbrev pub failed_action : String → ClusterUpdateAction p.Quantity
  failed_action error_reason = record no_action {
    error_reason = some error_reason;
    cluster_state = ClusterState.failed;
  }

  -- The event comes first.
  unfoldable pub report_then_put : {A : Type 0} → String → Error → Op p A
  report_then_put text e = do
    eventf p "Warning" "Failed" (text <> message e)
    put_status (failed_action (text <> message e))
    raise e

  -- The status comes first; the texts may differ in their first letter.
  unfoldable pub put_then_report : {A : Type 0} → String → String → Error → Op p A
  put_then_report text event_text e = do
    put_status (failed_action (text <> message e))
    eventf p "Warning" "Failed" (event_text <> message e)
    raise e

  unfoldable pub headless_service_created : Op p (Unit {0})
  headless_service_created = do
    presto ← gets (λ s. s.presto)
    let headless_svc = get_pod_discovery_service_name presto.status.uuid
    eventf p "Normal" "Created" ("Created Headless Service. " <> headless_svc)
    put_status (record no_action {
      headless_service = some headless_svc;
      cluster_state = ClusterState.pending;
    })

  unfoldable pub headless_service_config : Op p Bool
  headless_service_config = do
    made ← attempt (create_head_less_pod_discovery_svc p)
    elim made [
      | err e ↦ report_then_put "Failed to create headless service for pods " e
      | ok true ↦ do headless_service_created; pure true
      | ok false ↦ pure false
    ]

  -- `created || len(presto.Status.CoordinatorAddress) == 0`
  unfoldable pub service_found : Option Service → Bool → Op p (Unit {0})
  service_found service created = do
    presto ← gets (λ s. s.presto)
    if created
        then eventf p "Normal" "Created"
            ("Created Service. " <> get_external_service_name presto.status.uuid)
        else pure tt
    if created || presto.status.coordinator_address == ""
        then put_status
            (record no_action { service = service; cluster_state = ClusterState.pending })
        else pure tt

  unfoldable pub service_config : Op p Bool
  service_config = do
    made ← attempt (create_or_get_service p)
    elim made [
      | err e ↦ report_then_put "Failed to create service for pods " e
      | ok (service, created) ↦ do service_found service created; pure created
    ]

  -- The end of the three steps for config maps.
  unfoldable pub config_created : ClusterUpdateAction p.Quantity → String → Op p Bool
  config_created action event_text = do
    put_status (record action { cluster_state = ClusterState.pending })
    eventf p "Normal" "Created" event_text
    pure true

  unfoldable pub coordinator_config : Op p Bool
  coordinator_config = do
    made ← attempt (create_coordinator_config p)
    presto ← gets (λ s. s.presto)
    let cm = get_coordinator_config_map_name presto.status.uuid
    elim made [
      | err e ↦
          put_then_report "Failed to create coordinator config map "
            "failed to create coordinator config map " e
      | ok true ↦
          config_created (record no_action { coordinator_conf_map = some cm })
            ("Created Coordinator Config. " <> cm)
      | ok false ↦ pure false
    ]

  unfoldable pub worker_config : Op p Bool
  worker_config = do
    made ← attempt (create_worker_config p)
    presto ← gets (λ s. s.presto)
    let wm = get_worker_config_map_name presto.status.uuid
    elim made [
      | err e ↦
          put_then_report "Failed to create worker config map "
            "Failed to create worker config map " e
      | ok true ↦
          config_created (record no_action { worker_conf_map = some wm })
            ("Created Worker Config. " <> wm)
      | ok false ↦ pure false
    ]

  unfoldable pub catalog_config : Op p Bool
  catalog_config = do
    made ← attempt (create_catalog_config p)
    presto ← gets (λ s. s.presto)
    let cc = get_catalog_config_map_name presto.status.uuid
    elim made [
      | err e ↦
          put_then_report "Failed to create catalog config map "
            "Failed to create catalog config map " e
      | ok true ↦
          config_created (record no_action { catalog_conf_map = some cc })
            ("Created Catalog Config. " <> cc)
      | ok false ↦ pure false
    ]
