-- ===== src/Services.antt =====
-- pkg/controller/presto/services.go: the headless discovery service and the external service.
pub mod Labels
use steerd_presto_operator.Base.{
  Bool, true, false, Option, none, some, List, [], ◌∷◌, ◌==◌, if◌then◌else◌,
}
use steerd_presto_operator.Base.Int.{pos}
use steerd_presto_operator.Exec.{pure, raise, gets, ◌>>=◌, ◌>>◌}
use steerd_presto_operator.Exec.Fallible.{operator_error}
use steerd_presto_operator.Kube.{StringMap, Service, no_meta}
use steerd_presto_operator.Resource.{Presto}
use steerd_presto_operator.Platform.{Platform}
use steerd_presto_operator.Names.{
  get_coordinator_pod_label, get_external_service_label, get_external_service_name,
  get_owner_reference, get_pod_discovery_service_label, get_pod_discovery_service_name,
}
use steerd_presto_operator.Ports.{get_service_port}
use steerd_presto_operator.Session.{Op, call, need_short, put_label}

-- The literal of `createHeadLessPodDiscoverySvc`; the fields that it leaves out are zero.
unfoldable pub headless_service : Presto → StringMap → Service
headless_service presto lbls = record {
  meta = record no_meta {
    name = get_pod_discovery_service_name presto.status.uuid;
    namespace = presto.namespace;
    labels = lbls;
    owner_references = get_owner_reference presto ∷ [];
  };
  spec = record {
    selector = lbls;
    cluster_ip = "None";
    type = "";
    external_ips = [];
    session_affinity = "";
    load_balancer_ip = "";
    load_balancer_source_ranges = [];
    external_name = "";
    external_traffic_policy = "";
    health_check_node_port = pos 0;
    publish_not_ready_addresses = false;
    session_affinity_config = none;
    ip_family = none;
    ports = [];
  };
}

-- The literal of `createOrGetService`.
unfoldable pub external_service : Presto → StringMap → Service
external_service presto lbls = record {
  meta = record no_meta {
    name = get_external_service_name presto.status.uuid;
    namespace = presto.namespace;
    labels = lbls;
    owner_references = get_owner_reference presto ∷ [];
  };
  spec = record {
    selector = get_coordinator_pod_label presto.status.uuid ∷ [];
    cluster_ip = service.cluster_ip;
    type = service.type;
    external_ips = service.external_ips;
    session_affinity = service.session_affinity;
    load_balancer_ip = service.load_balancer_ip;
    load_balancer_source_ranges = service.load_balancer_source_ranges;
    external_name = service.external_name;
    external_traffic_policy = service.external_traffic_policy;
    health_check_node_port = service.health_check_node_port;
    publish_not_ready_addresses = service.publish_not_ready_addresses;
    session_affinity_config = service.session_affinity_config;
    ip_family = service.ip_family;
    ports = get_service_port presto;
  };
}
  where
    open presto.spec use {service}

abbrev pub first : {A : Type 0} → List A → Option A
first [] = none
first (x ∷ xs) = some x

module _ (p : Platform) where
  unfoldable pub create_head_less_pod_discovery_svc : Op p Bool
  create_head_less_pod_discovery_svc = do
    presto ← gets (λ s. s.presto)
    let label = get_pod_discovery_service_label presto.status.uuid
    put_label p label
    lbls ← gets (λ s. s.base_labels)
    need_short p presto.status.uuid
    let service = headless_service presto lbls
    old_service ← call p (p.services.list presto.namespace (label ∷ []))
    elim old_service [ [] ↦ do call p (p.services.create service); pure true | _ ∷ _ ↦ pure false ]

  unfoldable pub get_service : StringMap → Op p (Option Service)
  get_service lbls = do
    presto ← gets (λ s. s.presto)
    services ← call p (p.services.list presto.namespace lbls)
    pure (first services)

  -- `ServiceTypeExternalName`
  unfoldable pub create_or_get_service : Op p (Option Service × Bool)
  create_or_get_service = do
    presto ← gets (λ s. s.presto)
    let label = get_external_service_label presto.status.uuid
    put_label p label
    if presto.spec.service.type == "ExternalName"
        then raise (operator_error "Service of the following type not supported: ExternalName")
        else do
          lbls ← gets (λ s. s.base_labels)
          need_short p presto.status.uuid
          let service = external_service presto lbls
          ret_service ← get_service (label ∷ [])
          elim ret_service [
            | some found ↦ pure (some found, false)
            | none ↦ do
              call p (p.services.create service)
              created_service ← get_service lbls
              pure (created_service, true)
          ]
