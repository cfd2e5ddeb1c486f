-- ===== src/Ports/Laws.antt =====
-- How the ports of the coordinator and of the external service fit together.
use steerd_presto_operator.Base.{◌≡◌, ◌≢◌, ◌⊎◌, true, false, [], ◌∷◌, arith, ◌==◌, if◌then◌else◌}
use steerd_presto_operator.Base.Int.{ℤ, pos, negsuc}
use steerd_presto_operator.Kube.{ServicePort}
use steerd_presto_operator.Resource.{Presto}
use steerd_presto_operator.Ports.{get_http_port, get_service_port, or_default, presto_port}

-- The port at which the coordinator serves its clients.
abbrev pub client_port : Presto → ℤ
client_port presto =
    if presto.spec.coordinator.https_enabled
    then (get_http_port presto).1
    else (get_http_port presto).0

-- With HTTPS the coordinator listens on two different ports, and without it the HTTPS port is -1. In
-- both cases clients are served at the port of the resource's service, or at 8080.
pub get_http_port_lem :
    (presto : Presto)
    → (client_port presto ≡ or_default presto.spec.service.port presto_port)
      × (((presto.spec.coordinator.https_enabled ≡ true)
            × ((get_http_port presto).0 ≢ (get_http_port presto).1))
          ⊎ ((presto.spec.coordinator.https_enabled ≡ false)
              × ((get_http_port presto).1 ≡ negsuc 0)))
unfolding get_http_port
get_http_port_lem presto = ground arith

-- The node port that the external service asks for; 0 asks for none. Only the text "ClusterIP" counts as
-- that type: a type that is left out does not.
abbrev pub node_port_of : Presto → ℤ
node_port_of presto =
    if presto.spec.service.type == "ClusterIP"
    then pos 0
    else or_default presto.spec.service.node_port (pos 0)

-- The external service has exactly one port, which leads to the port at which the coordinator serves
-- its clients. The node port is the one that the resource gives, unless the type of the resource's
-- service is written as "ClusterIP": the type that is left out, which means ClusterIP to Kubernetes,
-- does not keep the given node port from being asked for.
pub get_service_port_lem :
    (presto : Presto)
    → (port : ServicePort) × (get_service_port presto ≡ port ∷ [])
      × (port.target_port ≡ client_port presto)
      × (port.port ≡ client_port presto)
      × (port.node_port ≡ node_port_of presto)
unfolding get_http_port get_service_port
get_service_port_lem presto = (
  record {
    name = "presto-coordinator-port";
    port = or_default presto.spec.service.port presto_port;
    node_port = node_port_of presto;
    target_port = or_default presto.spec.service.port presto_port;
  },
  ground arith,
  ground arith,
  ground arith,
  ground arith,
)
