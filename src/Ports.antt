-- ===== src/Ports.antt =====
-- The ports of the Presto servers and of the external service: `getHTTPPort` of
-- pkg/controller/presto/presto_properties.go and `getServicePort` of services.go.
pub mod Laws
use steerd_presto_operator.Base.{
  String, not, Option, none, some, List, [], ◌∷◌, ◌==◌, if◌then◌else◌,
}
use steerd_presto_operator.Base.Int.{ℤ, pos, negsuc, ◌==ℤ◌}
use steerd_presto_operator.Kube.{ServicePort}
use steerd_presto_operator.Resource.{Presto}

abbrev pub presto_port : ℤ
presto_port = pos 8080

-- `if p != nil { port = *p }`
abbrev pub or_default : Option ℤ → ℤ → ℤ
or_default none port = port
or_default (some p) port = p

-- The HTTP port, and the HTTPS port or -1.
unfoldable pub get_http_port : Presto → ℤ × ℤ
get_http_port presto =
    let port = or_default presto.spec.service.port presto_port in
    if presto.spec.coordinator.https_enabled
    then (if port ==ℤ presto_port then (pos 8081, port) else (presto_port, port))
    else (port, negsuc 0)

port_list : String → ℤ → Option ℤ → List ServicePort
port_list type port none =
    record { name = "presto-coordinator-port"; port = port; node_port = pos 0; target_port = port }
    ∷ []
port_list type port (some node_port) =
    if not (type == "ClusterIP")
    then record {
      name = "presto-coordinator-port";
      port = port;
      node_port = node_port;
      target_port = port;
    }
      ∷ []
    else record {
      name = "presto-coordinator-port";
      port = port;
      node_port = pos 0;
      target_port = port;
    }
      ∷ []

unfoldable pub get_service_port : Presto → List ServicePort
unfolding port_list
get_service_port presto =
    port_list presto.spec.service.type (or_default presto.spec.service.port presto_port)
      presto.spec.service.node_port
