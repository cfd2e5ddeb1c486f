-- ===== src/Kube.antt =====
-- The Kubernetes objects that the operator builds and reads, with the fields that its code names.
-- They mirror the literals in pkg/controller/presto/*.go; the types themselves are Kubernetes'.
pub mod Pod
use steerd_presto_operator.Base.{String, Bool, Option, none, List, []}
use steerd_presto_operator.Base.Int.{ℤ}
use steerd_presto_operator.Base.Dict.{Dict}
use steerd_presto_operator.Kube.Pod.{PodSpec}

abbrev pub StringMap : Type 0
StringMap = Dict String

pub record NamespacedName : Type 0 where
  pub namespace : String
  pub name : String

pub record OwnerReference : Type 0 where
  pub api_version : String
  pub kind : String
  pub name : String
  pub uid : String
  pub controller : Option Bool

pub record ObjectMeta : Type 0 where
  pub name : String
  pub generate_name : String
  pub namespace : String
  pub labels : StringMap
  pub owner_references : List OwnerReference
  pub resource_version : String

abbrev pub no_meta : ObjectMeta
no_meta = record {
  name = "";
  generate_name = "";
  namespace = "";
  labels = [];
  owner_references = [];
  resource_version = "";
}

pub record ServicePort : Type 0 where
  pub name : String
  pub port : ℤ
  pub node_port : ℤ
  pub target_port : ℤ

-- `session_affinity_config` is only copied, and stands as an opaque text.
pub record KubeServiceSpec : Type 0 where
  pub selector : StringMap
  pub cluster_ip : String
  pub type : String
  pub external_ips : List String
  pub session_affinity : String
  pub load_balancer_ip : String
  pub load_balancer_source_ranges : List String
  pub external_name : String
  pub external_traffic_policy : String
  pub health_check_node_port : ℤ
  pub publish_not_ready_addresses : Bool
  pub session_affinity_config : Option String
  pub ip_family : Option String
  pub ports : List ServicePort

pub record Service : Type 0 where
  pub meta : ObjectMeta
  pub spec : KubeServiceSpec

-- `entries` is the field `Data`.
pub record ConfigMap : Type 0 where
  pub meta : ObjectMeta
  pub entries : StringMap

-- `replicas`, `match_labels`, `template_meta` and `pod` are fields of `Spec`, and
-- `available_replicas` of `Status`.
pub record ReplicaSet (Quantity : Type 0) : Type 0 where
  pub api_version : String
  pub kind : String
  pub meta : ObjectMeta
  pub replicas : Option ℤ
  pub match_labels : StringMap
  pub template_meta : ObjectMeta
  pub pod : PodSpec Quantity
  pub available_replicas : ℤ

pub record ScaleTargetRef : Type 0 where
  pub api_version : String
  pub kind : String
  pub name : String

-- `HorizontalPodAutoscaler`
pub record Hpa : Type 0 where
  pub meta : ObjectMeta
  pub scale_target_ref : ScaleTargetRef
  pub min_replicas : Option ℤ
  pub max_replicas : ℤ
  pub target_cpu_utilization_percentage : Option ℤ
