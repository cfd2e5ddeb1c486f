-- ===== src/Resource.antt =====
-- The custom resource: pkg/apis/falarica/v1alpha1/presto_types.go.
pub mod ClusterState
use steerd_presto_operator.Base.{String, Bool, Option, List}
use steerd_presto_operator.Base.Int.{ℤ}
use steerd_presto_operator.Base.Dict.{Dict}
use steerd_presto_operator.Kube.{StringMap, NamespacedName}
use steerd_presto_operator.Kube.Pod.{VolumeSource}

pub record CoordinatorSpec : Type 0 where
  pub memory_limit : String
  pub additional_jvm_config : String
  pub additional_props : StringMap
  pub cpu_limit : String
  pub cpu_request : String
  pub https_enabled : Bool
  pub https_key_pair_secret_name : String
  pub https_key_pair_secret_key : String
  pub https_key_pair_password : String

pub record AutoscalingSpec : Type 0 where
  pub enabled : Option Bool
  pub min_replicas : Option ℤ
  pub max_replicas : Option ℤ
  pub target_cpu_utilization_percentage : Option ℤ

pub record WorkerSpec : Type 0 where
  pub memory_limit : String
  pub additional_jvm_config : String
  pub additional_props : StringMap
  pub cpu_limit : String
  pub cpu_request : String
  pub termination_grace_period_seconds : Option ℤ
  pub count : Option ℤ
  pub autoscaling : AutoscalingSpec

pub record CatalogSpec : Type 0 where
  pub name : String
  pub content : StringMap

pub record CatalogSecret : Type 0 where
  pub secret_name : String
  pub secret_key : String

pub record CatalogList : Type 0 where
  pub catalog_secrets : List CatalogSecret
  pub catalog_spec : List CatalogSpec

pub record ServiceSpec : Type 0 where
  pub node_port : Option ℤ
  pub port : Option ℤ
  pub cluster_ip : String
  pub type : String
  pub external_ips : List String
  pub session_affinity : String
  pub load_balancer_ip : String
  pub load_balancer_source_ranges : List String
  pub external_name : String
  pub external_traffic_policy : String
  pub health_check_node_port : ℤ
  pub publish_not_ready_addresses : Bool
  pub session_affinity_config : Option String
  pub ip_family : Option String

pub record ImageSpec : Type 0 where
  pub name : String
  pub presto_path : String

pub record PrestoVolumeSpec : Type 0 where
  pub name : String
  pub volume_source : VolumeSource
  pub read_only : Bool
  pub mount_path : String
  pub sub_path : String
  pub mount_propagation : Option String
  pub sub_path_expr : String

-- `InternalHiveMetaStore` has no fields, and is left out.
pub record PrestoSpec : Type 0 where
  pub coordinator : CoordinatorSpec
  pub worker : WorkerSpec
  pub catalogs : CatalogList
  pub service : ServiceSpec
  pub image_details : ImageSpec
  pub additional_presto_prop_files : StringMap
  pub volumes : List PrestoVolumeSpec

pub record PrestoStatus : Type 0 where
  pub uuid : String
  pub desired_workers : ℤ
  pub current_workers : ℤ
  pub headless_service : String
  pub service : String
  pub coordinator_address : String
  pub catalog_config : String
  pub coordinator_config : String
  pub worker_config : String
  pub worker_replicaset : String
  pub coordinator_replicaset : String
  pub hpa_name : String
  pub cluster_state : String
  pub error_reason : String
  pub modification_time : String
  pub coordinator_cpu : String
  pub worker_cpu : String

-- The fields of `TypeMeta` and `ObjectMeta` that the operator reads stand beside the others.
pub record Presto : Type 0 where
  pub api_version : String
  pub kind : String
  pub name : String
  pub namespace : String
  pub uid : String
  pub labels : StringMap
  pub spec : PrestoSpec
  pub status : PrestoStatus

abbrev pub namespaced_name : Presto → NamespacedName
namespaced_name presto = record { namespace = presto.namespace; name = presto.name }
