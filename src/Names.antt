-- ===== src/Names.antt =====
-- pkg/controller/presto/common_util.go: the names and the labels of a cluster's objects.
-- `clusterUUID[:8]` panics on an identifier of fewer than eight bytes. The names here are total;
-- `has_short` is the test, and the operations that compute a name make it first.
-- It counts characters where Go counts bytes: they differ only outside ASCII.
pub mod Distinct
use steerd_presto_operator.Base.{
  String, slice, len, ◌<>◌, Bool, true, some, [], ◌==◌, leb, if◌then◌else◌,
}
use steerd_presto_operator.Base.Dict.{insert, insert_all}
use steerd_presto_operator.Kube.{StringMap, OwnerReference}
use steerd_presto_operator.Resource.{Presto}

unfoldable pub has_short : String → Bool
has_short cluster_uuid = leb 8 (len cluster_uuid)

-- `clusterUUID[:8]`
unfoldable pub short : String → String
short cluster_uuid = slice cluster_uuid 0 8

unfoldable pub get_pod_discovery_service_name : String → String
get_pod_discovery_service_name cluster_uuid = "pod-discovery-" <> short cluster_uuid

abbrev pub get_pod_discovery_service_label : String → String × String
get_pod_discovery_service_label cluster_uuid = ("pod-discovery", cluster_uuid)

unfoldable pub get_coordinator_container_name : String → String
get_coordinator_container_name cluster_uuid = "coordinatorcontainer-" <> short cluster_uuid

-- `fmt.Sprintf("%s.%s", …)`
unfoldable pub get_coordinator_internal_name : String → String
unfolding get_coordinator_container_name get_pod_discovery_service_name
get_coordinator_internal_name cluster_uuid =
    get_coordinator_container_name cluster_uuid
    <> ("." <> get_pod_discovery_service_name cluster_uuid)

unfoldable pub get_external_service_name : String → String
get_external_service_name cluster_uuid = "external-presto-svc-" <> short cluster_uuid

abbrev pub get_external_service_label : String → String × String
get_external_service_label cluster_uuid = ("external-presto-svc", cluster_uuid)

unfoldable pub get_coordinator_replicaset : String → String
get_coordinator_replicaset cluster_uuid = "coordinatorreplicaset-" <> short cluster_uuid

unfoldable pub get_worker_replica_set : String → String
get_worker_replica_set cluster_uuid = "workerreplicaset-" <> short cluster_uuid

unfoldable pub get_catalog_config_map_name : String → String
get_catalog_config_map_name cluster_uuid = "catalogconfig-" <> short cluster_uuid

unfoldable pub get_catalog_vol_name : String → String
get_catalog_vol_name cluster_uuid = "catalogvol-" <> short cluster_uuid

unfoldable pub get_https_secret_vol_name : String → String
get_https_secret_vol_name cluster_uuid = "httpssecret-" <> short cluster_uuid

unfoldable pub get_hpa_name : String → String
get_hpa_name cluster_uuid = "hpa-" <> short cluster_uuid

unfoldable pub get_coordinator_config_map_name : String → String
get_coordinator_config_map_name cluster_uuid = "coordinatorconfig-" <> short cluster_uuid

unfoldable pub get_coordinator_config_volume_name : String → String
get_coordinator_config_volume_name cluster_uuid = "coordinatorconfvol-" <> short cluster_uuid

unfoldable pub get_worker_container_prefix : String → String
get_worker_container_prefix cluster_uuid = "workerrcontainer-" <> short cluster_uuid

unfoldable pub get_worker_config_map_name : String → String
get_worker_config_map_name cluster_uuid = "workerconfig-" <> short cluster_uuid

unfoldable pub get_worker_config_volume_name : String → String
get_worker_config_volume_name cluster_uuid = "workerconfvol-" <> short cluster_uuid

abbrev pub get_coordinator_pod_label : String → String × String
get_coordinator_pod_label cluster_uuid = ("coordinator", cluster_uuid)

abbrev pub get_worker_pod_label : String → String × String
get_worker_pod_label cluster_uuid = ("worker", cluster_uuid)

-- The map is copied, and the caller's own map stays as it is.
unfoldable pub get_coordinator_pod_labels : StringMap → String → StringMap
get_coordinator_pod_labels base_labels cluster_uuid =
    let (k, v) = get_coordinator_pod_label cluster_uuid in insert k v (insert_all base_labels [])

unfoldable pub get_worker_pod_labels : StringMap → String → StringMap
get_worker_pod_labels base_labels cluster_uuid =
    let (k, v) = get_worker_pod_label cluster_uuid in insert k v (insert_all base_labels [])

unfoldable pub get_owner_reference : Presto → OwnerReference
get_owner_reference app = record {
  api_version = app.api_version;
  kind = app.kind;
  name = app.name;
  uid = app.uid;
  controller = some true;
}

-- constants.go
abbrev pub mount_path : String
mount_path = "/etc/presto"

unfoldable pub get_presto_path : Presto → String
get_presto_path presto =
    if presto.spec.image_details.presto_path == ""
    then mount_path
    else presto.spec.image_details.presto_path
