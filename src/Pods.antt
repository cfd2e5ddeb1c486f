-- ===== src/Pods.antt =====
-- pkg/controller/presto/presto_pods.go: the pod templates. The volume mount of the configuration
-- files is from presto_properties.go.
pub mod Build
pub mod Volumes
pub mod Resources
use steerd_presto_operator.Base.{
  String, ◌<>◌, Bool, true, Option, none, some, List, [], ◌∷◌, ◌++◌, if◌then◌else◌,
}
use steerd_presto_operator.Base.Int.{ℤ, pos}
use steerd_presto_operator.Kube.Pod.{
  Volume, config_map_projection, projected, secret, VolumeMount, PodSpec,
}
use steerd_presto_operator.Resource.{Presto, PrestoVolumeSpec}
use steerd_presto_operator.Names.{
  get_coordinator_config_map_name, get_coordinator_config_volume_name, get_https_secret_vol_name,
  get_presto_path, get_worker_config_map_name, get_worker_config_volume_name,
}
use steerd_presto_operator.Properties.{https_vol_path}

module _ {Quantity : Type 0} where
  unfoldable pub get_props_volume_mount :
      Presto → PodSpec Quantity → Bool → VolumeMount × PodSpec Quantity
  get_props_volume_mount presto pod_spec is_coordinator =
      let config_map =
        if is_coordinator
        then get_coordinator_config_map_name presto.status.uuid
        else get_worker_config_map_name presto.status.uuid in
      let config_map_vol =
        if is_coordinator
        then get_coordinator_config_volume_name presto.status.uuid
        else get_worker_config_volume_name presto.status.uuid in
      (
        record {
          name = config_map_vol;
          read_only = true;
          mount_path = get_presto_path presto;
          sub_path = "";
          mount_propagation = none;
          sub_path_expr = "";
        },
        record pod_spec {
          volumes =
              pod_spec.volumes
              ++ record {
                name = config_map_vol;
                source = projected (config_map_projection config_map ∷ []);
              }
                ∷ [];
        },
      )

  unfoldable pub get_https_volume_mount : Presto → PodSpec Quantity → VolumeMount × PodSpec Quantity
  get_https_volume_mount presto pod_spec = (
    record {
      name = get_https_secret_vol_name presto.status.uuid;
      read_only = true;
      mount_path = https_vol_path;
      sub_path = "";
      mount_propagation = none;
      sub_path_expr = "";
    },
    record pod_spec {
      volumes =
          pod_spec.volumes
          ++ record {
            name = get_https_secret_vol_name presto.status.uuid;
            source = secret presto.spec.coordinator.https_key_pair_secret_name;
          }
            ∷ [];
    },
  )

-- The loops over `presto.Spec.Volumes`.
unfoldable pub append_additional_volumes : List PrestoVolumeSpec → List Volume → List Volume
append_additional_volumes [] vols = vols
append_additional_volumes (vol_spec ∷ specs) vols =
    append_additional_volumes specs
      (vols ++ record { name = vol_spec.name; source = vol_spec.volume_source } ∷ [])

unfoldable pub append_additional_volume_mounts :
    List PrestoVolumeSpec → List VolumeMount → List VolumeMount
append_additional_volume_mounts [] vol_mounts = vol_mounts
append_additional_volume_mounts (vol_spec ∷ specs) vol_mounts =
    append_additional_volume_mounts specs (
      vol_mounts
      ++ record {
        name = vol_spec.name;
        read_only = vol_spec.read_only;
        mount_path = vol_spec.mount_path;
        sub_path = vol_spec.sub_path;
        mount_propagation = vol_spec.mount_propagation;
        sub_path_expr = vol_spec.sub_path_expr;
      }
        ∷ [])
