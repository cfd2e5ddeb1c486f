-- ===== src/Tests/Witnesses.antt =====
-- The theorems on files, pods, ports and the number of workers at a concrete resource, on the platform in memory.
use mathlib.Core.List.{Perm}
use steerd_presto_operator.Kube.{ConfigMap}
use steerd_presto_operator.Properties.Files.{build_config_map, worker_jvm_config_map}
use steerd_presto_operator.Properties.ConfigFiles.{lookup-build_config_map}
use steerd_presto_operator.Base.{
  String, ◌<>◌, ℕ, ◌≡◌, ◌≢◌, ◌⊎◌, refl, true, false, not, ◌&&◌, ◌||◌, some, [], ◌∷◌, ◌++◌, ◌==◌,
  if◌then◌else◌,
}
use steerd_presto_operator.Base.Int.{pos, negsuc}
use steerd_presto_operator.Base.Dict.{lookup}
use steerd_presto_operator.Exec.{done, ok, err, ◌>>=◌}
use steerd_presto_operator.Kube.{ReplicaSet, ServicePort, StringMap, no_meta}
use steerd_presto_operator.Names.{get_coordinator_internal_name}
use steerd_presto_operator.Ports.{get_http_port, get_service_port, or_default}
use steerd_presto_operator.Ports.Laws.{
  client_port, get_http_port_lem, get_service_port_lem, node_port_of,
}
use steerd_presto_operator.Resource.{Presto}
use steerd_presto_operator.Properties.{
  add_props, get_system_props, render, system_property, worker_system_props,
}
use steerd_presto_operator.Properties.Files.{
  coordinator_config_props_map, parse_limit, worker_config_props_map,
}
use steerd_presto_operator.Properties.Laws.{
  add_props-eq, clashes, coordinator_config_props_map-eq, get_system_props-is_ok, internal_name,
  with_additional, worker_config_props_map-eq,
}
use steerd_presto_operator.Catalog.{catalog_data, catalog_file_suffix, catalog_present_in_spec}
use steerd_presto_operator.Catalog.Laws.{lookup-catalog_data}
use steerd_presto_operator.Pods.Build.{
  cpu_request_of, create_presto_pod_spec, get_presto_coordinator_pod_spec, get_presto_worker_pod,
}
use steerd_presto_operator.Pods.Resources.{
  HasResources, get_presto_coordinator_pod_spec-ok, get_presto_worker_pod-ok,
}
use steerd_presto_operator.Pods.Volumes.{mount_names, volume_names, volumes-perm-mounts}
use steerd_presto_operator.Session.{Session, call}
use steerd_presto_operator.ReplicaSets.{scale_to, scale_worker_set, set_replicas}
use steerd_presto_operator.ReplicaSets.Scaling.{
  is_settled, scale_worker_set_idem, scale_worker_set-settled,
}
use steerd_presto_operator.Tests.{sample, sample_session, sample_world}
use steerd_presto_operator.Tests.Memory.{memory, memory-IsRange, memory-KeepsReplicas}
use steerd_presto_operator.Tests.{found_set, sample_limits, sample_requests}

lookup-catalog_data_example :
    lookup ("tpch" <> catalog_file_suffix) (catalog_data memory sample)
    ≡ some (render (("connector.name", "mysql") ∷ []))
unfolding catalog_present_in_spec
lookup-catalog_data_example = lookup-catalog_data memory sample memory-IsRange "tpch"

abbrev scaled_set : ReplicaSet ℕ
scaled_set = record found_set { replicas = some (pos 2) }

abbrev after_scaling : Session memory
after_scaling = record sample_session { world = record sample_world { written = 1 } }

scaled :
    scale_worker_set memory found_set sample_session
    ≡ (done (scaled_set, false, true), after_scaling)
unfolding scale_worker_set scale_to set_replicas ◌>>=◌ call
scaled = refl

scale_worker_set_idem_example :
    scale_worker_set memory scaled_set after_scaling
    ≡ (done (scaled_set, false, false), after_scaling)
scale_worker_set_idem_example =
    scale_worker_set_idem memory found_set sample_session memory-KeepsReplicas scaled

scale_worker_set-settled_example :
    scale_worker_set memory scaled_set sample_session
    ≡ (done (scaled_set, false, false), sample_session)
unfolding is_settled
scale_worker_set-settled_example = scale_worker_set-settled memory scaled_set sample_session refl

get_http_port_lem_example :
    (client_port sample ≡ or_default (some (pos 8080)) (pos 8080))
    × (((false ≡ true) × ((get_http_port sample).0 ≢ (get_http_port sample).1))
        ⊎ ((false ≡ false) × ((get_http_port sample).1 ≡ negsuc 0)))
get_http_port_lem_example = get_http_port_lem sample

get_service_port_lem_example :
    (port : ServicePort) × (get_service_port sample ≡ port ∷ [])
    × (port.target_port ≡ client_port sample)
    × (port.port ≡ client_port sample)
    × (port.node_port ≡ node_port_of sample)
get_service_port_lem_example = get_service_port_lem sample

abbrev sample_name : String
sample_name = get_coordinator_internal_name sample.status.uuid

abbrev sample_props : StringMap
sample_props = elim (get_system_props sample sample_name) [ ok props ↦ props | err e ↦ [] ]

sample_props_ok : get_system_props sample sample_name ≡ ok sample_props
unfolding get_system_props
sample_props_ok = refl

-- HTTPS is enabled, and no text of the key store is given.
abbrev refused : Presto
refused = record sample {
  spec = record sample.spec {
    coordinator = record sample.spec.coordinator { https_enabled = true };
  };
}

coordinator_config_props_map-eq_example :
    coordinator_config_props_map memory refused
    ≡ with_additional memory refused
        (("query.max-memory", "1GB") ∷ [])
        (get_system_props refused (internal_name memory refused))
coordinator_config_props_map-eq_example = coordinator_config_props_map-eq memory refused

worker_config_props_map-eq_example : worker_config_props_map memory sample ≡ (
    if clashes (worker_system_props sample) []
    then err system_property
    else ok (render (worker_system_props sample ++ [])))
worker_config_props_map-eq_example = worker_config_props_map-eq memory sample

get_system_props-is_ok_example :
    let c = sample.spec.coordinator in
    elim (get_system_props sample sample_name) [ ok props ↦ true | err e ↦ false ]
    ≡ not (
        c.https_enabled
        && (c.https_key_pair_password == ""
            || c.https_key_pair_secret_key == ""
            || c.https_key_pair_secret_name == ""))
get_system_props-is_ok_example = get_system_props-is_ok sample sample_name

add_props-eq_example :
    add_props (("http-server.http.port", "8080") ∷ []) (("query.max-memory", "1GB") ∷ []) "a=b" ≡ (
      if clashes (("http-server.http.port", "8080") ∷ []) (("query.max-memory", "1GB") ∷ [])
      then err system_property
      else ok ("a=b" <> render (("query.max-memory", "1GB") ∷ [])))
add_props-eq_example =
    add_props-eq (("http-server.http.port", "8080") ∷ []) (("query.max-memory", "1GB") ∷ []) "a=b"

volumes-perm-mounts_example :
    let pod = create_presto_pod_spec sample true sample_limits sample_requests in
    Perm (volume_names pod.volumes) (mount_names pod.container.volume_mounts)
volumes-perm-mounts_example = volumes-perm-mounts sample true sample_limits sample_requests

worker_built :
    get_presto_worker_pod memory sample
    ≡ ok (create_presto_pod_spec sample false sample_limits sample_requests)
unfolding get_presto_worker_pod parse_limit cpu_request_of
worker_built = refl

get_presto_worker_pod-ok_example :
    HasResources memory sample
      (create_presto_pod_spec sample false sample_limits sample_requests)
      "2"
      "2Gi"
      "1"
get_presto_worker_pod-ok_example = get_presto_worker_pod-ok memory sample worker_built

coordinator_built :
    get_presto_coordinator_pod_spec memory sample
    ≡ ok (create_presto_pod_spec sample true sample_limits sample_requests)
unfolding get_presto_coordinator_pod_spec parse_limit cpu_request_of
coordinator_built = refl

get_presto_coordinator_pod_spec-ok_example :
    HasResources memory sample
      (create_presto_pod_spec sample true sample_limits sample_requests)
      "1"
      "2Gi"
      "1"
get_presto_coordinator_pod_spec-ok_example =
    get_presto_coordinator_pod_spec-ok memory sample coordinator_built

abbrev built_config : ConfigMap
built_config = elim (build_config_map memory sample false "workerconfig-01234567" []) [
  | ok cm ↦ cm
  | err e ↦ record { meta = no_meta; entries = [] }
]

config_built : build_config_map memory sample false "workerconfig-01234567" [] ≡ ok built_config
unfolding build_config_map worker_config_props_map worker_jvm_config_map add_props parse_limit
config_built = refl

lookup-build_config_map_example :
    (config jvm : String) × (worker_config_props_map memory sample ≡ ok config)
    × (worker_jvm_config_map memory sample ≡ ok jvm)
    × (lookup "jvm.config" built_config.entries ≡ some jvm)
unfolding lookup
lookup-build_config_map_example =
    lookup-build_config_map memory sample false "workerconfig-01234567" "jvm.config" [] tt
      config_built
