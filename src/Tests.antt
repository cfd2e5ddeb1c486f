-- ===== src/Tests.antt =====
-- A platform in memory and a resource, on which the definitions are run.
pub mod Memory
pub mod Store
pub mod Witnesses
pub mod StatusWitnesses
pub mod PassWitnesses
pub mod CallWitnesses
pub mod ClusterWitnesses
pub mod WatchWitnesses
use steerd_presto_operator.Base.{
  String, ℕ, zero, suc, ◌+◌, ◌≤◌, ◌≡◌, refl, Bool, true, false, ◌&&◌, Option, none, some, List, [],
  ◌∷◌, ◌==◌, if◌then◌else◌, arith,
}
use steerd_presto_operator.Base.Int.{ℤ, pos}
use steerd_presto_operator.Base.Dict.{Dict, lookup, NodupKeys}
use steerd_presto_operator.Exec.{Result, ok, err}
use steerd_presto_operator.Exec.Fallible.{api_error, not_found, operator_error}
use steerd_presto_operator.Kube.{Hpa, NamespacedName, ReplicaSet, Service, ConfigMap, StringMap}
use steerd_presto_operator.Kube.Pod.{PodMetrics}
use steerd_presto_operator.Resource.{
  AutoscalingSpec, CatalogList, CatalogSpec, CoordinatorSpec, ImageSpec, Presto, PrestoSpec,
  PrestoStatus, ServiceSpec, WorkerSpec,
}
use steerd_presto_operator.Platform.{Api, IsRange, Platform}
use steerd_presto_operator.ReplicaSets.Scaling.{KeepsReplicas}
use steerd_presto_operator.Session.{Session}
use steerd_presto_operator.Spending.{ApiCounts, Counts}
use steerd_presto_operator.Pods.Build.{create_presto_pod_spec}
use steerd_presto_operator.Kube.{no_meta}
use steerd_presto_operator.Tests.Memory.{Cluster, memory}

abbrev pub sample_coordinator : CoordinatorSpec
sample_coordinator = record {
  memory_limit = "1Gi";
  additional_jvm_config = "";
  additional_props = ("query.max-memory", "1GB") ∷ [];
  cpu_limit = "1";
  cpu_request = "";
  https_enabled = false;
  https_key_pair_secret_name = "";
  https_key_pair_secret_key = "";
  https_key_pair_password = "";
}

abbrev pub sample_worker : WorkerSpec
sample_worker = record {
  memory_limit = "2Gi";
  additional_jvm_config = "";
  additional_props = [];
  cpu_limit = "2";
  cpu_request = "1";
  termination_grace_period_seconds = none;
  count = some (pos 2);
  autoscaling = record {
    enabled = none;
    min_replicas = some (pos 1);
    max_replicas = some (pos 4);
    target_cpu_utilization_percentage = some (pos 50);
  };
}

abbrev pub sample_spec : PrestoSpec
sample_spec = record {
  coordinator = sample_coordinator;
  worker = sample_worker;
  catalogs = record {
    catalog_secrets = [];
    catalog_spec = record { name = "tpch"; content = ("connector.name", "mysql") ∷ [] } ∷ [];
  };
  service = record {
    node_port = some (pos 30000);
    port = some (pos 8080);
    cluster_ip = "";
    type = "NodePort";
    external_ips = [];
    session_affinity = "";
    load_balancer_ip = "";
    load_balancer_source_ranges = [];
    external_name = "";
    external_traffic_policy = "";
    health_check_node_port = pos 0;
    publish_not_ready_addresses = false;
    session_affinity_config = none;
    ip_family = none;
  };
  image_details = record { name = "presto"; presto_path = "" };
  additional_presto_prop_files = [];
  volumes = [];
}

abbrev pub new_status : PrestoStatus
new_status = record {
  uuid = "";
  desired_workers = pos 0;
  current_workers = pos 0;
  headless_service = "";
  service = "";
  coordinator_address = "";
  catalog_config = "";
  coordinator_config = "";
  worker_config = "";
  worker_replicaset = "";
  coordinator_replicaset = "";
  hpa_name = "";
  cluster_state = "";
  error_reason = "";
  modification_time = "";
  coordinator_cpu = "";
  worker_cpu = "";
}

abbrev pub sample_status : PrestoStatus
sample_status = record new_status { uuid = "0123456789abcdef"; error_reason = "Failed" }

abbrev pub sample : Presto
sample = record {
  api_version = "falarica.io/v1alpha1";
  kind = "Presto";
  name = "mycluster";
  namespace = "default";
  uid = "u";
  labels = [];
  spec = sample_spec;
  status = sample_status;
}

abbrev pub sample_world : Cluster
sample_world = record { prestos = sample ∷ []; written = 0 }

abbrev pub sample_session : Session memory
sample_session = record {
  world = sample_world;
  presto = sample;
  base_labels = ("clusterUUID", sample_status.uuid) ∷ ("clusterName", sample.name) ∷ [];
}

abbrev pub sample_limits : Dict ℕ
sample_limits = ("cpu", 1000) ∷ ("memory", 1000) ∷ []

abbrev pub sample_requests : Dict ℕ
sample_requests = ("cpu", 1000) ∷ []

abbrev pub found_set : ReplicaSet ℕ
found_set = record {
  api_version = "apps/v1";
  kind = "ReplicaSet";
  meta = record no_meta { name = "workerreplicaset-01234567" };
  replicas = some (pos 1);
  match_labels = [];
  template_meta = no_meta;
  pod = create_presto_pod_spec sample false sample_limits sample_requests;
  available_replicas = pos 1;
}
