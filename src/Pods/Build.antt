-- ===== src/Pods/Build.antt =====
-- `createPrestoPodSpec` of presto_pods.go, the resources of the two kinds of pod, and the replica
-- sets around them.
use steerd_presto_operator.Base.{
  String, ◌<>◌, Bool, true, false, ◌&&◌, Option, none, some, [], ◌∷◌, ◌++◌, ◌==◌, if◌then◌else◌,
}
use steerd_presto_operator.Base.Int.{ℤ, pos}
use steerd_presto_operator.Base.Dict.{Dict}
use steerd_presto_operator.Exec.Fallible.{Result, ok, ◌>>=◌}
use steerd_presto_operator.Kube.{StringMap, ReplicaSet, no_meta}
use steerd_presto_operator.Kube.Pod.{VolumeMount, PodSpec}
use steerd_presto_operator.Resource.{Presto}
use steerd_presto_operator.Platform.{Platform}
use steerd_presto_operator.Names.{
  get_coordinator_container_name, get_coordinator_replicaset, get_owner_reference,
  get_pod_discovery_service_name, get_presto_path, get_worker_container_prefix,
  get_worker_replica_set,
}
use steerd_presto_operator.Properties.Files.{parse_limit}
use steerd_presto_operator.Catalog.{get_catalog_volume_mount}
use steerd_presto_operator.Pods.{
  append_additional_volume_mounts, append_additional_volumes, get_https_volume_mount,
  get_props_volume_mount,
}

-- `terminationGraceSeconds` of a worker
abbrev grace_seconds : Option ℤ → Option ℤ
grace_seconds none = some (pos 7200)
grace_seconds (some seconds) = some seconds

module _ {Quantity : Type 0} where
  -- `podSpec.Containers[0].VolumeMounts = append(…, *mount)`
  abbrev pub add_mount : PodSpec Quantity → VolumeMount → PodSpec Quantity
  add_mount pod_spec mount = record pod_spec {
    container = record pod_spec.container {
      volume_mounts = pod_spec.container.volume_mounts ++ mount ∷ [];
    };
  }

  -- The pod before its volumes are added.
  unfoldable pub bare_pod : Presto → Bool → Dict Quantity → Dict Quantity → PodSpec Quantity
  bare_pod presto is_coordinator limits requests =
      let image_name =
        if presto.spec.image_details.name == ""
        then "prestosql/presto:333"
        else presto.spec.image_details.name in
      record {
        termination_grace_period_seconds =
            if is_coordinator
            then none
            else grace_seconds presto.spec.worker.termination_grace_period_seconds;
        container = record {
          name =
              if is_coordinator
              then get_coordinator_container_name presto.status.uuid
              else get_worker_container_prefix presto.status.uuid;
          image = image_name;
          limits = limits;
          requests = requests;
          lifecycle =
              if is_coordinator
              then none
              else some
                  ("/bin/sh" ∷ (get_presto_path presto <> ("/" <> "presto_shutdown.sh")) ∷ []);
          volume_mounts = [];
        };
        hostname = if is_coordinator then get_coordinator_container_name presto.status.uuid else "";
        subdomain =
            if is_coordinator then get_pod_discovery_service_name presto.status.uuid else "";
        volumes = [];
      }

  abbrev pub https_step : Presto → Bool → PodSpec Quantity → PodSpec Quantity
  https_step presto false pod_spec = pod_spec
  https_step presto true pod_spec =
      let (https_mount, pod) = get_https_volume_mount presto pod_spec in add_mount pod https_mount

  unfoldable pub create_presto_pod_spec :
      Presto → Bool → Dict Quantity → Dict Quantity → PodSpec Quantity
  unfolding bare_pod
  create_presto_pod_spec presto is_coordinator limits requests =
      let pod0 = bare_pod presto is_coordinator limits requests in
      let (catalog_mount, pod1) = get_catalog_volume_mount presto pod0 in
      let (props_mount, pod2) = get_props_volume_mount presto pod1 is_coordinator in
      let pod3 : PodSpec Quantity = record pod2 {
        volumes = append_additional_volumes presto.spec.volumes pod2.volumes;
      } in
      let pod4 = add_mount (add_mount pod3 props_mount) catalog_mount in
      let pod5 = https_step presto (is_coordinator && presto.spec.coordinator.https_enabled) pod4 in
      record pod5 {
        container = record pod5.container {
          volume_mounts =
              append_additional_volume_mounts presto.spec.volumes pod5.container.volume_mounts;
        };
      }

module _ (p : Platform) where
  -- The request is the limit where none is given.
  unfoldable pub cpu_request_of : String → String → String → Result p.Quantity
  cpu_request_of role cpu_request cpu_limit =
      if cpu_request == ""
      then parse_limit p ("presto.Spec." <> (role <> ".CpuLimit")) cpu_limit
      else parse_limit p ("presto.Spec." <> (role <> ".CpuRequest")) cpu_request

  unfoldable pub get_presto_worker_pod : Presto → Result (PodSpec p.Quantity)
  unfolding cpu_request_of
  get_presto_worker_pod presto = do
    cpu ← parse_limit p "presto.Spec.Worker.CpuLimit" presto.spec.worker.cpu_limit
    memory ← parse_limit p "presto.Spec.Worker.MemoryLimit" presto.spec.worker.memory_limit
    request ← cpu_request_of "Worker" presto.spec.worker.cpu_request presto.spec.worker.cpu_limit
    ok (
        create_presto_pod_spec presto false (("cpu", cpu) ∷ ("memory", memory) ∷ [])
          (("cpu", request) ∷ []))

  -- The memory limit is the worker's, as in the source.
  unfoldable pub get_presto_coordinator_pod_spec : Presto → Result (PodSpec p.Quantity)
  unfolding cpu_request_of
  get_presto_coordinator_pod_spec presto = do
    cpu ← parse_limit p "presto.Spec.Coordinator.CpuLimit" presto.spec.coordinator.cpu_limit
    memory ← parse_limit p "presto.Spec.Worker.MemoryLimit" presto.spec.worker.memory_limit
    request ←
        cpu_request_of "Coordinator" presto.spec.coordinator.cpu_request
          presto.spec.coordinator.cpu_limit
    ok (
        create_presto_pod_spec presto true (("cpu", cpu) ∷ ("memory", memory) ∷ [])
          (("cpu", request) ∷ []))

  -- The replica set around a pod template; `TypeMeta`, `Name` and `Status` are left zero.
  unfoldable pub replica_set_of :
      Presto → String → StringMap → ℤ → PodSpec p.Quantity → ReplicaSet p.Quantity
  replica_set_of presto generate_name labels count pod_spec = record {
    api_version = "";
    kind = "";
    meta = record no_meta {
      generate_name = generate_name;
      namespace = presto.namespace;
      owner_references = get_owner_reference presto ∷ [];
      labels = labels;
    };
    replicas = some count;
    match_labels = labels;
    template_meta = record no_meta {
      owner_references = get_owner_reference presto ∷ [];
      namespace = presto.namespace;
      labels = labels;
    };
    pod = pod_spec;
    available_replicas = pos 0;
  }

  unfoldable pub create_replica_set_for_worker :
      Presto → StringMap → ℤ → Result (ReplicaSet p.Quantity)
  unfolding replica_set_of
  create_replica_set_for_worker presto labels worker_count = do
    pod_spec ← get_presto_worker_pod presto
    ok (
        replica_set_of presto (get_worker_replica_set presto.status.uuid) labels worker_count
          pod_spec)

  unfoldable pub create_replica_set_for_coordinator :
      Presto → StringMap → Result (ReplicaSet p.Quantity)
  unfolding replica_set_of
  create_replica_set_for_coordinator presto labels = do
    pod_spec ← get_presto_coordinator_pod_spec presto
    ok (
        replica_set_of presto (get_coordinator_replicaset presto.status.uuid) labels (pos 1)
          pod_spec)
