-- ===== src/Pods/Resources.antt =====
-- The resources that the two kinds of pod are given.
use steerd_presto_operator.Base.{
  String, ◌≡◌, Bool, true, false, [], ◌∷◌, arith, ◌==◌, Bool-cases, inl, inr, if◌then◌else◌,
}
use steerd_presto_operator.Base.Dict.{Dict}
use steerd_presto_operator.Exec.Fallible.{Result, ok, ◌>>=◌, >>=-eq-ok}
use steerd_presto_operator.Kube.Pod.{PodSpec}
use steerd_presto_operator.Resource.{Presto}
use steerd_presto_operator.Platform.{Platform}
use steerd_presto_operator.Catalog.{get_catalog_volume_mount}
use steerd_presto_operator.Pods.{get_https_volume_mount, get_props_volume_mount}
use steerd_presto_operator.Properties.Files.{parse_limit}
use steerd_presto_operator.Pods.Build.{
  cpu_request_of, create_presto_pod_spec, get_presto_coordinator_pod_spec, get_presto_worker_pod,
}

module _ (p : Platform) (presto : Presto) where
  -- The volumes change nothing of the container's resources.
  limits-create_presto_pod_spec :
      (b : Bool) (limits requests : Dict p.Quantity)
      → ((create_presto_pod_spec presto b limits requests).container.limits ≡ limits)
        × ((create_presto_pod_spec presto b limits requests).container.requests ≡ requests)
  unfolding create_presto_pod_spec get_catalog_volume_mount get_props_volume_mount
      get_https_volume_mount
  limits-create_presto_pod_spec b limits requests = ground arith

  parse_limit-ok :
      (field text : String) {q : p.Quantity}
      → parse_limit p field text ≡ ok q
      → p.parse_quantity text ≡ ok q
  unfolding parse_limit
  parse_limit-ok field text h = ground arith

  -- The text that the CPU request is read from.
  abbrev pub request_text : String → String → String
  request_text cpu_request cpu_limit = if cpu_request == "" then cpu_limit else cpu_request

  cpu_request_of-ok :
      (role cpu_request cpu_limit : String) {q : p.Quantity}
      → cpu_request_of p role cpu_request cpu_limit ≡ ok q
      → p.parse_quantity (request_text cpu_request cpu_limit) ≡ ok q
  unfolding cpu_request_of
  cpu_request_of-ok role cpu_request cpu_limit h = elim (Bool-cases (cpu_request == "")) [
    | inl e ↦ rw e (parse_limit-ok _ _ (rw e at h))
    | inr e ↦ rw e (parse_limit-ok _ _ (rw e at h))
  ]

  abbrev built :
      Bool → Result p.Quantity → Result p.Quantity → Result p.Quantity → Result (PodSpec p.Quantity)
  built b cpu_limit memory_limit cpu_request = do
    cpu ← cpu_limit
    memory ← memory_limit
    request ← cpu_request
    ok (
        create_presto_pod_spec presto b (("cpu", cpu) ∷ ("memory", memory) ∷ [])
          (("cpu", request) ∷ []))

  -- The container of a pod has these limits and this request, each read from its text.
  pub record HasResources (pod : PodSpec p.Quantity) (cpu_text memory_text request : String)
      : Type 0 where
    pub cpu_quantity : p.Quantity
    pub memory_quantity : p.Quantity
    pub request_quantity : p.Quantity
    pub cpu_parsed : p.parse_quantity cpu_text ≡ ok cpu_quantity
    pub memory_parsed : p.parse_quantity memory_text ≡ ok memory_quantity
    pub request_parsed : p.parse_quantity request ≡ ok request_quantity
    pub limits : pod.container.limits ≡ ("cpu", cpu_quantity) ∷ ("memory", memory_quantity) ∷ []
    pub requests : pod.container.requests ≡ ("cpu", request_quantity) ∷ []

  built-ok :
      (b : Bool) (role cpu_field memory_field cpu_text memory_text cpu_request : String)
      {pod : PodSpec p.Quantity}
      → built b
          (parse_limit p cpu_field cpu_text)
          (parse_limit p memory_field memory_text)
          (cpu_request_of p role cpu_request cpu_text)
        ≡ ok pod
      → HasResources pod cpu_text memory_text (request_text cpu_request cpu_text)
  built-ok b role cpu_field memory_field cpu_text memory_text cpu_request h =
      let (cpu, e1, h1) = >>=-eq-ok (parse_limit p cpu_field cpu_text) _ h in
      let (memory, e2, h2) = >>=-eq-ok (parse_limit p memory_field memory_text) _ h1 in
      let (request, e3, h3) = >>=-eq-ok (cpu_request_of p role cpu_request cpu_text) _ h2 in
      let same =
        limits-create_presto_pod_spec b (("cpu", cpu) ∷ ("memory", memory) ∷ [])
          (("cpu", request) ∷ []) in
      record {
        cpu_quantity = cpu;
        memory_quantity = memory;
        request_quantity = request;
        cpu_parsed = parse_limit-ok cpu_field cpu_text e1;
        memory_parsed = parse_limit-ok memory_field memory_text e2;
        request_parsed = cpu_request_of-ok role cpu_request cpu_text e3;
        limits = cc (h3, same.0);
        requests = cc (h3, same.1);
      }

  -- A worker's pod is built only if its limits and its request parse. They are those of the
  -- resource's worker, the CPU limit standing in for a CPU request that is not given.
  pub get_presto_worker_pod-ok :
      {pod : PodSpec p.Quantity}
      → get_presto_worker_pod p presto ≡ ok pod
      → HasResources pod presto.spec.worker.cpu_limit presto.spec.worker.memory_limit
          (request_text presto.spec.worker.cpu_request presto.spec.worker.cpu_limit)
  unfolding get_presto_worker_pod
  get_presto_worker_pod-ok h = built-ok false "Worker" _ _ _ _ presto.spec.worker.cpu_request h

  -- A coordinator's pod is built only if its limits and its request parse. Its CPU limit and its CPU
  -- request are those of the resource's coordinator, but its memory limit is the worker's.
  pub get_presto_coordinator_pod_spec-ok :
      {pod : PodSpec p.Quantity}
      → get_presto_coordinator_pod_spec p presto ≡ ok pod
      → HasResources pod presto.spec.coordinator.cpu_limit presto.spec.worker.memory_limit
          (request_text presto.spec.coordinator.cpu_request presto.spec.coordinator.cpu_limit)
  unfolding get_presto_coordinator_pod_spec
  get_presto_coordinator_pod_spec-ok h =
      built-ok true "Coordinator" _ _ _ _ presto.spec.coordinator.cpu_request h
