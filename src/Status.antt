-- ===== src/Status.antt =====
-- `ClusterUpdateAction`, `updateStatus` and `getPresto` of pkg/controller/presto/presto_controller.go.
pub mod Assignments
pub mod Laws
use steerd_presto_operator.Base.{
  String, ◌<>◌, Bool, true, false, Option, none, some, List, [], ◌∷◌, ◌==◌, if◌then◌else◌,
}
use steerd_presto_operator.Base.Int.{format_int}
use steerd_presto_operator.Exec.{pure, deref, gets, ◌>>=◌, ◌>>◌}
use steerd_presto_operator.Kube.{Service, ServicePort, ReplicaSet}
use steerd_presto_operator.Resource.{Presto, PrestoStatus}
use steerd_presto_operator.Platform.{Platform}
use steerd_presto_operator.Session.{Op, call, ask, set_presto}

pub record ClusterUpdateAction (Quantity : Type 0) : Type 0 where
  pub cluster_uuid : Option String
  pub service : Option Service
  pub headless_service : Option String
  pub worker_conf_map : Option String
  pub coordinator_conf_map : Option String
  pub catalog_conf_map : Option String
  pub coordinator_replica_set_name : Option String
  pub hpa_name : Option String
  pub worker_replica_set : Option (ReplicaSet Quantity)
  pub cluster_state : String
  pub error_reason : Option String
  pub coordinator_cpu_usage : Option String
  pub worker_cpu_usage : Option String

-- `ClusterUpdateAction{}`
abbrev pub no_action : {Quantity : Type 0} → ClusterUpdateAction Quantity
no_action = record {
  cluster_uuid = none;
  service = none;
  headless_service = none;
  worker_conf_map = none;
  coordinator_conf_map = none;
  catalog_conf_map = none;
  coordinator_replica_set_name = none;
  hpa_name = none;
  worker_replica_set = none;
  cluster_state = "";
  error_reason = none;
  coordinator_cpu_usage = none;
  worker_cpu_usage = none;
}

-- The status under change and the flag `update`.
abbrev pub Draft : Type 0
Draft = PrestoStatus × Bool

-- `if p != nil { … = *p; update = true }`
abbrev pub write : Option String → (String → PrestoStatus → PrestoStatus) → Draft → Draft
write none set d = d
write (some v) set (s, update) = (set v s, true)

-- `fmt.Sprintf("%s:%d/%d", …)`
abbrev pub address : Service → ServicePort → String
address service port =
    service.spec.cluster_ip <> (":" <> (format_int port.port <> ("/" <> format_int port.node_port)))

-- `none` is the panic of `Ports[0]`.
abbrev pub write_address : Service → List ServicePort → PrestoStatus → Option Draft
write_address service [] s = none
write_address service (port ∷ ports) s =
    some
      (record s { service = service.meta.name; coordinator_address = address service port }, true)

abbrev pub write_service : Option Service → Draft → Option Draft
write_service none d = some d
write_service (some service) (s, update) = write_address service service.spec.ports s

abbrev pub write_state : String → Draft → Draft
write_state state (s, update) =
    if state == "" then (s, update) else (record s { cluster_state = state }, true)

-- `none` is the panic of `*Spec.Replicas`.
abbrev pub write_workers : {Quantity : Type 0} → Option (ReplicaSet Quantity) → Draft → Option Draft
write_workers none d = some d
write_workers (some replica_set) (s, update) = elim replica_set.replicas [
  | none ↦ none
  | some replicas ↦ some (
    record s {
      worker_replicaset = replica_set.meta.name;
      desired_workers = replicas;
      current_workers = replica_set.available_replicas;
    },
    true,
  )
]

module _ {Quantity : Type 0} (action : ClusterUpdateAction Quantity) where
  -- The assignments between the service and the worker count.
  unfoldable pub write_fields : Draft → Draft
  write_fields d0 =
      let d1 = write action.headless_service (λ v s. record s { headless_service = v }) d0 in
      let d2 = write action.worker_conf_map (λ v s. record s { worker_config = v }) d1 in
      let d3 = write action.coordinator_conf_map (λ v s. record s { coordinator_config = v }) d2 in
      let d4 = write action.catalog_conf_map (λ v s. record s { catalog_config = v }) d3 in
      let d5 =
        write action.coordinator_replica_set_name (λ v s. record s { coordinator_replicaset = v })
          d4 in
      let d6 = write action.hpa_name (λ v s. record s { hpa_name = v }) d5 in
      let d7 = write_state action.cluster_state d6 in
      let d8 = write action.error_reason (λ v s. record s { error_reason = v }) d7 in
      let d9 = write action.worker_cpu_usage (λ v s. record s { worker_cpu = v }) d8 in
      write action.coordinator_cpu_usage (λ v s. record s { coordinator_cpu = v }) d9

  -- All assignments of `updateStatus`, in its order.
  unfoldable pub apply_action : PrestoStatus → Option Draft
  unfolding write_fields
  apply_action status =
      let d = write action.cluster_uuid (λ v s. record s { uuid = v }) (status, false) in
      elim (write_service action.service d) [
        | none ↦ none
        | some d' ↦ write_workers action.worker_replica_set (write_fields d')
      ]

-- The loop of `getPresto`.
unfoldable pub find_by_name : String → List Presto → Option Presto
find_by_name name [] = none
find_by_name name (pc ∷ items) = if pc.name == name then some pc else find_by_name name items

module _ (p : Platform) where
  unfoldable pub get_presto : Presto → Op p (Option Presto)
  get_presto old_presto = do
    items ← call p (p.list_prestos old_presto.namespace old_presto.labels)
    pure (find_by_name old_presto.name items)

  -- `Status().Update`. With `aliased`, the object is the caller's own, and what the server returns
  -- is written back to it.
  unfoldable pub send_status : Bool → Presto → Op p Bool
  send_status aliased presto_copy = do
    time ← ask p p.now
    let stamped : Presto = record presto_copy {
      status = record presto_copy.status { modification_time = time };
    }
    if aliased then set_presto p stamped else pure tt
    written ← call p (p.update_presto_status stamped)
    if aliased then set_presto p written else pure tt
    pure true

  -- Works on a fresh copy of the object, or on the caller's object where the list lacks it.
  unfoldable pub update_with : ClusterUpdateAction p.Quantity → Bool → Presto → Op p Bool
  update_with action aliased presto_copy = do
    (status, update) ← deref (apply_action action presto_copy.status)
    let changed : Presto = record presto_copy { status = status }
    if update then send_status aliased changed else pure false

  unfoldable pub update_status : ClusterUpdateAction p.Quantity → Op p Bool
  update_status action = do
    presto ← gets (λ s. s.presto)
    found ← get_presto presto
    elim found [
      | none ↦ update_with action true presto
      | some presto_copy ↦ update_with action false presto_copy
    ]
