-- ===== src/Status/Laws.antt =====
-- What `updateStatus` writes, and what it leaves.
use steerd_presto_operator.Base.{
  ◌≡◌, refl, sym, List, ◌∙◌, Bool, true, false, not, ◌||◌, Option, none, some, [], ◌∷◌, arith, ◌==◌,
  if◌then◌else◌,
}
use steerd_presto_operator.Base.Int.{ℤ}
use steerd_presto_operator.Resource.{PrestoStatus}
use steerd_presto_operator.Kube.{Service, ServicePort, ReplicaSet}
use steerd_presto_operator.Status.{
  address, write_address, apply_action, ClusterUpdateAction, Draft, write_fields, write_service,
  write_workers,
}
use steerd_presto_operator.Status.Assignments.{
  or_old, given, write-headless_service, write-worker_config, write-coordinator_config,
  write-catalog_config, write-coordinator_replicaset, write-hpa_name, write-error_reason,
  write-worker_cpu, write-coordinator_cpu, write-uuid, write_state-cluster_state,
}

module _ {Quantity : Type 0} (action : ClusterUpdateAction Quantity) where
  -- Some field of the action between the service and the worker count is set.
  abbrev pub fields_given : Bool → Bool
  fields_given u =
      (given action.coordinator_cpu_usage
        || (given action.worker_cpu_usage
            || (given action.error_reason
                || (not (action.cluster_state == "")
                    || (given action.hpa_name
                        || (given action.coordinator_replica_set_name
                            || (given action.catalog_conf_map
                                || (given action.coordinator_conf_map
                                    || (given action.worker_conf_map
                                        || (given action.headless_service || u))))))))))

  -- The status after the assignments between the service and the worker count.
  abbrev pub fields_written : PrestoStatus → PrestoStatus
  fields_written s = record s {
    headless_service = or_old action.headless_service s.headless_service;
    worker_config = or_old action.worker_conf_map s.worker_config;
    coordinator_config = or_old action.coordinator_conf_map s.coordinator_config;
    catalog_config = or_old action.catalog_conf_map s.catalog_config;
    coordinator_replicaset = or_old action.coordinator_replica_set_name s.coordinator_replicaset;
    hpa_name = or_old action.hpa_name s.hpa_name;
    cluster_state = if action.cluster_state == "" then s.cluster_state else action.cluster_state;
    error_reason = or_old action.error_reason s.error_reason;
    worker_cpu = or_old action.worker_cpu_usage s.worker_cpu;
    coordinator_cpu = or_old action.coordinator_cpu_usage s.coordinator_cpu;
  }

  pub write_fields-eq :
      (s : PrestoStatus) (u : Bool)
      → write_fields action (s, u) ≡ (fields_written s, fields_given u)
  unfolding write_fields
  write_fields-eq s u =
      let s1 : PrestoStatus = record s {
        headless_service = or_old action.headless_service s.headless_service;
      } in
      let u1 = given action.headless_service || u in
      let s2 : PrestoStatus = record s1 {
        worker_config = or_old action.worker_conf_map s.worker_config;
      } in
      let u2 = given action.worker_conf_map || u1 in
      let s3 : PrestoStatus = record s2 {
        coordinator_config = or_old action.coordinator_conf_map s.coordinator_config;
      } in
      let u3 = given action.coordinator_conf_map || u2 in
      let s4 : PrestoStatus = record s3 {
        catalog_config = or_old action.catalog_conf_map s.catalog_config;
      } in
      let u4 = given action.catalog_conf_map || u3 in
      let s5 : PrestoStatus = record s4 {
        coordinator_replicaset =
            or_old action.coordinator_replica_set_name s.coordinator_replicaset;
      } in
      let u5 = given action.coordinator_replica_set_name || u4 in
      let s6 : PrestoStatus = record s5 { hpa_name = or_old action.hpa_name s.hpa_name } in
      let u6 = given action.hpa_name || u5 in
      let s7 : PrestoStatus = record s6 {
        cluster_state =
            if action.cluster_state == "" then s.cluster_state else action.cluster_state;
      } in
      let u7 = not (action.cluster_state == "") || u6 in
      let s8 : PrestoStatus = record s7 {
        error_reason = or_old action.error_reason s.error_reason;
      } in
      let u8 = given action.error_reason || u7 in
      let s9 : PrestoStatus = record s8 {
        worker_cpu = or_old action.worker_cpu_usage s.worker_cpu;
      } in
      let u9 = given action.worker_cpu_usage || u8 in
      let s10 : PrestoStatus = record s9 {
        coordinator_cpu = or_old action.coordinator_cpu_usage s.coordinator_cpu;
      } in
      let u10 = given action.coordinator_cpu_usage || u9 in
      rw (
        write-headless_service action.headless_service s u,
        write-worker_config action.worker_conf_map s1 u1,
        write-coordinator_config action.coordinator_conf_map s2 u2,
        write-catalog_config action.catalog_conf_map s3 u3,
        write-coordinator_replicaset action.coordinator_replica_set_name s4 u4,
        write-hpa_name action.hpa_name s5 u5,
        write_state-cluster_state action.cluster_state s6 u6,
        write-error_reason action.error_reason s7 u7,
        write-worker_cpu action.worker_cpu_usage s8 u8,
        write-coordinator_cpu action.coordinator_cpu_usage s9 u9,
      )

  -- The status after the identifier is assigned.
  abbrev pub uuid_written : PrestoStatus → PrestoStatus
  uuid_written s = record s { uuid = or_old action.cluster_uuid s.uuid }

  abbrev pub rest : Option Draft → Option Draft
  rest none = none
  rest (some (s, u)) = write_workers action.worker_replica_set (fields_written s, fields_given u)

  pub apply_action-rest :
      (s : PrestoStatus)
      → apply_action action s
        ≡ rest (write_service action.service (uuid_written s, given action.cluster_uuid || false))
  unfolding apply_action
  apply_action-rest s =
      rw (apply_action, write-uuid action.cluster_uuid s false)
        (written
          (write_service action.service (uuid_written s, given action.cluster_uuid || false)))
    where
      written :
          (d : Option Draft)
          → elim d [
            | none ↦ none
            | some d' ↦ write_workers action.worker_replica_set (write_fields action d')
          ]
            ≡ rest d
      written none = refl
      written (some (s, u)) = rw (write_fields-eq s u)

-- The status after the worker count is taken from a replica set.
abbrev pub workers_written :
    {Quantity : Type 0} → ReplicaSet Quantity → ℤ → PrestoStatus → PrestoStatus
workers_written replica_set replicas s = record s {
  worker_replicaset = replica_set.meta.name;
  desired_workers = replicas;
  current_workers = replica_set.available_replicas;
}

module _ {Quantity : Type 0} (action : ClusterUpdateAction Quantity) (old : PrestoStatus) where
  -- An action with a worker replica set whose replicas are given, and without a service, writes the
  -- identifier and the fields that it gives, takes the worker count from the replica set, leaves
  -- the rest of the status as it was, and counts as an update.
  pub apply_action-workers :
      (replica_set : ReplicaSet Quantity) (replicas : ℤ)
      → action.service ≡ none
      → action.worker_replica_set ≡ some replica_set
      → replica_set.replicas ≡ some replicas
      → apply_action action old
        ≡ some (
          workers_written replica_set replicas (fields_written action (uuid_written action old)),
          true,
        )
  apply_action-workers replica_set replicas e f g = apply_action-rest action old ∙ simp (e, f, g)

  -- An action with neither a service nor a worker replica set writes the identifier and the fields
  -- that it gives, leaves the rest of the status as it was, and counts as an update exactly if it
  -- gives one of them.
  pub apply_action-plain :
      action.service ≡ none
      → action.worker_replica_set ≡ none
      → apply_action action old
        ≡ some (
          fields_written action (uuid_written action old),
          fields_given action (given action.cluster_uuid || false),
        )
  apply_action-plain e f = apply_action-rest action old ∙ simp (e, f)

  -- The parts of a status that neither the service nor the workers touch.
  abbrev Agrees : PrestoStatus → PrestoStatus → Type 0
  Agrees a b =
      (a.uuid ≡ b.uuid) × (a.error_reason ≡ b.error_reason) × (a.cluster_state ≡ b.cluster_state)

  write_workers-Agrees :
      (w : Option (ReplicaSet Quantity)) (s new : PrestoStatus) (u v : Bool)
      → write_workers w (s, u) ≡ some (new, v)
      → Agrees new s
  write_workers-Agrees w s new u v h = ground arith

  rest-Agrees :
      (o : Option Service) (s new : PrestoStatus) (u v : Bool)
      → rest action (write_service o (s, u)) ≡ some (new, v)
      → Agrees new (fields_written action s)
  rest-Agrees none s new u v h = write_workers-Agrees action.worker_replica_set _ new _ v h
  rest-Agrees (some service) s new u v h = ports service.spec.ports h
    where
      ports :
          (l : List ServicePort)
          → rest action (write_address service l s) ≡ some (new, v)
          → Agrees new (fields_written action s)
      ports [] h = cc
      ports (port ∷ l) h =
          write_workers-Agrees action.worker_replica_set
            (fields_written action (record s {
              service = service.meta.name;
              coordinator_address = address service port;
            }))
            new _ v h

  -- Whatever the action: if it can be applied, the status keeps its identifier, its error reason and
  -- its cluster state, each unless the action gives a new one. An action gives no new state by the
  -- empty text.
  pub apply_action-keeps :
      (new : PrestoStatus) (update : Bool)
      → apply_action action old ≡ some (new, update)
      → (new.uuid ≡ or_old action.cluster_uuid old.uuid)
        × (new.error_reason ≡ or_old action.error_reason old.error_reason)
        × (new.cluster_state
            ≡ (if action.cluster_state == "" then old.cluster_state else action.cluster_state))
  apply_action-keeps new update h =
      rest-Agrees action.service (uuid_written action old) new _ update
        (sym (apply_action-rest action old) ∙ h)
