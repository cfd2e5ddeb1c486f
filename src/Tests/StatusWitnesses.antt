-- ===== src/Tests/StatusWitnesses.antt =====
-- The theorems on the status, the autoscaler, the webhook and the watch, at a concrete resource.
use steerd_presto_operator.Base.{◌&&◌, ◌==◌}
use steerd_presto_operator.Base.{
  ℕ, ◌≤◌, ◌≡◌, ◌≢◌, ◌↔◌, ◌⊎◌, refl, true, false, none, some, [], ◌∷◌, arith,
}
use steerd_presto_operator.Base.Int.{pos}
use steerd_presto_operator.Exec.{done, ok, err}
use steerd_presto_operator.Kube.{Hpa, no_meta}
use steerd_presto_operator.Resource.{Presto, PrestoStatus}
use steerd_presto_operator.Webhook.{admitted, validate_update, validate_update-eq-admitted}
use steerd_presto_operator.WatchPredicate.{UpdateEvent, update, update-eq-true}
use steerd_presto_operator.Status.{ClusterUpdateAction, apply_action, no_action, write_fields}
use steerd_presto_operator.Status.Laws.{
  apply_action-keeps, apply_action-plain, apply_action-workers,
}
use steerd_presto_operator.Autoscaling.{
  autoscale_spec_changed, create_hpa_spec, is_created_by_hpa_controller,
}
use steerd_presto_operator.Autoscaling.Laws.{
  autoscale_spec_changed-create_hpa_spec, create_hpa_spec-is_ok,
  is_created_by_hpa_controller-create_hpa_spec,
}
use steerd_presto_operator.Cpu.{quantity_or_zero, usage_of}
use steerd_presto_operator.Cpu.Laws.{share, usage_of_bounds}
use steerd_presto_operator.Tests.{new_status, sample, sample_session, sample_spec, sample_status}
use steerd_presto_operator.Tests.Memory.{memory}
use steerd_presto_operator.Tests.{found_set}

abbrev ready_action : ClusterUpdateAction ℕ
ready_action = record no_action { worker_replica_set = some found_set; cluster_state = "Ready" }

abbrev ready_after : PrestoStatus
ready_after = record sample_status {
  worker_replicaset = "workerreplicaset-01234567";
  desired_workers = pos 1;
  current_workers = pos 1;
  cluster_state = "Ready";
}

ready_applied : apply_action ready_action sample_status ≡ some (ready_after, true)
unfolding apply_action write_fields
ready_applied = refl

apply_action-keeps_example :
    (ready_after.uuid ≡ sample_status.uuid)
    × (ready_after.error_reason ≡ sample_status.error_reason)
    × (ready_after.cluster_state ≡ "Ready")
apply_action-keeps_example =
    apply_action-keeps ready_action sample_status ready_after true ready_applied

apply_action-workers_example : apply_action ready_action sample_status ≡ some (ready_after, true)
apply_action-workers_example =
    apply_action-workers ready_action sample_status found_set (pos 1) refl refl refl

abbrev uuid_action : ClusterUpdateAction ℕ
uuid_action = record no_action { cluster_uuid = some "u" }

apply_action-plain_example :
    apply_action uuid_action new_status ≡ some (record new_status { uuid = "u" }, true)
apply_action-plain_example = apply_action-plain uuid_action new_status refl refl

usage_of_bounds_example :
    (usage_of memory "c" "1" (ok ((record { name = "c"; usage = ("cpu", 250) ∷ [] } ∷ []) ∷ []))
      ≡ pos (share 250 1000))
    × (share 250 1000 ≤ 100)
unfolding quantity_or_zero
usage_of_bounds_example =
    usage_of_bounds memory "c" "1" ((record { name = "c"; usage = ("cpu", 250) ∷ [] } ∷ []) ∷ [])
      1000 refl ((250, refl, omega arith), tt) (omega arith)

abbrev sample_hpa : Hpa
sample_hpa = elim (create_hpa_spec sample found_set [] "7") [
  | ok hpa ↦ hpa
  | err e ↦ record {
    meta = no_meta;
    scale_target_ref = record { api_version = ""; kind = ""; name = "" };
    min_replicas = none;
    max_replicas = pos 0;
    target_cpu_utilization_percentage = none;
  }
]

sample_hpa_ok : create_hpa_spec sample found_set [] "7" ≡ ok sample_hpa
unfolding create_hpa_spec
sample_hpa_ok = refl

autoscale_spec_changed-create_hpa_spec_example :
    autoscale_spec_changed memory sample_hpa sample sample_session ≡ (done false, sample_session)
autoscale_spec_changed-create_hpa_spec_example =
    autoscale_spec_changed-create_hpa_spec sample found_set [] "7" memory sample_hpa sample_session
      sample_hpa_ok

is_created_by_hpa_controller-create_hpa_spec_example :
    is_created_by_hpa_controller sample_hpa sample
    ≡ ((sample.name == sample.name) && (sample.kind == sample.kind))
is_created_by_hpa_controller-create_hpa_spec_example =
    is_created_by_hpa_controller-create_hpa_spec sample found_set [] "7" sample sample_hpa
      sample_hpa_ok

create_hpa_spec-is_ok_example :
    elim (create_hpa_spec sample found_set [] "7") [ ok hpa ↦ true | err e ↦ false ] ≡ true
create_hpa_spec-is_ok_example = create_hpa_spec-is_ok sample found_set [] "7"

abbrev bigger : Presto
bigger = record sample {
  spec = record sample_spec { image_details = record { name = "presto:2"; presto_path = "" } };
}

validate_update-eq-admitted_example :
    (validate_update bigger sample ≡ admitted)
    ↔ (sample.spec.coordinator.cpu_request ≡ bigger.spec.coordinator.cpu_request)
validate_update-eq-admitted_example = validate_update-eq-admitted bigger sample

abbrev edited : UpdateEvent
edited = record {
  meta_old = some (record { generation = pos 1 });
  object_old = some sample;
  meta_new = some (record { generation = pos 2 });
  object_new = some bigger;
}

update-eq-true_example :
    (update edited ≡ true)
    ↔ ((some sample ≢ none) × (some bigger ≢ none) × ((pos 2 ≢ pos 1) ⊎ (pos 2 ≡ pos 0)))
update-eq-true_example = update-eq-true edited
