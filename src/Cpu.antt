-- ===== src/Cpu.antt =====
-- `getCPUUsage` and `getCoordinatorPodPhase` of pkg/controller/presto/presto_controller.go.
pub mod Laws
use steerd_presto_operator.Base.{String, Bool, ◌&&◌, List, [], ◌∷◌, ◌==◌, if◌then◌else◌}
use steerd_presto_operator.Base.Int.{ℤ, pos, add64, mul64, div64, ◌==ℤ◌}
use steerd_presto_operator.Base.Dict.{Dict}
use steerd_presto_operator.Exec.{Result, ok, err, pure, gets, attempt, ◌>>=◌, ◌>>◌}
use steerd_presto_operator.Kube.Pod.{PodMetrics}
use steerd_presto_operator.Platform.{Platform}
use steerd_presto_operator.Names.{
  get_coordinator_container_name, get_coordinator_pod_label, get_coordinator_pod_labels,
  get_worker_container_prefix, get_worker_pod_label,
}
use steerd_presto_operator.Session.{Op, call, need_short}

-- `totalAllotted` and `totalUsed`
pub record Totals : Type 0 where
  pub allotted : ℤ
  pub used : ℤ

abbrev pub no_totals : Totals
no_totals = record { allotted = pos 0; used = pos 0 }

-- The last statement of `getCPUUsage`.
unfoldable pub percentage : Totals → ℤ
percentage t = if t.allotted ==ℤ pos 0 then pos 0 else div64 (mul64 t.used (pos 100)) t.allotted

unfoldable pub add_use : ℤ → ℤ → Totals → Totals
add_use allotted used t = record { allotted = add64 t.allotted allotted; used = add64 t.used used }

module _ (p : Platform) (container_prefix : String) (allotted : ℤ) where
  -- `for k, used := range cm.Usage`
  unfoldable pub add_usage : String → Dict p.Quantity → Totals → Totals
  add_usage name [] t = t
  add_usage name ((k, used) ∷ usage) t = add_usage name usage (
      if k == "cpu" && name == container_prefix then add_use allotted (p.milli_value used) t else t)

  unfoldable pub add_containers : PodMetrics p.Quantity → Totals → Totals
  unfolding add_usage
  add_containers [] t = t
  add_containers (cm ∷ containers) t = add_containers containers (add_usage cm.name cm.usage t)

  unfoldable pub add_pods : List (PodMetrics p.Quantity) → Totals → Totals
  unfolding add_containers
  add_pods [] t = t
  add_pods (pm ∷ items) t = add_pods items (add_containers pm t)

module _ (p : Platform) where
  -- An error of the parse is dropped, with the zero quantity that comes beside it.
  unfoldable pub quantity_or_zero : String → p.Quantity
  quantity_or_zero text = elim (p.parse_quantity text) [
    | ok quantity ↦ quantity
    | err e ↦ p.zero_quantity
  ]

  unfoldable pub usage_of : String → String → Result (List (PodMetrics p.Quantity)) → ℤ
  usage_of container_prefix cpu_limit (err e) = pos 0
  usage_of container_prefix cpu_limit (ok pods_metrics) = percentage (
      add_pods p container_prefix (p.milli_value (quantity_or_zero cpu_limit)) pods_metrics
        no_totals)

  unfoldable pub get_cpu_usage : Bool → Op p ℤ
  get_cpu_usage is_coordinator = do
    presto ← gets (λ s. s.presto)
    let uuid = presto.status.uuid
    need_short p uuid
    let label = if is_coordinator then get_coordinator_pod_label uuid else get_worker_pod_label uuid
    let container_prefix =
        if is_coordinator
        then get_coordinator_container_name uuid
        else get_worker_container_prefix uuid
    let cpu_limit =
        if is_coordinator then presto.spec.coordinator.cpu_limit else presto.spec.worker.cpu_limit
    listed ← attempt (call p (p.list_pod_metrics presto.namespace (label ∷ [])))
    pure (usage_of container_prefix cpu_limit listed)

  -- The phase of the first pod. The error that the source returns beside it is not read.
  unfoldable pub first_phase : Result (List String) → String
  first_phase (err e) = "Unknown"
  first_phase (ok []) = "Unknown"
  first_phase (ok (phase ∷ items)) = phase

  unfoldable pub get_coordinator_pod_phase : Op p String
  get_coordinator_pod_phase = do
    presto ← gets (λ s. s.presto)
    lbls ← gets (λ s. s.base_labels)
    listed ←
        attempt (
          call p
            (p.list_pods presto.namespace (get_coordinator_pod_labels lbls presto.status.uuid)))
    pure (first_phase listed)
