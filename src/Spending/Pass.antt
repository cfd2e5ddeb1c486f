-- ===== src/Spending/Pass.antt =====
-- A whole pass of `Reconcile` makes one write at most.
use steerd_presto_operator.Base.{
  String, ℕ, ◌+◌, ◌≤◌, Bool, true, false, [], arith, if◌then◌else◌, ◌==◌,
}
use steerd_presto_operator.Exec.{Outcome, done, failed, panicked, pure, Result, ok, err}
use steerd_presto_operator.Kube.{NamespacedName, ReplicaSet}
use steerd_presto_operator.Resource.{Presto}
use steerd_presto_operator.Platform.{Platform}
use steerd_presto_operator.Session.{Op, Session}
use steerd_presto_operator.Cpu.{get_coordinator_pod_phase, get_cpu_usage}
use steerd_presto_operator.Reconcile.{
  Answer, Reconciler, assign_uuid, build_cluster, no_requeue, phase_status, ready_status, on_read,
  reconcile, reconcile_presto, set_base_labels, state_status, then_continue, worker_steps,
}
use steerd_presto_operator.Steps.{
  catalog_config, coordinator_config, headless_service_config, service_config, worker_config,
}
use steerd_presto_operator.Steps.Sets.{coordinator_replicaset, hpa_replicaset, worker_replicaset}
use steerd_presto_operator.Spending.{Counts, budget_after, Quiet, Spends, writes}
use steerd_presto_operator.Spending.Rules.{
  Quiet->>=, Quiet-ask, Quiet-attempt, Quiet-call, Quiet-gets, Quiet-if, Quiet-pure, Spends->>=,
  Spends-Quiet, Spends-if, Spends-later, Spends-pure,
}
use steerd_presto_operator.Spending.Reads.{Quiet-need_short, Quiet-put_status, Quiet-update_status}
use steerd_presto_operator.Spending.Writes.{
  Spends-catalog_config, Spends-coordinator_config, Spends-headless_service_config,
  Spends-service_config, Spends-worker_config,
}
use steerd_presto_operator.Spending.Sets.{Spends-coordinator_replicaset, Spends-worker_replicaset}
use steerd_presto_operator.Spending.Hpa.{Spends-hpa_replicaset}

-- The writes there may be after a step, by how it ends.
abbrev pub step_budget : ℕ → Outcome Bool → ℕ
step_budget before o = budget_after before (λ changed. changed) o

module _ (p : Platform) (count : p.World → ℕ) (law : Counts p count) where
  -- One write at most, in the part and before it.
  abbrev SpendsOnce : Op p Answer → Type 0
  SpendsOnce m = Spends (writes p count) false m (λ _. true)

  SpendsOnce-Quiet : {m : Op p Answer} → Quiet (writes p count) m → SpendsOnce m
  SpendsOnce-Quiet h = Spends-later (Spends-Quiet h)

  SpendsOnce-unless :
      {m : Op p Answer} (changed : Bool)
      → SpendsOnce m
      → Spends (writes p count) changed (if changed then pure no_requeue else m) (λ _. true)
  SpendsOnce-unless true h = Spends-pure (λ _. true) no_requeue
  SpendsOnce-unless false h = h

  SpendsOnce-then_continue :
      {step : Op p Bool} {rest : Op p Answer}
      → Spends (writes p count) false step (λ changed. changed)
      → SpendsOnce rest
      → SpendsOnce (then_continue p step rest)
  unfolding then_continue
  SpendsOnce-then_continue h k = Spends->>= h λ changed. SpendsOnce-unless changed k

  Quiet-get_cpu_usage :
      (is_coordinator : Bool) → Quiet (writes p count) (get_cpu_usage p is_coordinator)
  unfolding get_cpu_usage
  Quiet-get_cpu_usage is_coordinator = Quiet->>= (Quiet-gets _) λ _.
      Quiet->>= (Quiet-need_short p count law _) λ _.
        Quiet->>= (Quiet-attempt (Quiet-call p count _ (law.list_pod_metrics_count _ _)))
          λ _. Quiet-pure _

  Quiet-get_coordinator_pod_phase : Quiet (writes p count) (get_coordinator_pod_phase p)
  unfolding get_coordinator_pod_phase
  Quiet-get_coordinator_pod_phase = Quiet->>= (Quiet-gets _) λ _. Quiet->>= (Quiet-gets _) λ _.
      Quiet->>= (Quiet-attempt (Quiet-call p count _ (law.list_pods_count _ _))) λ _. Quiet-pure _

  Quiet-ready_status :
      (replica_set : ReplicaSet p.Quantity) → Quiet (writes p count) (ready_status p replica_set)
  unfolding ready_status
  Quiet-ready_status replica_set =
      Quiet->>= (Quiet-get_cpu_usage _)
        λ _. Quiet->>= (Quiet-get_cpu_usage _) λ _. Quiet-put_status p count law _

  Quiet-state_status :
      (replica_set : ReplicaSet p.Quantity) (state : String)
      → Quiet (writes p count) (state_status p replica_set state)
  unfolding state_status
  Quiet-state_status replica_set state = Quiet-put_status p count law _

  Quiet-phase_status :
      (replica_set : ReplicaSet p.Quantity) → Quiet (writes p count) (phase_status p replica_set)
  unfolding phase_status
  Quiet-phase_status replica_set = Quiet->>= Quiet-get_coordinator_pod_phase λ phase.
      Quiet->>=
        (Quiet-if (phase == "Pending") (Quiet-state_status _ _) (
          Quiet-if (phase == "Failed") (Quiet-state_status _ _)
            (Quiet-if (phase == "Running") (Quiet-ready_status _) (Quiet-state_status _ _))))
        λ _. Quiet-pure _

  SpendsOnce-worker_steps : SpendsOnce (worker_steps p)
  unfolding worker_steps
  SpendsOnce-worker_steps =
      Spends->>= (Spends-worker_replicaset p count law) λ (changes_made, replica_set).
        SpendsOnce-unless changes_made (
          SpendsOnce-then_continue (Spends-hpa_replicaset p count law _)
            (SpendsOnce-Quiet (Quiet-phase_status _)))

  Quiet-set_base_labels : Quiet (writes p count) (set_base_labels p)
  unfolding set_base_labels
  Quiet-set_base_labels = record { quiet = λ s. omega arith }

  SpendsOnce-build_cluster : SpendsOnce (build_cluster p)
  unfolding build_cluster
  SpendsOnce-build_cluster = Spends->>= (Spends-Quiet Quiet-set_base_labels) λ _.
      SpendsOnce-then_continue (Spends-headless_service_config p count law) (
        SpendsOnce-then_continue (Spends-service_config p count law) (
          SpendsOnce-then_continue (Spends-coordinator_config p count law) (
            SpendsOnce-then_continue (Spends-worker_config p count law) (
              SpendsOnce-then_continue (Spends-catalog_config p count law) (
                SpendsOnce-then_continue (Spends-coordinator_replicaset p count law)
                  SpendsOnce-worker_steps)))))

  SpendsOnce-assign_uuid : SpendsOnce (assign_uuid p)
  unfolding assign_uuid
  SpendsOnce-assign_uuid =
      Spends->>= (Spends-Quiet (Quiet-ask p count p.new_uuid law.new_uuid_count)) λ _.
        Spends->>= (Spends-Quiet (Quiet-update_status p count law _)) λ updated.
          Spends-if updated (Spends-later (Spends-pure (λ _. true) _)) SpendsOnce-build_cluster

  SpendsOnce-reconcile_presto : SpendsOnce (reconcile_presto p)
  unfolding reconcile_presto
  SpendsOnce-reconcile_presto =
      Spends->>= (Spends-Quiet (Quiet-gets _))
        λ _. Spends-if _ SpendsOnce-assign_uuid SpendsOnce-build_cluster

  budget_after-≤ : {A : Type 0} (n : ℕ) (o : Outcome A) → budget_after n (λ _. true) o ≤ 1 + n
  budget_after-≤ n (done a) = omega arith
  budget_after-≤ n (failed e) = omega arith
  budget_after-≤ n panicked = omega arith

  on_read-writes :
      (request : NamespacedName) (read : Result Presto) (r : Reconciler p)
      → count (on_read p request read r).1.world ≤ 1 + count r.world
  on_read-writes request (err e) r = ground arith
  on_read-writes request (ok presto) r =
      let s : Session p = record { world = r.world; presto = presto; base_labels = [] } in
      let a = SpendsOnce-reconcile_presto.spends (count r.world) s (omega arith) in
      let b = budget_after-≤ (count r.world) (reconcile_presto p s).0 in omega (arith, a, b)

  -- For any count of writes that only the calls which create, update or delete a service, a config
  -- map, a replica set or an autoscaler can raise, and by one each: one pass of `Reconcile` raises it
  -- by one at most, however the calls answer and however the pass ends.
  pub reconcile-writes_once :
      (request : NamespacedName) (r : Reconciler p)
      → count (reconcile p request r).1.world ≤ 1 + count r.world
  unfolding reconcile
  reconcile-writes_once request r =
      let a = law.get_presto_count request r.world in
      let b =
        on_read-writes request (p.get_presto request r.world).0
          (record r { world = (p.get_presto request r.world).1 }) in
      omega (arith, a, b)

  -- For any count of writes that only the calls which create, update or delete a service, a config
  -- map, a replica set or an autoscaler can raise, and by one each: each of the eight steps leaves it
  -- if it reports no change, and raises it by one at most if it reports a change, fails or panics.
  pub unchanged_step-writes_nothing :
      (replica_set : ReplicaSet p.Quantity) (s : Session p)
      → (count (headless_service_config p s).1.world
          ≤ step_budget (count s.world) (headless_service_config p s).0)
        × (count (service_config p s).1.world ≤ step_budget (count s.world) (service_config p s).0)
        × (count (coordinator_config p s).1.world
            ≤ step_budget (count s.world) (coordinator_config p s).0)
        × (count (worker_config p s).1.world ≤ step_budget (count s.world) (worker_config p s).0)
        × (count (catalog_config p s).1.world ≤ step_budget (count s.world) (catalog_config p s).0)
        × (count (coordinator_replicaset p s).1.world
            ≤ step_budget (count s.world) (coordinator_replicaset p s).0)
        × (count (worker_replicaset p s).1.world
            ≤ budget_after (count s.world) (λ made. made.0) (worker_replicaset p s).0)
        × (count (hpa_replicaset p replica_set s).1.world
            ≤ step_budget (count s.world) (hpa_replicaset p replica_set s).0)
  unchanged_step-writes_nothing replica_set s = (
    (Spends-headless_service_config p count law).spends (count s.world) s (omega arith),
    (Spends-service_config p count law).spends (count s.world) s (omega arith),
    (Spends-coordinator_config p count law).spends (count s.world) s (omega arith),
    (Spends-worker_config p count law).spends (count s.world) s (omega arith),
    (Spends-catalog_config p count law).spends (count s.world) s (omega arith),
    (Spends-coordinator_replicaset p count law).spends (count s.world) s (omega arith),
    (Spends-worker_replicaset p count law).spends (count s.world) s (omega arith),
    (Spends-hpa_replicaset p count law replica_set).spends (count s.world) s (omega arith),
  )
