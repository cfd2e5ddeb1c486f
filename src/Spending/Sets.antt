-- ===== src/Spending/Sets.antt =====
-- The parts of `Reconcile` that may write: the replica sets.
use steerd_presto_operator.Base.{String, ℕ, Bool, false, ◌||◌, List, [], ◌∷◌}
use steerd_presto_operator.Base.Int.{ℤ}
use steerd_presto_operator.Exec.{Result, ok, err}
use steerd_presto_operator.Kube.{StringMap, ReplicaSet}
use steerd_presto_operator.Platform.{Platform}
use steerd_presto_operator.ReplicaSets.{
  create_coordinator_set, create_update_replica_set_for_coordinator,
  create_update_replica_set_for_worker, create_worker_set, get_replica_set, replica_set_listed,
  scale_to, scale_worker_set, set_replicas,
}
use steerd_presto_operator.Steps.Sets.{
  coordinator_replicaset, worker_replicaset, worker_set_created, worker_set_updated,
}
use steerd_presto_operator.Spending.{Counts, Quiet, Spends, writes}
use steerd_presto_operator.Spending.Rules.{
  Quiet->>=, Quiet-attempt, Quiet-call, Quiet-deref, Quiet-gets, Quiet-if, Quiet-lift, Quiet-pure,
  Quiet-raise, Spends->>=, Spends-Option, Spends-Quiet, Spends-attempt, Spends-call, Spends-changed,
  Spends-found, Spends-if, Spends-made, Spends-pure, Spends-raise,
}
use steerd_presto_operator.Spending.Reads.{
  Quiet-eventf, Quiet-need_short, Quiet-put_status, Spends-put_then_report,
}
use steerd_presto_operator.Spending.Writes.{Spends-config_created}

-- `created` or `updated`
abbrev set_written : {A : Type 0} → A × Bool × Bool → Bool
set_written (replica_set, created, updated) = updated || created

abbrev set_created : {A : Type 0} → A × Bool → Bool
set_created (replica_set, created) = created

module _ (p : Platform) (count : p.World → ℕ) (law : Counts p count) where
  Quiet-replica_set_listed :
      (listed : Result (List (ReplicaSet p.Quantity)))
      → Quiet (writes p count) (replica_set_listed p listed)
  unfolding replica_set_listed
  Quiet-replica_set_listed (ok []) = Quiet-raise _
  Quiet-replica_set_listed (ok (replica_set ∷ items)) = Quiet-pure _
  Quiet-replica_set_listed (err e) = Quiet-if _ (Quiet-raise _) (Quiet-raise _)

  Quiet-get_replica_set :
      (get_label : String → String × String) → Quiet (writes p count) (get_replica_set p get_label)
  unfolding get_replica_set
  Quiet-get_replica_set get_label = Quiet->>= (Quiet-gets _) λ _.
      Quiet->>= (Quiet-attempt (Quiet-call p count _ (law.replica_sets_count.list_count _ _)))
        λ listed. Quiet-replica_set_listed listed

  Spends-create_worker_set :
      (lbls : StringMap) → Spends (writes p count) false (create_worker_set p lbls) set_written
  unfolding create_worker_set
  Spends-create_worker_set lbls = Spends->>= (Spends-Quiet (Quiet-gets _)) λ _.
      Spends->>= (Spends-Quiet (Quiet-deref _)) λ _. Spends->>= (Spends-Quiet (Quiet-lift _)) λ _.
        Spends->>= (Spends-Quiet (Quiet-need_short p count law _)) λ _.
          Spends->>= (Spends-call p count _ (law.replica_sets_count.create_count _))
            λ _. Spends-pure set_written _

  Spends-scale_to :
      (replica_set : ReplicaSet p.Quantity) (n : ℤ)
      → Spends (writes p count) false (scale_to p replica_set n) set_written
  unfolding scale_to set_replicas
  Spends-scale_to replica_set n = Spends->>= (Spends-Quiet (Quiet-deref _)) λ _.
      Spends-if _
        (Spends->>= (Spends-call p count _ (law.replica_sets_count.update_count _))
          λ _. Spends-pure set_written _)
        (Spends-pure set_written _)

  Spends-scale_worker_set :
      (replica_set : ReplicaSet p.Quantity)
      → Spends (writes p count) false (scale_worker_set p replica_set) set_written
  unfolding scale_worker_set
  Spends-scale_worker_set replica_set = Spends->>= (Spends-Quiet (Quiet-gets _)) λ presto.
      Spends-if _
        (Spends-Option presto.spec.worker.count (Spends-pure set_written _)
          λ n. Spends-scale_to _ n)
        (Spends-pure set_written _)

  Spends-worker_set :
      (lbls : StringMap)
      → Spends (writes p count) false (create_update_replica_set_for_worker p lbls) set_written
  unfolding create_update_replica_set_for_worker
  Spends-worker_set lbls =
      Spends->>= (Spends-Quiet (Quiet-attempt (Quiet-get_replica_set _))) λ found.
        Spends-found found (λ e. Spends-if _ (Spends-create_worker_set _) (Spends-raise e))
          λ replica_set. Spends-scale_worker_set replica_set

  Spends-create_coordinator_set :
      (lbls : StringMap) → Spends (writes p count) false (create_coordinator_set p lbls) set_created
  unfolding create_coordinator_set
  Spends-create_coordinator_set lbls = Spends->>= (Spends-Quiet (Quiet-gets _)) λ _.
      Spends->>= (Spends-Quiet (Quiet-lift _)) λ _.
        Spends->>= (Spends-Quiet (Quiet-need_short p count law _)) λ _.
          Spends->>= (Spends-call p count _ (law.replica_sets_count.create_count _))
            λ _. Spends-pure set_created _

  Spends-coordinator_set :
      (lbls : StringMap)
      → Spends (writes p count) false (create_update_replica_set_for_coordinator p lbls) set_created
  unfolding create_update_replica_set_for_coordinator
  Spends-coordinator_set lbls =
      Spends->>= (Spends-Quiet (Quiet-attempt (Quiet-get_replica_set _))) λ found.
        Spends-found found (λ e. Spends-if _ (Spends-create_coordinator_set _) (Spends-raise e))
          λ _. Spends-pure set_created _

  pub Spends-coordinator_replicaset :
      Spends (writes p count) false (coordinator_replicaset p) (λ changed. changed)
  unfolding coordinator_replicaset
  Spends-coordinator_replicaset = Spends->>= (Spends-Quiet (Quiet-gets _)) λ _.
      Spends->>= (Spends-Quiet (Quiet-gets _)) λ _.
        Spends->>= (Spends-attempt (Spends-coordinator_set _)) λ made.
          Spends-made made (λ e. Spends-put_then_report p count law _ _ e)
            λ (_, created).
              Spends-changed created (Spends-config_created p count law _ _)
                (Spends-pure (λ changed. changed) false)

  Quiet-worker_set_updated :
      (replica_set : ReplicaSet p.Quantity)
      → Quiet (writes p count) (worker_set_updated p replica_set)
  unfolding worker_set_updated
  Quiet-worker_set_updated replica_set =
      Quiet->>= (Quiet-eventf p count law _ _ _) λ _. Quiet-put_status p count law _

  Quiet-worker_set_created :
      (replica_set : ReplicaSet p.Quantity)
      → Quiet (writes p count) (worker_set_created p replica_set)
  unfolding worker_set_created
  Quiet-worker_set_created replica_set =
      Quiet->>= (Quiet-put_status p count law _) λ _. Quiet-eventf p count law _ _ _

  pub Spends-worker_replicaset :
      Spends (writes p count) false (worker_replicaset p) (λ (changed, replica_set). changed)
  unfolding worker_replicaset
  Spends-worker_replicaset = Spends->>= (Spends-Quiet (Quiet-gets _)) λ _.
      Spends->>= (Spends-Quiet (Quiet-gets _)) λ _.
        Spends->>= (Spends-attempt (Spends-worker_set _)) λ made.
          Spends-made made (λ e. Spends-put_then_report p count law _ _ e)
            λ (replica_set, created, updated).
              Spends->>=
                (Spends-Quiet (Quiet-if updated (Quiet-worker_set_updated _) (Quiet-pure _)))
                λ _.
                  Spends->>=
                    (Spends-Quiet (Quiet-if created (Quiet-worker_set_created _) (Quiet-pure _)))
                    λ _.
                      Spends-pure (λ (changed, replica_set). changed)
                        (updated || created, replica_set)
