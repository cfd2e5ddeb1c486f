-- ===== src/Reconcile/Answers.antt =====
-- What `Reconcile` answers to the work queue.
use steerd_presto_operator.Base.{◌≡◌, refl, Bool, true, false, if◌then◌else◌}
use steerd_presto_operator.Exec.{Outcome, Result, ok, err, pure}
use steerd_presto_operator.Exec.Fallible.{is_not_found}
use steerd_presto_operator.Exec.Ensures.{Ensures, Ensures->>=, Ensures-if, Ensures-pure, Returns}
use steerd_presto_operator.Kube.{NamespacedName, ReplicaSet}
use steerd_presto_operator.Resource.{Presto}
use steerd_presto_operator.Platform.{Platform}
use steerd_presto_operator.Session.{Op}
use steerd_presto_operator.Reconcile.{
  Answer, Reconciler, assign_uuid, build_cluster, no_requeue, on_read, phase_status, reconcile,
  reconcile_presto, then_continue, worker_steps,
}

-- An answer, where there is one, asks for no further request.
abbrev pub IsFinal : Outcome Answer → Type 0
IsFinal o = Returns (λ answer. answer ≡ no_requeue) o

module _ {p : Platform} where
  abbrev Finishes : Op p Answer → Type 0
  Finishes m = Ensures (λ answer. answer ≡ no_requeue) m

  Finishes-pure : Finishes (pure no_requeue)
  Finishes-pure = Ensures-pure _ no_requeue refl

  Finishes-then_continue :
      (step : Op p Bool) {rest : Op p Answer} → Finishes rest → Finishes (then_continue p step rest)
  unfolding then_continue
  Finishes-then_continue step h = Ensures->>= _ _ λ changed. Ensures-if _ changed Finishes-pure h

module _ (p : Platform) where
  Finishes-phase_status :
      (replica_set : ReplicaSet p.Quantity) → Finishes (phase_status p replica_set)
  unfolding phase_status
  Finishes-phase_status replica_set = Ensures->>= _ _ λ _. Ensures->>= _ _ λ _. Finishes-pure

  Finishes-worker_steps : Finishes (worker_steps p)
  unfolding worker_steps
  Finishes-worker_steps = Ensures->>= _ _ λ (changes_made, replica_set).
      Ensures-if _ changes_made Finishes-pure
        (Finishes-then_continue _ (Finishes-phase_status replica_set))

  Finishes-build_cluster : Finishes (build_cluster p)
  unfolding build_cluster
  Finishes-build_cluster = Ensures->>= _ _ λ _. Finishes-then_continue _ (
      Finishes-then_continue _ (
        Finishes-then_continue _ (
          Finishes-then_continue _
            (Finishes-then_continue _ (Finishes-then_continue _ Finishes-worker_steps)))))

  Finishes-reconcile_presto : Finishes (reconcile_presto p)
  unfolding reconcile_presto assign_uuid
  Finishes-reconcile_presto = Ensures->>= _ _ λ _.
      Ensures-if _ _
        (Ensures->>= _ _
          λ _. Ensures->>= _ _ λ updated. Ensures-if _ updated Finishes-pure Finishes-build_cluster)
        Finishes-build_cluster

  IsFinal-if :
      (b : Bool) (x y : Outcome Answer × Reconciler p)
      → IsFinal x.0
      → IsFinal y.0
      → IsFinal (let r : Outcome Answer × Reconciler p = if b then x else y in r.0)
  IsFinal-if true x y h k = h
  IsFinal-if false x y h k = k

  on_read-IsFinal :
      (request : NamespacedName) (read : Result Presto) (r : Reconciler p)
      → IsFinal (on_read p request read r).0
  on_read-IsFinal request (err e) r = IsFinal-if (is_not_found e) _ _ refl tt
  on_read-IsFinal request (ok presto) r = (Finishes-reconcile_presto).ensures _

  -- Whatever the request, the registry and the cluster: where `Reconcile` returns an answer, the
  -- answer asks for no further request, neither at once nor after a time.
  pub reconcile-IsFinal :
      (request : NamespacedName) (r : Reconciler p) → IsFinal (reconcile p request r).0
  unfolding reconcile
  reconcile-IsFinal request r = on_read-IsFinal request _ _
