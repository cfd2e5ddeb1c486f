-- ===== src/Calls/Sets.antt =====
-- The replica sets that the two steps for replica sets send to be created.
use steerd_presto_operator.Base.{
  String, ◌<>◌, ◌||◌, ◌≡◌, refl, not, Bool, true, false, some, List, [], ◌∷◌, if◌then◌else◌,
}
use steerd_presto_operator.Base.Int.{ℤ, pos, ◌==ℤ◌}
use steerd_presto_operator.Exec.{Result, ok, err, pure, lift, gets, ◌>>=◌, ◌>>◌}
use steerd_presto_operator.Exec.Fallible.{is_not_found, ◌>>=◌ as ◌>>=ᴿ◌}
use steerd_presto_operator.Kube.{ReplicaSet, StringMap}
use steerd_presto_operator.Kube.Pod.{PodSpec}
use steerd_presto_operator.Platform.{Platform}
use steerd_presto_operator.Names.{
  get_coordinator_pod_labels, get_coordinator_replicaset, get_worker_pod_labels,
  get_worker_replica_set,
}
use steerd_presto_operator.Pods.Build.{
  create_replica_set_for_coordinator, create_replica_set_for_worker,
  get_presto_coordinator_pod_spec, get_presto_worker_pod, replica_set_of,
}
use steerd_presto_operator.Resource.{Presto}
use steerd_presto_operator.ReplicaSets.{
  create_coordinator_set, create_update_replica_set_for_coordinator,
  create_update_replica_set_for_worker, create_worker_set, get_replica_set, replica_set_listed,
  is_enabled, scale_to, scale_worker_set, set_replicas,
}
use steerd_presto_operator.Session.{Op, Session, call}
use steerd_presto_operator.Steps.Sets.{
  coordinator_replicaset, worker_replicaset, worker_set_created, worker_set_updated,
}
use steerd_presto_operator.Status.{no_action}
use steerd_presto_operator.Steps.{config_created, put_then_report}
use steerd_presto_operator.Calls.{Sent, recorded, sent}
use steerd_presto_operator.Calls.Rules.{
  Keeps, Keeps->>=, Keeps-deref, Keeps-gets, Keeps-pure, Keeps-raise, Moves-attempt, Moves-state,
  Runs-Option, Runs-Result, Ends-state, Runs-if,
}
use steerd_presto_operator.Calls.Kept.{
  Keeps-call, Keeps-config_created, Keeps-eventf, Keeps-need_short, Keeps-put_status,
  Keeps-put_then_report,
}

-- The pods of every replica set carry these labels, and the replica set counts the pods that do.
abbrev pub LabelledBy : {Quantity : Type 0} → StringMap → List (ReplicaSet Quantity) → Type 0
LabelledBy labels [] = Unit {0}
LabelledBy labels (o ∷ sets) =
    (o.template_meta.labels ≡ labels) × (o.match_labels ≡ labels) × LabelledBy labels sets

module _ (p : Platform) where
  abbrev pub Labelled : StringMap → Sent p.Quantity → Type 0
  Labelled labels l = LabelledBy labels l.replica_sets

  module _ {labels : StringMap} where
    Keeps-create :
        (o : ReplicaSet p.Quantity)
        → o.template_meta.labels ≡ labels
        → o.match_labels ≡ labels
        → Keeps (sent p) (Labelled labels) (call (recorded p) ((recorded p).replica_sets.create o))
    unfolding call
    Keeps-create o e h = Moves-state _ _ λ s i. (e, h, i)

    Keeps-listed :
        (listed : Result (List (ReplicaSet p.Quantity)))
        → Keeps (sent p) (Labelled labels) (replica_set_listed (recorded p) listed)
    unfolding replica_set_listed
    Keeps-listed (ok []) = Keeps-raise _ _
    Keeps-listed (ok (replica_set ∷ items)) = Keeps-pure _ replica_set
    Keeps-listed (err e) = Runs-if _ (is_not_found e) (Keeps-raise _ _) (Keeps-raise _ e)

    Keeps-get_replica_set :
        (get_label : String → String × String)
        → Keeps (sent p) (Labelled labels) (get_replica_set (recorded p) get_label)
    unfolding get_replica_set
    Keeps-get_replica_set get_label = Keeps->>= _ (Keeps-gets _ _) λ presto.
        Keeps->>= _ (Moves-attempt _ (Keeps-call p (p.replica_sets.list _ _)))
          λ listed. Keeps-listed listed

    -- A replica set built from the labels is sent only if it was built.
    Keeps-built :
        {A : Type 0} (presto : Presto) (name : String) (count : ℤ)
        (pod : Result (PodSpec p.Quantity)) (rest : ReplicaSet p.Quantity → Op (recorded p) A)
        → ((o : ReplicaSet p.Quantity)
            → o.template_meta.labels ≡ labels
            → o.match_labels ≡ labels
            → Keeps (sent p) (Labelled labels) (rest o))
        → Keeps (sent p) (Labelled labels) (
            lift (pod >>=ᴿ λ pod_spec. ok (replica_set_of p presto name labels count pod_spec))
            >>= rest)
    unfolding ◌>>=◌ lift replica_set_of
    Keeps-built presto name count (ok pod_spec) rest k = record {
      runs = λ s i. (k _ refl refl).runs s i;
    }
    Keeps-built presto name count (err e) rest k = record { runs = λ s i. i }

    Keeps-create_coordinator_set :
        Keeps (sent p) (Labelled labels) (create_coordinator_set (recorded p) labels)
    unfolding create_coordinator_set create_replica_set_for_coordinator
    Keeps-create_coordinator_set = Keeps->>= _ (Keeps-gets _ _) λ presto.
        Keeps-built presto (get_coordinator_replicaset presto.status.uuid) (pos 1)
          (get_presto_coordinator_pod_spec (recorded p) presto) _
          λ o e h.
            Keeps->>= _ (Keeps-need_short p presto.status.uuid)
              λ _. Keeps->>= _ (Keeps-create o e h) λ created. Keeps-pure _ (created, true)

    Keeps-create_worker_set :
        Keeps (sent p) (Labelled labels) (create_worker_set (recorded p) labels)
    unfolding create_worker_set create_replica_set_for_worker
    Keeps-create_worker_set = Keeps->>= _ (Keeps-gets _ _) λ presto.
        Keeps->>= _ (Keeps-deref _ presto.spec.worker.count) λ count.
          Keeps-built presto (get_worker_replica_set presto.status.uuid) count
            (get_presto_worker_pod (recorded p) presto) _
            λ o e h.
              Keeps->>= _ (Keeps-need_short p presto.status.uuid)
                λ _. Keeps->>= _ (Keeps-create o e h) λ created. Keeps-pure _ (created, true, false)

    Keeps-scale_worker_set :
        (replica_set : ReplicaSet p.Quantity)
        → Keeps (sent p) (Labelled labels) (scale_worker_set (recorded p) replica_set)
    unfolding scale_worker_set scale_to set_replicas
    Keeps-scale_worker_set replica_set = Keeps->>= _ (Keeps-gets _ _) λ presto.
        Runs-if _ (not (is_enabled presto.spec.worker.autoscaling.enabled))
          (Runs-Option _ presto.spec.worker.count (Keeps-pure _ _) λ count.
            Keeps->>= _ (Keeps-deref _ replica_set.replicas) λ replicas.
              Runs-if _ (not (count ==ℤ replicas))
                (Keeps->>= _ (Keeps-call p (p.replica_sets.update _)) λ updated. Keeps-pure _ _)
                (Keeps-pure _ _))
          (Keeps-pure _ _)

    Keeps-coordinator :
        Keeps
          (sent p)
          (Labelled labels)
          (create_update_replica_set_for_coordinator (recorded p) labels)
    unfolding create_update_replica_set_for_coordinator
    Keeps-coordinator = Keeps->>= _ (Moves-attempt _ (Keeps-get_replica_set _)) λ found.
        Runs-Result _ found
          (λ e. Runs-if _ (is_not_found e) Keeps-create_coordinator_set (Keeps-raise _ e))
          λ replica_set. Keeps-pure _ (replica_set, false)

    Keeps-worker :
        Keeps (sent p) (Labelled labels) (create_update_replica_set_for_worker (recorded p) labels)
    unfolding create_update_replica_set_for_worker
    Keeps-worker = Keeps->>= _ (Moves-attempt _ (Keeps-get_replica_set _)) λ found.
        Runs-Result _ found
          (λ e. Runs-if _ (is_not_found e) Keeps-create_worker_set (Keeps-raise _ e))
          λ replica_set. Keeps-scale_worker_set replica_set

    Keeps-coordinator_made :
        (uuid : String) (made : Result (ReplicaSet p.Quantity × Bool))
        → Keeps (sent p) (Labelled labels) (
            let cr = get_coordinator_replicaset uuid in
            elim made [
              | err e ↦
                  put_then_report
                    (recorded p)
                    "Failed to create coordinator replicaset "
                    "Failed to create/update coordinator replicaset "
                    e
              | ok (_, true) ↦
                  config_created
                    (recorded p)
                    (record no_action { coordinator_replica_set_name = some cr })
                    ("Created Coordinator Replicaset. " <> cr)
              | ok (_, false) ↦ pure false
            ])
    Keeps-coordinator_made uuid (err e) = Keeps-put_then_report p _ _ e
    Keeps-coordinator_made uuid (ok (_, true)) = Keeps-config_created p _ _
    Keeps-coordinator_made uuid (ok (_, false)) = Keeps-pure _ false

    Keeps-worker_made :
        (made : Result (ReplicaSet p.Quantity × Bool × Bool))
        → Keeps (sent p) {A = Bool × ReplicaSet p.Quantity} (Labelled labels) (elim made [
          | err e ↦
              put_then_report
                (recorded p)
                "Failed to create worker replicaset "
                "Failed to create worker replicaset "
                e
          | ok (replica_set, created, updated) ↦
              (if updated then worker_set_updated (recorded p) replica_set else pure tt)
              >> ((if created then worker_set_created (recorded p) replica_set else pure tt)
                  >> pure (updated || created, replica_set))
        ])
    unfolding worker_set_updated worker_set_created
    Keeps-worker_made (err e) = Keeps-put_then_report p _ _ e
    Keeps-worker_made (ok (replica_set, created, updated)) =
        Keeps->>= _
          (Runs-if _ updated (Keeps->>= _ (Keeps-eventf p _ _ _) λ _. Keeps-put_status p _)
            (Keeps-pure _ tt))
          λ _.
            Keeps->>= _
              (Runs-if _ created (Keeps->>= _ (Keeps-put_status p _) λ _. Keeps-eventf p _ _ _)
                (Keeps-pure _ tt))
              λ _. Keeps-pure _ _

  after_Keeps :
      {A : Type 0} (labels : StringMap) {m : Op (recorded p) A}
      → Keeps (sent p) (Labelled labels) m
      → (s : Session (recorded p)) → (sent p s).replica_sets ≡ []
      → Labelled labels (sent p (m s).1)
  after_Keeps labels {m} k s e = Ends-state (Labelled labels) (m s).0 (k.runs s (rw e tt))

  -- Every replica set that the step sends is labelled from the base labels.
  pub Labelled-coordinator :
      (s : Session (recorded p))
      → (sent p s).replica_sets ≡ []
      → LabelledBy
          (get_coordinator_pod_labels s.base_labels s.presto.status.uuid)
          (sent p (coordinator_replicaset (recorded p) s).1).replica_sets
  unfolding coordinator_replicaset gets ◌>>=◌
  Labelled-coordinator s e =
      let labels = get_coordinator_pod_labels s.base_labels s.presto.status.uuid in
      after_Keeps labels
        (Keeps->>= (sent p) (Moves-attempt (sent p) (Keeps-coordinator {labels = labels}))
          λ made. Keeps-coordinator_made s.presto.status.uuid made)
        s e

  pub Labelled-worker :
      (s : Session (recorded p))
      → (sent p s).replica_sets ≡ []
      → LabelledBy
          (get_worker_pod_labels s.base_labels s.presto.status.uuid)
          (sent p (worker_replicaset (recorded p) s).1).replica_sets
  unfolding worker_replicaset gets ◌>>=◌
  Labelled-worker s e =
      let labels = get_worker_pod_labels s.base_labels s.presto.status.uuid in
      after_Keeps labels
        (Keeps->>= (sent p) (Moves-attempt (sent p) (Keeps-worker {labels = labels}))
          λ made. Keeps-worker_made made)
        s e
