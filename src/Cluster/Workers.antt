-- ===== src/Cluster/Workers.antt =====
-- The step for the workers' replica set: it builds the replica set if it is missing, and scales
-- nothing that has the wanted number.
use steerd_presto_operator.Base.{
  ◌∙◌, ◌≡◌, refl, Bool, true, false, ◌&&◌, Option, none, some, arith, eq_iff,
}
use steerd_presto_operator.Base.Dict.{insert, insert_all, lookup}
use steerd_presto_operator.Exec.{done}
use steerd_presto_operator.Kube.{ReplicaSet, StringMap}
use steerd_presto_operator.Resource.{Presto}
use steerd_presto_operator.Platform.{Platform}
use steerd_presto_operator.Pods.Build.{create_replica_set_for_worker}
use steerd_presto_operator.ReplicaSets.{
  create_update_replica_set_for_worker, create_worker_set, scale_worker_set,
}
use steerd_presto_operator.ReplicaSets.Scaling.{
  is_settled, is_settled-wanted, scale_worker_set-settled,
}
use steerd_presto_operator.Steps.Sets.{worker_replicaset, worker_set_created}
use steerd_presto_operator.Cluster.{Keeper, Objects, SameMeta, any}
use steerd_presto_operator.Names.{get_worker_pod_label, get_worker_pod_labels}
use steerd_presto_operator.Cluster.Runs.{
  Makes, Runs, Runs->>=, Runs-attempt, Runs-attempt-failed, Runs-deref, Runs-labels, Runs-lift,
  Runs-need_short, Runs-presto, Runs-pure,
}
use steerd_presto_operator.Cluster.Makes.{
  Makes->>=, Makes->>=_Runs, Makes-attempt, Makes-create, Makes-presto, Makes-labels, Makes-pure,
}
use steerd_presto_operator.Cluster.Reports.{Runs-eventf, Runs-put_status}
use steerd_presto_operator.Cluster.Settle.{mark}
use steerd_presto_operator.Cluster.Progress.{
  Sound, Valid, is_coordinator_set, is_given, is_worker_set, Built, labels,
}
use steerd_presto_operator.Cluster.Found.{keep_first, keep_none, any-found, any-same}
use steerd_presto_operator.Cluster.ConfigMaps.{is_ok-ok}
use steerd_presto_operator.Cluster.Sets.{
  Runs-get_replica_set, Runs-get_replica_set-failed, Sent, Sent-worker, Sound-with_set,
  is_not_found-new_not_found, Sent-is_free, with_set,
}

module _ {A : Type 0} where
  pub is_given-some : (r : Option A) → is_given r ≡ true → (a : A) × (r ≡ some a)
  is_given-some none h = cc
  is_given-some (some a) h = (a, refl)

module _ (p : Platform) (presto : Presto) (view : p.World → Objects p.Quantity)
    (keeper : Keeper p presto view) (o : Objects p.Quantity) where
  Runs-scale_worker_set :
      (y : ReplicaSet p.Quantity)
      → is_settled presto y ≡ true
      → Runs p presto view
          (labels presto)
          o
          (scale_worker_set p y)
          (done (y, false, false))
          (labels presto)
          o
  Runs-scale_worker_set y settled = record {
    runs = λ s h. (s, scale_worker_set-settled p y s (rw h.same_presto settled), h);
  }

  workers_found :
      (l : StringMap)
      → any (λ x. is_worker_set presto x.meta) o.replica_sets ≡ true
      → Sound presto o
      → (y : ReplicaSet p.Quantity) × Runs p presto view
          (labels presto)
          o
          (create_update_replica_set_for_worker p l)
          (done (y, false, false))
          (labels presto)
          o
        × (is_given y.replicas ≡ true)
  unfolding create_update_replica_set_for_worker
  workers_found l h sound =
      let (y, rest, e, good) =
        keep_first (λ x. is_worker_set presto x.meta)
          (λ x. is_settled presto x && is_given x.replicas) o.replica_sets sound.workers_settled
          h in
      (
        y,
        Runs->>= _
            (Runs-attempt (Runs-get_replica_set p presto view keeper o get_worker_pod_label e))
            (Runs-scale_worker_set y (ground (arith, good))),
        ground (arith, good),
      )

  -- The workers' replica set is there, with the wanted number of workers.
  pub worker_set-kept :
      any (λ x. is_worker_set presto x.meta) o.replica_sets ≡ true
      → Sound presto o
      → (y : ReplicaSet p.Quantity) × Runs p presto view
          (labels presto)
          o
          (worker_replicaset p)
          (done (false, y))
          (labels presto)
          o
        × (is_given y.replicas ≡ true)
  unfolding worker_replicaset
  worker_set-kept h sound =
      let (y, runs, given) =
        workers_found (get_worker_pod_labels (labels presto) presto.status.uuid) h sound in
      (
        y,
        Runs-presto _ (
            Runs-labels _ (
              Runs->>= _ (Runs-attempt runs)
                (Runs->>= _ (Runs-pure tt) (Runs->>= _ (Runs-pure tt) (Runs-pure (false, y)))))),
        given,
      )

  is_worker_set-Sent :
      (x y : ReplicaSet p.Quantity)
      → Sent presto (get_worker_pod_labels (labels presto) presto.status.uuid) x
      → SameMeta x.meta y.meta
      → (is_worker_set presto y.meta ≡ true) × (is_coordinator_set presto y.meta ≡ false)
  unfolding get_worker_pod_labels insert_all insert lookup
  is_worker_set-Sent x y sent same =
      rw (same.same_namespace, same.same_labels, sent.sent_namespace, sent.sent_labels)
        (
          ground (
            arith,
            eq_iff presto.namespace presto.namespace,
            eq_iff presto.status.uuid presto.status.uuid,
          ),
          ground arith,
        )

  workers_grown :
      (y : ReplicaSet p.Quantity)
      → (is_worker_set presto y.meta ≡ true) × (is_coordinator_set presto y.meta ≡ false)
      → (is_settled presto y && is_given y.replicas) ≡ true
      → Sound presto o
      → Built presto 6 o true (with_set presto o y)
  unfolding mark
  workers_grown y (found, other) good sound = (
    refl,
    Sound-with_set presto o y (rw good (ground arith)) sound,
    rw
        (
          any-found (λ x. is_worker_set presto x.meta) o.replica_sets y found,
          any-same (λ x. is_coordinator_set presto x.meta) o.replica_sets y other,
        )
        refl,
  )

  -- The replica set was missing, and is there now.
  abbrev MadeWorkers : ReplicaSet p.Quantity × Bool × Bool → Objects p.Quantity → Type 0
  MadeWorkers (y, created, updated) o' =
      (created ≡ true) × (updated ≡ false) × (is_given y.replicas ≡ true) × Built presto 6 o true o'

  module _ (valid : Valid presto p) where
    workers_made :
        any (λ x. is_worker_set presto x.meta) o.replica_sets ≡ false
        → Sound presto o
        → Makes p presto view
            (labels presto)
            o
            (create_update_replica_set_for_worker p
              (get_worker_pod_labels (labels presto) presto.status.uuid))
            (labels presto)
            MadeWorkers
    unfolding create_update_replica_set_for_worker create_worker_set
    workers_made h sound =
        let e = keep_none (λ x. is_worker_set presto x.meta) o.replica_sets h in
        let (n, wanted) = is_given-some presto.spec.worker.count valid.has_count in
        let (x, e') =
          is_ok-ok
            (create_replica_set_for_worker p presto
              (get_worker_pod_labels (labels presto) presto.status.uuid) n)
            (valid.workers_built n) in
        let (sent, count) = Sent-worker p presto _ n e' in
        Makes->>=_Runs _
          (Runs-attempt-failed
            (Runs-get_replica_set-failed p presto view keeper o get_worker_pod_label e))
          (rw (is_not_found-new_not_found p "replicasets") (
            Makes-presto _ (
              Makes->>=_Runs _ (Runs-deref _ wanted) (
                Makes->>=_Runs _ (Runs-lift _ e') (
                  Makes->>=_Runs _ (Runs-need_short _ valid.is_short) (
                    Makes->>= _
                      (Makes-create keeper.keeps_replica_sets x
                        (Sent-is_free p presto view keeper o x sent))
                      λ y o' (same, like, e'').
                        let given : is_given y.replicas ≡ true = rw (like, count) refl in
                        let settled = is_settled-wanted presto y wanted (like ∙ count) in
                        rw e'' (
                          Makes-pure (y, true, false)
                            (
                              refl,
                              refl,
                              given,
                              workers_grown y (is_worker_set-Sent x y sent same)
                                  (rw (settled, given) refl) sound,
                            ))))))))

    -- The workers' replica set is missing, and is built.
    pub worker_set-Built :
        any (λ x. is_worker_set presto x.meta) o.replica_sets ≡ false
        → Sound presto o
        → Makes p presto view
            (labels presto)
            o
            (worker_replicaset p)
            (labels presto)
            (λ r o'. Built presto 6 o r.0 o')
    unfolding worker_replicaset worker_set_created
    worker_set-Built h sound = Makes-presto _ (
        Makes-labels _ (
          Makes->>= _ (Makes-attempt (workers_made h sound))
            λ r o' ((y, created, updated), e, (is_created, is_updated, given, built)).
              rw (e, is_created, is_updated)
                (Makes->>=_Runs _ (Runs-pure tt) (
                  Makes->>=_Runs _
                    (Runs->>= _ (Runs-put_status keeper _ given) (Runs-eventf keeper _ _ _))
                    (Makes-pure (true, y) built)))))
