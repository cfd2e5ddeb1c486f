-- ===== src/Cluster/Coordinator.antt =====
-- The step for the coordinator's replica set: it builds the replica set if it is missing.
use steerd_presto_operator.Base.{◌≡◌, refl, true, false, some, arith, eq_iff}
use steerd_presto_operator.Base.Dict.{insert, insert_all, lookup}
use steerd_presto_operator.Exec.{done, ok}
use steerd_presto_operator.Kube.{ReplicaSet, StringMap}
use steerd_presto_operator.Resource.{Presto}
use steerd_presto_operator.Platform.{Platform}
use steerd_presto_operator.Status.{no_action}
use steerd_presto_operator.Pods.Build.{create_replica_set_for_coordinator, replica_set_of}
use steerd_presto_operator.ReplicaSets.{
  create_coordinator_set, create_update_replica_set_for_coordinator,
}
use steerd_presto_operator.Steps.Sets.{coordinator_replicaset}
use steerd_presto_operator.Cluster.{Keeper, Objects, SameMeta, any}
use steerd_presto_operator.Names.{get_coordinator_pod_label, get_coordinator_pod_labels}
use steerd_presto_operator.Cluster.Runs.{
  Makes, Runs, Runs->>=, Runs-attempt, Runs-attempt-failed, Runs-labels, Runs-lift, Runs-need_short,
  Runs-presto, Runs-pure,
}
use steerd_presto_operator.Cluster.Makes.{
  Makes->>=, Makes->>=_Runs, Makes-attempt, Makes-create, Makes-presto, Makes-labels, Makes-pure,
}
use steerd_presto_operator.Cluster.Settle.{mark}
use steerd_presto_operator.Cluster.Progress.{
  Sound, Valid, is_coordinator_set, is_worker_set, Built, labels,
}
use steerd_presto_operator.Cluster.Found.{keep_none, keep_some, any-found, any-same}
use steerd_presto_operator.Cluster.ConfigMaps.{is_ok-ok}
use steerd_presto_operator.Cluster.Reports.{Makes-config_created}
use steerd_presto_operator.Cluster.Sets.{
  Sent, is_not_found-new_not_found, with_set, Sound-with_set, Runs-get_replica_set,
  Runs-get_replica_set-failed, Sent-is_free,
}

Sent-coordinator :
    (p : Platform) (presto : Presto) (l : StringMap) {replica_set : ReplicaSet p.Quantity}
    → create_replica_set_for_coordinator p presto l ≡ ok replica_set
    → Sent presto l replica_set
unfolding create_replica_set_for_coordinator replica_set_of
Sent-coordinator p presto l h = record {
  sent_namespace = ground (arith, h);
  sent_labels = ground (arith, h);
  sent_name = ground (arith, h);
}

module _ (p : Platform) (presto : Presto) (view : p.World → Objects p.Quantity)
    (keeper : Keeper p presto view) (o : Objects p.Quantity) where
  coordinator_found :
      (l : StringMap)
      → any (λ x. is_coordinator_set presto x.meta) o.replica_sets ≡ true
      → (y : ReplicaSet p.Quantity) × Runs p presto view
          (labels presto)
          o
          (create_update_replica_set_for_coordinator p l)
          (done (y, false))
          (labels presto)
          o
  unfolding create_update_replica_set_for_coordinator
  coordinator_found l h =
      let (y, rest, e) = keep_some (λ x. is_coordinator_set presto x.meta) o.replica_sets h in
      (
        y,
        Runs->>= _
            (Runs-attempt (Runs-get_replica_set p presto view keeper o get_coordinator_pod_label e))
            (Runs-pure _),
      )

  -- The coordinator's replica set is there.
  pub coordinator_set-kept :
      any (λ x. is_coordinator_set presto x.meta) o.replica_sets ≡ true
      → Runs p presto view
          (labels presto)
          o
          (coordinator_replicaset p)
          (done false)
          (labels presto)
          o
  unfolding coordinator_replicaset
  coordinator_set-kept h =
      let (y, runs) =
        coordinator_found (get_coordinator_pod_labels (labels presto) presto.status.uuid) h in
      Runs-presto _ (Runs-labels _ (Runs->>= _ (Runs-attempt runs) (Runs-pure false)))

  is_coordinator_set-Sent :
      (x y : ReplicaSet p.Quantity)
      → Sent presto (get_coordinator_pod_labels (labels presto) presto.status.uuid) x
      → SameMeta x.meta y.meta
      → (is_coordinator_set presto y.meta ≡ true) × (is_worker_set presto y.meta ≡ false)
  unfolding get_coordinator_pod_labels insert_all insert lookup
  is_coordinator_set-Sent x y sent same =
      rw (same.same_namespace, same.same_labels, sent.sent_namespace, sent.sent_labels)
        (
          ground (
            arith,
            eq_iff presto.namespace presto.namespace,
            eq_iff presto.status.uuid presto.status.uuid,
          ),
          ground arith,
        )

  coordinator_grown :
      (y : ReplicaSet p.Quantity)
      → (is_coordinator_set presto y.meta ≡ true) × (is_worker_set presto y.meta ≡ false)
      → Sound presto o
      → Built presto 5 o true (with_set presto o y)
  unfolding mark
  coordinator_grown y (found, other) sound = (
    refl,
    Sound-with_set presto o y (rw other (ground arith)) sound,
    rw
        (
          any-found (λ x. is_coordinator_set presto x.meta) o.replica_sets y found,
          any-same (λ x. is_worker_set presto x.meta) o.replica_sets y other,
        )
        refl,
  )

  module _ (valid : Valid presto p) where
    coordinator_made :
        any (λ x. is_coordinator_set presto x.meta) o.replica_sets ≡ false
        → Sound presto o
        → Makes p presto view
            (labels presto)
            o
            (create_update_replica_set_for_coordinator p
              (get_coordinator_pod_labels (labels presto) presto.status.uuid))
            (labels presto)
            (λ r o'. Built presto 5 o r.1 o')
    unfolding create_update_replica_set_for_coordinator create_coordinator_set
    coordinator_made h sound =
        let e = keep_none (λ x. is_coordinator_set presto x.meta) o.replica_sets h in
        let (x, e') =
          is_ok-ok
            (create_replica_set_for_coordinator p presto
              (get_coordinator_pod_labels (labels presto) presto.status.uuid))
            valid.coordinator_built in
        let sent = Sent-coordinator p presto _ e' in
        Makes->>=_Runs _
          (Runs-attempt-failed
            (Runs-get_replica_set-failed p presto view keeper o get_coordinator_pod_label e))
          (rw (is_not_found-new_not_found p "replicasets") (
            Makes-presto _ (
              Makes->>=_Runs _ (Runs-lift _ e') (
                Makes->>=_Runs _ (Runs-need_short _ valid.is_short) (
                  Makes->>= _
                    (Makes-create keeper.keeps_replica_sets x
                      (Sent-is_free p presto view keeper o x sent))
                    λ y o' (same, _, e''). rw e'' (
                      Makes-pure (y, true)
                        (coordinator_grown y (is_coordinator_set-Sent x y sent same) sound)))))))

    -- The coordinator's replica set is missing, and is built.
    pub coordinator_set-Built :
        any (λ x. is_coordinator_set presto x.meta) o.replica_sets ≡ false
        → Sound presto o
        → Makes p presto view
            (labels presto)
            o
            (coordinator_replicaset p)
            (labels presto)
            (Built presto 5 o)
    unfolding coordinator_replicaset
    coordinator_set-Built h sound = Makes-presto _ (
        Makes-labels _ (
          Makes->>= _ (Makes-attempt (coordinator_made h sound)) λ r o' ((y, made), e, built).
            rw (e, built.0)
              (Makes-config_created keeper
                (record no_action { coordinator_replica_set_name = some _ }) _ refl
                (refl, built.1, built.2))))
