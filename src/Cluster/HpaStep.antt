-- ===== src/Cluster/HpaStep.antt =====
-- The step for the autoscaler: it builds one if one is wanted and missing.
use steerd_presto_operator.Base.{◌≡◌, refl, true, false, ◌&&◌, ◌==◌, arith, Bool-cases, inl, inr}
use steerd_presto_operator.Exec.{done}
use steerd_presto_operator.Kube.{Hpa, ReplicaSet}
use steerd_presto_operator.Resource.{Presto}
use steerd_presto_operator.Platform.{Platform}
use steerd_presto_operator.Autoscaling.{
  check_autoscaling_enabled, create_hpa, handle_replica_set, no_change, refresh_hpa, HpaChange,
}
use steerd_presto_operator.Steps.Sets.{hpa_created, hpa_replicaset, hpa_reported}
use steerd_presto_operator.Cluster.{Keeper, Objects, LikeHpa, any, name_is_free}
use steerd_presto_operator.Names.{get_hpa_name, short}
use steerd_presto_operator.Names.Distinct.{append_nonempty}
use steerd_presto_operator.Cluster.Runs.{
  Makes, Runs, Runs->>=, Runs-attempt, Runs-attempt-failed, Runs-labels, Runs-lift, Runs-need_short,
  Runs-presto, Runs-pure,
}
use steerd_presto_operator.Cluster.Makes.{
  Makes->>=, Makes->>=_Runs, Makes-attempt, Makes-create, Makes-presto, Makes-pure,
}
use steerd_presto_operator.Cluster.Reports.{Runs-eventf, Runs-put_status}
use steerd_presto_operator.Cluster.Progress.{
  Sound, Valid, agrees, is_named, is_shared, Built, labels,
}
use steerd_presto_operator.Cluster.Found.{any-false, follows, keep_first, keep_none}
use steerd_presto_operator.Cluster.ConfigMaps.{OfCluster, OfCluster-SameMeta}
use steerd_presto_operator.Cluster.Sets.{is_not_found-new_not_found}
use steerd_presto_operator.Cluster.Hpas.{
  Runs-autoscale_spec_changed, Runs-get_presto_hpa, Runs-get_presto_hpa-failed, hpa_described,
  hpa_grown,
}

module _ (p : Platform) (presto : Presto) (view : p.World → Objects p.Quantity)
    (keeper : Keeper p presto view) (valid : Valid presto p) (o : Objects p.Quantity) where
  hpa_found :
      (y : ReplicaSet p.Quantity)
      → any (λ x. is_shared presto x.meta) o.hpas ≡ true
      → Sound presto o
      → Runs p presto view
          (labels presto)
          o
          (handle_replica_set p y)
          (done no_change)
          (labels presto)
          o
  unfolding handle_replica_set refresh_hpa
  hpa_found y h sound =
      let (hpa, rest, e, good) =
        keep_first (λ x. is_shared presto x.meta)
          (λ x. check_autoscaling_enabled presto && agrees presto x) o.hpas sound.hpas_agree h in
      let enabled : check_autoscaling_enabled presto ≡ true = ground (arith, good) in
      let given = valid.numbers_given in
      Runs-presto _ (
        Runs->>= _ (Runs-attempt (Runs-get_presto_hpa p presto view keeper o e)) (
          rw enabled (
            Runs-presto _ (
              Runs->>= _
                (Runs-autoscale_spec_changed p presto view keeper o hpa (ground (arith, good))
                  (ground (arith, given, enabled)))
                (Runs-pure no_change)))))

  hpa_unwanted :
      (y : ReplicaSet p.Quantity)
      → any (λ x. is_shared presto x.meta) o.hpas ≡ false
      → check_autoscaling_enabled presto ≡ false
      → Runs p presto view
          (labels presto)
          o
          (handle_replica_set p y)
          (done no_change)
          (labels presto)
          o
  unfolding handle_replica_set
  hpa_unwanted y h disabled =
      let e = keep_none (λ x. is_shared presto x.meta) o.hpas h in
      Runs-presto _ (
        Runs->>= _ (Runs-attempt-failed (Runs-get_presto_hpa-failed p presto view keeper o e))
          (rw (is_not_found-new_not_found p "HPA", disabled) (Runs-pure no_change)))

  nothing_to_do :
      (y : ReplicaSet p.Quantity)
      → follows (check_autoscaling_enabled presto) (any (λ x. is_shared presto x.meta) o.hpas)
        ≡ true
      → Sound presto o
      → Runs p presto view
          (labels presto)
          o
          (handle_replica_set p y)
          (done no_change)
          (labels presto)
          o
  nothing_to_do y h sound = elim (Bool-cases (any (λ x. is_shared presto x.meta) o.hpas)) [
    | inl e ↦ hpa_found y e sound
    | inr e ↦ hpa_unwanted y e (ground (arith, h, e))
  ]

  -- No autoscaler is wanted, or it is there.
  pub hpa-kept :
      (y : ReplicaSet p.Quantity)
      → follows (check_autoscaling_enabled presto) (any (λ x. is_shared presto x.meta) o.hpas)
        ≡ true
      → Sound presto o
      → Runs p presto view (labels presto) o (hpa_replicaset p y) (done false) (labels presto) o
  unfolding hpa_replicaset hpa_reported
  hpa-kept y h sound = Runs->>= _ (Runs-attempt (nothing_to_do y h sound)) (
      Runs-presto _ (
        Runs->>= _ (Runs-pure tt) (
          Runs->>= _ (Runs-pure tt)
            (Runs->>= _ (Runs-pure tt) (Runs->>= _ (Runs-pure tt) (Runs-pure false))))))

  abbrev created : HpaChange
  created = record no_change { created = true }

  hpa_is_free :
      (hpa : Hpa)
      → OfCluster presto (get_hpa_name presto.status.uuid) hpa.meta
      → Sound presto o
      → any (λ x. is_shared presto x.meta) o.hpas ≡ false
      → name_is_free (λ x. x.meta) hpa o.hpas ≡ true
  hpa_is_free hpa of sound h =
      let free =
        any-false (λ x. is_named presto (get_hpa_name presto.status.uuid) x.meta)
          (λ x. is_shared presto x.meta) o.hpas sound.hpas_named h in
      rw (of.of_namespace, of.of_name, free) (ground arith)

  hpa_nonempty : (get_hpa_name presto.status.uuid == "") ≡ false
  unfolding get_hpa_name
  hpa_nonempty = append_nonempty "hpa-" (short presto.status.uuid) refl

  agrees-like : (hpa y : Hpa) → LikeHpa hpa y → agrees presto hpa ≡ true → agrees presto y ≡ true
  agrees-like hpa y (min, max, cpu) h = rw (min, max, cpu) h

  hpa_wanted :
      (y : ReplicaSet p.Quantity) {P : HpaChange → Objects p.Quantity → Type 0}
      → check_autoscaling_enabled presto ≡ true
      → any (λ x. is_shared presto x.meta) o.hpas ≡ false
      → Makes p presto view (labels presto) o (create_hpa p y) (labels presto) P
      → Makes p presto view (labels presto) o (handle_replica_set p y) (labels presto) P
  unfolding handle_replica_set
  hpa_wanted y enabled h made =
      let e = keep_none (λ x. is_shared presto x.meta) o.hpas h in
      Makes-presto _ (
        Makes->>=_Runs _ (Runs-attempt-failed (Runs-get_presto_hpa-failed p presto view keeper o e))
          (rw (is_not_found-new_not_found p "HPA", enabled) made))

  hpa_made :
      (y : ReplicaSet p.Quantity)
      → check_autoscaling_enabled presto ≡ true
      → any (λ x. is_shared presto x.meta) o.hpas ≡ false
      → Sound presto o
      → Makes p presto view
          (labels presto)
          o
          (create_hpa p y)
          (labels presto)
          (λ change o'. (change ≡ created) × Built presto 7 o true o')
  unfolding create_hpa
  hpa_made y enabled h sound =
      let given = valid.numbers_given in
      let (hpa, described, of, good) = hpa_described presto y (ground (arith, given, enabled)) in
      Makes->>=_Runs _
        (Runs-presto _ (
          Runs-labels _ (
            Runs->>= _ (Runs-lift _ described)
              (Runs->>= _ (Runs-need_short _ valid.is_short) (Runs-pure hpa)))))
        (Makes->>= _
          (Makes-attempt (Makes-create keeper.keeps_hpas hpa (hpa_is_free hpa of sound h)))
          λ r o' (z, e', (same, like, e'')).
            rw (e', e'')
              (Makes-pure created (
                refl,
                hpa_grown presto o z
                    (OfCluster-SameMeta presto _ hpa.meta z.meta hpa_nonempty of same)
                    (rw (enabled, agrees-like hpa z like good) refl) sound,
              )))

  -- The autoscaler is missing, and is built.
  pub hpa-Built :
      (y : ReplicaSet p.Quantity)
      → follows (check_autoscaling_enabled presto) (any (λ x. is_shared presto x.meta) o.hpas)
        ≡ false
      → Sound presto o
      → Makes p presto view
          (labels presto)
          o
          (hpa_replicaset p y)
          (labels presto)
          (Built presto 7 o)
  unfolding hpa_replicaset hpa_reported hpa_created
  hpa-Built y h sound =
      let enabled : check_autoscaling_enabled presto ≡ true = ground (arith, h) in
      let missing : any (λ x. is_shared presto x.meta) o.hpas ≡ false = ground (arith, h) in
      Makes->>= _ (Makes-attempt (hpa_wanted y enabled missing (hpa_made y enabled missing sound)))
        λ r o' (change, e, (e', built)).
          rw (e, e')
            (Makes-presto _ (
              Makes->>=_Runs _ (Runs-need_short _ valid.is_short) (
                Makes->>=_Runs _
                  (Runs->>= _ (Runs-put_status keeper _ refl) (Runs-eventf keeper _ _ _))
                  (Makes->>=_Runs _ (Runs-pure tt)
                    (Makes->>=_Runs _ (Runs-pure tt) (Makes-pure true built))))))
