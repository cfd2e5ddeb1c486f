-- ===== src/Spending/Hpa.antt =====
-- The parts of `Reconcile` that may write: the autoscaler.
use steerd_presto_operator.Base.{String, ℕ, ◌≡◌, refl, true, false, Option, List, [], ◌∷◌}
use steerd_presto_operator.Base.Int.{ℤ}
use steerd_presto_operator.Exec.{Result, ok, err, pure}
use steerd_presto_operator.Exec.Fallible.{is_already_exists}
use steerd_presto_operator.Kube.{Hpa, ReplicaSet}
use steerd_presto_operator.Resource.{Presto}
use steerd_presto_operator.Platform.{Platform}
use steerd_presto_operator.Autoscaling.{
  HpaChange, autoscale_spec_changed, create_hpa, delete_hpa, desired_hpa, get_presto_hpa,
  handle_replica_set, hpa_listed, no_change, pointers_differ, refresh_hpa, unless_exists,
  update_hpa,
}
use steerd_presto_operator.Steps.Sets.{
  hpa_created, hpa_deleted, hpa_replicaset, hpa_reported, is_change,
}
use steerd_presto_operator.Spending.{Counts, Quiet, of_result_spent, Spends, writes}
use steerd_presto_operator.Spending.Rules.{
  Quiet->>=, Quiet-attempt, Quiet-call, Quiet-deref, Quiet-gets, Quiet-if, Quiet-lift, Quiet-pure,
  Quiet-raise, Spends->>=, Spends-Quiet, Spends-attempt, Spends-call, Spends-found, Spends-if,
  Spends-made, Spends-pure, Spends-raise,
}
use steerd_presto_operator.Spending.Reads.{
  Quiet-eventf, Quiet-need_short, Quiet-put_status, Spends-put_then_report,
}

module _ (p : Platform) (count : p.World → ℕ) (law : Counts p count) where
  Quiet-hpa_listed : (listed : Result (List Hpa)) → Quiet (writes p count) (hpa_listed p listed)
  unfolding hpa_listed
  Quiet-hpa_listed (ok []) = Quiet-raise _
  Quiet-hpa_listed (ok (hpa ∷ items)) = Quiet-pure _
  Quiet-hpa_listed (err e) = Quiet-if _ (Quiet-raise _) (Quiet-raise _)

  Quiet-get_presto_hpa : Quiet (writes p count) (get_presto_hpa p)
  unfolding get_presto_hpa
  Quiet-get_presto_hpa = Quiet->>= (Quiet-gets _) λ _. Quiet->>= (Quiet-gets _) λ _.
      Quiet->>= (Quiet-attempt (Quiet-call p count _ (law.hpas_count.list_count _ _)))
        λ listed. Quiet-hpa_listed listed

  Quiet-desired_hpa :
      (replica_set : ReplicaSet p.Quantity) (resource_version : String)
      → Quiet (writes p count) (desired_hpa p replica_set resource_version)
  Quiet-desired_hpa replica_set resource_version = Quiet->>= (Quiet-gets _) λ _.
      Quiet->>= (Quiet-gets _) λ _.
        Quiet->>= (Quiet-lift _) λ _. Quiet->>= (Quiet-need_short p count law _) λ _. Quiet-pure _

  Spends-unless_exists :
      (written : Result Hpa) (change : HpaChange)
      → is_change change ≡ true
      → Spends (writes p count) true (unless_exists p written change) is_change
  Spends-unless_exists (ok _) change h = rw (← h) (Spends-pure is_change change)
  Spends-unless_exists (err e) change h =
      let changed : Spends (writes p count) true (pure change) is_change =
        rw (← h) (Spends-pure is_change change) in
      Spends-if (is_already_exists e) changed (Spends-raise e)

  -- A write that failed may have been made.
  written_or_failed : (written : Result Hpa) → of_result_spent (λ _. true) written ≡ true
  written_or_failed (ok _) = refl
  written_or_failed (err e) = refl

  Spends-update_hpa :
      (replica_set : ReplicaSet p.Quantity) (old : Hpa)
      → Spends (writes p count) false (update_hpa p replica_set old) is_change
  unfolding update_hpa
  Spends-update_hpa replica_set old = Spends->>= (Spends-Quiet (Quiet-desired_hpa _ _)) λ _.
      Spends->>= (Spends-attempt (Spends-call p count _ (law.hpas_count.update_count _)))
        λ written. rw (written_or_failed written) (Spends-unless_exists written _ refl)

  Spends-create_hpa :
      (replica_set : ReplicaSet p.Quantity)
      → Spends (writes p count) false (create_hpa p replica_set) is_change
  unfolding create_hpa
  Spends-create_hpa replica_set = Spends->>= (Spends-Quiet (Quiet-desired_hpa _ _)) λ _.
      Spends->>= (Spends-attempt (Spends-call p count _ (law.hpas_count.create_count _)))
        λ written. rw (written_or_failed written) (Spends-unless_exists written _ refl)

  Spends-delete_hpa : (hpa : Hpa) → Spends (writes p count) false (delete_hpa p hpa) is_change
  unfolding delete_hpa
  Spends-delete_hpa hpa =
      Spends->>= (Spends-call p count _ (law.hpas_count.delete_count _))
        λ _. Spends-pure is_change _

  Quiet-pointers_differ : (a b : Option ℤ) → Quiet (writes p count) (pointers_differ p a b)
  unfolding pointers_differ
  Quiet-pointers_differ a b =
      Quiet->>= (Quiet-deref _) λ _. Quiet->>= (Quiet-deref _) λ _. Quiet-pure _

  Quiet-autoscale_spec_changed :
      (hpa : Hpa) (presto : Presto) → Quiet (writes p count) (autoscale_spec_changed p hpa presto)
  unfolding autoscale_spec_changed
  Quiet-autoscale_spec_changed hpa presto = Quiet->>= (Quiet-pointers_differ _ _) λ max_differs.
      Quiet-if max_differs (Quiet-pure _) (
        Quiet->>= (Quiet-pointers_differ _ _)
          λ min_differs. Quiet-if min_differs (Quiet-pure _) (Quiet-pointers_differ _ _))

  Spends-refresh_hpa :
      (replica_set : ReplicaSet p.Quantity) (hpa : Hpa)
      → Spends (writes p count) false (refresh_hpa p replica_set hpa) is_change
  unfolding refresh_hpa
  Spends-refresh_hpa replica_set hpa = Spends->>= (Spends-Quiet (Quiet-gets _)) λ _.
      Spends->>= (Spends-Quiet (Quiet-autoscale_spec_changed _ _))
        λ changed. Spends-if changed (Spends-update_hpa _ _) (Spends-pure is_change no_change)

  Spends-handle_replica_set :
      (replica_set : ReplicaSet p.Quantity)
      → Spends (writes p count) false (handle_replica_set p replica_set) is_change
  unfolding handle_replica_set
  Spends-handle_replica_set replica_set = Spends->>= (Spends-Quiet (Quiet-gets _)) λ _.
      Spends->>= (Spends-Quiet (Quiet-attempt Quiet-get_presto_hpa)) λ found.
        Spends-found found
          (λ e.
            Spends-if _ (Spends-if _ (Spends-create_hpa _) (Spends-pure is_change no_change))
              (Spends-raise e))
          λ hpa. Spends-if _ (Spends-refresh_hpa _ hpa) (Spends-delete_hpa hpa)

  Quiet-hpa_created : (hpa_name : String) → Quiet (writes p count) (hpa_created p hpa_name)
  unfolding hpa_created
  Quiet-hpa_created hpa_name =
      Quiet->>= (Quiet-put_status p count law _) λ _. Quiet-eventf p count law _ _ _

  Quiet-hpa_deleted : (hpa_name : String) → Quiet (writes p count) (hpa_deleted p hpa_name)
  unfolding hpa_deleted
  Quiet-hpa_deleted hpa_name =
      Quiet->>= (Quiet-eventf p count law _ _ _) λ _. Quiet-put_status p count law _

  Spends-hpa_reported :
      (change : HpaChange)
      → Spends (writes p count) (is_change change) (hpa_reported p change) (λ changed. changed)
  unfolding hpa_reported
  Spends-hpa_reported change = Spends->>= (Spends-Quiet (Quiet-gets _)) λ _.
      Spends->>= (Spends-Quiet (Quiet-if _ (Quiet-need_short p count law _) (Quiet-pure _))) λ _.
        Spends->>= (Spends-Quiet (Quiet-if _ (Quiet-hpa_created _) (Quiet-pure _))) λ _.
          Spends->>= (Spends-Quiet (Quiet-if _ (Quiet-eventf p count law _ _ _) (Quiet-pure _)))
            λ _.
              Spends->>= (Spends-Quiet (Quiet-if _ (Quiet-hpa_deleted _) (Quiet-pure _)))
                λ _. Spends-pure (λ changed. changed) (is_change change)

  pub Spends-hpa_replicaset :
      (replica_set : ReplicaSet p.Quantity)
      → Spends (writes p count) false (hpa_replicaset p replica_set) (λ changed. changed)
  unfolding hpa_replicaset
  Spends-hpa_replicaset replica_set =
      Spends->>= (Spends-attempt (Spends-handle_replica_set _)) λ made.
        Spends-made made (λ e. Spends-put_then_report p count law _ _ e)
          λ change. Spends-hpa_reported change
