-- ===== src/Autoscaling/Decision.antt =====
-- What `handleReplicaSet` sends to the API about the autoscaler, and what it reports to have done.
use steerd_presto_operator.Base.{
  Bool-cases, inl, inr, ◌≡◌, refl, Bool, true, false, List, [], ◌∷◌, if◌then◌else◌,
}
use steerd_presto_operator.Exec.{
  Error, Outcome, lift, done, failed, panicked, Result, ok, err, attempt, gets, pure, raise, ◌>>=◌,
}
use steerd_presto_operator.Exec.Ensures.{Returns}
use steerd_presto_operator.Exec.Fallible.{is_not_found}
use steerd_presto_operator.Kube.{Hpa, ReplicaSet}
use steerd_presto_operator.Platform.{Platform}
use steerd_presto_operator.Session.{Op, Session, call}
use steerd_presto_operator.Autoscaling.{
  HpaChange, check_autoscaling_enabled, create_hpa, delete_hpa, get_presto_hpa, handle_replica_set,
  hpa_listed, no_change, refresh_hpa,
}
use steerd_presto_operator.Calls.{nothing_sent, Sent, emptied, recorded, sent}
use steerd_presto_operator.Calls.Rules.{Ends, Runs-if}
use steerd_presto_operator.Autoscaling.Sending.{
  Decision, Told, Fits, Decides, Decides-create_hpa, Decides-delete_hpa, Decides-no_change,
  Decides-raise, Decides-refresh_hpa, fits, has_first, reported,
}

module _ (p : Platform) where
  -- The rest of the step, on what the search for the autoscaler ended with.
  abbrev on_found : ReplicaSet p.Quantity → Bool → Result Hpa → Op (recorded p) HpaChange
  on_found replica_set enabled found = elim found [
    | err e ↦
        if is_not_found e
        then if enabled then create_hpa (recorded p) replica_set else pure no_change
        else raise e
    | ok hpa ↦
        if enabled then refresh_hpa (recorded p) replica_set hpa else delete_hpa (recorded p) hpa
  ]

  Decides-one :
      (replica_set : ReplicaSet p.Quantity) (hpa : Hpa) (enabled : Bool)
      → Decides p enabled true (on_found replica_set enabled (ok hpa))
  Decides-one replica_set hpa true = Decides-refresh_hpa p replica_set hpa
  Decides-one replica_set hpa false = Decides-delete_hpa p hpa

  Decides-none :
      (replica_set : ReplicaSet p.Quantity) (enabled : Bool)
      → Decides p enabled false
          (if enabled then create_hpa (recorded p) replica_set else pure no_change)
  Decides-none replica_set true = Decides-create_hpa p replica_set
  Decides-none replica_set false = Decides-no_change p false false (refl, refl)

  Decides-missing :
      (replica_set : ReplicaSet p.Quantity) (enabled : Bool) (e : Error)
      → Decides p enabled false (attempt (raise e) >>= on_found replica_set enabled)
  unfolding attempt raise ◌>>=◌
  Decides-missing replica_set enabled e = record {
    runs = λ s i.
        (Runs-if (sent p) (is_not_found e) (Decides-none replica_set enabled)
            (Decides-raise p enabled false e)).runs
          s i;
  }

  -- The step from the answer of the list call on.
  Decides-listed :
      (replica_set : ReplicaSet p.Quantity) (enabled : Bool) (listed : Result (List Hpa))
      → Decides p enabled
          (has_first listed)
          (attempt (hpa_listed (recorded p) listed) >>= on_found replica_set enabled)
  unfolding attempt hpa_listed pure ◌>>=◌
  Decides-listed replica_set enabled (ok []) = Decides-missing replica_set enabled _
  Decides-listed replica_set enabled (ok (hpa ∷ items)) = record {
    runs = λ s i. (Decides-one replica_set hpa enabled).runs s i;
  }
  Decides-listed replica_set enabled (err e) = elim (Bool-cases (is_not_found e)) [
    | inl h ↦ rw h (Decides-missing replica_set enabled _)
    | inr h ↦ rw h (Decides-missing replica_set enabled e)
  ]

  Decides-answer :
      (replica_set : ReplicaSet p.Quantity) (enabled : Bool) (listed : Result (List Hpa))
      → Decides p enabled (has_first listed) (
          attempt (attempt (lift listed) >>= hpa_listed (recorded p))
          >>= on_found replica_set enabled)
  unfolding attempt lift ◌>>=◌
  Decides-answer replica_set enabled (ok items) = record {
    runs = λ s i. (Decides-listed replica_set enabled (ok items)).runs s i;
  }
  Decides-answer replica_set enabled (err e) = record {
    runs = λ s i. (Decides-listed replica_set enabled (err e)).runs s i;
  }

  Ends-Told :
      (enabled found : Bool) (l : Sent p.Quantity) (o : Outcome HpaChange)
      → Ends (Told p enabled found) (Fits p enabled) o l
      → Fits p enabled l
        × Returns (λ change. (l.hpas ≡ reported change) × Decision enabled found change) o
  Ends-Told enabled found l (done change) (e, d, h) = (h, (e, d))
  Ends-Told enabled found l (failed x) h = (h, tt)
  Ends-Told enabled found l panicked h = (h, tt)

  -- However the calls of the API end, the step for the autoscaler makes at most one call that is to
  -- change an autoscaler: one that creates or updates it if autoscaling is enabled in the resource,
  -- and one that deletes it if not. If the step returns, what it reports are the calls that it made:
  -- a creation exactly when autoscaling is enabled and the server listed no autoscaler, and a deletion
  -- exactly when it is not enabled and the server listed one.
  pub handle_replica_set-fits :
      (replica_set : ReplicaSet p.Quantity) (s : Session (recorded p))
      → let enabled = check_autoscaling_enabled s.presto in
        let found = has_first (p.hpas.list s.presto.namespace s.base_labels s.world.0).0 in
        let (returned, s') = handle_replica_set (recorded p) replica_set (emptied p s) in
        (fits enabled (sent p s').hpas ≡ true)
        × Returns
            (λ change. ((sent p s').hpas ≡ reported change) × Decision enabled found change)
            returned
  unfolding handle_replica_set get_presto_hpa call lift attempt gets ◌>>=◌
  handle_replica_set-fits replica_set s =
      let enabled = check_autoscaling_enabled s.presto in
      let (listed, w) = p.hpas.list s.presto.namespace s.base_labels s.world.0 in
      Ends-Told enabled _ _ _ (
        (Decides-answer replica_set enabled listed).runs
          (record (emptied p s) { world = (w, nothing_sent) }) refl)
