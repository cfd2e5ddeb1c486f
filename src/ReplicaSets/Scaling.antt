-- ===== src/ReplicaSets/Scaling.antt =====
-- The number of workers, as `createUpdateReplicaSetForWorker` keeps it.
use steerd_presto_operator.Base.{
  ◌≡◌, refl, Bool, true, false, ◌||◌, Option, none, some, arith, Option-cases, inl, inr,
}
use steerd_presto_operator.Base.Int.{ℤ, ◌==ℤ◌, ==ℤ_iff}
use steerd_presto_operator.Exec.{ok, done, ◌>>=◌}
use steerd_presto_operator.Kube.{ReplicaSet}
use steerd_presto_operator.Resource.{Presto}
use steerd_presto_operator.Platform.{Platform}
use steerd_presto_operator.Session.{Session, call}
use steerd_presto_operator.ReplicaSets.{is_enabled, scale_to, scale_worker_set, set_replicas}

abbrev same_number : Option ℤ → Option ℤ → Bool
same_number none replicas = true
same_number (some count) none = false
same_number (some count) (some replicas) = count ==ℤ replicas

-- The operator has nothing to scale: the autoscaler is in charge, no number is wanted, or the wanted
-- number is there.
unfoldable pub is_settled : {Quantity : Type 0} → Presto → ReplicaSet Quantity → Bool
is_settled presto replica_set =
    is_enabled presto.spec.worker.autoscaling.enabled
    || same_number presto.spec.worker.count replica_set.replicas

-- The wanted number is there.
pub is_settled-wanted :
    {Quantity : Type 0} (presto : Presto) (replica_set : ReplicaSet Quantity) {n : ℤ}
    → presto.spec.worker.count ≡ some n
    → replica_set.replicas ≡ some n
    → is_settled presto replica_set ≡ true
unfolding is_settled
is_settled-wanted presto replica_set {n} h k = rw (h, k, (==ℤ_iff n n).1 refl) (ground arith)

-- The API server answers an update with the number of replicas that it was sent.
abbrev pub KeepsReplicas : Platform → Type 0
KeepsReplicas p =
    (o o' : ReplicaSet p.Quantity) (w : p.World)
    → (p.replica_sets.update o w).0 ≡ ok o'
    → o'.replicas ≡ o.replicas

module _ (p : Platform) (replica_set : ReplicaSet p.Quantity) (s : Session p) where
  -- If autoscaling is enabled, or no number of workers is wanted, or the replica set has the wanted
  -- number, then no call is made: the replica set is returned as it was, as neither created nor
  -- updated, and the session stays what it was.
  pub scale_worker_set-settled :
      is_settled s.presto replica_set ≡ true
      → scale_worker_set p replica_set s ≡ (done (replica_set, false, false), s)
  unfolding is_settled scale_worker_set scale_to ◌>>=◌
  scale_worker_set-settled h = ground arith

module _ (p : Platform) (replica_set : ReplicaSet p.Quantity) (s : Session p) where
  set_replicas-settled :
      (n : ℤ) {found : ReplicaSet p.Quantity} {created updated : Bool} {s' : Session p}
      → KeepsReplicas p
      → set_replicas p replica_set n s ≡ (done (found, created, updated), s')
      → (s'.presto ≡ s.presto) × (found.replicas ≡ some n)
  unfolding set_replicas ◌>>=◌ call
  set_replicas-settled n {found} keeps h =
      let k = keeps (record replica_set { replicas = some n }) found s.world in ground (arith, h, k)

  same_number_refl :
      (n : ℤ) (replicas : Option ℤ) → replicas ≡ some n → same_number (some n) replicas ≡ true
  same_number_refl n replicas h = rw h ((==ℤ_iff n n).1 refl)

  scale_to-settled :
      (n : ℤ) {found : ReplicaSet p.Quantity} {created updated : Bool} {s' : Session p}
      → KeepsReplicas p
      → scale_to p replica_set n s ≡ (done (found, created, updated), s')
      → (s'.presto ≡ s.presto) × (same_number (some n) found.replicas ≡ true)
  unfolding scale_to ◌>>=◌
  scale_to-settled n {found} {created} {updated} {s'} keeps h =
      let scaled =
        set_replicas-settled n {found = found} {created = created} {updated = updated} {s' = s'}
          keeps in
      let same = same_number_refl n found.replicas in ground (arith, h, scaled, same)

  settled_again :
      {found : ReplicaSet p.Quantity} {created updated : Bool} {s' : Session p}
      → KeepsReplicas p
      → scale_worker_set p replica_set s ≡ (done (found, created, updated), s')
      → (s'.presto ≡ s.presto) × (is_settled s.presto found ≡ true)
  unfolding is_settled scale_worker_set ◌>>=◌
  settled_again {found} {created} {updated} {s'} keeps h =
      elim (Option-cases s.presto.spec.worker.count) [
        | inl none_wanted ↦ ground (arith, h, none_wanted)
        | inr (n, wanted) ↦
            let scaled =
              scale_to-settled n {found = found} {created = created} {updated = updated} {s' = s'}
                keeps in
            ground (arith, h, wanted, scaled)
      ]

  -- If the API server answers an update with the number of replicas that it was sent: when the step
  -- has returned a replica set, whether it scaled it or not, the same step on that replica set makes
  -- no call and returns it as it is.
  pub scale_worker_set_idem :
      {found : ReplicaSet p.Quantity} {created updated : Bool} {s' : Session p}
      → KeepsReplicas p
      → scale_worker_set p replica_set s ≡ (done (found, created, updated), s')
      → scale_worker_set p found s' ≡ (done (found, false, false), s')
  scale_worker_set_idem {found} {s'} keeps h =
      let (same, settled) = settled_again keeps h in
      scale_worker_set-settled p found s' (rw same settled)
