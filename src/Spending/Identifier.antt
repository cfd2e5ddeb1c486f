-- ===== src/Spending/Identifier.antt =====
-- A cluster without an identifier: the pass gives it one and makes nothing else.
use steerd_presto_operator.Base.{
  String, ℕ, ◌≤◌, ◌≡◌, refl, Bool, true, false, Option, none, some, ◌==◌, if◌then◌else◌, arith,
}
use steerd_presto_operator.Exec.{
  Exec, Outcome, done, failed, panicked, continue, deref, gets, pure, ◌>>=◌,
}
use steerd_presto_operator.Exec.Ensures.{Ensures, Ensures->>=, Ensures-pure, Returns}
use steerd_presto_operator.Resource.{Presto}
use steerd_presto_operator.Platform.{Platform}
use steerd_presto_operator.Session.{Op, Session}
use steerd_presto_operator.Status.{
  ClusterUpdateAction, no_action, send_status, update_status, update_with,
}
use steerd_presto_operator.Status.Laws.{apply_action-plain}
use steerd_presto_operator.Reconcile.{Answer, assign_uuid, reconcile_presto}
use steerd_presto_operator.Spending.{Counts, Quiet, writes}
use steerd_presto_operator.Spending.Rules.{Quiet->>=, Quiet-ask, Quiet-pure}
use steerd_presto_operator.Spending.Reads.{Quiet-update_status}

-- The second part runs only on values that the first one can return.
module _ {S A B : Type 0} {count : S → ℕ} (P : A → Type 0) where
  continue-count_ensured :
      (f : A → Exec S B)
      → ((a : A) → P a → Quiet count (f a))
      → (r : Outcome A × S) → Returns P r.0
      → count (continue r f).1 ≤ count r.1
  continue-count_ensured f k (done a, s) h = (k a h).quiet s
  continue-count_ensured f k (failed e, s) h = omega arith
  continue-count_ensured f k (panicked, s) h = omega arith

  Quiet->>=_ensured :
      {m : Exec S A} {f : A → Exec S B}
      → Quiet count m
      → Ensures P m
      → ((a : A) → P a → Quiet count (f a))
      → Quiet count (m >>= f)
  unfolding ◌>>=◌
  Quiet->>=_ensured {m} {f} h e k = record {
    quiet = λ s.
        let a = h.quiet s in
        let b = continue-count_ensured f k (m s) (e.ensures s) in omega (arith, a, b);
  }

module _ (p : Platform) where
  abbrev uuid_action : String → ClusterUpdateAction p.Quantity
  uuid_action uuid = record no_action { cluster_uuid = some uuid }

  abbrev Updates : Op p Bool → Type 0
  Updates m = Ensures (λ updated. updated ≡ true) m

  Updates-send_status : (aliased : Bool) (presto : Presto) → Updates (send_status p aliased presto)
  unfolding send_status
  Updates-send_status aliased presto =
      Ensures->>= _ _
        λ _. Ensures->>= _ _ λ _. Ensures->>= _ _ λ _. Ensures->>= _ _ λ _. Ensures-pure _ true refl

  Updates-update_with :
      (uuid : String) (aliased : Bool) (presto : Presto)
      → Updates (update_with p (uuid_action uuid) aliased presto)
  unfolding update_with ◌>>=◌ deref
  Updates-update_with uuid aliased presto =
      rw (apply_action-plain (uuid_action uuid) presto.status refl refl)
        (record { ensures = λ s. (Updates-send_status aliased _).ensures s })

  Updates-found :
      (uuid : String) (presto : Presto) (found : Option Presto)
      → Updates (elim found [
        | none ↦ update_with p (uuid_action uuid) true presto
        | some presto_copy ↦ update_with p (uuid_action uuid) false presto_copy
      ])
  Updates-found uuid presto none = Updates-update_with uuid true presto
  Updates-found uuid presto (some presto_copy) = Updates-update_with uuid false presto_copy

  Updates-update_status : (uuid : String) → Updates (update_status p (uuid_action uuid))
  unfolding update_status
  Updates-update_status uuid =
      Ensures->>= _ _ λ presto. Ensures->>= _ _ λ found. Updates-found uuid presto found

  module _ (count : p.World → ℕ) (law : Counts p count) where
    unless_updated :
        (updated : Bool) (answer : Answer) (rest : Op p Answer)
        → updated ≡ true
        → Quiet (writes p count) (if updated then pure answer else rest)
    unless_updated updated answer rest h = rw h (Quiet-pure answer)

    Quiet-assign_uuid : Quiet (writes p count) (assign_uuid p)
    unfolding assign_uuid
    Quiet-assign_uuid = Quiet->>= (Quiet-ask p count p.new_uuid law.new_uuid_count) λ uuid.
        Quiet->>=_ensured (λ updated. updated ≡ true) (Quiet-update_status p count law _)
          (Updates-update_status uuid) λ updated h. unless_updated updated _ _ h

    -- For any count of writes that only the calls which create, update or delete a service, a config
    -- map, a replica set or an autoscaler can raise: a pass over an object without an identifier does
    -- not raise it, however the calls answer and the pass ends.
    pub reconcile_presto-writes_nothing :
        (s : Session p)
        → (s.presto.status.uuid == "") ≡ true
        → count (reconcile_presto p s).1.world ≤ count s.world
    unfolding reconcile_presto ◌>>=◌ gets
    reconcile_presto-writes_nothing s h = rw h ((Quiet-assign_uuid).quiet s)
