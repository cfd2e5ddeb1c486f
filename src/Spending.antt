-- ===== src/Spending.antt =====
-- How many writes a part of `Reconcile` makes: the API calls that create, update or delete a
-- service, a config map, a replica set or an autoscaler. Writes of the Presto object's status and
-- events are not counted.
pub mod Rules
pub mod Reads
pub mod Writes
pub mod Sets
pub mod Hpa
pub mod Pass
pub mod Identifier
use steerd_presto_operator.Base.{
  String, ℕ, ◌+◌, ◌≤◌, ◌≡◌, refl, Bool, true, false, Option, none, some, List, [], ◌∷◌, arith,
  if◌then◌else◌,
}
use steerd_presto_operator.Exec.{
  Error, Result, ok, err, Outcome, done, failed, panicked, pure, panic, raise, attempt, lift, deref,
  gets, to_result, of_result, continue, Exec, ◌>>=◌,
}
use steerd_presto_operator.Kube.{StringMap, NamespacedName}
use steerd_presto_operator.Resource.{Presto}
use steerd_presto_operator.Platform.{Api, Call, Platform}
use steerd_presto_operator.Session.{Op, Session, call, ask}

-- The law of one kind of object: a list call writes nothing, the others count as one write at most.
pub record ApiCounts {World Object : Type 0} (count : World → ℕ) (api : Api World Object)
    : Type 0 where
  pub list_count :
      (namespace : String) (labels : StringMap) (w : World)
      → count (api.list namespace labels w).1 ≤ count w
  pub create_count : (o : Object) (w : World) → count (api.create o w).1 ≤ 1 + count w
  pub update_count : (o : Object) (w : World) → count (api.update o w).1 ≤ 1 + count w
  pub delete_count : (o : Object) (w : World) → count (api.delete o w).1 ≤ 1 + count w

-- `count` counts the writes to the four kinds of objects, as a client could log them.
pub record Counts (p : Platform) (count : p.World → ℕ) : Type 0 where
  pub services_count : ApiCounts count p.services
  pub config_maps_count : ApiCounts count p.config_maps
  pub replica_sets_count : ApiCounts count p.replica_sets
  pub hpas_count : ApiCounts count p.hpas
  pub get_presto_count :
      (name : NamespacedName) (w : p.World) → count (p.get_presto name w).1 ≤ count w
  pub list_prestos_count :
      (namespace : String) (labels : StringMap) (w : p.World)
      → count (p.list_prestos namespace labels w).1 ≤ count w
  pub update_presto_status_count :
      (presto : Presto) (w : p.World) → count (p.update_presto_status presto w).1 ≤ count w
  pub list_pods_count :
      (namespace : String) (labels : StringMap) (w : p.World)
      → count (p.list_pods namespace labels w).1 ≤ count w
  pub list_pod_metrics_count :
      (namespace : String) (labels : StringMap) (w : p.World)
      → count (p.list_pod_metrics namespace labels w).1 ≤ count w
  pub new_uuid_count : (w : p.World) → count (p.new_uuid w).1 ≤ count w
  pub now_count : (w : p.World) → count (p.now w).1 ≤ count w
  pub record_event_count :
      (presto : Presto) (event_type reason text : String) (w : p.World)
      → count (p.record_event presto event_type reason text w) ≤ count w

-- The writes allowed in all: `n`, and one more where `spent`.
abbrev pub budget : ℕ → Bool → ℕ
budget n spent = if spent then 1 + n else n

-- After a failure or a panic one write may have been made.
abbrev pub budget_after : {A : Type 0} → ℕ → (A → Bool) → Outcome A → ℕ
budget_after n spent (done a) = budget n (spent a)
budget_after n spent (failed e) = 1 + n
budget_after n spent panicked = 1 + n

-- The operation writes nothing, however it ends.
pub record Quiet {S A : Type 0} (count : S → ℕ) (m : Exec S A) : Type 0 where
  pub quiet : (s : S) → count (m s).1 ≤ count s

-- If the write was made before where `before` says so, then it was made after where `spent` of
-- the result says so.
pub record Spends {S A : Type 0} (count : S → ℕ) (before : Bool) (m : Exec S A) (spent : A → Bool)
    : Type 0 where
  pub spends :
      (n : ℕ) (s : S) → count s ≤ budget n before → count (m s).1 ≤ budget_after n spent (m s).0

abbrev pub of_result_spent : {A : Type 0} → (A → Bool) → Result A → Bool
of_result_spent d (ok a) = d a
of_result_spent d (err e) = true

-- The writes in the world of a session.
abbrev pub writes : (p : Platform) → (p.World → ℕ) → Session p → ℕ
writes p count s = count s.world
