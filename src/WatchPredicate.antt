-- ===== src/WatchPredicate.antt =====
-- pkg/controller/presto/watch_predicate.go: which update events of a Presto resource start a
-- reconciliation. The other events pass by the embedded `predicate.Funcs`.
use steerd_presto_operator.Base.{
  ◌≡◌, ◌≢◌, ◌↔◌, ◌⊎◌, Bool, true, false, not, ◌&&◌, Option, none, some, arith, if◌then◌else◌,
}
use steerd_presto_operator.Base.Int.{ℤ, pos, ◌==ℤ◌}
use steerd_presto_operator.Resource.{Presto}

-- The metadata of an object, of which only `GetGeneration()` is read.
pub record Meta : Type 0 where
  pub generation : ℤ

pub record UpdateEvent : Type 0 where
  pub meta_old : Option Meta
  pub object_old : Option Presto
  pub meta_new : Option Meta
  pub object_new : Option Presto

generation_changed : Meta → Meta → Bool
generation_changed new old =
    if (new.generation ==ℤ old.generation) && not (new.generation ==ℤ pos 0) then false else true

-- `Update` of `GenerationChangedPredicate`
pub update : UpdateEvent → Bool
unfolding generation_changed
update e = elim e.meta_old [
  | none ↦ false
  | some meta_old ↦ elim e.object_old [
    | none ↦ false
    | some object_old ↦ elim e.object_new [
      | none ↦ false
      | some object_new ↦ elim e.meta_new [
        | none ↦ false
        | some meta_new ↦ generation_changed meta_new meta_old
      ]
    ]
  ]
]

-- The new generation differs from the old one, or is zero.
abbrev Changed : Option Meta → Option Meta → Type 0
Changed (some old) (some new) = (new.generation ≢ old.generation) ⊎ (new.generation ≡ pos 0)
Changed _ _ = ⊥

-- An event passes exactly when its objects and metadata are all there, and the new generation
-- differs from the old one or is zero.
pub update-eq-true :
    (e : UpdateEvent)
    → (update e ≡ true)
      ↔ ((e.object_old ≢ none) × (e.object_new ≢ none) × Changed e.meta_old e.meta_new)
unfolding update
update-eq-true e = ground arith
