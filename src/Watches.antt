-- ===== src/Watches.antt =====
-- What the controller watches: `add` of pkg/controller/presto/presto_controller.go. The controller of
-- the runtime library is a parameter, with its `New` and its `Watch`.
pub mod Laws
use steerd_presto_operator.Base.{
  ℕ, zero, suc, String, ◌≡◌, refl, sym, ap, ◌∙◌, Bool, true, false, List, [], ◌∷◌, ◌++◌,
}
use steerd_presto_operator.Base.Int.{ℤ, pos}
use steerd_presto_operator.Exec.{Exec, Outcome, continue, done, failed, panicked, pure, ◌>>=◌, ◌>>◌}
use steerd_presto_operator.Exec.Ensures.{Returns}

-- `source.Channel` with the periodic events, and `source.Kind` with a type.
pub data Source : Type 0 where
  periodic_prestos : Source
  prestos : Source
  services : Source
  config_maps : Source
  replica_sets : Source

-- `handler.EnqueueRequestForObject{}`, and `handler.EnqueueRequestForOwner` with the flag
-- `IsController` and the owner type Presto.
pub data EventHandler : Type 0 where
  enqueue_request_for_object : EventHandler
  enqueue_request_for_owner : Bool → EventHandler

-- The arguments of one call of `Watch`; whether `GenerationChangedPredicate{}` is among them.
pub record Watch : Type 0 where
  pub source : Source
  pub handler : EventHandler
  pub generation_changed : Bool

abbrev pub controller_name : String
controller_name = "presto-controller"

abbrev pub watch_of : Source → EventHandler → Watch
watch_of source handler = record { source = source; handler = handler; generation_changed = false }

module _ {World : Type 0} (new_controller : String → ℤ → Exec World (Unit {0}))
    (watch : Watch → Exec World (Unit {0})) where
  -- `New` is given the name and `MaxConcurrentReconciles`. Every error is returned at once.
  unfoldable pub add : Exec World (Unit {0})
  add = do
    new_controller controller_name (pos 1)
    watch (watch_of periodic_prestos enqueue_request_for_object)
    watch (record {
      source = prestos;
      handler = enqueue_request_for_object;
      generation_changed = true;
    })
    watch (watch_of services (enqueue_request_for_owner true))
    watch (watch_of config_maps (enqueue_request_for_owner true))
    watch (watch_of replica_sets (enqueue_request_for_owner true))
    pure tt
