-- ===== src/Tests/WatchWitnesses.antt =====
-- The theorem on the watches, at a controller that refuses the watch on replica sets.
use steerd_presto_operator.Base.{ℕ, String, ◌≡◌, refl, List, [], ◌∷◌, ◌++◌}
use steerd_presto_operator.Base.Int.{ℤ}
use steerd_presto_operator.Exec.{Exec, Outcome, done, failed}
use steerd_presto_operator.Exec.Ensures.{Returns}
use steerd_presto_operator.Exec.Fallible.{operator_error}
use steerd_presto_operator.Watches.{
  Source, Watch, add, config_maps, periodic_prestos, prestos, replica_sets, services,
}
use steerd_presto_operator.Watches.Laws.{Keeps, take, watched, watches-add, with_watch}

abbrev new_controller : String → ℤ → Exec (List Watch) (Unit {0})
new_controller name n w = (done tt, [])

abbrev watch_from : Source → Watch → List Watch → Outcome (Unit {0}) × List Watch
watch_from replica_sets x w = (failed (operator_error "refused"), w)
watch_from source x w = (done tt, w ++ x ∷ [])

abbrev watch : Watch → Exec (List Watch) (Unit {0})
watch x w = watch_from x.source x w

with_watch-watch_from :
    (source : Source) (x : Watch) (w : List Watch)
    → (watch_from source x w).1 ≡ with_watch (watch_from source x w).0 x w
with_watch-watch_from periodic_prestos x w = refl
with_watch-watch_from prestos x w = refl
with_watch-watch_from services x w = refl
with_watch-watch_from config_maps x w = refl
with_watch-watch_from replica_sets x w = refl

watch-Keeps : Keeps new_controller watch (λ w. w)
watch-Keeps = record {
  of_new = λ name n w. refl;
  of_watch = λ x w. with_watch-watch_from x.source x w;
}

watches-add_example :
    let (out, w) = add new_controller watch [] in
    ((n : ℕ) × (w ≡ take n watched)) × Returns (λ _. w ≡ watched) out
watches-add_example = watches-add new_controller watch (λ w. w) watch-Keeps []
