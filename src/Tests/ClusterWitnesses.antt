-- ===== src/Tests/ClusterWitnesses.antt =====
-- The theorems on building up a cluster, from an empty one on the platform that keeps its objects.
use steerd_presto_operator.Base.{ℕ, ◌-◌, ◌≤◌, ◌≡◌, refl, true, [], arith}
use steerd_presto_operator.Exec.{done}
use steerd_presto_operator.Kube.{NamespacedName}
use steerd_presto_operator.Resource.{namespaced_name}
use steerd_presto_operator.Reconcile.{Reconciler, no_requeue, reconcile}
use steerd_presto_operator.Autoscaling.{check_autoscaling_enabled}
use steerd_presto_operator.Cluster.Settle.{missing, settle}
use steerd_presto_operator.Cluster.Progress.{Sound, progress}
use steerd_presto_operator.Cluster.Passes.{passes, passes-missing, passes-view, reconcile-settles}
use steerd_presto_operator.Base.Int.{pos}
use steerd_presto_operator.Services.{external_service, headless_service}
use steerd_presto_operator.Properties.Files.{build_config_map}
use steerd_presto_operator.Catalog.{build_catalog_config_map}
use steerd_presto_operator.Pods.Build.{
  create_replica_set_for_coordinator, create_replica_set_for_worker,
}
use steerd_presto_operator.Autoscaling.{create_hpa_spec}
use steerd_presto_operator.Owners.{Builds, IsOwned, SetOwned, IsOwned-builders}
use steerd_presto_operator.Tests.{found_set, sample}
use steerd_presto_operator.Tests.Memory.{memory}
use steerd_presto_operator.Tests.Store.{
  empty, empty-Sound, on_shelf, store, store-Keeper, store-Served, store-Valid, wanted,
}

abbrev request : NamespacedName
request = namespaced_name wanted

-- The reconciler after a number of passes.
abbrev after : ℕ → Reconciler store
after n = passes store request n empty

reconcile-settles_example :
    ((reconcile store request empty).0 ≡ done no_requeue)
    × Sound wanted (on_shelf (reconcile store request empty).1.world)
    × (progress wanted (on_shelf (reconcile store request empty).1.world)
        ≡ settle (progress wanted (on_shelf empty.world)))
reconcile-settles_example =
    reconcile-settles store wanted on_shelf request store-Keeper store-Valid store-Served empty
      empty-Sound

passes-missing_example :
    Sound wanted (on_shelf (after 8).world)
    × (missing (progress wanted (on_shelf (after 8).world))
        ≡ missing (progress wanted (on_shelf empty.world)) - 8)
    × (missing (progress wanted (on_shelf empty.world)) ≤ 8)
passes-missing_example =
    passes-missing store wanted on_shelf request store-Keeper store-Valid store-Served 8 empty
      empty-Sound

-- Nothing is there at first, and everything after eight passes.
empty_missing : missing (progress wanted (on_shelf empty.world)) ≡ 8
unfolding missing check_autoscaling_enabled
empty_missing = refl

after_eight :
    Sound wanted (on_shelf (after 8).world)
    × (missing (progress wanted (on_shelf (after 8).world)) ≡ 0)
after_eight =
    let (sound, less, bound) =
      passes-missing store wanted on_shelf request store-Keeper store-Valid store-Served 8 empty
        empty-Sound in
    (sound, omega (arith, less, bound))

passes-view_example : on_shelf (passes store request 3 (after 8)).world ≡ on_shelf (after 8).world
passes-view_example =
    passes-view store wanted on_shelf request store-Keeper store-Valid store-Served 3 (after 8)
      after_eight.0 after_eight.1

IsOwned-builders_example :
    IsOwned sample (headless_service sample []).meta
    × IsOwned sample (external_service sample []).meta
    × Builds (λ cm. IsOwned sample cm.meta) (build_config_map memory sample true "conf" [])
    × IsOwned sample (build_catalog_config_map memory sample "conf" []).meta
    × Builds (SetOwned sample) (create_replica_set_for_coordinator memory sample [])
    × Builds (SetOwned sample) (create_replica_set_for_worker memory sample [] (pos 2))
    × Builds (λ hpa. IsOwned sample hpa.meta) (create_hpa_spec sample found_set [] "7")
IsOwned-builders_example = IsOwned-builders sample memory [] true "conf" (pos 2) found_set "7"
