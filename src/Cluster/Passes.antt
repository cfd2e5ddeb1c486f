-- ===== src/Cluster/Passes.antt =====
-- Passes over one Presto object, as `Reconcile` makes them: each reads the object anew, and finds it
-- as it was but for its status, of which only the identifier stays.
use steerd_presto_operator.Base.{
  ℕ, zero, suc, ◌-◌, ◌≤◌, ◌≡◌, refl, sym, ap, ◌∙◌, Bool, List, [], ◌∷◌, arith,
}
use steerd_presto_operator.Exec.{done, ok, pure, gets, ◌>>=◌}
use steerd_presto_operator.Kube.{NamespacedName}
use steerd_presto_operator.Resource.{Presto, PrestoStatus}
use steerd_presto_operator.Platform.{Platform}
use steerd_presto_operator.Session.{Session}
use steerd_presto_operator.Reconcile.{
  Reconciler, build_cluster, no_requeue, reconcile, reconcile_presto, register, set_base_labels,
}
use steerd_presto_operator.Autoscaling.{check_autoscaling_enabled}
use steerd_presto_operator.ReplicaSets.Scaling.{is_settled}
use steerd_presto_operator.Cluster.{Keeper, Objects}
use steerd_presto_operator.Cluster.Settle.{missing, missing-is_at_most, missing-settle, settle}
use steerd_presto_operator.Cluster.Progress.{Sound, Valid, progress}
use steerd_presto_operator.Cluster.Pass.{Settles-all_steps}

-- The object with another status.
abbrev pub reading : Presto → PrestoStatus → Presto
reading presto status = record presto { status = status }

-- Every `Get` of the request answers with such an object, and leaves the objects alone.
abbrev pub Served :
    (p : Platform) → Presto → (p.World → Objects p.Quantity) → NamespacedName → Type 0
Served p presto view request =
    (w : p.World)
    → (status : PrestoStatus) × (status.uuid ≡ presto.status.uuid)
      × ((p.get_presto request w).0 ≡ ok (reading presto status))
      × (view (p.get_presto request w).1 ≡ view w)

module _ (presto : Presto) (status status' : PrestoStatus) (same : status'.uuid ≡ status.uuid)
    {Quantity : Type 0} (o : Objects Quantity) where
  progress-reading : progress (reading presto status') o ≡ progress (reading presto status) o
  unfolding check_autoscaling_enabled
  progress-reading = rw same refl

  Sound-reading : Sound (reading presto status) o → Sound (reading presto status') o
  unfolding check_autoscaling_enabled is_settled
  Sound-reading sound = record {
    headless_named = rw same sound.headless_named;
    external_named = rw same sound.external_named;
    external_ports = rw same sound.external_ports;
    coordinator_config_named = rw same sound.coordinator_config_named;
    worker_config_named = rw same sound.worker_config_named;
    catalog_config_named = rw same sound.catalog_config_named;
    workers_settled = rw same sound.workers_settled;
    hpas_agree = rw same sound.hpas_agree;
    hpas_named = rw same sound.hpas_named;
  }

module _ (p : Platform) (presto : Presto) (view : p.World → Objects p.Quantity) where
  Keeper-reading :
      (status : PrestoStatus) → Keeper p presto view → Keeper p (reading presto status) view
  Keeper-reading status keeper = record {
    keeps_services = keeper.keeps_services;
    keeps_config_maps = keeper.keeps_config_maps;
    keeps_replica_sets = keeper.keeps_replica_sets;
    keeps_hpas = keeper.keeps_hpas;
    list_prestos_view = keeper.list_prestos_view;
    update_presto_status_view = keeper.update_presto_status_view;
    list_pods_view = keeper.list_pods_view;
    list_pod_metrics_view = keeper.list_pod_metrics_view;
    now_view = keeper.now_view;
    record_event_view = keeper.record_event_view;
    presto_is_listed = keeper.presto_is_listed;
  }

  reconcile_presto-settles :
      Keeper p presto view
      → Valid presto p
      → (w : p.World) → Sound presto (view w)
      → (s' : Session p) × (reconcile_presto p
            (record { world = w; presto = presto; base_labels = [] })
          ≡ (done no_requeue, s'))
        × Sound presto (view s'.world)
        × (progress presto (view s'.world) ≡ settle (progress presto (view w)))
        × (missing (progress presto (view w)) ≡ 0 → view s'.world ≡ view w)
  unfolding reconcile_presto build_cluster set_base_labels gets ◌>>=◌ pure
  reconcile_presto-settles keeper valid w sound =
      let (s', e, good, grown, same) =
        (Settles-all_steps p presto view keeper valid (view w) sound).settles
          (record {
            world = w;
            presto = presto;
            base_labels = ("clusterUUID", presto.status.uuid) ∷ ("clusterName", presto.name) ∷ [];
          })
          (record { same_presto = refl; same_labels = refl; same_objects = refl }) in
      (s', rw (valid.has_uuid) e, good, grown, same)

-- A number of passes for a request, one after the other.
abbrev pub passes : (p : Platform) → NamespacedName → ℕ → Reconciler p → Reconciler p
passes p request zero r = r
passes p request (suc n) r = passes p request n (reconcile p request r).1

module _ (p : Platform) (presto : Presto) (view : p.World → Objects p.Quantity)
    (request : NamespacedName) (keeper : Keeper p presto view)
    (valid : (status : PrestoStatus)
      → status.uuid ≡ presto.status.uuid
      → Valid (reading presto status) p)
    (served : Served p presto view request) where
  abbrev found : Reconciler p → List Bool
  found r = progress presto (view r.world)

  -- What one pass returns and leaves.
  reconcile_world :
      (r : Reconciler p)
      → Sound presto (view r.world)
      → (r' : Reconciler p) × (reconcile p request r ≡ (done no_requeue, r'))
        × Sound presto (view r'.world)
        × (found r' ≡ settle (found r))
        × (missing (found r) ≡ 0 → view r'.world ≡ view r.world)
  unfolding reconcile
  reconcile_world r sound =
      let (status, e, read, unchanged) = served r.world in
      let q = reading presto status in
      let w = (p.get_presto request r.world).1 in
      let (s', e', good, grown, same) =
        reconcile_presto-settles p q view (Keeper-reading p presto view status keeper)
          (valid status e) w
          (rw unchanged (Sound-reading presto presto.status status e (view r.world) sound)) in
      let read_progress = progress-reading presto presto.status status e in
      let before_it : progress q (view w) ≡ found r =
        read_progress (view w) ∙ ap (progress presto) unchanged in
      (
        record { world = s'.world; registered_prestos = register request q r.registered_prestos },
        rw (read, e') refl,
        Sound-reading presto status presto.status (sym e) (view s'.world) good,
        sym (read_progress (view s'.world)) ∙ grown ∙ ap settle before_it,
        λ none. same (ap missing before_it ∙ none) ∙ unchanged,
      )

  -- One pass of Reconcile refines the abstract pass: of the eight objects it builds the first one that
  -- it finds missing, and none if none is missing; what it found of the others it finds again. It
  -- returns without an error and asks for no other pass, and the cluster stays sound. The conditions:
  -- the API server keeps the objects, serves the calls that list and create them, and nobody else
  -- writes them; the reading of the resource succeeds, with the identifier that it has and whatever
  -- else its status is; the resource can be built; and the cluster is sound before.
  pub reconcile-settles :
      (r : Reconciler p)
      → Sound presto (view r.world)
      → ((reconcile p request r).0 ≡ done no_requeue)
        × Sound presto (view (reconcile p request r).1.world)
        × (progress presto (view (reconcile p request r).1.world)
            ≡ settle (progress presto (view r.world)))
  reconcile-settles r sound =
      let (r', e, good, grown, same) = reconcile_world r sound in rw e (refl, good, grown)

  reconcile-view :
      (r : Reconciler p)
      → Sound presto (view r.world)
      → missing (found r) ≡ 0
      → view (reconcile p request r).1.world ≡ view r.world
  reconcile-view r sound none =
      let (r', e, good, grown, same) = reconcile_world r sound in rw e (same none)

  -- Under the conditions of reconcile-settles passes complete a cluster: each makes up for one missing
  -- object, of which there are eight at most, so that after eight passes none is missing. The cluster
  -- stays sound.
  pub passes-missing :
      (n : ℕ) (r : Reconciler p)
      → Sound presto (view r.world)
      → Sound presto (view (passes p request n r).world)
        × (missing (progress presto (view (passes p request n r).world))
            ≡ missing (progress presto (view r.world)) - n)
        × (missing (progress presto (view r.world)) ≤ 8)
  passes-missing zero r sound = (sound, omega arith, missing-is_at_most 8 (found r) refl)
  passes-missing (suc n) r sound =
      let (_, good, grown) = reconcile-settles r sound in
      let (good', less, _) = passes-missing n (reconcile p request r).1 good in
      let one = ap missing grown ∙ missing-settle (found r) in
      (good', omega (arith, less, one), missing-is_at_most 8 (found r) refl)

  -- Under the conditions of reconcile-settles, and if no object is missing, passes leave the objects
  -- exactly as they are, however many passes there are.
  pub passes-view :
      (n : ℕ) (r : Reconciler p)
      → Sound presto (view r.world)
      → missing (progress presto (view r.world)) ≡ 0
      → view (passes p request n r).world ≡ view r.world
  passes-view zero r sound none = refl
  passes-view (suc n) r sound none =
      let (_, good, grown) = reconcile-settles r sound in
      let one = ap missing grown ∙ missing-settle (found r) in
      passes-view n (reconcile p request r).1 good (omega (arith, one, none))
      ∙ reconcile-view r sound none
