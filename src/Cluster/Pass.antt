-- ===== src/Cluster/Pass.antt =====
-- One pass over a cluster: it builds the first object that is missing, as the abstract pass does.
use steerd_presto_operator.Base.{
  ℕ, suc, ◌≡◌, refl, Bool, true, false, List, [], ◌∷◌, arith, Bool-cases, inl, inr,
}
use steerd_presto_operator.Exec.{done, pure, ◌>>=◌}
use steerd_presto_operator.Kube.{ReplicaSet, StringMap}
use steerd_presto_operator.Resource.{Presto}
use steerd_presto_operator.Platform.{Platform}
use steerd_presto_operator.Session.{Op, Session}
use steerd_presto_operator.Steps.{
  catalog_config, coordinator_config, headless_service_config, service_config, worker_config,
}
use steerd_presto_operator.Steps.Sets.{coordinator_replicaset, hpa_replicaset}
use steerd_presto_operator.Reconcile.{Answer, no_requeue, phase_status, then_continue, worker_steps}
use steerd_presto_operator.Cluster.{Keeper, Objects}
use steerd_presto_operator.Cluster.Runs.{At, Makes, Runs}
use steerd_presto_operator.Cluster.Settle.{
  before, before-suc, is_built, missing, missing-is_built, mark-settle, settle, settle-before,
}
use steerd_presto_operator.Cluster.Progress.{Built, Sound, Valid, is_given, labels, progress}
use steerd_presto_operator.Cluster.Services.{headless-Built, headless-kept}
use steerd_presto_operator.Cluster.ExternalBuilt.{external-Built}
use steerd_presto_operator.Cluster.External.{external-kept}
use steerd_presto_operator.Cluster.CatalogConfig.{catalog_config-Built, catalog_config-kept}
use steerd_presto_operator.Cluster.CoordinatorConfig.{
  coordinator_config-Built, coordinator_config-kept,
}
use steerd_presto_operator.Cluster.WorkerConfig.{worker_config-Built, worker_config-kept}
use steerd_presto_operator.Cluster.Coordinator.{coordinator_set-Built, coordinator_set-kept}
use steerd_presto_operator.Cluster.Workers.{worker_set-Built, worker_set-kept}
use steerd_presto_operator.Cluster.HpaStep.{hpa-Built, hpa-kept}
use steerd_presto_operator.Cluster.Phase.{Runs-phase_status}

module _ (p : Platform) (presto : Presto) (view : p.World → Objects p.Quantity)
    (o : Objects p.Quantity) where
  -- From these labels, and the objects that the pass found, its rest ends as the abstract pass does.
  pub record Settles (l : StringMap) (m : Op p Answer) : Type 0 where
    pub settles :
        (s : Session p)
        → At p presto view l o s
        → (s' : Session p) × (m s ≡ (done no_requeue, s'))
          × Sound presto (view s'.world)
          × (progress presto (view s'.world) ≡ settle (progress presto o))
          × (missing (progress presto o) ≡ 0 → view s'.world ≡ o)

module _ {p : Platform} {presto : Presto} {view : p.World → Objects p.Quantity}
    {o : Objects p.Quantity} {l l' : StringMap} where
  Settles-kept :
      (step : Op p Bool) (rest : Op p Answer)
      → Runs p presto view l o step (done false) l' o
      → Settles p presto view o l' rest
      → Settles p presto view o l (then_continue p step rest)
  unfolding then_continue ◌>>=◌
  Settles-kept step rest r k = record {
    settles = λ s h.
        let (s', e, h') = r.runs s h in
        let (s'', e', sound, grown, same) = k.settles s' h' in (s'', rw e e', sound, grown, same);
  }

  Settles-Built :
      (n : ℕ) (step : Op p Bool) (rest : Op p Answer)
      → before n (progress presto o) ≡ true
      → is_built n (progress presto o) ≡ false
      → Makes p presto view l o step l' (Built presto n o)
      → Settles p presto view o l (then_continue p step rest)
  unfolding then_continue ◌>>=◌ pure
  Settles-Built n step rest h0 k made = record {
    settles = λ s h.
        let (changed, o', s', e, h', (is_changed, sound, grown)) = made.makes s h in
        (
          s',
          rw (e, is_changed) refl,
          rw h'.same_objects sound,
          rw (h'.same_objects, grown, mark-settle n (progress presto o) h0 k) refl,
          λ none. absurd (missing-is_built n (progress presto o) k none),
        );
  }

  -- One of the steps, the objects of the steps before it being there.
  Settles-step :
      (n : ℕ) (step : Op p Bool) (rest : Op p Answer)
      → before n (progress presto o) ≡ true
      → (is_built n (progress presto o) ≡ true → Runs p presto view l o step (done false) l' o)
      → (is_built n (progress presto o) ≡ false
          → Makes p presto view l o step l' (Built presto n o))
      → (before (suc n) (progress presto o) ≡ true → Settles p presto view o l' rest)
      → Settles p presto view o l (then_continue p step rest)
  Settles-step n step rest h kept built k = elim (Bool-cases (is_built n (progress presto o))) [
    | inl e ↦ Settles-kept step rest (kept e) (k (before-suc n (progress presto o) h e))
    | inr e ↦ Settles-Built n step rest h e (built e)
  ]

module _ (p : Platform) (presto : Presto) (view : p.World → Objects p.Quantity)
    (keeper : Keeper p presto view) (valid : Valid presto p) (o : Objects p.Quantity)
    (sound : Sound presto o) where
  abbrev found : List Bool
  found = progress presto o

  Settles-phase_status :
      (y : ReplicaSet p.Quantity)
      → is_given y.replicas ≡ true
      → before 8 found ≡ true
      → Settles p presto view o (labels presto) (phase_status p y)
  Settles-phase_status y given h = record {
    settles = λ s at.
        let (s', e, at') = (Runs-phase_status keeper valid y given).runs s at in
        (
          s',
          e,
          rw at'.same_objects sound,
          rw (at'.same_objects, settle-before 8 found refl h) refl,
          λ _. at'.same_objects,
        );
  }

  Settles-worker_steps :
      before 6 found ≡ true → Settles p presto view o (labels presto) (worker_steps p)
  unfolding worker_steps ◌>>=◌ pure
  Settles-worker_steps h = elim (Bool-cases (is_built 6 found)) [
    | inl e ↦
        let (y, runs, given) = worker_set-kept p presto view keeper o e sound in
        let rest =
          Settles-step 7 (hpa_replicaset p y) (phase_status p y) (before-suc 6 found h e)
            (λ e'. hpa-kept p presto view keeper valid o y e' sound)
            (λ e'. hpa-Built p presto view keeper valid o y e' sound)
            (Settles-phase_status y given) in
        record {
          settles = λ s at.
              let (s', e', at') = runs.runs s at in
              let (s'', e'', good, grown, same) = rest.settles s' at' in
              (s'', rw e' e'', good, grown, same);
        }
    | inr e ↦ record {
      settles = λ s at.
          let ((changed, y), o', s', e', at', (is_changed, good, grown)) =
            (worker_set-Built p presto view keeper o valid e sound).makes s at in
          (
            s',
            rw (e', is_changed) refl,
            rw at'.same_objects good,
            rw (at'.same_objects, grown, mark-settle 6 found h e) refl,
            λ none. absurd (missing-is_built 6 found e none),
          );
    }
  ]

  Settles-sets :
      before 5 found ≡ true
      → Settles p presto view o
          (labels presto)
          (then_continue p (coordinator_replicaset p) (worker_steps p))
  Settles-sets h =
      Settles-step 5 (coordinator_replicaset p) (worker_steps p) h
        (coordinator_set-kept p presto view keeper o)
        (λ e. coordinator_set-Built p presto view keeper o valid e sound) Settles-worker_steps

  abbrev config_steps : Op p Answer
  config_steps = then_continue p (coordinator_config p) (
      then_continue p (worker_config p) (
        then_continue p (catalog_config p)
          (then_continue p (coordinator_replicaset p) (worker_steps p))))

  Settles-configs : before 2 found ≡ true → Settles p presto view o (labels presto) config_steps
  Settles-configs h =
      Settles-step 2 (coordinator_config p) _ h
        (coordinator_config-kept p presto view keeper valid o)
        (λ e. coordinator_config-Built p presto view keeper valid o e sound)
        λ h3.
          Settles-step 3 (worker_config p) _ h3 (worker_config-kept p presto view keeper valid o)
            (λ e. worker_config-Built p presto view keeper valid o e sound)
            λ h4.
              Settles-step 4 (catalog_config p) _ h4
                (catalog_config-kept p presto view keeper valid o)
                (λ e. catalog_config-Built p presto view keeper valid o e sound) Settles-sets

  abbrev all_steps : Op p Answer
  all_steps =
      then_continue p (headless_service_config p) (then_continue p (service_config p) config_steps)

  pub Settles-all_steps :
      Settles p presto view o
        (("clusterUUID", presto.status.uuid) ∷ ("clusterName", presto.name) ∷ [])
        all_steps
  Settles-all_steps =
      Settles-step 0 (headless_service_config p) _ refl (headless-kept p presto view keeper valid o)
        (λ e. headless-Built p presto view keeper valid o e sound)
        λ h1.
          Settles-step 1 (service_config p) config_steps h1
            (λ e. external-kept p presto view keeper valid o e sound)
            (λ e. external-Built p presto view keeper valid o (ground (arith, h1)) e sound)
            Settles-configs
