-- ===== src/Cluster/External.antt =====
-- The step for the external service: what it reads and reports, and that it keeps a service that is
-- there.
use steerd_presto_operator.Base.{
  ◌≡◌, refl, Bool, true, false, not, Option, some, List, [], ◌∷◌, ◌==◌, arith, Bool-cases, inl, inr,
}
use steerd_presto_operator.Base.Dict.{insert}
use steerd_presto_operator.Exec.{done}
use steerd_presto_operator.Kube.{ObjectMeta, Service, StringMap}
use steerd_presto_operator.Resource.{Presto}
use steerd_presto_operator.Platform.{Platform}
use steerd_presto_operator.Resource.ClusterState
use steerd_presto_operator.Status.{ClusterUpdateAction, no_action}
use steerd_presto_operator.Services.{create_or_get_service, first, get_service}
use steerd_presto_operator.Steps.{put_status, service_config, service_found}
use steerd_presto_operator.Reconcile.Labels.{headless_labels}
use steerd_presto_operator.Cluster.{Keeper, Objects, all, any, is_empty, keep, selects}
use steerd_presto_operator.Cluster.Runs.{
  Runs, Runs->>=, Runs-attempt, Runs-labels, Runs-list, Runs-need_short, Runs-presto, Runs-pure,
  Runs-put_label, Runs-if,
}
use steerd_presto_operator.Cluster.Reports.{Runs-eventf, Runs-put_status}
use steerd_presto_operator.Cluster.Safe.{service_is_safe}
use steerd_presto_operator.Cluster.Progress.{Sound, Valid, is_external, is_shared, labels}
use steerd_presto_operator.Cluster.Found.{all-follows, follows, keep_first}

-- The first service that is found has ports, if all that are found have.
first_is_safe :
    (f : Service → Bool) (xs : List Service)
    → all (λ x. follows (f x) (not (is_empty x.spec.ports))) xs ≡ true
    → service_is_safe (first (keep f xs)) ≡ true
first_is_safe f [] h = refl
first_is_safe f (x ∷ xs) h = elim (Bool-cases (f x)) [
  | inl e ↦ rw e (ground (arith, e, h))
  | inr e ↦ rw e (first_is_safe f xs (ground (arith, e, h)))
]

is_external-is_shared :
    (presto : Presto) (meta : ObjectMeta)
    → is_shared presto meta ≡ true
    → is_external presto meta ≡ true
is_external-is_shared presto meta h = ground (arith, h)

module _ (p : Platform) (presto : Presto) (view : p.World → Objects p.Quantity)
    (keeper : Keeper p presto view) (valid : Valid presto p) where
  abbrev with_headless : StringMap
  with_headless = headless_labels presto.status.uuid presto.name

  module _ (o : Objects p.Quantity) where
    pub relisted_is_safe :
        Sound presto o
        → service_is_safe (first (keep (λ x. is_shared presto x.meta) o.services)) ≡ true
    relisted_is_safe sound =
        first_is_safe (λ x. is_shared presto x.meta) o.services
          (all-follows (λ x. is_external presto x.meta) (λ x. is_shared presto x.meta)
            (λ x. not (is_empty x.spec.ports)) o.services (λ x. is_external-is_shared presto x.meta)
            sound.external_ports)

    abbrev found_action : Option Service → ClusterUpdateAction p.Quantity
    found_action service = record no_action {
      service = service;
      cluster_state = ClusterState.pending;
    }

    pub Runs-service_found :
        (service : Option Service) (created : Bool)
        → service_is_safe service ≡ true
        → Runs p presto view
            (labels presto)
            o
            (service_found p service created)
            (done tt)
            (labels presto)
            o
    unfolding service_found
    Runs-service_found service true safe = Runs-presto _ (
        Runs->>= _ (Runs-eventf keeper _ _ _)
          (Runs-put_status keeper (found_action service) (rw safe refl)))
    Runs-service_found service false safe = Runs-presto _ (
        Runs->>= _ (Runs-pure tt) (
          Runs-if (presto.status.coordinator_address == "") (put_status p (found_action service))
            (Runs-put_status keeper (found_action service) (rw safe refl))))

    pub Runs-get_service :
        (l selector : StringMap)
        → Runs p presto view l o
            (get_service p selector)
            (done (first (keep (λ x. selects presto.namespace selector x.meta) o.services)))
            l
            o
    unfolding get_service
    Runs-get_service l selector =
        Runs-presto _ (Runs->>= _ (Runs-list keeper.keeps_services _ _) (Runs-pure _))

    external_found :
        any (λ x. is_external presto x.meta) o.services ≡ true
        → Sound presto o
        → (y : Service) × Runs p presto view with_headless o
            (create_or_get_service p)
            (done (some y, false))
            (labels presto)
            o
          × (service_is_safe (some y) ≡ true)
    unfolding create_or_get_service get_service insert
    external_found h sound =
        let (y, rest, e, safe) =
          keep_first (λ x. is_external presto x.meta) (λ x. not (is_empty x.spec.ports)) o.services
            sound.external_ports h in
        (
          y,
          Runs-presto _ (
              Runs->>= _ (Runs-put_label _ _) (
                rw (valid.has_type) (
                  Runs-labels _ (
                    Runs->>= _ (Runs-need_short _ valid.is_short)
                      (Runs->>= _ (Runs-get_service _ _) (rw e (Runs-pure (some y, false)))))))),
          safe,
        )

    -- The external service is there.
    pub external-kept :
        any (λ x. is_external presto x.meta) o.services ≡ true
        → Sound presto o
        → Runs p presto view with_headless o (service_config p) (done false) (labels presto) o
    unfolding service_config
    external-kept h sound =
        let (y, runs, safe) = external_found h sound in
        Runs->>= _ (Runs-attempt runs)
          (Runs->>= _ (Runs-service_found (some y) false safe) (Runs-pure false))
