-- ===== src/Cluster/ExternalBuilt.antt =====
-- The external service is created with the port of its resource.
use steerd_presto_operator.Base.{◌≡◌, refl, true, false, not, [], ◌∷◌, arith, eq_iff}
use steerd_presto_operator.Base.Dict.{insert, lookup}
use steerd_presto_operator.Kube.{Service, StringMap}
use steerd_presto_operator.Resource.{Presto}
use steerd_presto_operator.Platform.{Platform}
use steerd_presto_operator.Ports.{get_service_port}
use steerd_presto_operator.Ports.Laws.{get_service_port_lem}
use steerd_presto_operator.Services.{create_or_get_service, external_service}
use steerd_presto_operator.Steps.{service_config}
use steerd_presto_operator.Reconcile.Labels.{headless_labels}
use steerd_presto_operator.Cluster.{Keeper, Objects, SameMeta, any, is_empty, name_is_free}
use steerd_presto_operator.Names.{
  get_external_service_label, get_external_service_name, get_pod_discovery_service_label,
}
use steerd_presto_operator.Cluster.Runs.{Makes, Runs-need_short, Runs-put_label}
use steerd_presto_operator.Cluster.Makes.{
  Makes->>=, Makes->>=_Runs, Makes-attempt, Makes-create, Makes-presto, Makes-labels, Makes-pure,
}
use steerd_presto_operator.Cluster.Safe.{service_is_safe}
use steerd_presto_operator.Cluster.Settle.{mark}
use steerd_presto_operator.Cluster.Progress.{
  Sound, Valid, is_external, is_headless, is_named, Built, labels, selects-SameMeta,
}
use steerd_presto_operator.Cluster.Found.{any-false, keep_none, any-found}
use steerd_presto_operator.Cluster.Services.{Sound-with_service, with_service}
use steerd_presto_operator.Cluster.External.{Runs-get_service, Runs-service_found, relisted_is_safe}

has_ports : (presto : Presto) → is_empty (get_service_port presto) ≡ false
has_ports presto = let (port, e, _, _, _) = get_service_port_lem presto in rw e refl

module _ (p : Platform) (presto : Presto) (view : p.World → Objects p.Quantity)
    (keeper : Keeper p presto view) (valid : Valid presto p) where
  abbrev with_headless : StringMap
  with_headless = headless_labels presto.status.uuid presto.name

  module _ (o : Objects p.Quantity) where
    abbrev external : Service
    external = external_service presto (labels presto)

    is_external-external : is_external presto external.meta ≡ true
    unfolding external_service lookup
    is_external-external = ground (
      arith,
      eq_iff presto.namespace presto.namespace,
      eq_iff presto.status.uuid presto.status.uuid,
    )

    is_headless-external : is_headless presto external.meta ≡ true
    unfolding external_service lookup
    is_headless-external = ground (
      arith,
      eq_iff presto.namespace presto.namespace,
      eq_iff presto.status.uuid presto.status.uuid,
    )

    external_is_free :
        Sound presto o
        → any (λ x. is_external presto x.meta) o.services ≡ false
        → name_is_free (λ x. x.meta) external o.services ≡ true
    unfolding external_service
    external_is_free sound h =
        let free =
          any-false (λ x. is_named presto (get_external_service_name presto.status.uuid) x.meta)
            (λ x. is_external presto x.meta) o.services sound.external_named h in
        rw free (ground arith)

    external_has_ports :
        (y : Service)
        → is_empty y.spec.ports ≡ is_empty external.spec.ports
        → not (is_empty y.spec.ports) ≡ true
    unfolding external_service
    external_has_ports y like = rw (like, has_ports presto) refl

    external_grown :
        (y : Service)
        → SameMeta external.meta y.meta
        → is_empty y.spec.ports ≡ is_empty external.spec.ports
        → any (λ x. is_headless presto x.meta) o.services ≡ true
        → Sound presto o
        → Built presto 1 o true (with_service presto o y)
    unfolding mark
    external_grown y same like before sound =
        let found : is_external presto y.meta ≡ true =
          rw
            (selects-SameMeta presto.namespace (get_external_service_label presto.status.uuid ∷ [])
              same)
            is_external-external in
        let other : is_headless presto y.meta ≡ true =
          rw
            (selects-SameMeta presto.namespace
              (get_pod_discovery_service_label presto.status.uuid ∷ []) same)
            is_headless-external in
        (
          refl,
          Sound-with_service presto o y (rw other (ground arith)) (rw found (ground arith))
              (rw (found, external_has_ports y like) refl) sound,
          rw
              (
                any-found (λ x. is_headless presto x.meta) o.services y other,
                any-found (λ x. is_external presto x.meta) o.services y found,
                before,
              )
              refl,
        )

  external_made :
      (o : Objects p.Quantity)
      → any (λ x. is_headless presto x.meta) o.services ≡ true
      → any (λ x. is_external presto x.meta) o.services ≡ false
      → Sound presto o
      → Makes p presto view with_headless o
          (create_or_get_service p)
          (labels presto)
          (λ r o'. (service_is_safe r.0 ≡ true) × Built presto 1 o r.1 o')
  unfolding create_or_get_service insert
  external_made o before h sound =
      let e = keep_none (λ x. is_external presto x.meta) o.services h in
      Makes-presto _ (
        Makes->>=_Runs _ (Runs-put_label _ _) (
          rw (valid.has_type) (
            Makes-labels _ (
              Makes->>=_Runs _ (Runs-need_short _ valid.is_short) (
                Makes->>=_Runs _ (Runs-get_service p presto view keeper valid o _ _) (
                  rw e (
                    Makes->>= _
                      (Makes-create keeper.keeps_services (external o) (external_is_free o sound h))
                      λ y o' (same, like, e').
                        let built = external_grown o y same like before sound in
                        rw e' (
                          Makes->>=_Runs _
                            (Runs-get_service p presto view keeper valid (with_service presto o y) _
                              _)
                            (Makes-pure _ (
                              relisted_is_safe p presto view keeper valid _ built.1,
                              built,
                            ))))))))))

  -- The external service is missing, and is built.
  pub external-Built :
      (o : Objects p.Quantity)
      → any (λ x. is_headless presto x.meta) o.services ≡ true
      → any (λ x. is_external presto x.meta) o.services ≡ false
      → Sound presto o
      → Makes p presto view with_headless o (service_config p) (labels presto) (Built presto 1 o)
  unfolding service_config
  external-Built o before h sound =
      Makes->>= _ (Makes-attempt (external_made o before h sound))
        λ r o' ((service, created), e, (safe, built)). rw e (
          Makes->>=_Runs _ (Runs-service_found p presto view keeper valid o' service created safe)
            (Makes-pure created built))
