-- ===== src/Cluster/Services.antt =====
-- The two steps for services: each builds its service if it is missing.
use steerd_presto_operator.Base.{
  ◌∙◌, ◌≡◌, refl, true, false, not, [], ◌∷◌, ◌++◌, ◌==◌, arith, eq_iff,
}
use steerd_presto_operator.Base.Dict.{insert, lookup}
use steerd_presto_operator.Exec.{done}
use steerd_presto_operator.Kube.{Service, StringMap}
use steerd_presto_operator.Resource.{Presto}
use steerd_presto_operator.Platform.{Platform}
use steerd_presto_operator.Services.{create_head_less_pod_discovery_svc, headless_service}
use steerd_presto_operator.Steps.{headless_service_config, headless_service_created}
use steerd_presto_operator.Reconcile.Labels.{headless_labels}
use steerd_presto_operator.Cluster.{Keeper, Objects, SameMeta, any, is_empty, name_is_free}
use steerd_presto_operator.Names.{
  short, get_external_service_label, get_external_service_name, get_pod_discovery_service_label,
  get_pod_discovery_service_name,
}
use steerd_presto_operator.Names.Distinct.{append_distinct, append_nonempty}
use steerd_presto_operator.Cluster.Runs.{
  Makes, Runs, Runs->>=, Runs-attempt, Runs-labels, Runs-list, Runs-need_short, Runs-presto,
  Runs-pure, Runs-put_label,
}
use steerd_presto_operator.Cluster.Makes.{
  Makes->>=, Makes->>=_Runs, Makes-attempt, Makes-create, Makes-presto, Makes-labels, Makes-pure,
}
use steerd_presto_operator.Cluster.Reports.{Runs-eventf, Runs-put_status}
use steerd_presto_operator.Cluster.Settle.{mark}
use steerd_presto_operator.Cluster.Progress.{
  Sound, Valid, is_external, is_headless, is_named, Built, selects-SameMeta, named-SameMeta,
}
use steerd_presto_operator.Cluster.Found.{
  any-false, follows, keep_none, keep_some, all-grows, any-found, any-same,
}

module _ {Quantity : Type 0} (presto : Presto) (o : Objects Quantity) where
  abbrev pub with_service : Service → Objects Quantity
  with_service y = record o { services = o.services ++ y ∷ [] }

  pub Sound-with_service :
      (y : Service)
      → follows
          (is_named presto (get_pod_discovery_service_name presto.status.uuid) y.meta)
          (is_headless presto y.meta)
        ≡ true
      → follows
          (is_named presto (get_external_service_name presto.status.uuid) y.meta)
          (is_external presto y.meta)
        ≡ true
      → follows (is_external presto y.meta) (not (is_empty y.spec.ports)) ≡ true
      → Sound presto o
      → Sound presto (with_service y)
  Sound-with_service y h h' h'' sound = record {
    headless_named = all-grows _ o.services y sound.headless_named h;
    external_named = all-grows _ o.services y sound.external_named h';
    external_ports = all-grows _ o.services y sound.external_ports h'';
    coordinator_config_named = sound.coordinator_config_named;
    worker_config_named = sound.worker_config_named;
    catalog_config_named = sound.catalog_config_named;
    workers_settled = sound.workers_settled;
    hpas_agree = sound.hpas_agree;
    hpas_named = sound.hpas_named;
  }

module _ (p : Platform) (presto : Presto) (view : p.World → Objects p.Quantity)
    (keeper : Keeper p presto view) (valid : Valid presto p) where
  abbrev pub base : StringMap
  base = ("clusterUUID", presto.status.uuid) ∷ ("clusterName", presto.name) ∷ []

  abbrev pub with_headless : StringMap
  with_headless = headless_labels presto.status.uuid presto.name

  module _ (o : Objects p.Quantity) where
    headless_found :
        any (λ x. is_headless presto x.meta) o.services ≡ true
        → Runs p presto view base o
            (create_head_less_pod_discovery_svc p)
            (done false)
            with_headless
            o
    unfolding create_head_less_pod_discovery_svc insert
    headless_found h =
        let (y, rest, e) = keep_some (λ x. is_headless presto x.meta) o.services h in
        Runs-presto _ (
          Runs->>= _ (Runs-put_label _ _) (
            Runs-labels _ (
              Runs->>= _ (Runs-need_short _ valid.is_short)
                (Runs->>= _ (Runs-list keeper.keeps_services _ _) (rw e (Runs-pure false))))))

    -- The headless service is there.
    pub headless-kept :
        any (λ x. is_headless presto x.meta) o.services ≡ true
        → Runs p presto view base o (headless_service_config p) (done false) with_headless o
    unfolding headless_service_config
    headless-kept h = Runs->>= _ (Runs-attempt (headless_found h)) (Runs-pure false)

    abbrev headless : Service
    headless = headless_service presto with_headless

    is_headless-headless : is_headless presto headless.meta ≡ true
    unfolding headless_service lookup
    is_headless-headless = ground (
      arith,
      eq_iff presto.namespace presto.namespace,
      eq_iff presto.status.uuid presto.status.uuid,
    )

    is_external-headless : is_external presto headless.meta ≡ false
    unfolding headless_service lookup
    is_external-headless = ground arith

    headless_is_free :
        Sound presto o
        → any (λ x. is_headless presto x.meta) o.services ≡ false
        → name_is_free (λ x. x.meta) headless o.services ≡ true
    unfolding headless_service
    headless_is_free sound h =
        let free =
          any-false
            (λ x. is_named presto (get_pod_discovery_service_name presto.status.uuid) x.meta)
            (λ x. is_headless presto x.meta) o.services sound.headless_named h in
        rw free (ground arith)

    headless_is_named : (headless.meta.name == "") ≡ false
    unfolding headless_service get_pod_discovery_service_name
    headless_is_named = append_nonempty "pod-discovery-" (short presto.status.uuid) refl

    is_named-headless :
        is_named presto (get_external_service_name presto.status.uuid) headless.meta ≡ false
    unfolding headless_service get_pod_discovery_service_name get_external_service_name
    is_named-headless =
        let distinct =
          append_distinct "pod-discovery-" "external-presto-svc-" (short presto.status.uuid) refl in
        ground (arith, distinct)

    module _ (y : Service) (same : SameMeta headless.meta y.meta) where
      headless_grown : Sound presto o → Built presto 0 o true (with_service presto o y)
      unfolding mark
      headless_grown sound =
          let found : is_headless presto y.meta ≡ true =
            rw
              (selects-SameMeta presto.namespace
                (get_pod_discovery_service_label presto.status.uuid ∷ []) same)
              is_headless-headless in
          let other : is_external presto y.meta ≡ false =
            rw
              (selects-SameMeta presto.namespace
                (get_external_service_label presto.status.uuid ∷ []) same)
              is_external-headless in
          let unnamed =
            named-SameMeta presto.namespace (get_external_service_name presto.status.uuid)
              headless_is_named same
            ∙ is_named-headless in
          (
            refl,
            Sound-with_service presto o y (rw found (ground arith)) (rw (other, unnamed) refl)
                (rw other refl) sound,
            rw
                (
                  any-found (λ x. is_headless presto x.meta) o.services y found,
                  any-same (λ x. is_external presto x.meta) o.services y other,
                )
                refl,
          )

    headless_made :
        any (λ x. is_headless presto x.meta) o.services ≡ false
        → Sound presto o
        → Makes p presto view base o
            (create_head_less_pod_discovery_svc p)
            with_headless
            (Built presto 0 o)
    unfolding create_head_less_pod_discovery_svc insert
    headless_made h sound =
        let e = keep_none (λ x. is_headless presto x.meta) o.services h in
        Makes-presto _ (
          Makes->>=_Runs _ (Runs-put_label _ _) (
            Makes-labels _ (
              Makes->>=_Runs _ (Runs-need_short _ valid.is_short) (
                Makes->>=_Runs _ (Runs-list keeper.keeps_services _ _) (
                  rw e (
                    Makes->>= _
                      (Makes-create keeper.keeps_services headless (headless_is_free sound h))
                      λ y o' (same, _, e').
                        rw e' (Makes-pure true (headless_grown y same sound))))))))

    Runs-headless_service_created :
        {l : StringMap} → Runs p presto view l o (headless_service_created p) (done tt) l o
    unfolding headless_service_created
    Runs-headless_service_created =
        Runs-presto _ (Runs->>= _ (Runs-eventf keeper _ _ _) (Runs-put_status keeper _ refl))

  -- The headless service is missing, and is built.
  pub headless-Built :
      (o : Objects p.Quantity)
      → any (λ x. is_headless presto x.meta) o.services ≡ false
      → Sound presto o
      → Makes p presto view base o (headless_service_config p) with_headless (Built presto 0 o)
  unfolding headless_service_config
  headless-Built o h sound =
      Makes->>= _ (Makes-attempt (headless_made o h sound)) λ r o' (made, e, built).
        rw (e, built.0)
          (Makes->>=_Runs _ (Runs-headless_service_created o')
            (Makes-pure true (refl, built.1, built.2)))
