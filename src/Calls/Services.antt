-- ===== src/Calls/Services.antt =====
-- The services that the two steps for services send to be created.
use steerd_presto_operator.Base.{
  ◌≡◌, refl, Bool, true, false, Option, none, some, List, [], ◌∷◌, ◌==◌,
}
use steerd_presto_operator.Base.Dict.{insert}
use steerd_presto_operator.Exec.{pure, gets, ◌>>=◌, ◌>>◌}
use steerd_presto_operator.Kube.{Service, StringMap}
use steerd_presto_operator.Platform.{Platform}
use steerd_presto_operator.Names.{
  get_coordinator_pod_label, get_external_service_label, get_pod_discovery_service_label,
}
use steerd_presto_operator.Resource.{Presto}
use steerd_presto_operator.Session.{Op, Session, call, need_short, put_label}
use steerd_presto_operator.Services.{
  create_head_less_pod_discovery_svc, create_or_get_service, external_service, first, get_service,
  headless_service,
}
use steerd_presto_operator.Calls.{Sent, recorded, sent}
use steerd_presto_operator.Calls.Rules.{
  Keeps, Keeps->>=, Keeps-gets, Keeps-pure, Keeps-raise, Moves-state, Runs-List, Runs-Option,
  Ends-state, Runs-if,
}
use steerd_presto_operator.Calls.Kept.{Keeps-call, Keeps-need_short}

-- All services have this selector.
abbrev pub HasSelector : StringMap → List Service → Type 0
HasSelector selector [] = Unit {0}
HasSelector selector (o ∷ services) = (o.spec.selector ≡ selector) × HasSelector selector services

module _ (p : Platform) where
  abbrev pub Selector : StringMap → Sent p.Quantity → Type 0
  Selector selector l = HasSelector selector l.services

  module _ {selector : StringMap} where
    Keeps-create :
        (o : Service)
        → o.spec.selector ≡ selector
        → Keeps (sent p) (Selector selector) (call (recorded p) ((recorded p).services.create o))
    unfolding call
    Keeps-create o e = Moves-state _ _ λ s i. (e, i)

    Keeps-get_service :
        (lbls : StringMap) → Keeps (sent p) (Selector selector) (get_service (recorded p) lbls)
    unfolding get_service
    Keeps-get_service lbls = Keeps->>= _ (Keeps-gets _ _) λ presto.
        Keeps->>= _ (Keeps-call p (p.services.list presto.namespace lbls))
          λ services. Keeps-pure _ (first services)

    -- The part of each step after the label is put.
    headless_rest :
        (presto : Presto) (lbls : StringMap)
        → (headless_service presto lbls).spec.selector ≡ selector
        → Keeps (sent p) (Selector selector) (
            need_short (recorded p) presto.status.uuid
            >> (call (recorded p) (
                  (recorded p).services.list presto.namespace
                    (get_pod_discovery_service_label presto.status.uuid ∷ []))
                >>= λ old_service. elim old_service [
                  | [] ↦
                      call
                        (recorded p)
                        ((recorded p).services.create (headless_service presto lbls))
                      >> pure true
                  | _ ∷ _ ↦ pure false
                ]))
    headless_rest presto lbls e = Keeps->>= _ (Keeps-need_short p presto.status.uuid) λ _.
        Keeps->>= _ (Keeps-call p (p.services.list presto.namespace _)) λ old_service.
          Runs-List _ old_service
            (Keeps->>= _ (Keeps-create (headless_service presto lbls) e) λ _. Keeps-pure _ true)
            λ o services. Keeps-pure _ false

    external_rest :
        (presto : Presto) (lbls : StringMap)
        → (external_service presto lbls).spec.selector ≡ selector
        → Keeps (sent p) {A = Option Service × Bool} (Selector selector) (
            need_short (recorded p) presto.status.uuid
            >> (get_service (recorded p) (get_external_service_label presto.status.uuid ∷ [])
                >>= λ ret_service. elim ret_service [
                  | some found ↦ pure (some found, false)
                  | none ↦
                      call
                        (recorded p)
                        ((recorded p).services.create (external_service presto lbls))
                      >> (get_service (recorded p) lbls >>= λ created_service.
                          pure (created_service, true))
                ]))
    external_rest presto lbls e = Keeps->>= _ (Keeps-need_short p presto.status.uuid) λ _.
        Keeps->>= _ (Keeps-get_service _) λ ret_service.
          Runs-Option _ ret_service
            (Keeps->>= _ (Keeps-create (external_service presto lbls) e) λ _.
              Keeps->>= _ (Keeps-get_service lbls)
                λ created_service. Keeps-pure _ (created_service, true))
            λ found. Keeps-pure _ (some found, false)

  after_Keeps :
      {A : Type 0} (selector : StringMap) {m : Op (recorded p) A}
      → Keeps (sent p) (Selector selector) m
      → (s : Session (recorded p)) → (sent p s).services ≡ []
      → Selector selector (sent p (m s).1)
  after_Keeps selector {m} k s e = Ends-state (Selector selector) (m s).0 (k.runs s (rw e tt))

  -- The headless service selects by the base labels, as they are when its own has been put.
  pub HasSelector-headless :
      (s : Session (recorded p))
      → (sent p s).services ≡ []
      → HasSelector
          (insert "pod-discovery" s.presto.status.uuid s.base_labels)
          (sent p (create_head_less_pod_discovery_svc (recorded p) s).1).services
  unfolding create_head_less_pod_discovery_svc headless_service put_label gets pure ◌>>=◌
  HasSelector-headless s e =
      let lbls = insert "pod-discovery" s.presto.status.uuid s.base_labels in
      after_Keeps lbls (headless_rest s.presto lbls refl) (record s { base_labels = lbls }) e

  -- The external service selects by the coordinator's label.
  pub HasSelector-external :
      (s : Session (recorded p))
      → (sent p s).services ≡ []
      → HasSelector
          (get_coordinator_pod_label s.presto.status.uuid ∷ [])
          (sent p (create_or_get_service (recorded p) s).1).services
  unfolding create_or_get_service external_service put_label gets pure ◌>>=◌
  HasSelector-external s e =
      let selector = get_coordinator_pod_label s.presto.status.uuid ∷ [] in
      after_Keeps selector
        (Runs-if (sent p) (s.presto.spec.service.type == "ExternalName") (Keeps-raise (sent p) _)
          (Keeps->>= (sent p) (Keeps-gets (sent p) _) λ lbls. external_rest s.presto lbls refl))
        (record s { base_labels = insert "external-presto-svc" s.presto.status.uuid s.base_labels })
        e
