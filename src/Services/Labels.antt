-- ===== src/Services/Labels.antt =====
-- The labels of the pods and the selectors of the services. `createHeadLessPodDiscoverySvc` and
-- `createOrGetService` write into the map of base labels that they are given, and the pods are
-- labelled from that map later.
use steerd_presto_operator.Base.{◌≡◌, arith}
use steerd_presto_operator.Base.Dict.{insert}
use steerd_presto_operator.Exec.{◌>>=◌}
use steerd_presto_operator.Platform.{Platform}
use steerd_presto_operator.Session.{Session, call, need_short, put_label}
use steerd_presto_operator.Services.{
  create_head_less_pod_discovery_svc, create_or_get_service, get_service,
}

module _ (p : Platform) (s : Session p) where
  pub base_labels-headless :
      (create_head_less_pod_discovery_svc p s).1.base_labels
      ≡ insert "pod-discovery" s.presto.status.uuid s.base_labels
  unfolding create_head_less_pod_discovery_svc ◌>>=◌ call need_short put_label
  base_labels-headless = ground arith

  pub presto-headless : (create_head_less_pod_discovery_svc p s).1.presto ≡ s.presto
  unfolding create_head_less_pod_discovery_svc ◌>>=◌ call need_short put_label
  presto-headless = ground arith

  pub base_labels-service :
      (create_or_get_service p s).1.base_labels
      ≡ insert "external-presto-svc" s.presto.status.uuid s.base_labels
  unfolding create_or_get_service get_service ◌>>=◌ call need_short put_label
  base_labels-service = ground arith
