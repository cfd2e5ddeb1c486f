-- ===== src/Session.antt =====
-- One call of `Reconcile` at work: the world outside, the Presto object and the base labels. Both
-- are shared: `baseLabels` is one Go map that the steps pass on and write to, and `presto` one
-- pointer.
use steerd_presto_operator.Base.{String, if◌then◌else◌}
use steerd_presto_operator.Base.Dict.{insert}
use steerd_presto_operator.Exec.{Error, Exec, pure, panic, attempt, of_result, ◌>>◌}
use steerd_presto_operator.Exec.Fallible.{api_error, not_found}
use steerd_presto_operator.Kube.{StringMap}
use steerd_presto_operator.Resource.{Presto}
use steerd_presto_operator.Platform.{Call, Platform}
use steerd_presto_operator.Names.{has_short}

pub record Session (p : Platform) : Type 0 where
  pub world : p.World
  pub presto : Presto
  pub base_labels : StringMap

module _ (p : Platform) where
  abbrev pub Op : Type 0 → Type 0
  Op A = Exec (Session p) A

  unfoldable pub call : {A : Type 0} → Call p.World A → Op A
  call c s = let (r, w) = c s.world in (of_result r, record s { world = w })

  -- A call that cannot fail.
  unfoldable pub ask : {A : Type 0} → (p.World → A × p.World) → Op A
  unfolding pure
  ask c s = let (a, w) = c s.world in pure a (record s { world = w })

  unfoldable pub set_presto : Presto → Op (Unit {0})
  unfolding pure
  set_presto presto s = pure tt (record s { presto = presto })

  -- `lbls[k] = v`
  unfoldable pub put_label : String × String → Op (Unit {0})
  unfolding pure insert
  put_label (k, v) s = pure tt (record s { base_labels = insert k v s.base_labels })

  -- `r.eventRecorder.Eventf(presto, type, reason, …)`
  unfoldable pub eventf : String → String → String → Op (Unit {0})
  unfolding pure
  eventf event_type reason text s =
      pure tt (record s { world = p.record_event s.presto event_type reason text s.world })

  -- The panic of `clusterUUID[:8]`.
  unfoldable pub need_short : String → Op (Unit {0})
  unfolding pure panic
  need_short cluster_uuid s = if has_short cluster_uuid then pure tt s else panic s

  -- A call whose results the caller drops.
  unfoldable pub ignore : {A : Type 0} → Op A → Op (Unit {0})
  ignore m = do attempt m; pure tt

  -- `errors.NewNotFound(resource, "")`
  unfoldable pub new_not_found : String → Error
  new_not_found resource = api_error not_found (p.not_found_message resource "")
