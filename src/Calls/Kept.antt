-- ===== src/Calls/Kept.antt =====
-- The parts that send no service, no replica set and no autoscaler.
use steerd_presto_operator.Base.{String, Bool, Bool-cases, inl, inr, true, false}
use steerd_presto_operator.Exec.{Error, pure}
use steerd_presto_operator.Platform.{Call, Platform}
use steerd_presto_operator.Resource.{Presto}
use steerd_presto_operator.Names.{has_short}
use steerd_presto_operator.Session.{ask, call, eventf, ignore, need_short, set_presto}
use steerd_presto_operator.Status.{
  ClusterUpdateAction, apply_action, get_presto, send_status, update_status, update_with,
}
use steerd_presto_operator.Steps.{config_created, put_status, put_then_report}
use steerd_presto_operator.Calls.{Sent, lifted, recorded, sent}
use steerd_presto_operator.Calls.Rules.{
  Keeps, Keeps->>=, Keeps-deref, Keeps-gets, Keeps-pure, Keeps-raise, Moves-attempt, Moves-state,
  Runs-Option, Runs-if,
}

module _ (p : Platform) {I : Sent p.Quantity → Type 0} where
  pub Keeps-call :
      {A : Type 0} (c : Call p.World A) → Keeps (sent p) I (call (recorded p) (lifted c))
  unfolding call
  Keeps-call c = Moves-state _ (call (recorded p) (lifted c)) (λ s i. i)

  pub Keeps-need_short :
      (cluster_uuid : String) → Keeps (sent p) I (need_short (recorded p) cluster_uuid)
  unfolding need_short
  Keeps-need_short cluster_uuid =
      Moves-state _ _
        λ s i. elim (Bool-cases (has_short cluster_uuid)) [ inl e ↦ rw e i | inr e ↦ rw e i ]

  pub Keeps-eventf :
      (event_type reason text : String)
      → Keeps (sent p) I (eventf (recorded p) event_type reason text)
  unfolding eventf pure
  Keeps-eventf event_type reason text = record { runs = λ s i. i }

  Keeps-now : Keeps (sent p) I (ask (recorded p) (recorded p).now)
  unfolding ask pure
  Keeps-now = record { runs = λ s i. i }

  Keeps-set_presto : (presto : Presto) → Keeps (sent p) I (set_presto (recorded p) presto)
  unfolding set_presto pure
  Keeps-set_presto presto = record { runs = λ s i. i }

  Keeps-send_status :
      (aliased : Bool) (presto : Presto)
      → Keeps (sent p) I (send_status (recorded p) aliased presto)
  unfolding send_status
  Keeps-send_status aliased presto = Keeps->>= _ Keeps-now λ time.
      Keeps->>= _ (Runs-if _ aliased (Keeps-set_presto _) (Keeps-pure _ tt)) λ _.
        Keeps->>= _ (Keeps-call (p.update_presto_status _)) λ written.
          Keeps->>= _ (Runs-if _ aliased (Keeps-set_presto written) (Keeps-pure _ tt))
            λ _. Keeps-pure _ true

  Keeps-update_with :
      (action : ClusterUpdateAction p.Quantity) (aliased : Bool) (presto : Presto)
      → Keeps (sent p) I (update_with (recorded p) action aliased presto)
  unfolding update_with
  Keeps-update_with action aliased presto =
      Keeps->>= _ (Keeps-deref _ (apply_action action presto.status))
        λ (status, update). Runs-if _ update (Keeps-send_status aliased _) (Keeps-pure _ false)

  Keeps-update_status :
      (action : ClusterUpdateAction p.Quantity)
      → Keeps (sent p) I (update_status (recorded p) action)
  unfolding update_status get_presto
  Keeps-update_status action = Keeps->>= _ (Keeps-gets _ _) λ presto.
      Keeps->>= _
        (Keeps->>= _ (Keeps-call (p.list_prestos presto.namespace presto.labels))
          λ items. Keeps-pure _ _)
        λ found.
          Runs-Option _ found (Keeps-update_with action true presto)
            λ copy. Keeps-update_with action false copy

  pub Keeps-put_status :
      (action : ClusterUpdateAction p.Quantity) → Keeps (sent p) I (put_status (recorded p) action)
  unfolding put_status ignore
  Keeps-put_status action =
      Keeps->>= _ (Moves-attempt _ (Keeps-update_status action)) λ _. Keeps-pure _ tt

  pub Keeps-put_then_report :
      {A : Type 0} (text event_text : String) (e : Error)
      → Keeps (sent p) I (put_then_report (recorded p) {A = A} text event_text e)
  unfolding put_then_report
  Keeps-put_then_report text event_text e =
      Keeps->>= _ (Keeps-put_status _)
        λ _. Keeps->>= _ (Keeps-eventf "Warning" "Failed" _) λ _. Keeps-raise _ e

  pub Keeps-config_created :
      (action : ClusterUpdateAction p.Quantity) (event_text : String)
      → Keeps (sent p) I (config_created (recorded p) action event_text)
  unfolding config_created
  Keeps-config_created action event_text =
      Keeps->>= _ (Keeps-put_status _)
        λ _. Keeps->>= _ (Keeps-eventf "Normal" "Created" event_text) λ _. Keeps-pure _ true
