-- ===== src/Spending/Reads.antt =====
-- The parts of `Reconcile` that write none of the four kinds of objects: events, the status, and
-- what is read from the cluster.
use steerd_presto_operator.Base.{Bool-cases, inl, inr, String, ℕ, Bool, arith}
use steerd_presto_operator.Exec.{Error}
use steerd_presto_operator.Names.{has_short}
use steerd_presto_operator.Resource.{Presto}
use steerd_presto_operator.Platform.{Platform}
use steerd_presto_operator.Session.{Op, ignore, eventf, need_short, put_label, set_presto}
use steerd_presto_operator.Status.{
  ClusterUpdateAction, get_presto, send_status, update_status, update_with,
}
use steerd_presto_operator.Steps.{put_status, put_then_report, report_then_put}
use steerd_presto_operator.Spending.{Counts, Quiet, Spends, writes}
use steerd_presto_operator.Spending.Rules.{
  Quiet->>=, Quiet-ask, Quiet-attempt, Quiet-call, Quiet-deref, Quiet-gets, Quiet-Option, Quiet-if,
  Quiet-pure, Spends->>=, Spends-Quiet, Spends-raise,
}

module _ (p : Platform) (count : p.World → ℕ) (law : Counts p count) where
  pub Quiet-eventf :
      (event_type reason text : String) → Quiet (writes p count) (eventf p event_type reason text)
  unfolding eventf
  Quiet-eventf event_type reason text = record {
    quiet = λ s. law.record_event_count s.presto event_type reason text s.world;
  }

  pub Quiet-set_presto : (presto : Presto) → Quiet (writes p count) (set_presto p presto)
  unfolding set_presto
  Quiet-set_presto presto = record { quiet = λ s. omega arith }

  pub Quiet-put_label : (label : String × String) → Quiet (writes p count) (put_label p label)
  unfolding put_label
  Quiet-put_label label = record { quiet = λ s. omega arith }

  pub Quiet-need_short :
      (cluster_uuid : String) → Quiet (writes p count) (need_short p cluster_uuid)
  unfolding need_short
  Quiet-need_short cluster_uuid = record {
    quiet = λ s. elim (Bool-cases (has_short cluster_uuid)) [
      | inl h ↦ rw h (omega arith)
      | inr h ↦ rw h (omega arith)
    ];
  }

  pub Quiet-ignore :
      {A : Type 0} {m : Op p A} → Quiet (writes p count) m → Quiet (writes p count) (ignore p m)
  unfolding ignore
  Quiet-ignore h = Quiet->>= (Quiet-attempt h) λ _. Quiet-pure _

  Quiet-get_presto : (presto : Presto) → Quiet (writes p count) (get_presto p presto)
  unfolding get_presto
  Quiet-get_presto presto =
      Quiet->>= (Quiet-call p count _ (law.list_prestos_count _ _)) λ _. Quiet-pure _

  Quiet-send_status :
      (aliased : Bool) (presto : Presto) → Quiet (writes p count) (send_status p aliased presto)
  unfolding send_status
  Quiet-send_status aliased presto = Quiet->>= (Quiet-ask p count _ law.now_count) λ _.
      Quiet->>= (Quiet-if aliased (Quiet-set_presto _) (Quiet-pure _)) λ _.
        Quiet->>= (Quiet-call p count _ (law.update_presto_status_count _))
          λ _. Quiet->>= (Quiet-if aliased (Quiet-set_presto _) (Quiet-pure _)) λ _. Quiet-pure _

  Quiet-update_with :
      (action : ClusterUpdateAction p.Quantity) (aliased : Bool) (presto : Presto)
      → Quiet (writes p count) (update_with p action aliased presto)
  unfolding update_with
  Quiet-update_with action aliased presto =
      Quiet->>= (Quiet-deref _)
        λ (_, update). Quiet-if update (Quiet-send_status _ _) (Quiet-pure _)

  pub Quiet-update_status :
      (action : ClusterUpdateAction p.Quantity) → Quiet (writes p count) (update_status p action)
  unfolding update_status
  Quiet-update_status action = Quiet->>= (Quiet-gets _) λ _.
      Quiet->>= (Quiet-get_presto _)
        λ found. Quiet-Option found (Quiet-update_with _ _ _) λ _. Quiet-update_with _ _ _

  pub Quiet-put_status :
      (action : ClusterUpdateAction p.Quantity) → Quiet (writes p count) (put_status p action)
  unfolding put_status
  Quiet-put_status action = Quiet-ignore (Quiet-update_status action)

  pub Spends-report_then_put :
      {A : Type 0} {before : Bool} {d : A → Bool} (text : String) (e : Error)
      → Spends (writes p count) before (report_then_put p text e) d
  unfolding report_then_put
  Spends-report_then_put text e =
      Spends->>= (Spends-Quiet (Quiet-eventf _ _ _))
        λ _. Spends->>= (Spends-Quiet (Quiet-put_status _)) λ _. Spends-raise e

  pub Spends-put_then_report :
      {A : Type 0} {before : Bool} {d : A → Bool} (text event_text : String) (e : Error)
      → Spends (writes p count) before (put_then_report p text event_text e) d
  unfolding put_then_report
  Spends-put_then_report text event_text e =
      Spends->>= (Spends-Quiet (Quiet-put_status _))
        λ _. Spends->>= (Spends-Quiet (Quiet-eventf _ _ _)) λ _. Spends-raise e
