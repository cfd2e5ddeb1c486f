-- ===== src/Cluster/Phase.antt =====
-- The end of a pass: the status by the phase of the coordinator's pod. It reads pods and metrics and
-- leaves the objects alone.
use steerd_presto_operator.Base.{String, ◌≡◌, refl, Bool, true, false, ◌==◌, if◌then◌else◌}
use steerd_presto_operator.Exec.{Outcome, done, gets, pure, ◌>>=◌}
use steerd_presto_operator.Kube.{ReplicaSet, StringMap}
use steerd_presto_operator.Resource.{Presto}
use steerd_presto_operator.Platform.{Platform}
use steerd_presto_operator.Session.{Op, Session}
use steerd_presto_operator.Cpu.{get_coordinator_pod_phase, get_cpu_usage}
use steerd_presto_operator.Reconcile.{no_requeue, phase_status, ready_status, state_status}
use steerd_presto_operator.Cluster.{Keeper, Objects}
use steerd_presto_operator.Cluster.Runs.{
  At, Reads, Reads-attempt, Runs, Runs->>=, Runs->>=_Reads, Runs-need_short, Runs-pure,
}
use steerd_presto_operator.Cluster.Reports.{Runs-put_status}
use steerd_presto_operator.Cluster.Progress.{Valid, is_given}

module _ {p : Platform} {presto : Presto} {view : p.World → Objects p.Quantity} {l : StringMap}
    {o : Objects p.Quantity} where
  Runs-either :
      {A : Type 0} (b : Bool) {m n : Op p A} {out : Outcome A}
      → Runs p presto view l o m out l o
      → Runs p presto view l o n out l o
      → Runs p presto view l o (if b then m else n) out l o
  Runs-either true h k = h
  Runs-either false h k = k

  module _ {A : Type 0} where
    Reads-pure : (a : A) → Reads p presto view l o (pure a)
    unfolding pure
    Reads-pure a = record { reads = λ s h. (a, s, refl, h) }

    Reads-Runs :
        (m : Op p A) {a : A} → Runs p presto view l o m (done a) l o → Reads p presto view l o m
    Reads-Runs m {a} r = record { reads = λ s h. let (s', e, h') = r.runs s h in (a, s', e, h') }

    Reads-gets : (f : Session p → A) → Reads p presto view l o (gets f)
    unfolding gets
    Reads-gets f = record { reads = λ s h. (f s, s, refl, h) }

    known :
        {v w : Presto} {s : Session p} (f : Presto → Op p A)
        → v ≡ w
        → (a : A) × (s' : Session p) × (f w s ≡ (done a, s')) × At p presto view l o s'
        → (a : A) × (s' : Session p) × (f v s ≡ (done a, s')) × At p presto view l o s'
    known f e r = rw e r

    Reads-presto :
        (f : Presto → Op p A)
        → Reads p presto view l o (f presto)
        → Reads p presto view l o (gets (λ s. s.presto) >>= f)
    unfolding gets ◌>>=◌
    Reads-presto f r = record { reads = λ s h. known f h.same_presto (r.reads s h) }

  module _ {A B : Type 0} where
    Reads->>= :
        (m : Op p A) (f : A → Op p B)
        → Reads p presto view l o m
        → ((a : A) → Reads p presto view l o (f a))
        → Reads p presto view l o (m >>= f)
    unfolding ◌>>=◌
    Reads->>= m f r k = record {
      reads = λ s h.
          let (a, s', e, h') = r.reads s h in
          let (b, s'', e', h'') = (k a).reads s' h' in (b, s'', rw e e', h'');
    }

module _ {p : Platform} {presto : Presto} {view : p.World → Objects p.Quantity}
    (keeper : Keeper p presto view) {l : StringMap} {o : Objects p.Quantity} where
  Reads-get_coordinator_pod_phase : Reads p presto view l o (get_coordinator_pod_phase p)
  unfolding get_coordinator_pod_phase
  Reads-get_coordinator_pod_phase = Reads->>= _ _ (Reads-gets _) λ _.
      Reads->>= _ _ (Reads-gets _)
        λ _. Reads->>= _ _ (Reads-attempt _ (keeper.list_pods_view _ _)) λ _. Reads-pure _

  module _ (valid : Valid presto p) where
    Reads-get_cpu_usage :
        (is_coordinator : Bool) → Reads p presto view l o (get_cpu_usage p is_coordinator)
    unfolding get_cpu_usage
    Reads-get_cpu_usage is_coordinator = Reads-presto _ (
        Reads->>= _ _ (Reads-Runs _ (Runs-need_short _ valid.is_short))
          λ _. Reads->>= _ _ (Reads-attempt _ (keeper.list_pod_metrics_view _ _)) λ _. Reads-pure _)

    Runs-ready_status :
        (y : ReplicaSet p.Quantity)
        → is_given y.replicas ≡ true
        → Runs p presto view l o (ready_status p y) (done tt) l o
    unfolding ready_status
    Runs-ready_status y given = Runs->>=_Reads _ (Reads-get_cpu_usage false) λ worker_cpu.
        Runs->>=_Reads _ (Reads-get_cpu_usage true)
          λ coordinator_cpu. Runs-put_status keeper _ given

    Runs-state_status :
        (y : ReplicaSet p.Quantity) (state : String)
        → is_given y.replicas ≡ true
        → Runs p presto view l o (state_status p y state) (done tt) l o
    unfolding state_status
    Runs-state_status y state given = Runs-put_status keeper _ given

    pub Runs-phase_status :
        (y : ReplicaSet p.Quantity)
        → is_given y.replicas ≡ true
        → Runs p presto view l o (phase_status p y) (done no_requeue) l o
    unfolding phase_status
    Runs-phase_status y given = Runs->>=_Reads _ Reads-get_coordinator_pod_phase λ phase.
        Runs->>= _
          (Runs-either (phase == "Pending") (Runs-state_status y _ given) (
            Runs-either (phase == "Failed") (Runs-state_status y _ given) (
              Runs-either (phase == "Running") (Runs-ready_status y given)
                (Runs-state_status y _ given))))
          (Runs-pure no_requeue)
