-- ===== src/Status/Assignments.antt =====
-- The single assignments of `updateStatus`.
use steerd_presto_operator.Base.{
  String, ◌≡◌, refl, Bool, true, false, not, ◌||◌, Option, none, some, arith, ◌==◌, if◌then◌else◌,
}
use steerd_presto_operator.Resource.{PrestoStatus}
use steerd_presto_operator.Status.{write, write_state}

abbrev pub or_old : Option String → String → String
or_old none old = old
or_old (some new) old = new

abbrev pub given : {A : Type 0} → Option A → Bool
given none = false
given (some new) = true

-- One assignment, as a change of one field and of the flag.
pub write-headless_service :
    (o : Option String) (s : PrestoStatus) (u : Bool)
    → write o (λ v s. record s { headless_service = v }) (s, u)
      ≡ (record s { headless_service = or_old o s.headless_service }, given o || u)
write-headless_service none s u = refl
write-headless_service (some v) s u = refl

pub write-worker_config :
    (o : Option String) (s : PrestoStatus) (u : Bool)
    → write o (λ v s. record s { worker_config = v }) (s, u)
      ≡ (record s { worker_config = or_old o s.worker_config }, given o || u)
write-worker_config none s u = refl
write-worker_config (some v) s u = refl

pub write-coordinator_config :
    (o : Option String) (s : PrestoStatus) (u : Bool)
    → write o (λ v s. record s { coordinator_config = v }) (s, u)
      ≡ (record s { coordinator_config = or_old o s.coordinator_config }, given o || u)
write-coordinator_config none s u = refl
write-coordinator_config (some v) s u = refl

pub write-catalog_config :
    (o : Option String) (s : PrestoStatus) (u : Bool)
    → write o (λ v s. record s { catalog_config = v }) (s, u)
      ≡ (record s { catalog_config = or_old o s.catalog_config }, given o || u)
write-catalog_config none s u = refl
write-catalog_config (some v) s u = refl

pub write-coordinator_replicaset :
    (o : Option String) (s : PrestoStatus) (u : Bool)
    → write o (λ v s. record s { coordinator_replicaset = v }) (s, u)
      ≡ (record s { coordinator_replicaset = or_old o s.coordinator_replicaset }, given o || u)
write-coordinator_replicaset none s u = refl
write-coordinator_replicaset (some v) s u = refl

pub write-hpa_name :
    (o : Option String) (s : PrestoStatus) (u : Bool)
    → write o (λ v s. record s { hpa_name = v }) (s, u)
      ≡ (record s { hpa_name = or_old o s.hpa_name }, given o || u)
write-hpa_name none s u = refl
write-hpa_name (some v) s u = refl

pub write-error_reason :
    (o : Option String) (s : PrestoStatus) (u : Bool)
    → write o (λ v s. record s { error_reason = v }) (s, u)
      ≡ (record s { error_reason = or_old o s.error_reason }, given o || u)
write-error_reason none s u = refl
write-error_reason (some v) s u = refl

pub write-worker_cpu :
    (o : Option String) (s : PrestoStatus) (u : Bool)
    → write o (λ v s. record s { worker_cpu = v }) (s, u)
      ≡ (record s { worker_cpu = or_old o s.worker_cpu }, given o || u)
write-worker_cpu none s u = refl
write-worker_cpu (some v) s u = refl

pub write-coordinator_cpu :
    (o : Option String) (s : PrestoStatus) (u : Bool)
    → write o (λ v s. record s { coordinator_cpu = v }) (s, u)
      ≡ (record s { coordinator_cpu = or_old o s.coordinator_cpu }, given o || u)
write-coordinator_cpu none s u = refl
write-coordinator_cpu (some v) s u = refl

pub write-uuid :
    (o : Option String) (s : PrestoStatus) (u : Bool)
    → write o (λ v s. record s { uuid = v }) (s, u)
      ≡ (record s { uuid = or_old o s.uuid }, given o || u)
write-uuid none s u = refl
write-uuid (some v) s u = refl

pub write_state-cluster_state :
    (state : String) (s : PrestoStatus) (u : Bool)
    → write_state state (s, u) ≡ (
      record s { cluster_state = if state == "" then s.cluster_state else state },
      not (state == "") || u,
    )
write_state-cluster_state state s u = ground arith
