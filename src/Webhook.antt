-- ===== src/Webhook.antt =====
-- pkg/apis/falarica/v1alpha1/presto_webhook.go: the validating webhook. The program does
-- not register it: the call in cmd/manager/main.go is commented out, so that no update is refused.
use steerd_presto_operator.Base.{
  String, ◌≡◌, ◌↔◌, not, List, [], ◌∷◌, ◌++◌, arith, ◌==◌, eq_iff, if◌then◌else◌,
}
use steerd_presto_operator.Resource.{Presto}

-- `field.Error`
pub record FieldError : Type 0 where
  pub type : String
  pub field : String
  pub bad_value : String
  pub detail : String

-- `nil`, or the error of `apierrors.NewInvalid` with its group, kind and name.
pub data Admission : Type 0 where
  admitted : Admission
  invalid : (group kind name : String) → List FieldError → Admission

abbrev pub cpu_request_immutable : FieldError
cpu_request_immutable = record {
  type = "FieldImmutable";
  field = "Field is Immutable";
  bad_value = "Spec.Coordinator.CpuRequest";
  detail = "Field Spec.Coordinator.CpuRequest is Immutable";
}

validate_presto_spec : Presto → Presto → List FieldError
validate_presto_spec r old =
    if not (old.spec.coordinator.cpu_request == r.spec.coordinator.cpu_request)
    then [] ++ cpu_request_immutable ∷ []
    else []

admission : String → List FieldError → Admission
admission name [] = admitted
admission name errs = invalid "falarica.io" "Presto" name errs

validate_presto_update : Presto → Presto → Admission
unfolding validate_presto_spec admission
validate_presto_update r old = admission r.name (validate_presto_spec r old)

validate_create : Presto → Admission
validate_create r = admitted

pub validate_update : Presto → Presto → Admission
unfolding validate_presto_update
validate_update r old = validate_presto_update r old

validate_delete : Presto → Admission
validate_delete r = admitted

-- `ValidateUpdate`, which the program does not register, admits an update exactly when it leaves the
-- coordinator's CPU request as it was.
pub validate_update-eq-admitted :
    (r old : Presto)
    → (validate_update r old ≡ admitted)
      ↔ (old.spec.coordinator.cpu_request ≡ r.spec.coordinator.cpu_request)
unfolding validate_update
validate_update-eq-admitted r old =
    ground (arith, eq_iff old.spec.coordinator.cpu_request r.spec.coordinator.cpu_request)
