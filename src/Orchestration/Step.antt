-- ===== src/Orchestration/Step.antt =====
-- `SearchStep` of orchestration/domain.py: one step of a workflow, with its retries and its output.
pub mod Calls
pub mod Lifecycle
use sana_v.Base.{
  ℕ, ◌+◌, String, Bool, true, false, not, Option, none, some, is_some, is_blank, strip, ltb,
  if◌then◌else◌,
}
use sana_v.Shared.Errors.{
  Result, ok, err, value_error, invariant_violation, raise_if, ◌>>=◌ as bind,
}
use sana_v.Shared.Time.{DateTime, require_aware}
use sana_v.Shared.Method.{Method, Done, ◌>>=◌, ◌>>◌, lift, self, refuse_if, modify}
use sana_v.Orchestration.Status.{
  StepStatus, StepType, step_value, step_transitions, assert_transition,
}
use sana_v.Orchestration.Values.{ArtifactRef}

pub record SearchStep : Type 0 where
  pub id : ℕ
  pub tenant_id : ℕ
  pub run_id : ℕ
  pub step_key : String
  pub step_type : StepType
  pub plan_revision : ℕ
  pub input_ref : ArtifactRef
  pub status : StepStatus
  pub output_ref : Option ArtifactRef
  pub retry_at : Option DateTime
  pub version : ℕ
  pub persisted_version : ℕ

-- The arguments of `SearchStep(…)` that its callers give.
pub record StepKeys : Type 0 where
  pub id : ℕ
  pub tenant_id : ℕ
  pub run_id : ℕ
  pub step_key : String
  pub step_type : StepType
  pub plan_revision : ℕ
  pub input_ref : ArtifactRef

-- `__post_init__`, on a step or on the row of one
abbrev pub check_step : String → ℕ → Result Done
check_step step_key plan_revision =
    if is_blank step_key
    then err (value_error "step_key cannot be empty")
    else raise_if (ltb plan_revision 1) (value_error "plan_revision must be at least 1")

unfoldable pub new_step : StepKeys → Result SearchStep
unfolding strip
new_step k = bind (check_step k.step_key k.plan_revision) λ _. ok (record {
  id = k.id;
  tenant_id = k.tenant_id;
  run_id = k.run_id;
  step_key = k.step_key;
  step_type = k.step_type;
  plan_revision = k.plan_revision;
  input_ref = k.input_ref;
  status = StepStatus.ready;
  output_ref = none;
  retry_at = none;
  version = 0;
  persisted_version = 0;
})

abbrev pub is_succeeded : StepStatus → Bool
is_succeeded StepStatus.succeeded = true
is_succeeded _ = false

-- `SearchStep.rehydrate`. The row is written as a step, whose `persisted_version` is not read.
unfoldable pub rehydrate : SearchStep → Result SearchStep
unfolding strip
rehydrate row = bind (check_step row.step_key row.plan_revision) λ _.
    if is_succeeded row.status
    then (if is_some row.output_ref
        then ok (record row { persisted_version = row.version })
        else err (invariant_violation "Persisted successful step has no output"))
    else (if is_some row.output_ref
        then err (invariant_violation "Only a successful step may have an output")
        else ok (record row { persisted_version = row.version }))

unfoldable pub mark_persisted : Method SearchStep Done
mark_persisted = modify (λ s. record s { persisted_version = s.version })

-- `_transition`
unfoldable pub transition : StepStatus → Method SearchStep Done
unfolding assert_transition step_transitions
transition target = do
  s ← self
  lift (assert_transition step_value s.status target step_transitions "search_step")
  modify (λ s. record s { status = target; version = s.version + 1 })

unfoldable pub start : Method SearchStep Done
unfolding transition
start = do transition StepStatus.running; modify (λ s. record s { retry_at = none })

unfoldable pub release_expired_lease : Method SearchStep Done
unfolding transition
release_expired_lease = transition StepStatus.ready

unfoldable pub retry_later : DateTime → Method SearchStep Done
unfolding transition
retry_later retry_at = do
  lift (require_aware retry_at "retry_at")
  transition StepStatus.retry_wait
  modify (λ s. record s { retry_at = some retry_at })

unfoldable pub make_ready : Method SearchStep Done
unfolding transition
make_ready = do transition StepStatus.ready; modify (λ s. record s { retry_at = none })

unfoldable pub succeed : ArtifactRef → Method SearchStep Done
unfolding transition
succeed output_ref = do
  s ← self
  refuse_if (is_some s.output_ref) (invariant_violation "Successful step output is immutable")
  transition StepStatus.succeeded
  modify (λ s. record s { output_ref = some output_ref })

unfoldable pub fail : Method SearchStep Done
unfolding transition
fail = transition StepStatus.failed

unfoldable pub skip : Method SearchStep Done
unfolding transition
skip = transition StepStatus.skipped

unfoldable pub cancel : Method SearchStep Done
unfolding transition
cancel = transition StepStatus.cancelled
