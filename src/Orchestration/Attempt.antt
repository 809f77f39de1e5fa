-- ===== src/Orchestration/Attempt.antt =====
-- `StepAttempt` of orchestration/domain.py: one leased execution of a step.
pub mod Calls
pub mod Lifecycle
use sana_v.Base.{
  ℕ, String, Bool, not, ◌&&◌, Option, none, some, is_some, is_blank, strip, ltb, leb, if◌then◌else◌,
  List, [], ◌∷◌,
}
use sana_v.Shared.Errors.{
  TypedError, Result, ok, err, value_error, invariant_violation, raise_if, ◌>>=◌ as bind, check_all,
}
use sana_v.Shared.Time.{DateTime, require_aware, is_before, is_at_most}
use sana_v.Shared.Method.{Method, Done, ◌>>=◌, ◌>>◌, lift, self, refuse_if, modify}
use sana_v.Orchestration.Values.{ArtifactRef}

pub record StepAttempt : Type 0 where
  pub id : ℕ
  pub tenant_id : ℕ
  pub run_id : ℕ
  pub step_id : ℕ
  pub attempt_no : ℕ
  pub idempotency_key : String
  pub lease_owner : String
  pub leased_until : DateTime
  pub deadline_at : DateTime
  pub started_at : DateTime
  pub input_ref : ArtifactRef
  pub completed_at : Option DateTime
  pub output_ref : Option ArtifactRef
  pub error : Option TypedError

-- `__post_init__`, on an attempt whose last three fields are `None`
unfoldable pub new_attempt : StepAttempt → Result StepAttempt
unfolding strip
new_attempt a =
    bind
      (check_all (
        require_aware a.leased_until "leased_until"
        ∷ require_aware a.deadline_at "deadline_at"
        ∷ require_aware a.started_at "started_at"
        ∷ raise_if (ltb a.attempt_no 1) (value_error "attempt_no must be at least 1")
        ∷ raise_if (is_blank a.idempotency_key) (value_error "idempotency_key cannot be empty")
        ∷ raise_if (is_blank a.lease_owner) (value_error "lease_owner cannot be empty")
        ∷ raise_if (is_at_most a.leased_until a.started_at)
            (value_error "leased_until must be after started_at")
        ∷ raise_if (is_at_most a.deadline_at a.started_at)
            (value_error "deadline_at must be after started_at")
        ∷ []))
      λ _. ok (record a { completed_at = none; output_ref = none; error = none })

abbrev pub is_complete : StepAttempt → Bool
is_complete a = is_some a.completed_at

unfoldable pub lease_expired : StepAttempt → DateTime → Result Bool
lease_expired a at =
    bind (require_aware at "lease_check_at")
      λ _. ok (not (is_complete a) && is_at_most a.leased_until at)

unfoldable pub renew_lease : DateTime → Method StepAttempt Done
renew_lease leased_until = do
  lift (require_aware leased_until "leased_until")
  a ← self
  refuse_if (is_complete a) (invariant_violation "Cannot renew a completed attempt lease")
  refuse_if (is_at_most leased_until a.leased_until)
      (invariant_violation "Renewed lease must extend the current lease")
  refuse_if (is_before a.deadline_at leased_until)
      (invariant_violation "Attempt lease cannot extend beyond its deadline")
  modify (λ a. record a { leased_until = leased_until })

-- `_finish`
unfoldable pub finish : DateTime → Method StepAttempt Done
finish at = do
  lift (require_aware at "completed_at")
  a ← self
  refuse_if (is_complete a) (invariant_violation "Attempt has already completed")
  refuse_if (is_before at a.started_at)
      (invariant_violation "Attempt cannot complete before it starts")
  modify (λ a. record a { completed_at = some at })

unfoldable pub succeed : ArtifactRef → DateTime → Method StepAttempt Done
unfolding finish
succeed output_ref at = do finish at; modify (λ a. record a { output_ref = some output_ref })

unfoldable pub fail : TypedError → DateTime → Method StepAttempt Done
unfolding finish
fail error at = do finish at; modify (λ a. record a { error = some error })
