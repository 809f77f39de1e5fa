-- ===== src/Execution/Recovery.antt =====
-- The recovery of steps: orchestration/reconciler.py, and `make_ready` of
-- sana/app/reconciliation.py. The invocations of models that `make_ready` seals, too, are not among
-- the tables.
pub mod Leases
use sana_v.Base.{
  ℕ, ◌+◌, Bool, true, false, not, ◌&&◌, Option, none, some, List, [], ◌∷◌, ◌==◌, ltb, length,
  if◌then◌else◌,
}
use sana_v.Shared.Errors.{ErrorCategory, TypedError, Result, ok, err, ◌>>=◌, ◌>>◌}
use sana_v.Shared.Time.{DateTime, is_at_most, is_before, le_or_raise}
use sana_v.Orchestration.Status.{StepStatus}
use sana_v.Orchestration.Step
use sana_v.Orchestration.Step.{SearchStep}
use sana_v.Orchestration.Attempt.{StepAttempt, is_complete}
use sana_v.Orchestration.Lease.{is_ready, is_running}
use sana_v.Execution.Tables.{Tables, get_step, save_step, update_where, is_of_step}
use sana_v.Execution.Store.{after}

pub data ReconcileAction : Type 0 where
  dispatch_ready release_retry release_expired_lease : ReconcileAction

pub record ReconcileCandidate : Type 0 where
  pub tenant_id : ℕ
  pub step_id : ℕ
  pub status : StepStatus
  pub retry_at : Option DateTime
  pub leased_until : Option DateTime

abbrev pub is_retry_wait : StepStatus → Bool
is_retry_wait StepStatus.retry_wait = true
is_retry_wait _ = false

-- `at is not None and at <= now`
abbrev pub is_due : Option DateTime → DateTime → Result Bool
is_due none now = ok false
is_due (some at) now = le_or_raise at now

abbrev pub act_if : ReconcileAction → Bool → Result (Option ReconcileAction)
act_if action due = ok (if due then some action else none)

-- `WorkflowReconciler.decide`: the action of the decision, which also holds the candidate
abbrev pub decide_status :
    StepStatus → ReconcileCandidate → DateTime → Result (Option ReconcileAction)
decide_status StepStatus.ready c now = ok (some ReconcileAction.dispatch_ready)
decide_status StepStatus.retry_wait c now =
    is_due c.retry_at now >>= act_if ReconcileAction.release_retry
decide_status StepStatus.running c now =
    is_due c.leased_until now >>= act_if ReconcileAction.release_expired_lease
decide_status _ c now = ok none

unfoldable pub decide : ReconcileCandidate → DateTime → Result (Option ReconcileAction)
decide c now = decide_status c.status c now

-- `completed_at IS NULL`, of the attempts of a step
abbrev pub is_open_of : ℕ → StepAttempt → Bool
is_open_of step_id a = is_of_step step_id a && not (is_complete a)

abbrev pub later_of : DateTime → Option DateTime → DateTime
later_of a none = a
later_of a (some b) = if is_before a b then b else a

-- `select(func.max(leased_until)).where(…)`
abbrev pub latest_lease : ℕ → List StepAttempt → Option DateTime
latest_lease step_id [] = none
latest_lease step_id (a ∷ rows) =
    let rest = latest_lease step_id rows in
    if is_open_of step_id a then some (later_of a.leased_until rest) else rest

abbrev pub lease_expired_error : TypedError
lease_expired_error = record {
  category = ErrorCategory.transient;
  code = "lease_expired";
  message = "Worker lease expired before the attempt completed";
  retryable = true;
  details = [];
}

abbrev pub is_expired_row : ℕ → DateTime → StepAttempt → Bool
is_expired_row step_id now a = is_open_of step_id a && is_at_most a.leased_until now

abbrev pub expired_values : DateTime → StepAttempt → StepAttempt
expired_values now a = record a { completed_at = some now; error = some lease_expired_error }

-- The update of the attempts of a step whose leases have expired.
unfoldable pub expire_attempts : ℕ → DateTime → Tables → Tables
expire_attempts step_id now t = record t {
  attempts = update_where (is_expired_row step_id now) (expired_values now) t.attempts;
}

-- The step saved, and `return True`.
abbrev pub released : Tables → SearchStep → Result (Tables × Bool)
released t step = save_step step t >>= λ t. ok (t, true)

-- The branch on a step in RETRY_WAIT.
unfoldable pub retry_ready : SearchStep → DateTime → Tables → Result (Tables × Bool)
retry_ready step now t = do
  due ← is_due step.retry_at now
  (if due then after Step.make_ready step >>= released t else ok (t, false))

-- The branch on a RUNNING step.
unfoldable pub lease_ready : SearchStep → DateTime → Tables → Result (Tables × Bool)
lease_ready step now t = do
  due ← is_due (latest_lease step.id t.attempts) now
  (if due
      then after Step.release_expired_lease step >>= released (expire_attempts step.id now t)
      else ok (t, false))

abbrev pub make_step_ready :
    ReconcileCandidate → DateTime → Tables → Option SearchStep → Result (Tables × Bool)
make_step_ready c now t none = ok (t, false)
make_step_ready c now t (some step) =
    if is_retry_wait c.status && is_retry_wait step.status
    then retry_ready step now t
    else if is_running c.status && is_running step.status
    then lease_ready step now t
    else ok (t, is_ready step.status)

-- `TenantReconciliationScanner.make_ready`
unfoldable pub make_ready : ReconcileCandidate → DateTime → Tables → Result (Tables × Bool)
make_ready c now t = get_step c.step_id t >>= make_step_ready c now t
