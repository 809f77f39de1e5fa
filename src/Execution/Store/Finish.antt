-- ===== src/Execution/Store/Finish.antt =====
-- `succeed`, `renew` and `fail` of `SqlStepExecutionStore`: what a worker that holds a claim does.
-- The attempt in the claim is an object that the worker keeps, so it comes back with the answer.
use sana_v.Base.{
  ℕ, ◌-◌, ◌*◌, ◌^◌, String, Bool, true, false, not, ◌&&◌, ◌||◌, Option, none, some, [], ◌∷◌, ltb,
  pos, if◌then◌else◌,
}
use sana_v.Shared.Errors.{ErrorCategory, TypedError, Detail, Result, ok, ◌>>=◌}
use sana_v.Shared.Time.{DateTime, le_or_raise, shift}
use sana_v.Orchestration.Run
use sana_v.Orchestration.Run.{SearchRun, is_terminal}
use sana_v.Orchestration.Step
use sana_v.Orchestration.Step.{SearchStep}
use sana_v.Orchestration.Attempt
use sana_v.Orchestration.Attempt.{StepAttempt}
use sana_v.Orchestration.Lease.{is_running, earlier}
use sana_v.Execution.Values.{
  ExecutionDisposition, ClaimedStep, StepExecutionResult, apply, elapsed_since,
}
use sana_v.Execution.Tables.{
  Tables, get_step, get_run, save_step, save_run, complete_attempt, renew_attempt,
}
use sana_v.Execution.Store.{
  Store, Moment, after, record_event, add_successors, attempt_limit, is_current_attempt,
}
use sana_v.Execution.Store.Claim.{step_payload}

-- The tables, the claim, and the answer.
abbrev pub Finished : Type 0 → Type 0
Finished A = Result (Tables × ClaimedStep × A)

-- `step is None or step.status is not RUNNING or not await self._is_current_attempt(…)`
abbrev pub holds : ClaimedStep → Tables → Option SearchStep → Bool
holds c t none = false
holds c t (some step) = is_running step.status && is_current_attempt c t

abbrev pub keep_attempt : ClaimedStep → StepAttempt → ClaimedStep
keep_attempt c attempt = record c { attempt = attempt }

abbrev pub run_terminal : TypedError
run_terminal = record {
  category = ErrorCategory.cancelled;
  code = "run_terminal";
  message = "Run became terminal while the Step was executing";
  retryable = false;
  details = [];
}

-- `succeed` in a run that has ended.
unfoldable pub succeed_ended :
    Store → Moment → ClaimedStep → SearchStep → SearchRun → Tables → Finished ExecutionDisposition
succeed_ended store m c step run t = do
  attempt ← after (Attempt.fail run_terminal m.now) c.attempt
  step ← after Step.cancel step
  t ← complete_attempt attempt t
  t ← save_step step t
  t ←
      record_event m run "STEP_CANCELLED" (("step_id", Detail.text (store.print.uuid step.id)) ∷ [])
        t
  ok (t, keep_attempt c attempt, ExecutionDisposition.cancelled)

-- `run.record_usage(result.actual_cost.apply(run.usage, elapsed_seconds=elapsed))`
unfoldable pub charge : Moment → ClaimedStep → StepExecutionResult → SearchRun → Result SearchRun
charge m c result run = do
  elapsed ← elapsed_since m.now c.attempt.started_at
  usage ← apply result.actual_cost run.usage (some elapsed)
  after (Run.record_usage usage) run

-- `succeed` in a run that goes on.
unfoldable pub succeed_active :
    Store
    → Moment
    → ClaimedStep
    → StepExecutionResult
    → SearchStep
    → SearchRun
    → Tables
    → Finished ExecutionDisposition
succeed_active store m c result step run t = do
  attempt ← after (Attempt.succeed result.output_ref m.now) c.attempt
  step ← after (Step.succeed result.output_ref) step
  run ← charge m c result run
  hooked ← store.completion.on_success t run step result
  t ← add_successors hooked.added t
  t ← complete_attempt attempt t
  t ← save_step step t
  t ← save_run hooked.run t
  t ←
      record_event m hooked.run "STEP_SUCCEEDED"
        (step_payload store step (("attempt_no", Detail.number (pos attempt.attempt_no)) ∷ [])) t
  ok (t, keep_attempt c attempt, ExecutionDisposition.succeeded)

abbrev pub succeed_in_run :
    Store
    → Moment
    → ClaimedStep
    → StepExecutionResult
    → SearchStep
    → Tables
    → Option SearchRun
    → Finished ExecutionDisposition
succeed_in_run store m c result step t none = ok (t, c, ExecutionDisposition.stale)
succeed_in_run store m c result step t (some run) =
    if is_terminal run
    then succeed_ended store m c step run t
    else succeed_active store m c result step run t

-- A claim that is still good goes on with the step; otherwise the answer is `stale`.
abbrev pub with_held :
    {A : Type 0}
    → ClaimedStep
    → Tables
    → A
    → (SearchStep → Finished A)
    → Option SearchStep
    → Finished A
with_held c t stale held none = ok (t, c, stale)
with_held c t stale held (some step) = if holds c t (some step) then held step else ok (t, c, stale)

unfoldable pub succeed :
    Store → Moment → ClaimedStep → StepExecutionResult → Tables → Finished ExecutionDisposition
succeed store m c result t =
    get_step c.context.step_id t
    >>= with_held c t ExecutionDisposition.stale
        λ step. get_run c.context.run_id t >>= succeed_in_run store m c result step t

-- `renew`, once the deadline is known not to have passed
unfoldable pub extend : Store → Moment → ClaimedStep → Tables → Finished Bool
extend store m c t = do
  limit ← shift m.now store.lease_extension
  let renewed_until = earlier c.context.deadline_at limit
  past ← le_or_raise renewed_until c.attempt.leased_until
  (if past then ok (t, c, true) else do
    attempt ← after (Attempt.renew_lease renewed_until) c.attempt
    t ← renew_attempt attempt t
    ok (t, keep_attempt c attempt, true))

unfoldable pub renew : Store → Moment → ClaimedStep → Tables → Finished Bool
renew store m c t =
    get_step c.context.step_id t
    >>= with_held c t false λ _. do
      late ← le_or_raise c.context.deadline_at m.now
      (if late then ok (t, c, false) else extend store m c t)

-- `min(self._retry_max_seconds, self._retry_base_seconds * (2 ** (claimed.attempt_no - 1)))`
abbrev pub retry_delay : Store → ℕ → ℕ
retry_delay store attempt_no =
    let backoff = store.retry_base * 2 ^ (attempt_no - 1) in
    if ltb backoff store.retry_max then backoff else store.retry_max

abbrev pub is_cancelled_category : ErrorCategory → Bool
is_cancelled_category ErrorCategory.cancelled = true
is_cancelled_category _ = false

-- What `fail` makes of the step, with the disposition and the event's type.
abbrev pub Failure : Type 0
Failure = Result (SearchStep × ExecutionDisposition × String)

abbrev pub failure : ExecutionDisposition → String → SearchStep → Failure
failure disposition event_type step = ok (step, disposition, event_type)

-- `error.retryable and claimed.attempt_no < … and retry_at < run.budget.hard_deadline_at`
unfoldable pub may_retry :
    Store → ClaimedStep → TypedError → SearchStep → SearchRun → DateTime → Result Bool
may_retry store c error step run retry_at =
    if error.retryable && ltb c.attempt.attempt_no (attempt_limit store step.step_type)
    then (le_or_raise run.budget.hard_deadline_at retry_at >>= λ late. ok (not late))
    else ok false

-- The step is to be tried again, or fails.
abbrev pub retry_or_fail : SearchStep → DateTime → Bool → Failure
retry_or_fail step retry_at true =
    after (Step.retry_later retry_at) step
    >>= failure ExecutionDisposition.retry_scheduled "STEP_RETRY_SCHEDULED"
retry_or_fail step retry_at false =
    after Step.fail step >>= failure ExecutionDisposition.failed "STEP_FAILED"

unfoldable pub decide_retry :
    Store → DateTime → ClaimedStep → TypedError → SearchStep → SearchRun → Failure
decide_retry store now c error step run = do
  retry_at ← shift now (pos (retry_delay store c.attempt.attempt_no))
  again ← may_retry store c error step run retry_at
  retry_or_fail step retry_at again

unfoldable pub fail_step :
    Store → DateTime → ClaimedStep → TypedError → SearchStep → SearchRun → Failure
fail_step store now c error step run =
    if is_terminal run || is_cancelled_category error.category
    then after Step.cancel step >>= failure ExecutionDisposition.cancelled "STEP_CANCELLED"
    else decide_retry store now c error step run

-- `.value` of the members
abbrev pub category_value : ErrorCategory → String
category_value ErrorCategory.transient = "TRANSIENT"
category_value ErrorCategory.permanent = "PERMANENT"
category_value ErrorCategory.budget = "BUDGET"
category_value ErrorCategory.content = "CONTENT"
category_value ErrorCategory.model_output = "MODEL_OUTPUT"
category_value ErrorCategory.cancelled = "CANCELLED"
category_value ErrorCategory.internal = "INTERNAL"

abbrev pub fail_in_run :
    Store
    → Moment
    → ClaimedStep
    → TypedError
    → SearchStep
    → Tables
    → Option SearchRun
    → Finished ExecutionDisposition
fail_in_run store m c error step t none = ok (t, c, ExecutionDisposition.stale)
fail_in_run store m c error step t (some run) = do
  attempt ← after (Attempt.fail error m.now) c.attempt
  outcome ← fail_step store m.now c error step run
  hooked ← store.completion.on_failure t run outcome.0 error outcome.1
  t ← add_successors hooked.added t
  t ← complete_attempt attempt t
  t ← save_step outcome.0 t
  t ← save_run hooked.run t
  t ←
      record_event m hooked.run outcome.2
        (step_payload store outcome.0 (
          ("attempt_no", Detail.number (pos attempt.attempt_no))
          ∷ ("error_category", Detail.text (category_value error.category))
          ∷ ("error_code", Detail.text error.code)
          ∷ []))
        t
  ok (t, keep_attempt c attempt, outcome.1)

unfoldable pub fail :
    Store → Moment → ClaimedStep → TypedError → Tables → Finished ExecutionDisposition
fail store m c error t =
    get_step c.context.step_id t
    >>= with_held c t ExecutionDisposition.stale
        λ step. get_run c.context.run_id t >>= fail_in_run store m c error step t
