-- ===== src/Execution/Store.antt =====
-- `SqlStepExecutionStore` of sana/app/sql_step_execution.py, over the rows of the tenant of the step.
-- What the clock and the factory of identifiers give is an argument (`Moment`), and so is the
-- `StepCompletionHook`, which is given the tables to read. An event is published to Redis after the
-- transaction, on a best-effort basis; that is left out.
pub mod Claim
pub mod Finish
use sana_v.Base.{
  ℕ, ◌+◌, ◌-◌, ◌*◌, ◌^◌, String, Bool, not, ◌&&◌, ◌||◌, Option, none, some, List, [], ◌∷◌, ltb, leb,
  ◌==◌, str_eq, ℤ, leb_ℤ, ltb_ℤ, pos, pos_part, if◌then◌else◌,
}
use sana_v.Shared.Errors.{
  TypedError, Detail, Error, Result, ok, err, value_error, raise_if, ◌>>=◌, ◌>>◌,
}
use sana_v.Shared.Time.{DateTime}
use sana_v.Shared.Method.{Method, Done}
use sana_v.Orchestration.Status.{RunStatus, StepType}
use sana_v.Orchestration.Run
use sana_v.Orchestration.Run.{SearchRun, is_terminal}
use sana_v.Orchestration.Step.{SearchStep, StepKeys, new_step}
use sana_v.Orchestration.Attempt.{StepAttempt, is_complete}
use sana_v.Orchestration.Lease.{Printing, LeaseService}
use sana_v.Orchestration.Policy.{BudgetPhase}
use sana_v.Execution.Values.{
  ExecutionDisposition, StepExecutionContext, StepExecutionResult, ClaimedStep, RunEventData,
  new_event,
}
use sana_v.Execution.Tables.{
  Tables, get_run, add_step, add_event, next_sequence, find_attempt, latest_no,
}

-- The run after a hook, and the arguments of the successor steps that it adds, READY as they are
-- made. The step itself a hook only reads, as `WorkflowCompletionHook` does.
pub record Hooked : Type 0 where
  pub run : SearchRun
  pub added : List StepKeys

pub record StepCompletionHook : Type 0 where
  pub on_success : Tables → SearchRun → SearchStep → StepExecutionResult → Result Hooked
  pub on_failure :
      Tables → SearchRun → SearchStep → TypedError → ExecutionDisposition → Result Hooked

pub record Store : Type 0 where
  pub print : Printing
  pub leases : LeaseService
  pub completion : StepCompletionHook
  pub retry_base : ℕ
  pub retry_max : ℕ
  pub max_attempts : ℕ
  pub fetch_max_attempts : ℕ
  pub lease_extension : ℤ

-- `__init__`. The delays that pass the checks are positive, and kept as numbers.
unfoldable pub new_store :
    Printing → LeaseService → StepCompletionHook → ℤ → ℤ → ℕ → ℕ → ℤ → Result Store
new_store print leases completion retry_base retry_max max_attempts fetch_max_attempts
      lease_extension =
    do
      raise_if (leb_ℤ retry_base (pos 0) || ltb_ℤ retry_max retry_base)
          (value_error "Retry delays are invalid")
      raise_if
          (ltb max_attempts 1
            || not (leb 1 fetch_max_attempts && leb fetch_max_attempts max_attempts))
          (value_error "Retry attempt limits are invalid")
      raise_if (leb_ℤ lease_extension (pos 0)) (value_error "Lease extension must be positive")
      ok (record {
        print = print;
        leases = leases;
        completion = completion;
        retry_base = pos_part retry_base;
        retry_max = pos_part retry_max;
        max_attempts = max_attempts;
        fetch_max_attempts = fetch_max_attempts;
        lease_extension = lease_extension;
      })

-- What the clock answers at the start of an operation and for its event, and the fresh
-- identifiers of the event and of the attempt.
pub record Moment : Type 0 where
  pub now : DateTime
  pub event_at : DateTime
  pub event_id : ℕ
  pub attempt_id : ℕ

-- `_attempt_limit`
abbrev pub attempt_limit : Store → StepType → ℕ
attempt_limit store StepType.fetch = store.fetch_max_attempts
attempt_limit store _ = store.max_attempts

-- `_phase_for_step`
abbrev pub phase_for_step : StepType → BudgetPhase
phase_for_step StepType.route = BudgetPhase.route_plan
phase_for_step StepType.plan = BudgetPhase.route_plan
phase_for_step StepType.discovery = BudgetPhase.discovery
phase_for_step StepType.select = BudgetPhase.discovery
phase_for_step StepType.fetch = BudgetPhase.fetch_extract
phase_for_step StepType.extract = BudgetPhase.fetch_extract
phase_for_step StepType.verify = BudgetPhase.verify
phase_for_step _ = BudgetPhase.synthesize

-- The aggregate after a method that returns.
abbrev pub after : {S : Type 0} → Method S Done → S → Result S
after method s = (method s).0 >>= λ _. ok (method s).1

-- `_add_event`
unfoldable pub record_event :
    Moment → SearchRun → String → List (String × Detail) → Tables → Result Tables
record_event m run event_type payload t = do
  event ← new_event (record {
    id = m.event_id;
    tenant_id = run.tenant_id;
    run_id = run.id;
    sequence = next_sequence run.id t;
    event_type = event_type;
    payload = payload;
    created_at = m.event_at;
  })
  add_event event t

-- The successor steps that a hook adds.
unfoldable pub add_successors : List StepKeys → Tables → Result Tables
add_successors [] t = ok t
add_successors (k ∷ ks) t = do step ← new_step k; t ← add_step step t; add_successors ks t

-- `is_cancelled`
unfoldable pub is_cancelled : ℕ → Tables → Result Bool
is_cancelled run_id t =
    get_run run_id t >>= λ run. ok (elim run [ none ↦ Bool.true | some r ↦ is_terminal r ])

-- `if run.status is QUEUED: run.start(now) elif run.status is WAITING: run.resume()`
abbrev pub enter : RunStatus → DateTime → SearchRun → Result SearchRun
enter RunStatus.queued now run = after (Run.start now) run
enter RunStatus.waiting now run = after Run.resume run
enter _ now run = ok run

-- The row that the claim is about is still open, the latest of the step, and the worker's.
abbrev pub is_current_row : ClaimedStep → Tables → Option StepAttempt → Bool
is_current_row c t none = Bool.false
is_current_row c t (some row) =
    not (is_complete row)
    && latest_no c.context.step_id t.attempts == c.attempt.attempt_no
    && str_eq row.lease_owner c.attempt.lease_owner

-- `_is_current_attempt`
abbrev pub is_current_attempt : ClaimedStep → Tables → Bool
is_current_attempt c t = is_current_row c t (find_attempt c.attempt.id t.attempts)
