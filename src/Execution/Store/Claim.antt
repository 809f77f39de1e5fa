-- ===== src/Execution/Store/Claim.antt =====
-- `SqlStepExecutionStore.claim`: how a worker takes a step that is READY.
use sana_v.Base.{ℕ, String, false, not, Option, none, some, List, [], ◌∷◌, pos, if◌then◌else◌}
use sana_v.Shared.Errors.{ErrorCategory, TypedError, Detail, Result, ok, ◌>>=◌}
use sana_v.Shared.Time.{DateTime, le_or_raise}
use sana_v.Orchestration.Status.{StopReason, StepType}
use sana_v.Orchestration.Run
use sana_v.Orchestration.Run.{SearchRun, is_terminal}
use sana_v.Orchestration.Step
use sana_v.Orchestration.Step.{SearchStep}
use sana_v.Orchestration.Attempt.{StepAttempt}
use sana_v.Orchestration.Lease
use sana_v.Orchestration.Lease.{is_ready}
use sana_v.Orchestration.Policy.{phase_value, deadline_for}
use sana_v.Execution.Values.{
  ExecutionDisposition, StepExecutionContext, ClaimResult, new_context, acquired, skipped,
}
use sana_v.Execution.Tables.{
  Tables, get_step, get_run, save_step, save_run, add_attempt, next_attempt_no,
}
use sana_v.Execution.Store.{
  Store, Moment, after, record_event, add_successors, enter, phase_for_step,
}

-- The tables, and the answer.
abbrev pub Claimed : Type 0
Claimed = Result (Tables × ClaimResult)

-- A return of `ClaimResult.skipped(…)`.
abbrev pub skip : ExecutionDisposition → Tables → Claimed
skip disposition t = skipped disposition >>= λ r. ok (t, r)

-- `.value` of the members
abbrev pub step_type_value : StepType → String
step_type_value StepType.route = "ROUTE"
step_type_value StepType.plan = "PLAN"
step_type_value StepType.discovery = "DISCOVERY"
step_type_value StepType.select = "SELECT"
step_type_value StepType.fetch = "FETCH"
step_type_value StepType.extract = "EXTRACT"
step_type_value StepType.verify = "VERIFY"
step_type_value StepType.synthesize = "SYNTHESIZE"
step_type_value StepType.complete = "COMPLETE"

-- The items of an event's payload that name the step.
abbrev pub step_payload : Store → SearchStep → List (String × Detail) → List (String × Detail)
step_payload store step rest =
    ("step_id", Detail.text (store.print.uuid step.id))
    ∷ ("step_key", Detail.text step.step_key)
    ∷ rest

-- The branch on a run that has ended.
unfoldable pub claim_of_ended : SearchStep → Tables → Claimed
claim_of_ended step t = do
  step ← after Step.cancel step
  t ← save_step step t
  skip ExecutionDisposition.cancelled t

-- `step.start(); step.fail()`
unfoldable pub fail_unstarted : SearchStep → Result SearchStep
fail_unstarted step = do step ← after Step.start step; after Step.fail step

-- The branch past the hard deadline of the run.
unfoldable pub claim_past_hard : Store → Moment → SearchStep → SearchRun → Tables → Claimed
claim_past_hard store m step run t = do
  step ← fail_unstarted step
  run ← after (Run.fail StopReason.time_budget m.now) run
  t ← save_step step t
  t ← save_run run t
  t ← record_event m run "STEP_DEADLINE_EXCEEDED" (step_payload store step []) t
  skip ExecutionDisposition.failed t

abbrev phase_error : TypedError
phase_error = record {
  category = ErrorCategory.budget;
  code = "phase_deadline_exceeded";
  message = "Step phase deadline was exhausted before admission";
  retryable = false;
  details = [];
}

-- The branch past the deadline of the phase.
unfoldable pub claim_past_phase : Store → Moment → SearchStep → SearchRun → Tables → Claimed
claim_past_phase store m step run t = do
  run ← enter run.status m.now run
  step ← fail_unstarted step
  hooked ← store.completion.on_failure t run step phase_error ExecutionDisposition.failed
  t ← add_successors hooked.added t
  t ← save_step step t
  t ← save_run hooked.run t
  t ←
      record_event m hooked.run "STEP_PHASE_DEADLINE_EXCEEDED"
        (step_payload store step
          (("phase", Detail.text (phase_value (phase_for_step step.step_type))) ∷ []))
        t
  skip ExecutionDisposition.failed t

-- `StepExecutionContext(…)`
abbrev pub context_for : SearchStep → StepAttempt → DateTime → StepExecutionContext
context_for step attempt deadline = record {
  tenant_id = step.tenant_id;
  run_id = step.run_id;
  step_id = step.id;
  step_key = step.step_key;
  step_type = step.step_type;
  attempt_id = attempt.id;
  attempt_no = attempt.attempt_no;
  deadline_at = deadline;
  input_ref = step.input_ref;
}

-- `self._leases.claim(…)`: the attempt, and the step that it starts
unfoldable pub take :
    Store → Moment → String → DateTime → SearchStep → Tables → Result (StepAttempt × SearchStep)
take store m worker_id deadline step t =
    let (attempt, step') =
      Lease.claim store.print store.leases
        (record {
          attempt_no = next_attempt_no step.id t;
          worker_id = worker_id;
          now = m.now;
          deadline_at = deadline;
          new_id = m.attempt_id;
        })
        step in
    attempt >>= λ a. ok (a, step')

-- The branch that takes the step.
unfoldable pub claim_leased :
    Store → Moment → String → DateTime → SearchStep → SearchRun → Tables → Claimed
claim_leased store m worker_id deadline step run t = do
  run ← enter run.status m.now run
  taken ← take store m worker_id deadline step t
  t ← add_attempt taken.0 t
  t ← save_step taken.1 t
  t ← save_run run t
  t ←
      record_event m run "STEP_STARTED"
        (step_payload store taken.1 (
          ("step_type", Detail.text (step_type_value taken.1.step_type))
          ∷ ("attempt_no", Detail.number (pos taken.0.attempt_no))
          ∷ []))
        t
  context ← new_context (context_for taken.1 taken.0 deadline)
  answer ← acquired (record { attempt = taken.0; context = context })
  ok (t, answer)

-- The branches on the deadlines.
unfoldable pub claim_admitted : Store → Moment → String → SearchStep → SearchRun → Tables → Claimed
claim_admitted store m worker_id step run t = do
  past_hard ← le_or_raise run.budget.hard_deadline_at m.now
  (if past_hard then claim_past_hard store m step run t else do
    deadline ← deadline_for run.budget (phase_for_step step.step_type)
    past_phase ← le_or_raise deadline m.now
    (if past_phase
        then claim_past_phase store m step run t
        else claim_leased store m worker_id deadline step run t))

abbrev pub claim_in_run : Store → Moment → String → SearchStep → Tables → Option SearchRun → Claimed
claim_in_run store m worker_id step t none = skip ExecutionDisposition.stale t
claim_in_run store m worker_id step t (some run) =
    if is_terminal run then claim_of_ended step t else claim_admitted store m worker_id step run t

abbrev pub claim_step : Store → Moment → String → Tables → Option SearchStep → Claimed
claim_step store m worker_id t none = skip ExecutionDisposition.ignored t
claim_step store m worker_id t (some step) =
    if not (is_ready step.status)
    then skip ExecutionDisposition.ignored t
    else get_run step.run_id t >>= claim_in_run store m worker_id step t

unfoldable pub claim : Store → Moment → ℕ → String → Tables → Claimed
claim store m step_id worker_id t = get_step step_id t >>= claim_step store m worker_id t
