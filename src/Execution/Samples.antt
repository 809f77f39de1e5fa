-- ===== src/Execution/Samples.antt =====
-- Sample data: a step that fails, is tried again by another worker, and succeeds.
use sana_v.Base.{
  ◌+ℤ◌, Bool, map, ℕ, ◌+◌, ◌*◌, ◌≡◌, refl, String, true, false, none, some, [], ◌∷◌, pos,
}
use sana_v.Shared.Errors.{ErrorCategory, TypedError, Result, ok, err}
use sana_v.Shared.Time.{DateTime, shift}
use sana_v.Orchestration.Status.{SearchMode, RunStatus, AnswerQuality, StepStatus, StepType}
use sana_v.Orchestration.Values.{
  RoutingDecision, BudgetSnapshot, ArtifactRef, no_usage, add, new_usage,
}
use sana_v.Orchestration.Run
use sana_v.Orchestration.Run.Loading as RunLoading
use sana_v.Orchestration.Run.{SearchRun}
use sana_v.Orchestration.Step
use sana_v.Orchestration.Attempt
use sana_v.Orchestration.Lease
use sana_v.Orchestration.Step.{SearchStep, StepKeys, new_step}
use sana_v.Orchestration.Policy.{BudgetPhase, deadline_for, non_synthesis_deadline}
use sana_v.Orchestration.Policy.Deadlines.{default_snapshot}
use sana_v.Execution.Values.{
  RunEventData, new_event, new_context, apply, ExecutionDisposition, StepExecutionContext,
  StepExecutionResult, ClaimedStep, ClaimResult,
}
use sana_v.Execution.Tables.{
  Tables, get_step, get_run, save_step, save_run, add_step, add_attempt, complete_attempt,
  next_attempt_no, add_event,
}
use sana_v.Execution.Store.{Store, Moment, record_event, add_successors}
use sana_v.Execution.Store.Claim.{claim, claim_admitted, claim_leased, take}
use sana_v.Execution.Store.Finish.{
  succeed, succeed_active, charge, fail, fail_step, decide_retry, may_retry,
}
use sana_v.Execution.Recovery.{ReconcileCandidate, retry_ready, make_ready}

-- Seconds after the first instant of year 2025.
abbrev pub at : ℕ → DateTime
at n = record { is_aware = true; instant = 63_871_286_400_000_000 + n * 1_000_000 }

abbrev pub routing : RoutingDecision
routing = record {
  mode = SearchMode.fast;
  reason_codes = "simple" ∷ [];
  policy_version = "search-v12";
  confidence = pos 900_000;
}

abbrev pub budget : BudgetSnapshot
budget = default_snapshot SearchMode.fast (at 0)

abbrev pub run : SearchRun
run = record {
  id = 1;
  tenant_id = 2;
  conversation_id = 3;
  message_id = 4;
  response_run_id = 5;
  routing = routing;
  budget = budget;
  status = RunStatus.queued;
  answer_quality = AnswerQuality.none;
  stop_reason = none;
  usage = no_usage;
  started_at = none;
  completed_at = none;
  version = 0;
  persisted_version = 0;
}

abbrev pub page : ArtifactRef
page = record {
  uri = "db://pages/1";
  sha256 = "0123456789abcdef0123456789abcdef0123456789abcdef0123456789abcdef";
}

abbrev pub step : SearchStep
step = record {
  id = 6;
  tenant_id = 2;
  run_id = 1;
  step_key = "fetch:1";
  step_type = StepType.fetch;
  plan_revision = 1;
  input_ref = page;
  status = StepStatus.ready;
  output_ref = none;
  retry_at = none;
  version = 0;
  persisted_version = 0;
}

abbrev pub successor : StepKeys
successor = record {
  id = 7;
  tenant_id = 2;
  run_id = 1;
  step_key = "verify";
  step_type = StepType.verify;
  plan_revision = 1;
  input_ref = page;
}

-- A hook that adds a step after a success, and nothing after a failure.
abbrev pub store : Store
store = record {
  print = record { uuid = λ _. "step"; number = λ n. if_one n };
  leases = record { lease = pos 3_000_000 };
  completion = record {
    on_success = λ t run step result. ok (record { run = run; added = successor ∷ [] });
    on_failure = λ t run step error disposition. ok (record { run = run; added = [] });
  };
  retry_base = 1_000_000;
  retry_max = 10_000_000;
  max_attempts = 3;
  fetch_max_attempts = 2;
  lease_extension = pos 3_000_000;
}
  where
    if_one : ℕ → String
    if_one Prim.Native.Nat.zero = "0"
    if_one (Prim.Native.Nat.suc Prim.Native.Nat.zero) = "1"
    if_one _ = "2"

abbrev pub moment : ℕ → ℕ → Moment
moment n attempt_id = record {
  now = at n;
  event_at = at n;
  event_id = 100 + n;
  attempt_id = attempt_id;
}

abbrev pub tables : Tables
tables = record { tenant_id = 2; runs = run ∷ []; steps = step ∷ []; attempts = []; events = [] }

abbrev pub value_or {ℓ} : {A : Type ℓ} → A → Result A → A
value_or d (ok a) = a
value_or d (err _) = d

abbrev pub no_answer : ClaimResult
no_answer = record { claimed = none; disposition = ExecutionDisposition.ignored }

abbrev pub timeout_error : TypedError
timeout_error = record {
  category = ErrorCategory.transient;
  code = "timeout";
  message = "The source did not answer";
  retryable = true;
  details = [];
}

abbrev pub outcome : StepExecutionResult
outcome = record {
  output_ref = page;
  actual_cost = record {
    phase = BudgetPhase.fetch_extract;
    estimated = pos 0;
    queries = pos 0;
    providers = pos 0;
    fetches = pos 1;
    llm_calls = pos 0;
  };
}

-- The first worker takes the step.
unfoldable pub taken : Tables × ClaimResult
unfolding claim claim_admitted claim_leased take deadline_for non_synthesis_deadline shift Run.start
    Run.transition Lease.claim new_context get_step get_run RunLoading.rehydrate Step.rehydrate
    save_step save_run add_step add_attempt complete_attempt next_attempt_no add_event record_event
    new_event add_successors new_step
taken = value_or (tables, no_answer) (claim store (moment 1 11) 6 "worker-a" tables)

pub taken_lem : claim store (moment 1 11) 6 "worker-a" tables ≡ ok taken
unfolding taken
taken_lem = refl

-- Its claim, and that of the second worker.
abbrev context : StepExecutionContext
context = record {
  tenant_id = 2;
  run_id = 1;
  step_id = 6;
  step_key = "fetch:1";
  step_type = StepType.fetch;
  attempt_id = 11;
  attempt_no = 1;
  deadline_at = at 13;
  input_ref = page;
}

abbrev pub first_claim : ClaimedStep
first_claim = record {
  attempt = record {
    id = 11;
    tenant_id = 2;
    run_id = 1;
    step_id = 6;
    attempt_no = 1;
    idempotency_key = "step:1";
    lease_owner = "worker-a";
    leased_until = at 4;
    deadline_at = at 13;
    started_at = at 1;
    input_ref = page;
    completed_at = none;
    output_ref = none;
    error = none;
  };
  context = context;
}

pub taken_claims : taken.1.claimed ≡ some first_claim
unfolding taken
taken_claims = refl

-- It fails, and is to be tried again.
unfoldable pub put_off : Tables × ClaimedStep × ExecutionDisposition
unfolding taken fail fail_step decide_retry may_retry Step.retry_later Attempt.fail
put_off =
    value_or (tables, first_claim, ExecutionDisposition.stale)
      (fail store (moment 2 0) first_claim timeout_error taken.0)

pub put_off_lem : fail store (moment 2 0) first_claim timeout_error taken.0 ≡ ok put_off
unfolding put_off
put_off_lem = refl

pub put_off_again : put_off.2 ≡ ExecutionDisposition.retry_scheduled
unfolding put_off
put_off_again = refl

abbrev pub candidate : ReconcileCandidate
candidate = record {
  tenant_id = 2;
  step_id = 6;
  status = StepStatus.retry_wait;
  retry_at = some (at 3);
  leased_until = none;
}

-- The reconciliation makes it READY.
unfoldable pub ready_again : Tables × Bool
unfolding put_off make_ready retry_ready Step.make_ready
ready_again = value_or (tables, false) (make_ready candidate (at 3) put_off.0)

pub ready_again_lem : make_ready candidate (at 3) put_off.0 ≡ ok ready_again
unfolding ready_again
ready_again_lem = refl

-- A second worker takes it, and succeeds.
unfoldable pub retaken : Tables × ClaimResult
unfolding ready_again taken
retaken = value_or (tables, no_answer) (claim store (moment 4 12) 6 "worker-b" ready_again.0)

pub retaken_lem : claim store (moment 4 12) 6 "worker-b" ready_again.0 ≡ ok retaken
unfolding retaken
retaken_lem = refl

abbrev pub second_claim : ClaimedStep
second_claim = record {
  attempt = record first_claim.attempt {
    id = 12;
    attempt_no = 2;
    idempotency_key = "step:2";
    lease_owner = "worker-b";
    leased_until = at 7;
    started_at = at 4;
  };
  context = record context { attempt_id = 12; attempt_no = 2 };
}

pub retaken_claims : retaken.1.claimed ≡ some second_claim
unfolding retaken
retaken_claims = refl

unfoldable pub finished : Tables × ClaimedStep × ExecutionDisposition
unfolding retaken succeed succeed_active charge apply add new_usage ◌+ℤ◌ Run.record_usage
    Step.succeed Attempt.succeed
finished =
    value_or (tables, first_claim, ExecutionDisposition.stale)
      (succeed store (moment 5 0) second_claim outcome retaken.0)

pub finished_lem : succeed store (moment 5 0) second_claim outcome retaken.0 ≡ ok finished
unfolding finished
finished_lem = refl

finished_succeeds :
    (finished.2 ≡ ExecutionDisposition.succeeded)
    × (map (λ (s : SearchStep). s.status) finished.0.steps
        ≡ StepStatus.succeeded ∷ StepStatus.ready ∷ [])
    × (map (λ (e : RunEventData). e.sequence) finished.0.events ≡ 1 ∷ 2 ∷ 3 ∷ 4 ∷ [])
unfolding finished
finished_succeeds = (refl, refl, refl)

-- The first worker is too late.
too_late :
    fail store (moment 5 0) first_claim timeout_error retaken.0
    ≡ ok (retaken.0, first_claim, ExecutionDisposition.stale)
unfolding retaken
too_late = refl
