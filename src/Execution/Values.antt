-- ===== src/Execution/Values.antt =====
-- What the execution of one step passes around: orchestration/executor.py (ExecutionDisposition,
-- ClaimedStep, ClaimResult), orchestration/step_handlers/base.py, StepBudgetCost of
-- orchestration/search_workflow.py and RunEventData of orchestration/events.py. The trace context,
-- which is only passed on, is left out, and so are the clock and the probe for cancellations, which
-- `checkpoint` takes as what they answer.
use sana_v.Base.{
  ℕ, ◌-◌, String, Bool, true, false, xor, ◌||◌, Option, none, some, is_some, is_blank, strip, ltb,
  any, List, [], ◌∷◌, ℤ, pos, is_negative, if◌then◌else◌,
}
use sana_v.Shared.Errors.{
  ErrorCategory, Detail, Error, Result, ok, err, value_error, type_error, typed, raise_if, ◌>>=◌,
  ◌>>◌,
}
use sana_v.Shared.Time.{DateTime, le_or_raise}
use sana_v.Orchestration.Status.{StepType}
use sana_v.Orchestration.Values.{ArtifactRef, BudgetUsage, add}
use sana_v.Orchestration.Policy.{BudgetPhase, phase_value}
use sana_v.Orchestration.Attempt.{StepAttempt}

pub data ExecutionDisposition : Type 0 where
  claimed ignored succeeded retry_scheduled failed cancelled stale : ExecutionDisposition

abbrev pub is_claimed : ExecutionDisposition → Bool
is_claimed ExecutionDisposition.claimed = true
is_claimed _ = false

pub record StepExecutionContext : Type 0 where
  pub tenant_id : ℕ
  pub run_id : ℕ
  pub step_id : ℕ
  pub step_key : String
  pub step_type : StepType
  pub attempt_id : ℕ
  pub attempt_no : ℕ
  pub deadline_at : DateTime
  pub input_ref : ArtifactRef

-- `__post_init__`
unfoldable pub new_context : StepExecutionContext → Result StepExecutionContext
unfolding strip
new_context c = do
  raise_if (is_blank c.step_key) (value_error "Step execution key cannot be empty")
  raise_if (ltb c.attempt_no 1) (value_error "Step execution attempt number must be positive")
  raise_if (xor c.deadline_at.is_aware true) (value_error "Step deadline must be timezone-aware")
  ok c

abbrev deadline_exceeded : Error
deadline_exceeded = typed (record {
  category = ErrorCategory.budget;
  code = "step_deadline_exceeded";
  message = "Step deadline was exhausted";
  retryable = false;
  details = [];
})

-- `checkpoint`, with what the probe and the clock answer
unfoldable pub checkpoint : Bool → DateTime → StepExecutionContext → Result (Unit {0})
checkpoint is_cancelled now c = do
  raise_if is_cancelled (
      typed (record {
        category = ErrorCategory.cancelled;
        code = "run_cancelled";
        message = "Run was cancelled";
        retryable = false;
        details = [];
      }))
  late ← le_or_raise c.deadline_at now
  raise_if late deadline_exceeded

pub record ClaimedStep : Type 0 where
  pub attempt : StepAttempt
  pub context : StepExecutionContext

pub record ClaimResult : Type 0 where
  pub claimed : Option ClaimedStep
  pub disposition : ExecutionDisposition

-- `__post_init__`: `(claimed is None) == (disposition is CLAIMED)` raises
abbrev pub new_claim_result : Option ClaimedStep → ExecutionDisposition → Result ClaimResult
new_claim_result payload disposition =
    if xor (is_some payload) (is_claimed disposition)
    then err (value_error "Claim payload and disposition are inconsistent")
    else ok (record { claimed = payload; disposition = disposition })

abbrev pub acquired : ClaimedStep → Result ClaimResult
acquired step = new_claim_result (some step) ExecutionDisposition.claimed

abbrev pub skipped : ExecutionDisposition → Result ClaimResult
skipped disposition =
    if is_claimed disposition
    then err (value_error "Skipped claim cannot use CLAIMED")
    else new_claim_result none disposition

pub record StepBudgetCost : Type 0 where
  pub phase : BudgetPhase
  pub estimated : ℤ
  pub queries : ℤ
  pub providers : ℤ
  pub fetches : ℤ
  pub llm_calls : ℤ

-- `__post_init__`
unfoldable pub new_cost : StepBudgetCost → Result StepBudgetCost
new_cost c =
    if is_negative c.estimated
      || any is_negative (c.queries ∷ c.providers ∷ c.fetches ∷ c.llm_calls ∷ [])
    then err (value_error "Step budget cost cannot be negative")
    else ok c

-- `apply`, whose calls of models are counted elsewhere
unfoldable pub apply : StepBudgetCost → BudgetUsage → Option ℤ → Result BudgetUsage
unfolding add
apply c usage elapsed = add usage (record {
  queries = c.queries;
  providers = c.providers;
  fetches = c.fetches;
  llm_calls = pos 0;
  prompt_tokens = pos 0;
  completion_tokens = pos 0;
  expansion_rounds = pos 0;
  phase = some (phase_value c.phase);
  elapsed = elim elapsed [ none ↦ c.estimated | some given ↦ given ];
})

pub record StepExecutionResult : Type 0 where
  pub output_ref : ArtifactRef
  pub actual_cost : StepBudgetCost

pub record RunEventData : Type 0 where
  pub id : ℕ
  pub tenant_id : ℕ
  pub run_id : ℕ
  pub sequence : ℕ
  pub event_type : String
  pub payload : List (String × Detail)
  pub created_at : DateTime

-- `__post_init__`
unfoldable pub new_event : RunEventData → Result RunEventData
unfolding strip
new_event e = do
  raise_if (ltb e.sequence 1) (value_error "Run event sequence must be positive")
  raise_if (is_blank e.event_type) (value_error "Run event type cannot be empty")
  raise_if (xor e.created_at.is_aware true)
      (value_error "Run event timestamp must be timezone-aware")
  ok e

-- `max(0.0, (now - started_at).total_seconds())`
abbrev pub elapsed_since : DateTime → DateTime → Result ℤ
elapsed_since now started_at =
    if xor now.is_aware started_at.is_aware
    then err type_error
    else ok (pos (now.instant - started_at.instant))
