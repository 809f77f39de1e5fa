-- ===== src/Execution/Executor.antt =====
-- `DurableStepExecutor` of orchestration/executor.py, and the handlers of step_handlers/base.py. An
-- operation is an argument: what it returns or raises, or that it is cut off by the time limit. The
-- heartbeat beside it, which calls `renew`, raises into the operation's place when a lease is lost.
pub mod Errors
use sana_v.Base.{
  ℕ, String, Bool, true, false, not, ◌&&◌, Option, none, some, is_some, List, [], ◌∷◌, ℤ, sub_ℕ,
  pos, leb_ℤ, is_blank, strip, str_eq, str_append, if◌then◌else◌,
}
use sana_v.Shared.Errors.{
  ErrorCategory, TypedError, Error, Result, ok, err, value_error, type_error, lookup_error, typed,
  raise_if, ◌>>=◌, ◌>>◌,
}
use sana_v.Shared.Time.{DateTime}
use sana_v.Orchestration.Status.{StepType}
use sana_v.Execution.Values.{
  ExecutionDisposition, StepExecutionContext, StepExecutionResult, ClaimedStep, ClaimResult,
  checkpoint,
}
use sana_v.Execution.Tables.{Tables}
use sana_v.Execution.Store.{Store, Moment}
use sana_v.Execution.Store.Claim.{step_type_value}
use sana_v.Execution.Store.Finish.{Finished, succeed, fail}

-- An operation, within the microseconds that are left; `none` means that the time limit cut it off.
abbrev pub StepOperation : Type 0
StepOperation = StepExecutionContext → ℤ → Option (Result StepExecutionResult)

-- What the probe for cancellations and the clock answer at a checkpoint, and the clock after it.
pub record Check : Type 0 where
  pub is_cancelled : Bool
  pub now : DateTime

-- `except TimeoutError`
abbrev pub deadline_error : Error
deadline_error = typed (record {
  category = ErrorCategory.budget;
  code = "step_deadline_exceeded";
  message = "Step deadline was exhausted";
  retryable = false;
  details = [];
})

-- `BoundedStepHandler.handle`, with the checkpoint before and the one after, and the clock between
unfoldable pub handle :
    StepOperation → Check → DateTime → Check → StepExecutionContext → Result StepExecutionResult
handle operation before started after c = do
  checkpoint before.is_cancelled before.now c
  (elim (operation c (sub_ℕ c.deadline_at.instant started.instant)) [
    | none ↦ err deadline_error
    | some outcome ↦
        outcome >>= λ result. checkpoint after.is_cancelled after.now c >>= λ _. ok result
  ])

-- `StepHandlerRegistry`: its handlers by the type of the step
abbrev pub Registry : Type 0 → Type 0
Registry H = List (StepType × H)

module _ {H : Type 0} where
  unfoldable pub resolve : StepType → Registry H → Result H
  resolve type [] = err lookup_error
  resolve type ((other, handler) ∷ rest) =
      let later = resolve type rest in
      if str_eq (step_type_value other) (step_type_value type) then ok handler else later

  abbrev pub is_registered : StepType → Registry H → Bool
  is_registered type [] = false
  is_registered type ((other, handler) ∷ rest) =
      let later = is_registered type rest in
      if str_eq (step_type_value other) (step_type_value type) then true else later

  unfoldable pub register : StepType → H → Registry H → Result (Registry H)
  register type handler handlers =
      if is_registered type handlers
      then err (value_error (str_append "Handler already registered for " (step_type_value type)))
      else ok ((type, handler) ∷ handlers)

-- `DurableStepExecutor.__init__`: the checks
unfoldable pub check_executor : String → ℤ → Result (Unit {0})
check_executor worker_id heartbeat = do
  raise_if (is_blank worker_id) (value_error "worker_id cannot be empty")
  raise_if (leb_ℤ heartbeat (pos 0)) (value_error "heartbeat_seconds must be positive")

abbrev pub missing_handler : TypedError
missing_handler = record {
  category = ErrorCategory.permanent;
  code = "step_handler_missing";
  message = "No operation is configured for the claimed Step type";
  retryable = false;
  details = [];
}

abbrev pub failed_operation : TypedError
failed_operation = record {
  category = ErrorCategory.internal;
  code = "step_operation_failed";
  message = "Step operation failed unexpectedly";
  retryable = false;
  details = [];
}

-- The error that is reported: the three `except` clauses of `__call__`.
abbrev pub reported : Error → TypedError
reported (typed e) = e
reported lookup_error = missing_handler
reported _ = failed_operation

-- `__call__` after the operation, on the tables of that moment
unfoldable pub finalize :
    Store
    → Moment
    → ClaimedStep
    → Result StepExecutionResult
    → Tables
    → Finished ExecutionDisposition
finalize store m c (ok result) t = succeed store m c result t
finalize store m c (err e) t = fail store m c (reported e) t

-- `__call__` after the claim: the operation runs only if there is one, on the tables that are then.
unfoldable pub execute :
    Store
    → Moment
    → ClaimResult
    → (ClaimedStep → Result StepExecutionResult × Tables)
    → Result ExecutionDisposition
execute store m answer operate = elim answer.claimed [
  | none ↦ ok answer.disposition
  | some c ↦ let (outcome, t) = operate c in finalize store m c outcome t >>= λ out. ok out.2
]
