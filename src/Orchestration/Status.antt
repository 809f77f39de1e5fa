-- ===== src/Orchestration/Status.antt =====
-- sana/modules/orchestration/transitions.py, and the enumerations and transition tables of
-- orchestration/domain.py.
use Prim.Native.String.{◌++◌ as str_append}
use sana_v.Base.{String, List, [], ◌∷◌, any, str_eq, if◌then◌else◌}
use sana_v.Shared.Errors.{Detail, Result, ok, err, invariant_violation_with}

pub data SearchMode : Type 0 where
  fast research : SearchMode

pub data RunStatus : Type 0 where
  queued running waiting succeeded failed cancelled : RunStatus

pub data AnswerQuality : Type 0 where
  complete partial none : AnswerQuality

pub data StopReason : Type 0 where
  facts_covered time_budget insufficient_evidence provider_failure policy_blocked user_cancelled
        infrastructure_failure :
      StopReason

pub data StepStatus : Type 0 where
  ready running retry_wait succeeded failed skipped cancelled : StepStatus

pub data StepType : Type 0 where
  route plan discovery select fetch extract verify synthesize complete : StepType

-- `.value` of the members. `StrEnum` compares by it.
abbrev pub run_value : RunStatus → String
run_value RunStatus.queued = "QUEUED"
run_value RunStatus.running = "RUNNING"
run_value RunStatus.waiting = "WAITING"
run_value RunStatus.succeeded = "SUCCEEDED"
run_value RunStatus.failed = "FAILED"
run_value RunStatus.cancelled = "CANCELLED"

abbrev pub step_value : StepStatus → String
step_value StepStatus.ready = "READY"
step_value StepStatus.running = "RUNNING"
step_value StepStatus.retry_wait = "RETRY_WAIT"
step_value StepStatus.succeeded = "SUCCEEDED"
step_value StepStatus.failed = "FAILED"
step_value StepStatus.skipped = "SKIPPED"
step_value StepStatus.cancelled = "CANCELLED"

-- `_RUN_TRANSITIONS.get(current, frozenset())`
unfoldable pub run_transitions : RunStatus → List RunStatus
run_transitions RunStatus.queued = RunStatus.running ∷ RunStatus.failed ∷ RunStatus.cancelled ∷ []
run_transitions RunStatus.running =
    RunStatus.waiting ∷ RunStatus.succeeded ∷ RunStatus.failed ∷ RunStatus.cancelled ∷ []
run_transitions RunStatus.waiting = RunStatus.running ∷ RunStatus.failed ∷ RunStatus.cancelled ∷ []
run_transitions _ = []

-- `_STEP_TRANSITIONS.get(current, frozenset())`
unfoldable pub step_transitions : StepStatus → List StepStatus
step_transitions StepStatus.ready =
    StepStatus.running ∷ StepStatus.skipped ∷ StepStatus.cancelled ∷ []
step_transitions StepStatus.running =
    StepStatus.ready ∷ StepStatus.retry_wait ∷ StepStatus.succeeded ∷ StepStatus.failed
    ∷ StepStatus.cancelled ∷ []
step_transitions StepStatus.retry_wait =
    StepStatus.ready ∷ StepStatus.failed ∷ StepStatus.cancelled ∷ []
step_transitions _ = []

-- `assert_transition`, over the members' values and the table of allowed targets
unfoldable pub assert_transition :
    {S : Type 0} → (S → String) → S → S → (S → List S) → String → Result (Unit {0})
assert_transition value current target allowed entity =
    if any (λ s. str_eq (value s) (value target)) (allowed current)
    then ok tt
    else err (
        invariant_violation_with
          (str_append "Illegal " (
            str_append entity (
              str_append " transition: "
                (str_append (value current) (str_append " -> " (value target))))))
          "illegal_state_transition"
          (("entity", Detail.text entity)
            ∷ ("current", Detail.text (value current))
            ∷ ("target", Detail.text (value target))
            ∷ []))
