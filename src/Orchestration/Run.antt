-- ===== src/Orchestration/Run.antt =====
-- `SearchRun` of orchestration/domain.py: one search workflow, from its submission to its outcome.
-- An identifier (a UUID) is a number; a version is a counter.
pub mod Loading
pub mod Calls
pub mod Lifecycle
pub mod Limits
use sana_v.Base.{
  ℕ, ◌+◌, String, Bool, true, false, not, ◌&&◌, ◌||◌, Option, none, some, List, [], ◌∷◌, any, ℤ,
  ltb_ℤ, str_eq, is_some, or_else, if◌then◌else◌,
}
use sana_v.Shared.Errors.{Error, Result, ok, err, value_error, invariant_violation}
use sana_v.Shared.Time.{DateTime, require_aware, is_at_most, is_same_instant}
use sana_v.Shared.Method.{Method, Done, ◌>>=◌, ◌>>◌, pure, lift, self, refuse_if, modify, run_all}
use sana_v.Orchestration.Status.{
  SearchMode, RunStatus, AnswerQuality, StopReason, run_value, run_transitions, assert_transition,
}
use sana_v.Orchestration.Values.{RoutingDecision, BudgetSnapshot, BudgetUsage, no_usage}

pub record SearchRun : Type 0 where
  pub id : ℕ
  pub tenant_id : ℕ
  pub conversation_id : ℕ
  pub message_id : ℕ
  pub response_run_id : ℕ
  pub routing : RoutingDecision
  pub budget : BudgetSnapshot
  pub status : RunStatus
  pub answer_quality : AnswerQuality
  pub stop_reason : Option StopReason
  pub usage : BudgetUsage
  pub started_at : Option DateTime
  pub completed_at : Option DateTime
  pub version : ℕ
  pub persisted_version : ℕ

-- What identifies a run.
pub record RunKeys : Type 0 where
  pub id : ℕ
  pub tenant_id : ℕ
  pub conversation_id : ℕ
  pub message_id : ℕ
  pub response_run_id : ℕ

-- `SearchRun(…)` with the defaults of the fields that a caller leaves out, and `__post_init__`
unfoldable pub new_run : RunKeys → RoutingDecision → BudgetSnapshot → Result SearchRun
new_run k routing budget =
    if not (str_eq routing.policy_version budget.policy_version)
    then err (value_error "Routing and budget policy versions must match")
    else ok (record {
      id = k.id;
      tenant_id = k.tenant_id;
      conversation_id = k.conversation_id;
      message_id = k.message_id;
      response_run_id = k.response_run_id;
      routing = routing;
      budget = budget;
      status = RunStatus.queued;
      answer_quality = AnswerQuality.none;
      stop_reason = none;
      usage = no_usage;
      started_at = none;
      completed_at = none;
      version = 0;
      persisted_version = 0;
    })

-- `self.status in {SUCCEEDED, FAILED, CANCELLED}`
abbrev pub is_final : RunStatus → Bool
is_final RunStatus.succeeded = true
is_final RunStatus.failed = true
is_final RunStatus.cancelled = true
is_final _ = false

abbrev pub is_terminal : SearchRun → Bool
is_terminal r = is_final r.status

-- `mark_persisted`
unfoldable pub mark_persisted : Method SearchRun Done
mark_persisted = modify (λ r. record r { persisted_version = r.version })

-- `_transition`
unfoldable pub transition : RunStatus → Method SearchRun Done
unfolding assert_transition run_transitions
transition target = do
  r ← self
  lift (assert_transition run_value r.status target run_transitions "search_run")
  modify (λ r. record r { status = target; version = r.version + 1 })

unfoldable pub start : DateTime → Method SearchRun Done
unfolding transition
start at = do
  lift (require_aware at "started_at")
  transition RunStatus.running
  modify (λ r. record r { started_at = some (or_else r.started_at at) })

unfoldable pub wait : Method SearchRun Done
unfolding transition
wait = transition RunStatus.waiting

unfoldable pub resume : Method SearchRun Done
unfolding transition
resume = transition RunStatus.running

-- `any(new < old …)` over the seven counters
abbrev pub decreases : BudgetUsage → BudgetUsage → Bool
decreases new old =
    ltb_ℤ new.query_count old.query_count
    || ltb_ℤ new.provider_count old.provider_count
    || ltb_ℤ new.fetch_count old.fetch_count
    || ltb_ℤ new.llm_call_count old.llm_call_count
    || ltb_ℤ new.prompt_token_count old.prompt_token_count
    || ltb_ℤ new.completion_token_count old.completion_token_count
    || ltb_ℤ new.expansion_rounds old.expansion_rounds

unfoldable pub record_usage : BudgetUsage → Method SearchRun Done
record_usage u = do
  r ← self
  refuse_if (is_terminal r) (invariant_violation "Cannot update usage for a terminal run")
  refuse_if (decreases u r.usage) (invariant_violation "Run usage counters cannot decrease")
  modify (λ r. record r { usage = u; version = r.version + 1 })

abbrev pub is_fast : SearchMode → Bool
is_fast SearchMode.fast = true
is_fast SearchMode.research = false

unfoldable pub upgrade_to_research : RoutingDecision → BudgetSnapshot → Method SearchRun Done
upgrade_to_research routing budget = do
  r ← self
  refuse_if (is_terminal r) (invariant_violation "Cannot upgrade a terminal run")
  refuse_if (not (is_fast r.routing.mode) || is_fast routing.mode)
      (invariant_violation "Only a FAST run can upgrade to RESEARCH")
  refuse_if (not (str_eq routing.policy_version budget.policy_version))
      (invariant_violation "Upgrade routing and budget versions differ")
  refuse_if (not (str_eq routing.policy_version r.routing.policy_version))
      (invariant_violation "Upgrade cannot change the run policy version")
  refuse_if (not (is_same_instant budget.created_at r.budget.created_at))
      (invariant_violation "Upgrade must retain the original run start time")
  refuse_if (is_at_most budget.hard_deadline_at r.budget.hard_deadline_at)
      (invariant_violation "Research upgrade must extend the hard deadline")
  modify (λ r. record r { routing = routing; budget = budget; version = r.version + 1 })

abbrev pub is_quality_none : AnswerQuality → Bool
is_quality_none AnswerQuality.none = true
is_quality_none _ = false

abbrev pub is_facts_covered : StopReason → Bool
is_facts_covered StopReason.facts_covered = true
is_facts_covered _ = false

abbrev pub is_user_cancelled : StopReason → Bool
is_user_cancelled StopReason.user_cancelled = true
is_user_cancelled _ = false

-- `quality is COMPLETE and reason is not FACTS_COVERED`
abbrev pub is_bad_complete : AnswerQuality → StopReason → Bool
is_bad_complete AnswerQuality.complete reason = not (is_facts_covered reason)
is_bad_complete _ _ = false

-- `quality is PARTIAL and reason is FACTS_COVERED`
abbrev pub is_bad_partial : AnswerQuality → StopReason → Bool
is_bad_partial AnswerQuality.partial reason = is_facts_covered reason
is_bad_partial _ _ = false

unfoldable pub succeed : AnswerQuality → StopReason → DateTime → Method SearchRun Done
unfolding transition
succeed quality reason at = do
  lift (require_aware at "completed_at")
  refuse_if (is_quality_none quality)
      (invariant_violation "A successful run must contain an answer")
  refuse_if (is_bad_complete quality reason)
      (invariant_violation "A complete answer must stop because facts are covered")
  refuse_if (is_bad_partial quality reason)
      (invariant_violation "A partial answer cannot claim all facts are covered")
  refuse_if (is_user_cancelled reason)
      (invariant_violation "A successful run cannot be user-cancelled")
  transition RunStatus.succeeded
  modify (λ r. record r {
    answer_quality = quality;
    stop_reason = some reason;
    completed_at = some at;
  })

unfoldable pub fail : StopReason → DateTime → Method SearchRun Done
unfolding transition
fail reason at = do
  lift (require_aware at "completed_at")
  refuse_if (is_facts_covered reason || is_user_cancelled reason)
      (invariant_violation "Failure stop reason is inconsistent")
  transition RunStatus.failed
  modify (λ r. record r {
    answer_quality = AnswerQuality.none;
    stop_reason = some reason;
    completed_at = some at;
  })

unfoldable pub cancel : DateTime → Method SearchRun Done
unfolding transition
cancel at = do
  lift (require_aware at "completed_at")
  transition RunStatus.cancelled
  modify (λ r. record r {
    answer_quality = AnswerQuality.none;
    stop_reason = some StopReason.user_cancelled;
    completed_at = some at;
  })
