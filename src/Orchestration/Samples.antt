-- ===== src/Orchestration/Samples.antt =====
-- Sample data: a search with the default policy, and tests of the definitions on it.
use sana_v.Base.{ℕ, ◌≡◌, refl, String, true, none, some, List, [], ◌∷◌, pos}
use sana_v.Shared.Errors.{ok}
use sana_v.Shared.Time.{DateTime}
use sana_v.Shared.Method.{run_all}
use sana_v.Orchestration.Status.{
  SearchMode, RunStatus, AnswerQuality, StopReason, StepStatus, StepType,
}
use sana_v.Orchestration.Values.{
  RoutingDecision, BudgetSnapshot, BudgetUsage, ArtifactRef, Increments, no_usage, new_artifact,
}
use sana_v.Orchestration.Run.{SearchRun, RunKeys}
use sana_v.Orchestration.Run.Calls
use sana_v.Orchestration.Step.{SearchStep, StepKeys, new_step}
use sana_v.Orchestration.Step.Calls as StepCalls
use sana_v.Orchestration.Attempt.{StepAttempt, new_attempt}
use sana_v.Orchestration.Policy.Deadlines.{default_snapshot}

-- Seconds after the first instant of year 2025.
abbrev pub at : ℕ → DateTime
at n = record {
  is_aware = true;
  instant = Prim.Native.Nat.◌+◌ 63_871_286_400_000_000 (Prim.Native.Nat.◌*◌ n 1_000_000);
}

abbrev pub fast_routing : RoutingDecision
fast_routing = record {
  mode = SearchMode.fast;
  reason_codes = "simple" ∷ [];
  policy_version = "search-v12";
  confidence = pos 900_000;
}

abbrev pub research_routing : RoutingDecision
research_routing = record fast_routing { mode = SearchMode.research }

abbrev pub fast_budget : BudgetSnapshot
fast_budget = default_snapshot SearchMode.fast (at 0)

abbrev pub research_budget : BudgetSnapshot
research_budget = default_snapshot SearchMode.research (at 0)

abbrev pub keys : RunKeys
keys = record { id = 1; tenant_id = 2; conversation_id = 3; message_id = 4; response_run_id = 5 }

abbrev pub fresh_run : SearchRun
fresh_run = record {
  id = 1;
  tenant_id = 2;
  conversation_id = 3;
  message_id = 4;
  response_run_id = 5;
  routing = fast_routing;
  budget = fast_budget;
  status = RunStatus.queued;
  answer_quality = AnswerQuality.none;
  stop_reason = none;
  usage = no_usage;
  started_at = none;
  completed_at = none;
  version = 0;
  persisted_version = 0;
}

abbrev pub one_query : Increments
one_query = record {
  queries = pos 1;
  providers = pos 1;
  fetches = pos 0;
  llm_calls = pos 0;
  prompt_tokens = pos 0;
  completion_tokens = pos 0;
  expansion_rounds = pos 0;
  phase = some "discovery";
  elapsed = pos 2_000_000;
}

abbrev pub one_query_usage : BudgetUsage
one_query_usage = record no_usage {
  query_count = pos 1;
  provider_count = pos 1;
  phase_seconds = ("discovery", pos 2_000_000) ∷ [];
}

-- A search that begins fast, is upgraded, and ends with a complete answer; the call that is made
-- too late raises.
abbrev pub upgraded_search : List Calls.Call
upgraded_search =
    Calls.Call.start (at 1)
    ∷ Calls.Call.record_usage one_query_usage
    ∷ Calls.Call.upgrade research_routing research_budget
    ∷ Calls.Call.succeed AnswerQuality.complete StopReason.facts_covered (at 9)
    ∷ Calls.Call.cancel (at 10)
    ∷ []

upgraded_search_ends :
    let r = run_all Calls.call upgraded_search fresh_run in
    (r.status ≡ RunStatus.succeeded) × (r.version ≡ 4) × (r.completed_at ≡ some (at 9))
unfolding run_all Calls.call
upgraded_search_ends = (refl, refl, refl)

abbrev pub digest : String
digest = "0123456789abcdef0123456789abcdef0123456789abcdef0123456789abcdef"

abbrev pub message_ref : ArtifactRef
message_ref = record { uri = "db://messages/4"; sha256 = digest }

digest_lowered :
    new_artifact (record {
      uri = "x";
      sha256 = "0123456789ABCDEF0123456789ABCDEF0123456789ABCDEF0123456789ABCDEF";
    })
    ≡ ok (record { uri = "x"; sha256 = digest })
unfolding new_artifact
digest_lowered = refl

abbrev pub step_keys : StepKeys
step_keys = record {
  id = 6;
  tenant_id = 2;
  run_id = 1;
  step_key = "route";
  step_type = StepType.route;
  plan_revision = 1;
  input_ref = message_ref;
}

abbrev pub fresh_step : SearchStep
fresh_step = record {
  id = 6;
  tenant_id = 2;
  run_id = 1;
  step_key = "route";
  step_type = StepType.route;
  plan_revision = 1;
  input_ref = message_ref;
  status = StepStatus.ready;
  output_ref = none;
  retry_at = none;
  version = 0;
  persisted_version = 0;
}

pub fresh_step_made : new_step step_keys ≡ ok fresh_step
unfolding new_step
fresh_step_made = refl

abbrev pub retried_step : List StepCalls.Call
retried_step =
    StepCalls.Call.start
    ∷ StepCalls.Call.retry_later (at 5)
    ∷ StepCalls.Call.make_ready
    ∷ StepCalls.Call.start
    ∷ StepCalls.Call.succeed message_ref
    ∷ []

abbrev pub fresh_attempt : StepAttempt
fresh_attempt = record {
  id = 7;
  tenant_id = 2;
  run_id = 1;
  step_id = 6;
  attempt_no = 1;
  idempotency_key = "6:1";
  lease_owner = "worker-1";
  leased_until = at 30;
  deadline_at = at 60;
  started_at = at 0;
  input_ref = message_ref;
  completed_at = none;
  output_ref = none;
  error = none;
}

pub fresh_attempt_made : new_attempt fresh_attempt ≡ ok fresh_attempt
unfolding new_attempt
fresh_attempt_made = refl

abbrev pub finished_attempt : StepAttempt
finished_attempt = record fresh_attempt {
  completed_at = some (at 3);
  output_ref = some message_ref;
}
