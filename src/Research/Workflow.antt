-- ===== src/Research/Workflow.antt =====
-- `ResearchWorkflow` of orchestration/research_workflow.py.
use sana_v.Base.{
  ℕ, String, Bool, true, false, not, ◌&&◌, ◌||◌, none, List, [], ◌∷◌, ◌++◌, any, ℤ, pos, ◌==◌,
  str_eq, keep, if◌then◌else◌,
}
use sana_v.Shared.Errors.{Result, ok, value_error, invariant_violation, raise_if, ◌>>=◌, ◌>>◌}
use sana_v.Shared.Time.{DateTime, is_at_most}
use sana_v.Shared.Method.{Method, Done, lift, ◌>>=◌ as then_run}
use sana_v.Orchestration.Status.{SearchMode, RunStatus, AnswerQuality, StopReason}
use sana_v.Orchestration.Values.{
  RoutingDecision, BudgetSnapshot, new_routing, BudgetUsage, Increments, add,
}
use sana_v.Orchestration.Run.{SearchRun, is_terminal, is_fast, upgrade_to_research, record_usage}
use sana_v.Orchestration.Policy.{BudgetPhase, SearchPolicy, snapshot, validate, can_start}
use sana_v.Evidence.Coverage.{FactCoverage, is_empty_list}
use sana_v.Research.Upgrade.{FastUpgradeDecision, unique, is_verified_status}

-- The routing of an upgraded run
abbrev pub upgrade_routing : SearchRun → FastUpgradeDecision → SearchPolicy → RoutingDecision
upgrade_routing r d p = record {
  mode = SearchMode.research;
  reason_codes = unique (r.routing.reason_codes ++ ("fast_value_upgrade" ∷ d.reason_codes));
  policy_version = p.version;
  confidence = pos 1_000_000;
}

-- `upgrade_fast_run` before it calls the run: its checks, and the routing and the budget
unfoldable pub prepare_upgrade :
    FastUpgradeDecision → SearchPolicy → SearchRun → Result (RoutingDecision × BudgetSnapshot)
unfolding new_routing snapshot validate
prepare_upgrade d p r = do
  raise_if (not d.should_upgrade) (value_error "FAST run has no valuable upgrade reason")
  raise_if (not (str_eq p.version r.routing.policy_version))
      (value_error "Upgrade policy version differs from the run snapshot")
  routing ← new_routing (upgrade_routing r d p)
  budget ← snapshot p SearchMode.research r.budget.created_at
  validate budget r.usage
  ok (routing, budget)

-- `upgrade_fast_run`
unfoldable pub upgrade_fast_run : FastUpgradeDecision → SearchPolicy → Method SearchRun Done
unfolding prepare_upgrade upgrade_to_research
upgrade_fast_run d p r =
    then_run (lift (prepare_upgrade d p r)) (λ x. upgrade_to_research x.0 x.1) r

abbrev is_schedulable : RunStatus → Bool
is_schedulable RunStatus.running = true
is_schedulable RunStatus.waiting = true
is_schedulable _ = false

-- `can_schedule`
unfoldable pub can_schedule : SearchRun → BudgetPhase → DateTime → ℤ → Result Bool
unfolding can_start
can_schedule r phase now estimated =
    if is_fast r.routing.mode || not (is_schedulable r.status)
    then ok false
    else can_start r.budget phase now estimated

-- `run.usage.add(expansion_rounds=1)`
abbrev pub one_round : Increments
one_round = record {
  queries = pos 0;
  providers = pos 0;
  fetches = pos 0;
  llm_calls = pos 0;
  prompt_tokens = pos 0;
  completion_tokens = pos 0;
  expansion_rounds = pos 1;
  phase = none;
  elapsed = pos 0;
}

-- `record_expansion` before it calls the run: the usage that it records
unfoldable pub expanded_usage : SearchRun → Result BudgetUsage
unfolding add validate
expanded_usage r = do
  raise_if (is_fast r.routing.mode || is_terminal r)
      (invariant_violation "Only an active RESEARCH run can expand")
  usage ← add r.usage one_round
  validate r.budget usage
  ok usage

-- `record_expansion`
unfoldable pub record_expansion : Method SearchRun Done
unfolding expanded_usage record_usage
record_expansion r = then_run (lift (expanded_usage r)) record_usage r

-- `RevisionStep`, but for its type and its query
pub record RevisionStep : Type 0 where
  pub step_key : String
  pub plan_revision : ℕ

-- `recover_new_steps`, over the keys of the steps that are there
unfoldable pub recover_new_steps : Bool → List RevisionStep → List (ℕ × String) → List RevisionStep
recover_new_steps should_expand steps persisted =
    if should_expand
    then keep (λ s. not (any (λ k. k.0 == s.plan_revision && str_eq k.1 s.step_key) persisted))
        steps
    else []

-- `hard_deadline_reached`
abbrev pub hard_deadline_reached : SearchRun → DateTime → Bool
hard_deadline_reached r now = is_at_most r.budget.hard_deadline_at now

pub record ResearchOutcome : Type 0 where
  pub quality : AnswerQuality
  pub reason : StopReason

-- `outcome`
unfoldable pub outcome : List FactCoverage → Bool → Bool → ResearchOutcome
outcome statuses stopped_for_low_gain deadline_reached =
    if not (is_empty_list statuses) && not (any (λ s. not (is_verified_status s)) statuses)
    then record { quality = AnswerQuality.complete; reason = StopReason.facts_covered }
    else if deadline_reached
    then record { quality = AnswerQuality.partial; reason = StopReason.time_budget }
    else record { quality = AnswerQuality.partial; reason = StopReason.insufficient_evidence }
