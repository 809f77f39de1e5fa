-- ===== src/Orchestration/Examples.antt =====
-- Each theorem about runs, steps, attempts and budgets at an input that meets its hypotheses.
use sana_v.Base.{◌≡◌, ◌<◌, ◌+◌, refl, true, false, List, [], ◌∷◌, arith, pos, ◌↔◌, ◌+ℤ◌, strip}
use sana_v.Shared.Errors.{ok}
use sana_v.Shared.Method.{run_all}
use sana_v.Shared.Time.{shift}
use sana_v.Orchestration.Status.{SearchMode, RunStatus, AnswerQuality, StopReason, StepStatus}
use sana_v.Orchestration.Values.{add, new_budget, new_usage}
use sana_v.Orchestration.Run.{SearchRun, succeed, new_run}
use sana_v.Orchestration.Run.Calls as RunCalls
use sana_v.Orchestration.Run.Loading as RunLoading
use sana_v.Orchestration.Run.Lifecycle.{
  call_atomic, calls-rehydrate, terminal_absorbs, version_detects_change, succeed_iff, IsAnswer,
}
use sana_v.Orchestration.Run.Limits.{
  IsWithin, usage_monotone, Extends, calls-Extends, research_keeps_budget,
}
use sana_v.Orchestration.Step.Calls as StepCalls
use sana_v.Orchestration.Step.Lifecycle as StepLifecycle
use sana_v.Orchestration.Attempt.{is_complete, lease_expired}
use sana_v.Orchestration.Attempt.Calls as AttemptCalls
use sana_v.Orchestration.Attempt.Lifecycle as AttemptLifecycle
use sana_v.Orchestration.Lease.{
  Printing, LeaseService, Claim, new_lease_service, claim, recover_expired,
}
use sana_v.Orchestration.Lease.Safety.{Grants, claim-Grants, claim_granted, claim-recover}
use sana_v.Orchestration.Policy.{BudgetPhase, can_start, validate}
use sana_v.Orchestration.Policy.Deadlines.{
  IsUsable, default_snapshot, default_policy-IsUsable, can_start_reserves,
}
use sana_v.Orchestration.Policy.Usage.{IsWithinBudget, validate_iff, add-validate}
use sana_v.Orchestration.Samples.{
  at, fast_routing, fast_budget, research_budget, keys, fresh_run, one_query, one_query_usage,
  upgraded_search, step_keys, fresh_step, fresh_step_made, retried_step, fresh_attempt,
  fresh_attempt_made, finished_attempt, message_ref, research_routing,
}

call_atomic_example : (RunCalls.call RunCalls.Call.wait fresh_run).1 ≡ fresh_run
unfolding RunCalls.call
call_atomic_example = call_atomic RunCalls.Call.wait fresh_run refl

calls-rehydrate_example :
    let r = run_all RunCalls.call upgraded_search fresh_run in
    RunLoading.rehydrate r ≡ ok (record r { persisted_version = r.version })
unfolding new_run
calls-rehydrate_example = calls-rehydrate keys fast_routing fast_budget upgraded_search refl

abbrev done_run : SearchRun
done_run = record fresh_run { status = RunStatus.cancelled; version = 2 }

terminal_absorbs_example :
    let r = run_all RunCalls.call upgraded_search done_run in
    r ≡ record done_run { persisted_version = r.persisted_version }
terminal_absorbs_example = terminal_absorbs upgraded_search done_run refl

version_detects_change_example :
    let cs = RunCalls.Call.wait ∷ RunCalls.Call.mark_persisted ∷ [] in
    let r = run_all RunCalls.call cs done_run in
    r ≡ record done_run { persisted_version = r.persisted_version }
unfolding run_all RunCalls.call
version_detects_change_example =
    version_detects_change (RunCalls.Call.wait ∷ RunCalls.Call.mark_persisted ∷ []) done_run refl

succeed_iff_example :
    ((succeed AnswerQuality.partial StopReason.time_budget (at 3) fresh_run).0 ≡ ok tt) ↔ (
      ((at 3).is_aware ≡ true)
      × (RunStatus.queued ≡ RunStatus.running)
      × IsAnswer AnswerQuality.partial StopReason.time_budget)
succeed_iff_example = succeed_iff AnswerQuality.partial StopReason.time_budget (at 3) fresh_run

usage_monotone_example :
    IsWithin fresh_run.usage (run_all RunCalls.call upgraded_search fresh_run).usage
usage_monotone_example = usage_monotone upgraded_search fresh_run

calls-Extends_example : Extends fresh_run (run_all RunCalls.call upgraded_search fresh_run)
calls-Extends_example = calls-Extends upgraded_search fresh_run

abbrev research_run : SearchRun
research_run = record fresh_run { routing = research_routing; budget = research_budget }

research_keeps_budget_example :
    let r = run_all RunCalls.call upgraded_search research_run in
    (r.routing ≡ research_routing) × (r.budget ≡ research_budget)
research_keeps_budget_example = research_keeps_budget upgraded_search research_run refl

step_call_atomic_example : (StepCalls.call StepCalls.Call.fail fresh_step).1 ≡ fresh_step
unfolding StepCalls.call
step_call_atomic_example = StepLifecycle.step_call_atomic StepCalls.Call.fail fresh_step refl

steps-IsSound_example : StepLifecycle.IsSound (run_all StepCalls.call retried_step fresh_step)
steps-IsSound_example = StepLifecycle.steps-IsSound step_keys retried_step fresh_step_made

final_absorbs_example :
    let failed_step = record fresh_step { status = StepStatus.failed } in
    let s = run_all StepCalls.call retried_step failed_step in
    s ≡ record failed_step { persisted_version = s.persisted_version }
final_absorbs_example =
    StepLifecycle.final_absorbs retried_step (record fresh_step { status = StepStatus.failed }) refl

abbrev two_ends : List AttemptCalls.Call
two_ends =
    AttemptCalls.Call.renew_lease (at 40)
    ∷ AttemptCalls.Call.succeed message_ref (at 3)
    ∷ AttemptCalls.Call.succeed message_ref (at 4)
    ∷ []

attempt_call_atomic_example :
    (AttemptCalls.call (AttemptCalls.Call.renew_lease (at 20)) fresh_attempt).1 ≡ fresh_attempt
unfolding AttemptCalls.call
attempt_call_atomic_example =
    AttemptLifecycle.attempt_call_atomic (AttemptCalls.Call.renew_lease (at 20)) fresh_attempt refl

attempts-IsSound_example :
    AttemptLifecycle.IsSound (run_all AttemptCalls.call two_ends fresh_attempt)
attempts-IsSound_example =
    AttemptLifecycle.attempts-IsSound fresh_attempt two_ends fresh_attempt_made

complete_absorbs_example :
    (run_all AttemptCalls.call two_ends finished_attempt ≡ finished_attempt)
    × (lease_expired (run_all AttemptCalls.call two_ends finished_attempt) (at 99) ≡ ok false)
complete_absorbs_example =
    AttemptLifecycle.complete_absorbs two_ends finished_attempt (at 99) refl refl

abbrev print : Printing
print = record { uuid = λ _. "6"; number = λ _. "1" }

abbrev service : LeaseService
service = record { lease = pos 30_000_000 }

abbrev request : Claim
request = record {
  attempt_no = 1;
  worker_id = "worker-1";
  now = at 0;
  deadline_at = at 60;
  new_id = 7;
}

claim-Grants_example :
    Grants request fresh_step (claim print service request fresh_step).1 fresh_attempt
unfolding claim
claim-Grants_example = claim-Grants print service request fresh_step refl

claim_granted_example :
    (a : sana_v.Orchestration.Attempt.StepAttempt) × ((claim print service request fresh_step).0
      ≡ ok a)
unfolding new_lease_service shift strip
claim_granted_example =
    claim_granted print (pos 30_000_000) request fresh_step {service = service} {limit = at 30} refl
      refl refl refl (omega arith) refl (omega arith) refl

claim-recover_example :
    let s = (claim print service request fresh_step).1 in
    ((recover_expired fresh_attempt (at 45) s).0 ≡ ok true)
    × ((recover_expired fresh_attempt (at 45) s).1
        ≡ record s { status = StepStatus.ready; version = s.version + 1 })
unfolding claim
claim-recover_example = claim-recover print service request fresh_step (at 45) refl refl

default_policy-IsUsable_example :
    IsUsable SearchMode.fast (at 0) (default_snapshot SearchMode.fast (at 0))
default_policy-IsUsable_example = default_policy-IsUsable SearchMode.fast (at 0) refl (omega arith)

can_start_reserves_example :
    ((at 3).instant + 2_000_000 + 1_000_000 < (at 15).instant)
    × (can_start fast_budget BudgetPhase.synthesize (at 3) (pos 2_000_000) ≡ ok true)
unfolding can_start new_budget
can_start_reserves_example =
    can_start_reserves fast_budget BudgetPhase.verify (at 3) (pos 2_000_000) refl (λ e. cc) refl

validate_iff_example :
    (validate fast_budget one_query_usage ≡ ok tt) ↔ IsWithinBudget fast_budget one_query_usage
validate_iff_example = validate_iff fast_budget one_query_usage

add-validate_example : validate fast_budget one_query_usage ≡ ok tt
unfolding add new_usage validate ◌+ℤ◌
add-validate_example =
    add-validate fast_budget one_query_usage one_query
      {u' = record one_query_usage {
        query_count = pos 2;
        provider_count = pos 2;
        phase_seconds = ("discovery", pos 4_000_000) ∷ [];
      }}
      refl refl
