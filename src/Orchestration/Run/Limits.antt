-- ===== src/Orchestration/Run/Limits.antt =====
-- The policy, the deadlines and the usage of a run over any sequence of calls.
use sana_v.Base.{
  ◌≤◌, ◌≡◌, refl, ◌∙◌, List, [], ◌∷◌, arith, eq_iff, false, ◌≤ℤ◌, ◌⊎◌, inl, inr, sym, subst,
  Bool-cases,
}
use sana_v.Shared.Method.{run_all}
use sana_v.Orchestration.Values.{BudgetUsage}
use sana_v.Orchestration.Run.{SearchRun, is_fast, is_terminal, decreases}
use sana_v.Orchestration.Run.Calls.{Call, call}

-- The seven counters of `u` are at most those of `v`.
pub record IsWithin (u v : BudgetUsage) : Type 0 where
  pub queries : u.query_count ≤ℤ v.query_count
  pub providers : u.provider_count ≤ℤ v.provider_count
  pub fetches : u.fetch_count ≤ℤ v.fetch_count
  pub llm_calls : u.llm_call_count ≤ℤ v.llm_call_count
  pub prompt_tokens : u.prompt_token_count ≤ℤ v.prompt_token_count
  pub completion_tokens : u.completion_token_count ≤ℤ v.completion_token_count
  pub rounds : u.expansion_rounds ≤ℤ v.expansion_rounds

IsWithin-refl : (u : BudgetUsage) → IsWithin u u
IsWithin-refl u = omega arith

IsWithin-trans : (u v w : BudgetUsage) → IsWithin u v → IsWithin v w → IsWithin u w
IsWithin-trans u v w h k = omega arith

not_decreases : (new old : BudgetUsage) → decreases new old ≡ false → IsWithin old new
not_decreases new old h = ground arith

-- A call leaves the usage, or replaces it by one that the check of `record_usage` let through.
call-usage :
    (c : Call) (r : SearchRun)
    → ((call c r).1.usage ≡ r.usage) ⊎ (decreases (call c r).1.usage r.usage ≡ false)
unfolding call
call-usage (Call.record_usage u) r = elim (Bool-cases (is_terminal r)) [
  | inl over ↦ inl (rw over)
  | inr open_run ↦ elim (Bool-cases (decreases u r.usage)) [
    | inl less ↦ inl (rw (open_run, less))
    | inr more ↦ inr (rw (open_run, more) more)
  ]
]
call-usage (Call.start at) r = inl (ground arith)
call-usage (Call.wait) r = inl (ground arith)
call-usage _ r = inl (ground arith)

call-IsWithin : (c : Call) (r : SearchRun) → IsWithin r.usage (call c r).1.usage
call-IsWithin c r = elim (call-usage c r) [
  | inl same ↦ subst (IsWithin r.usage) (sym same) (IsWithin-refl r.usage)
  | inr larger ↦ not_decreases (call c r).1.usage r.usage larger
]

-- Whatever calls are made on a run, no counter of its usage ever decreases.
pub usage_monotone : (cs : List Call) (r : SearchRun) → IsWithin r.usage (run_all call cs r).usage
unfolding run_all
usage_monotone [] r = IsWithin-refl r.usage
usage_monotone (c ∷ cs) r =
    IsWithin-trans r.usage (call c r).1.usage (run_all call cs (call c r).1).usage
      (call-IsWithin c r) (usage_monotone cs (call c r).1)

-- What no call changes of the policy of a run, and how its hard deadline may move.
pub record Extends (r r' : SearchRun) : Type 0 where
  pub policy : r'.routing.policy_version ≡ r.routing.policy_version
  pub begun : r'.budget.created_at.instant ≡ r.budget.created_at.instant
  pub deadline : r.budget.hard_deadline_at.instant ≤ r'.budget.hard_deadline_at.instant

call-Extends : (c : Call) (r : SearchRun) → Extends r (call c r).1
unfolding call
call-Extends (Call.upgrade routing budget) r =
    ground (arith, eq_iff routing.policy_version r.routing.policy_version)
call-Extends (Call.start at) r = ground arith
call-Extends _ r = ground arith

-- Whatever calls are made on a run, its policy version and the start of its budget stay, and its
-- hard deadline never moves to an earlier instant.
pub calls-Extends : (cs : List Call) (r : SearchRun) → Extends r (run_all call cs r)
unfolding run_all
calls-Extends [] r = ground arith
calls-Extends (c ∷ cs) r =
    let step = call-Extends c r in
    let rest = calls-Extends cs (call c r).1 in
    record {
      policy = rest.policy ∙ step.policy;
      begun = rest.begun ∙ step.begun;
      deadline = omega arith;
    }

call-research :
    (c : Call) (r : SearchRun)
    → is_fast r.routing.mode ≡ false
    → ((call c r).1.routing ≡ r.routing) × ((call c r).1.budget ≡ r.budget)
unfolding call
call-research c r h = ground arith

-- A run in RESEARCH mode keeps its routing decision and its budget for good: a run is upgraded
-- once at most.
pub research_keeps_budget :
    (cs : List Call) (r : SearchRun)
    → is_fast r.routing.mode ≡ false
    → let r' = run_all call cs r in (r'.routing ≡ r.routing) × (r'.budget ≡ r.budget)
unfolding run_all
research_keeps_budget [] r h = (refl, refl)
research_keeps_budget (c ∷ cs) r h =
    let (routing, budget) = call-research c r h in
    let (routing', budget') = research_keeps_budget cs (call c r).1 (ground arith) in
    (routing' ∙ routing, budget' ∙ budget)
