-- ===== src/Orchestration/Policy.antt =====
-- orchestration/policy.py: the limits of a search by its mode, and the guard that holds a run to
-- them. Seconds are whole microseconds.
pub mod Deadlines
pub mod Usage
use sana_v.Base.{
  ℕ, String, str_append, Bool, true, false, Option, none, some, List, [], ◌∷◌, ℤ, pos, neg_ℤ, ltb_ℤ,
  is_negative, Dict, lookup, if◌then◌else◌,
}
use sana_v.Shared.Errors.{
  ErrorCategory, Detail, Error, Result, ok, err, value_error, typed, raise_if, ◌>>=◌, ◌>>◌,
}
use sana_v.Shared.Time.{DateTime, require_aware, is_before, shift}
use sana_v.Orchestration.Status.{SearchMode}
use sana_v.Orchestration.Values.{BudgetSnapshot, BudgetUsage, new_budget}

pub data BudgetPhase : Type 0 where
  route_plan discovery fetch_extract verify synthesize : BudgetPhase

-- `.value`
abbrev pub phase_value : BudgetPhase → String
phase_value BudgetPhase.route_plan = "route_plan"
phase_value BudgetPhase.discovery = "discovery"
phase_value BudgetPhase.fetch_extract = "fetch_extract"
phase_value BudgetPhase.verify = "verify"
phase_value BudgetPhase.synthesize = "synthesize"

-- `BudgetExceeded(limit, used, maximum)`
abbrev pub budget_exceeded : String → ℤ → ℤ → Error
budget_exceeded limit used maximum = typed (record {
  category = ErrorCategory.budget;
  code = "budget_exceeded";
  message = str_append "Budget limit exceeded: " limit;
  retryable = false;
  details =
      ("limit", Detail.text limit)
      ∷ ("used", Detail.number used)
      ∷ ("maximum", Detail.number maximum)
      ∷ [];
})

pub record ModePolicy : Type 0 where
  pub soft : ℤ
  pub hard : ℤ
  pub synthesis_reserve : ℤ
  pub max_queries : ℤ
  pub max_providers : ℤ
  pub max_fetches : ℤ
  pub max_llm_calls : ℤ
  pub max_expansion_rounds : ℤ
  pub phase_seconds : Dict ℤ

pub record SearchPolicy : Type 0 where
  pub version : String
  pub fast : ModePolicy
  pub research : ModePolicy

-- `SearchPolicy.default()`
abbrev pub default_policy : SearchPolicy
default_policy = record {
  version = "search-v12";
  fast = record {
    soft = pos 14_000_000;
    hard = pos 15_000_000;
    synthesis_reserve = pos 1_000_000;
    max_queries = pos 4;
    max_providers = pos 2;
    max_fetches = pos 4;
    max_llm_calls = pos 4;
    max_expansion_rounds = pos 1;
    phase_seconds =
        (phase_value BudgetPhase.route_plan, pos 1_200_000)
        ∷ (phase_value BudgetPhase.discovery, pos 4_200_000)
        ∷ (phase_value BudgetPhase.fetch_extract, pos 3_600_000)
        ∷ (phase_value BudgetPhase.verify, pos 2_000_000)
        ∷ (phase_value BudgetPhase.synthesize, pos 1_000_000)
        ∷ [];
  };
  research = record {
    soft = pos 120_000_000;
    hard = pos 120_000_000;
    synthesis_reserve = pos 8_000_000;
    max_queries = pos 12;
    max_providers = pos 4;
    max_fetches = pos 12;
    max_llm_calls = pos 8;
    max_expansion_rounds = pos 2;
    phase_seconds =
        (phase_value BudgetPhase.route_plan, pos 4_000_000)
        ∷ (phase_value BudgetPhase.discovery, pos 28_000_000)
        ∷ (phase_value BudgetPhase.fetch_extract, pos 52_000_000)
        ∷ (phase_value BudgetPhase.verify, pos 20_000_000)
        ∷ (phase_value BudgetPhase.synthesize, pos 8_000_000)
        ∷ [];
  };
}

-- `self.fast if mode is FAST else self.research`
abbrev pub selected : SearchPolicy → SearchMode → ModePolicy
selected p SearchMode.fast = p.fast
selected p SearchMode.research = p.research

unfoldable pub snapshot : SearchPolicy → SearchMode → DateTime → Result BudgetSnapshot
unfolding new_budget shift
snapshot p mode created_at = do
  require_aware created_at "created_at"
  let m = selected p mode
  soft ← shift created_at m.soft
  hard ← shift created_at m.hard
  new_budget (record {
    policy_version = p.version;
    created_at = created_at;
    soft_deadline_at = soft;
    hard_deadline_at = hard;
    synthesis_reserve = m.synthesis_reserve;
    max_queries = m.max_queries;
    max_providers = m.max_providers;
    max_fetches = m.max_fetches;
    max_llm_calls = m.max_llm_calls;
    max_expansion_rounds = m.max_expansion_rounds;
    phase_seconds = m.phase_seconds;
  })

-- The methods of `BudgetGuard`, over its snapshot.
unfoldable pub non_synthesis_deadline : BudgetSnapshot → Result DateTime
unfolding shift
non_synthesis_deadline b = shift b.soft_deadline_at (neg_ℤ b.synthesis_reserve)

unfoldable pub deadline_for : BudgetSnapshot → BudgetPhase → Result DateTime
unfolding non_synthesis_deadline
deadline_for b BudgetPhase.synthesize = ok b.hard_deadline_at
deadline_for b _ = non_synthesis_deadline b

unfoldable pub can_start : BudgetSnapshot → BudgetPhase → DateTime → ℤ → Result Bool
unfolding deadline_for shift
can_start b phase now estimated = do
  require_aware now "now"
  raise_if (is_negative estimated) (value_error "estimated_seconds cannot be negative")
  finish ← shift now estimated
  deadline ← deadline_for b phase
  ok (is_before finish deadline)

-- `limits`: each name with what is used and the maximum
abbrev pub limits : BudgetSnapshot → BudgetUsage → List (String × ℤ × ℤ)
limits b u =
    ("queries", u.query_count, b.max_queries)
    ∷ ("providers", u.provider_count, b.max_providers)
    ∷ ("fetches", u.fetch_count, b.max_fetches)
    ∷ ("llm_calls", u.llm_call_count, b.max_llm_calls)
    ∷ ("expansion_rounds", u.expansion_rounds, b.max_expansion_rounds)
    ∷ []

-- The first loop of `validate`.
unfoldable pub check_limits : List (String × ℤ × ℤ) → Result (Unit {0})
check_limits [] = ok tt
check_limits ((name, used, maximum) ∷ rest) =
    if ltb_ℤ maximum used then err (budget_exceeded name used maximum) else check_limits rest

-- `maximum is not None and used > maximum`
abbrev pub check_phase : Dict ℤ → String → ℤ → Result (Unit {0})
check_phase budgets phase used = elim (lookup phase budgets) [
  | none ↦ ok tt
  | some maximum ↦
      if ltb_ℤ maximum used
      then err (budget_exceeded (str_append "phase:" phase) used maximum)
      else ok tt
]

-- The second loop of `validate`.
unfoldable pub check_phases : Dict ℤ → Dict ℤ → Result (Unit {0})
check_phases budgets [] = ok tt
check_phases budgets ((phase, used) ∷ rest) =
    check_phase budgets phase used >> check_phases budgets rest

unfoldable pub validate : BudgetSnapshot → BudgetUsage → Result (Unit {0})
unfolding check_limits check_phases
validate b u = check_limits (limits b u) >> check_phases b.phase_seconds u.phase_seconds
