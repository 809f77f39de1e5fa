-- ===== src/Orchestration/Policy/Deadlines.antt =====
-- The deadlines that a policy gives, and when a phase may start.
use sana_v.Base.{◌+◌, ◌≤◌, ◌<◌, ◌≡◌, refl, true, arith, ℤ, pos, ◌≤ℤ◌, pos_part, ◌≢◌}
use sana_v.Shared.Errors.{ok, check_all-ok, check_all-bind}
use sana_v.Shared.Time.{DateTime, max_instant}
use sana_v.Orchestration.Status.{SearchMode}
use sana_v.Orchestration.Values.{BudgetSnapshot, budget_checks, new_budget}
use sana_v.Orchestration.Policy.{
  BudgetPhase, default_policy, selected, snapshot, non_synthesis_deadline, can_start,
}

-- What the snapshot of the default policy for a mode, taken at `at`, looks like.
pub record IsUsable (mode : SearchMode) (at : DateTime) (b : BudgetSnapshot) : Type 0 where
  pub taken : snapshot default_policy mode at ≡ ok b
  pub created : b.created_at ≡ at
  pub soft : b.soft_deadline_at.instant ≤ b.hard_deadline_at.instant
  pub searching :
      (d : DateTime) × (non_synthesis_deadline b ≡ ok d)
      × (at.instant < d.instant)
      × (d.instant < b.hard_deadline_at.instant)

abbrev pub default_snapshot : SearchMode → DateTime → BudgetSnapshot
default_snapshot mode at =
    let m = selected default_policy mode in
    record {
      policy_version = "search-v12";
      created_at = at;
      soft_deadline_at = record at { instant = at.instant + pos_part m.soft };
      hard_deadline_at = record at { instant = at.instant + pos_part m.hard };
      synthesis_reserve = m.synthesis_reserve;
      max_queries = m.max_queries;
      max_providers = m.max_providers;
      max_fetches = m.max_fetches;
      max_llm_calls = m.max_llm_calls;
      max_expansion_rounds = m.max_expansion_rounds;
      phase_seconds = m.phase_seconds;
    }

-- The default policy gives a budget in both modes, at every aware time that is not within two
-- minutes of the end of the calendar; its deadlines are in order, and the part of the run before
-- the synthesis ends after the start and before the hard deadline.
pub default_policy-IsUsable :
    (mode : SearchMode) (at : DateTime)
    → at.is_aware ≡ true
    → at.instant + 120_000_000 ≤ max_instant
    → IsUsable mode at (default_snapshot mode at)
unfolding snapshot non_synthesis_deadline
default_policy-IsUsable SearchMode.fast at aware room = record {
  taken = ground arith;
  created = refl;
  soft = omega arith;
  searching =
      (record at { instant = at.instant + 13_000_000 }, ground arith, omega arith, omega arith);
}
default_policy-IsUsable SearchMode.research at aware room = record {
  taken = ground arith;
  created = refl;
  soft = omega arith;
  searching =
      (record at { instant = at.instant + 112_000_000 }, ground arith, omega arith, omega arith);
}

-- What the checks of a snapshot leave.
budget_ordered :
    (b : BudgetSnapshot)
    → new_budget b ≡ ok b
    → (b.soft_deadline_at.instant ≤ b.hard_deadline_at.instant) × (pos 1 ≤ℤ b.synthesis_reserve)
unfolding new_budget
budget_ordered b h =
    let checks = check_all-ok (budget_checks b) (check_all-bind (budget_checks b) (ok b) h) in
    let order = checks.1.1.1.0 in let reserve = checks.1.1.1.1.0 in (ground arith, ground arith)

can_start_early :
    (b : BudgetSnapshot) (now : DateTime) (estimated : ℤ)
    → b.soft_deadline_at.instant ≤ b.hard_deadline_at.instant
    → pos 1 ≤ℤ b.synthesis_reserve
    → can_start b BudgetPhase.route_plan now estimated ≡ ok true
    → (now.instant + pos_part estimated + pos_part b.synthesis_reserve < b.hard_deadline_at.instant)
      × (can_start b BudgetPhase.synthesize now estimated ≡ ok true)
unfolding can_start
can_start_early b now estimated ordered reserve h = ground arith

-- A phase other than the synthesis starts only if it can end, by its estimate, with the reserve for
-- the synthesis left before the hard deadline; and then the synthesis could start as well.
pub can_start_reserves :
    (b : BudgetSnapshot) (phase : BudgetPhase) (now : DateTime) (estimated : ℤ)
    → new_budget b ≡ ok b
    → phase ≢ BudgetPhase.synthesize
    → can_start b phase now estimated ≡ ok true
    → (now.instant + pos_part estimated + pos_part b.synthesis_reserve < b.hard_deadline_at.instant)
      × (can_start b BudgetPhase.synthesize now estimated ≡ ok true)
unfolding can_start
can_start_reserves b BudgetPhase.synthesize now estimated valid other h = absurd (other refl)
can_start_reserves b BudgetPhase.route_plan now estimated valid other h =
    let (ordered, reserve) = budget_ordered b valid in
    can_start_early b now estimated ordered reserve h
can_start_reserves b _ now estimated valid other h =
    let (ordered, reserve) = budget_ordered b valid in
    can_start_early b now estimated ordered reserve h
