-- ===== src/Campaign/Budget.antt =====
-- shadow_campaign/budget.py: what a run asks of the budget of a campaign, what the budget admits,
-- and what a run has used. Costs are units of money, and counts are numbers: the checks of the code
-- that refuse a negative count have nothing to refuse here.
pub mod Admission
use sana_v.Base.{
  ℕ, ◌+◌, String, Bool, true, false, not, ◌&&◌, ◌||◌, Option, none, some, ltb, leb, ◌==◌,
  if◌then◌else◌,
}
use sana_v.Shared.Errors.{Result, ok, err, value_error, raise_if, ◌>>=◌, ◌>>◌}
use sana_v.Campaign.Status.{StopIntent}
use sana_v.Campaign.Money.{Decimal, nonnegative_decimal, precision_limit}

pub record ReservationRequest : Type 0 where
  pub provider_calls : ℕ
  pub estimated_cost : ℕ

-- `ReservationRequest(provider_calls, estimated_cost)`
unfoldable pub new_request : ℕ → Decimal → Result ReservationRequest
unfolding nonnegative_decimal
new_request calls cost = do
  raise_if (ltb calls 1) (value_error "A run reservation must include provider calls")
  units ← nonnegative_decimal cost "estimated_cost"
  ok (record { provider_calls = calls; estimated_cost = units })

pub record CampaignBudgetSnapshot : Type 0 where
  pub admission_ceiling : ℕ
  pub structural_ceiling : ℕ
  pub cost_threshold : ℕ
  pub observed_calls : ℕ
  pub charged_calls : ℕ
  pub reserved_calls : ℕ
  pub observed_cost : ℕ
  pub charged_cost : ℕ
  pub reserved_cost : ℕ

abbrev exceeds_precision : ℕ → Bool
exceeds_precision units = not (ltb units precision_limit)

-- `__post_init__`
unfoldable pub new_budget_snapshot : CampaignBudgetSnapshot → Result CampaignBudgetSnapshot
new_budget_snapshot b = do
  raise_if (not (ltb 0 b.admission_ceiling && leb b.admission_ceiling b.structural_ceiling))
      (value_error "Campaign call ceilings are invalid")
  raise_if (exceeds_precision b.cost_threshold)
      (value_error "estimated_cost_stop_threshold exceeds the campaign money precision")
  raise_if (exceeds_precision b.observed_cost)
      (value_error "observed_estimated_cost exceeds the campaign money precision")
  raise_if (exceeds_precision b.charged_cost)
      (value_error "possibly_billed_cost_charge exceeds the campaign money precision")
  raise_if (exceeds_precision b.reserved_cost)
      (value_error "reserved_estimated_cost exceeds the campaign money precision")
  raise_if (b.cost_threshold == 0) (value_error "Campaign cost stop threshold must be positive")
  ok b

pub record BudgetAdmission : Type 0 where
  pub allowed : Bool
  pub stop_intent : StopIntent
  pub reason : Option String
  pub projected_calls : ℕ
  pub projected_cost : ℕ

-- `BudgetAdmission.denied`
abbrev pub denied : StopIntent → String → ℕ → ℕ → BudgetAdmission
denied intent reason calls cost = record {
  allowed = false;
  stop_intent = intent;
  reason = some reason;
  projected_calls = calls;
  projected_cost = cost;
}

-- The rest of `admit`, from the projected calls and the projected cost.
unfoldable pub admit_projected : CampaignBudgetSnapshot → ℕ → ℕ → BudgetAdmission
admit_projected b calls cost =
    if ltb b.structural_ceiling calls
    then denied StopIntent.call_ceiling "provider_call_structural_ceiling" calls cost
    else if ltb b.admission_ceiling calls
    then denied StopIntent.call_ceiling "provider_call_admission_ceiling" calls cost
    else if ltb b.cost_threshold cost
    then denied StopIntent.budget "estimated_cost_stop_threshold" calls cost
    else record {
      allowed = true;
      stop_intent = StopIntent.none;
      reason = none;
      projected_calls = calls;
      projected_cost = cost;
    }

unfoldable pub admit : CampaignBudgetSnapshot → ReservationRequest → BudgetAdmission
unfolding admit_projected
admit b r =
    admit_projected b (b.observed_calls + b.charged_calls + b.reserved_calls + r.provider_calls)
      (b.observed_cost + b.charged_cost + b.reserved_cost + r.estimated_cost)

unfoldable pub admit_after_active_reservations_settle :
    CampaignBudgetSnapshot → ReservationRequest → BudgetAdmission
unfolding admit
admit_after_active_reservations_settle b r =
    admit (record b { reserved_calls = 0; reserved_cost = 0 }) r

pub record SettlementUsage : Type 0 where
  pub observed_calls : ℕ
  pub prompt_tokens : ℕ
  pub completion_tokens : ℕ
  pub observed_cost : ℕ
  pub charged_calls : ℕ
  pub charged_cost : ℕ

-- `SettlementUsage(…)` with its two amounts
unfoldable pub new_settlement_usage : ℕ → ℕ → ℕ → Decimal → ℕ → Decimal → Result SettlementUsage
unfolding nonnegative_decimal
new_settlement_usage calls prompt completion cost charged charge = do
  observed ← nonnegative_decimal cost "observed_estimated_cost"
  billed ← nonnegative_decimal charge "possibly_billed_cost_charge"
  ok (record {
    observed_calls = calls;
    prompt_tokens = prompt;
    completion_tokens = completion;
    observed_cost = observed;
    charged_calls = charged;
    charged_cost = billed;
  })

abbrev pub exceeds : SettlementUsage → ReservationRequest → Bool
exceeds u r =
    ltb r.provider_calls (u.observed_calls + u.charged_calls)
    || ltb r.estimated_cost (u.observed_cost + u.charged_cost)

-- Its checks, that a deferred receipt is no grant and stops nothing, hold of what the ledger builds.
pub record BudgetReservationReceipt : Type 0 where
  pub allowed : Bool
  pub stop_intent : StopIntent
  pub reason : Option String
  pub reserved_calls : ℕ
  pub reserved_cost : ℕ
  pub deferred : Bool

pub record BudgetSettlementReceipt : Type 0 where
  pub result_id : ℕ
  pub duplicate : Bool
  pub budget_violation : Bool

pub record BudgetReleaseReceipt : Type 0 where
  pub result_id : ℕ
  pub duplicate : Bool
