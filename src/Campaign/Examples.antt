-- ===== src/Campaign/Examples.antt =====
-- Each theorem about campaigns at an input that meets its hypotheses.
use sana_v.Base.{◌+◌, ◌≤◌, ◌≡◌, ◌≢◌, ◌↔◌, refl, arith, true, false, some, [], ◌∷◌, strip}
use sana_v.Shared.Errors.{ok}
use sana_v.Shared.Method.{run_all}
use sana_v.Campaign.Status.{CampaignStatus, GateStatus, ReservationState}
use sana_v.Campaign.Lifecycle.{CampaignLifecycle, resume}
use sana_v.Campaign.Lifecycle.Calls.{Call, call}
use sana_v.Campaign.Lifecycle.Loading.{rehydrate}
use sana_v.Campaign.Lifecycle.Safety.{campaign_call_atomic}
use sana_v.Campaign.Lifecycle.Traces.{
  campaign_calls-rehydrate, resume-created, campaign_terminal_absorbs, start_time_fixed,
}
use sana_v.Campaign.Budget.{ReservationRequest, BudgetSettlementReceipt, admit}
use sana_v.Campaign.Budget.Admission.{admit_iff}
use sana_v.Campaign.Ledger.{Tables, budget_of}
use sana_v.Campaign.Ledger.Settle.{settle_run_budget, check_digest}
use sana_v.Campaign.Ledger.Steps.{Step, Steps, Balanced, perform_all}
use sana_v.Campaign.Ledger.Balance.{unreserved-Balanced, Steps-Balanced}
use sana_v.Campaign.Ledger.Limits.{IsWithin, calls-IsWithin}
use sana_v.Campaign.Ledger.Once.{settled_once, settle_repeats, settle_completes}
use sana_v.Campaign.Samples.{
  at, planned_campaign, running_campaign, judged_campaign, campaign_row, lease, opening,
  reserved_lease, grant, reserved_tables, opening_reserved, over_row, over_tables, usage, digest,
  budget_calls, failure_hash, failure, failed_tables, failure_receipt, reserved_failed,
}

campaign_call_atomic_example : (call (Call.resume (at 3)) running_campaign).1 ≡ running_campaign
unfolding call
campaign_call_atomic_example = campaign_call_atomic (Call.resume (at 3)) running_campaign refl

campaign_calls-rehydrate_example :
    let c = run_all call judged_campaign running_campaign in
    rehydrate c ≡ ok (record c { persisted_version = c.version })
unfolding rehydrate
campaign_calls-rehydrate_example =
    campaign_calls-rehydrate judged_campaign running_campaign refl (λ e. cc)

resume-created_example :
    ((resume (at 3) planned_campaign).0 ≡ ok tt)
    × ((d : CampaignLifecycle) → rehydrate (resume (at 3) planned_campaign).1 ≢ ok d)
resume-created_example = resume-created planned_campaign (at 3) refl refl refl

abbrev completed_campaign : CampaignLifecycle
completed_campaign = record running_campaign {
  status = CampaignStatus.completed;
  gate_status = GateStatus.fail;
  completed_at = some (at 9);
}

campaign_terminal_absorbs_example :
    let c = run_all call judged_campaign completed_campaign in
    c ≡ record completed_campaign { persisted_version = c.persisted_version }
campaign_terminal_absorbs_example =
    campaign_terminal_absorbs judged_campaign completed_campaign refl

start_time_fixed_example : (run_all call judged_campaign running_campaign).started_at ≡ some (at 0)
start_time_fixed_example = start_time_fixed judged_campaign running_campaign (at 0) refl

abbrev five_calls : ReservationRequest
five_calls = record { provider_calls = 5; estimated_cost = 12_500_000_000 }

admit_iff_example :
    ((admit (budget_of campaign_row) five_calls).allowed ≡ true)
    ↔ ((0 + 0 + 0 + 5 ≤ 10) × (0 + 0 + 0 + 5 ≤ 8) × (0 + 0 + 0 + 12_500_000_000 ≤ 30_000_000_000))
admit_iff_example = admit_iff (budget_of campaign_row) five_calls

opening-Balanced : Balanced opening
opening-Balanced = unreserved-Balanced opening refl refl (refl, tt)

-- The run is reserved, and then fails.
carried_out : Steps 2 opening failed_tables
carried_out =
    Steps.more opening reserved_tables failed_tables
      (Steps.more opening opening reserved_tables (Steps.done opening)
        (Step.reserved (at 1) lease reserved_lease opening reserved_tables grant opening_reserved))
      (Step.failed failure_hash (at 2) reserved_lease failure reserved_tables failed_tables
        failure_receipt reserved_failed)

Steps-Balanced_example : Balanced failed_tables
Steps-Balanced_example = Steps-Balanced 2 carried_out opening-Balanced

over-Balanced : Balanced over_tables
over-Balanced = record { calls = refl; cost = refl }

within : IsWithin over_tables.campaign
within running = record { calls = omega arith; cost = omega arith }

calls-IsWithin_example : IsWithin (perform_all 2 budget_calls over_tables).campaign
calls-IsWithin_example = calls-IsWithin 2 budget_calls over_tables within

abbrev settled : Tables × BudgetSettlementReceipt
settled = (
  record {
    campaign = record over_tables.campaign {
      observed_calls = 4;
      prompt_tokens = 900;
      completion_tokens = 120;
      observed_cost = 11_000_000_000;
      reserved_calls = 0;
      reserved_cost = 0;
      version = 3;
      updated_at = at 21;
    };
    results =
        record over_row {
          reservation_state = ReservationState.settled;
          observed_calls = 4;
          prompt_tokens = 900;
          completion_tokens = 120;
          observed_cost = 11_000_000_000;
          estimated_cost = 11_000_000_000;
          settled_at = some (at 21);
          source_snapshot_digest = some digest;
          version = 5;
          updated_at = at 21;
        }
        ∷ [];
  },
  record { result_id = 7; duplicate = false; budget_violation = false },
)

settles : settle_run_budget 2 (at 21) 2 1 7 digest usage over_tables ≡ ok settled
unfolding settle_run_budget strip
settles = refl

settle_repeats_example :
    settle_run_budget 2 (at 30) 2 1 7 digest usage settled.0
    ≡ ok (settled.0, record settled.1 { duplicate = true })
settle_repeats_example = settle_repeats 2 (at 21) (at 30) 2 1 7 digest usage over_tables settles

settled_once_example : (settled.0 ≡ settled.0) × (true ≡ true)
settled_once_example =
    settled_once 2 (at 21) (at 30) 2 1 7 digest digest usage usage over_tables settles
      settle_repeats_example

settle_completes_example :
    (out : Tables × BudgetSettlementReceipt) × (settle_run_budget 2
        (at 21)
        2
        1
        7
        digest
        usage
        over_tables
      ≡ ok out)
    × (out.1.duplicate ≡ false)
unfolding check_digest strip
settle_completes_example =
    settle_completes 2 (at 21) 7 digest usage over_tables over_row over-Balanced refl refl refl refl
      refl refl (omega arith) (omega arith) (omega arith)
