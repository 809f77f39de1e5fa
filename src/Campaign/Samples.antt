-- ===== src/Campaign/Samples.antt =====
-- Sample data: a campaign of two runs, one of which is carried out, and tests on it.
use sana_v.Base.{ℕ, ◌≡◌, refl, String, true, false, none, some, List, [], ◌∷◌, pos, strip}
use sana_v.Shared.Errors.{ok, err, invariant_violation_with}
use sana_v.Shared.Time.{DateTime}
use sana_v.Shared.Method.{run_all}
use sana_v.Campaign.Status.{
  CampaignStatus, GateStatus, StopIntent, SchedulingState, ReservationState, ErrorClass,
}
use sana_v.Campaign.Lifecycle.{CampaignLifecycle, new_campaign}
use sana_v.Campaign.Lifecycle.Calls.{Call, call}
use sana_v.Campaign.Money.{Decimal}
use sana_v.Campaign.Budget.{SettlementUsage, BudgetReservationReceipt}
use sana_v.Campaign.Lease.{RunLease}
use sana_v.Campaign.Ledger.{
  CampaignRecord, ResultRecord, Tables, is_active_lease, fenced, requested,
}
use sana_v.Campaign.Ledger.Reserve.{reserve_run_budget}
use sana_v.Campaign.Ledger.Settle.{settle_run_budget}
use sana_v.Campaign.Ledger.Release.{release_run_budget}
use sana_v.Campaign.Ledger.Failure.{
  FailureHash, RunnerFailure, RunnerFailureReceipt, new_failure, holds_lease, mark_failure,
}
use sana_v.Campaign.Ledger.Steps.{BudgetCall, perform_all}

-- Seconds after the first instant of year 2025.
abbrev pub at : ℕ → DateTime
at n = record {
  is_aware = true;
  instant = Prim.Native.Nat.◌+◌ 63_871_286_400_000_000 (Prim.Native.Nat.◌*◌ n 1_000_000);
}

abbrev pub planned_campaign : CampaignLifecycle
planned_campaign = new_campaign 1 2 3 2 2

abbrev pub running_campaign : CampaignLifecycle
running_campaign = record planned_campaign {
  status = CampaignStatus.running;
  started_at = some (at 0);
  version = 1;
}

-- A campaign that pauses, goes on, and is judged.
abbrev pub judged_campaign : List Call
judged_campaign =
    Call.request_stop StopIntent.pause " load "
    ∷ Call.settle_stop (at 5)
    ∷ Call.resume (at 6)
    ∷ Call.await_review (at 7) (at 90)
    ∷ Call.complete GateStatus.pass (at 9)
    ∷ Call.abort "late" (at 10)
    ∷ []

judged_campaign_ends :
    let c = run_all call judged_campaign running_campaign in
    (c.status ≡ CampaignStatus.completed) × (c.gate_status ≡ GateStatus.pass) × (c.version ≡ 6)
unfolding run_all call strip
judged_campaign_ends = (refl, refl, refl)

abbrev pub campaign_row : CampaignRecord
campaign_row = record {
  id = 1;
  tenant_id = 2;
  max_runs = 2;
  status = CampaignStatus.running;
  stop_intent = StopIntent.none;
  stop_reason = none;
  admission_ceiling = 8;
  structural_ceiling = 10;
  cost_threshold = 30_000_000_000;
  cost_rate_snapshot = ("run_reservation_usd", some (Decimal.number (pos 125) 2)) ∷ [];
  observed_calls = 0;
  prompt_tokens = 0;
  completion_tokens = 0;
  observed_cost = 0;
  charged_calls = 0;
  charged_cost = 0;
  possibly_billed_count = 0;
  reserved_calls = 0;
  reserved_cost = 0;
  failed_count = 0;
  version = 1;
  updated_at = at 0;
}

abbrev pub result_row : ResultRecord
result_row = record {
  id = 7;
  scheduling_state = SchedulingState.claimed;
  lease_owner = some "worker-1";
  lease_expires_at = some (at 60);
  submission_attempt_count = 0;
  source_terminal_at = none;
  source_snapshot_digest = none;
  reservation_state = ReservationState.none;
  reserved_calls = 0;
  reserved_cost = 0;
  reserved_at = none;
  released_at = none;
  settled_at = none;
  observed_calls = 0;
  prompt_tokens = 0;
  completion_tokens = 0;
  observed_cost = 0;
  estimated_cost = 0;
  charged_calls = 0;
  charged_cost = 0;
  budget_violation = false;
  error_class = none;
  error_code = none;
  failed_phase = none;
  error_signal_flags = [];
  version = 3;
  updated_at = at 0;
}

abbrev pub lease : RunLease
lease = record {
  id = 7;
  tenant_id = 2;
  campaign_id = 1;
  case_id = "case";
  repetition = 1;
  schedule_ordinal = 0;
  state = SchedulingState.claimed;
  lease_owner = "worker-1";
  lease_expires_at = at 60;
  conversation_id = none;
  search_run_id = none;
  conversation_key = "c";
  message_key = "m";
  request_hash = "h";
  reservation_state = ReservationState.none;
  version = 3;
  persisted_version = 3;
  conversation_attempts = 0;
  submission_attempts = 0;
}

abbrev pub opening : Tables
opening = record { campaign = campaign_row; results = result_row ∷ [] }

abbrev pub reserved_lease : RunLease
reserved_lease = record lease {
  version = 4;
  persisted_version = 4;
  reservation_state = ReservationState.active;
}

abbrev pub grant : BudgetReservationReceipt
grant = record {
  allowed = true;
  stop_intent = StopIntent.none;
  reason = none;
  reserved_calls = 5;
  reserved_cost = 12_500_000_000;
  deferred = false;
}

abbrev pub reserved_row : ResultRecord
reserved_row = record result_row {
  reserved_calls = 5;
  reserved_cost = 12_500_000_000;
  reservation_state = ReservationState.active;
  reserved_at = some (at 1);
  version = 4;
  updated_at = at 1;
}

abbrev pub reserved_tables : Tables
reserved_tables = record {
  campaign = record campaign_row {
    reserved_calls = 5;
    reserved_cost = 12_500_000_000;
    version = 2;
    updated_at = at 1;
  };
  results = reserved_row ∷ [];
}

pub opening_reserved :
    reserve_run_budget 2 (at 1) lease opening ≡ ok (reserved_tables, reserved_lease, grant)
unfolding reserve_run_budget is_active_lease fenced requested
opening_reserved = refl

-- A stand-in for the hash of a failure.
abbrev pub failure_hash : FailureHash
failure_hash _ _ _ _ = "f"

abbrev pub failure : RunnerFailure
failure = record {
  error_class = ErrorClass.provider_transient;
  error_code = "timeout";
  failed_phase = "submission";
  possibly_billed = true;
}

failure_is_stable : new_failure (record failure { error_code = " timeout " }) ≡ ok failure
unfolding new_failure strip
failure_is_stable = refl

-- The run that was reserved has failed, and may have been billed.
abbrev pub failed_tables : Tables
failed_tables = record {
  campaign = record reserved_tables.campaign {
    charged_calls = 5;
    charged_cost = 12_500_000_000;
    possibly_billed_count = 1;
    reserved_calls = 0;
    reserved_cost = 0;
    failed_count = 1;
    version = 3;
    updated_at = at 2;
  };
  results =
      record reserved_row {
        scheduling_state = SchedulingState.failed;
        lease_owner = none;
        lease_expires_at = none;
        source_terminal_at = some (at 2);
        source_snapshot_digest = some "f";
        reservation_state = ReservationState.settled;
        settled_at = some (at 2);
        charged_calls = 5;
        charged_cost = 12_500_000_000;
        error_class = some ErrorClass.provider_transient;
        error_code = some "timeout";
        failed_phase = some "submission";
        error_signal_flags = "timeout" ∷ [];
        version = 5;
        updated_at = at 2;
      }
      ∷ [];
}

abbrev pub failure_receipt : RunnerFailureReceipt
failure_receipt = record { result_id = 7; possibly_billed = true; duplicate = false }

pub reserved_failed :
    mark_failure 2 failure_hash (at 2) reserved_lease failure reserved_tables
    ≡ ok (failed_tables, failure_receipt)
unfolding mark_failure holds_lease
reserved_failed = refl

failure_repeats :
    mark_failure 2 failure_hash (at 3) reserved_lease failure failed_tables
    ≡ ok (failed_tables, record failure_receipt { duplicate = true })
unfolding mark_failure
failure_repeats = refl

unreserved_is_not_billed :
    mark_failure 2 failure_hash (at 2) lease failure opening
    ≡ err (
        invariant_violation_with "A possibly billed failure requires an active reservation"
          "possibly_billed_without_reservation" [])
unfolding mark_failure holds_lease
unreserved_is_not_billed = refl

abbrev pub over_row : ResultRecord
over_row = record reserved_row {
  scheduling_state = SchedulingState.submitted;
  source_terminal_at = some (at 20);
}

-- The run is over.
abbrev pub over_tables : Tables
over_tables = record reserved_tables { results = over_row ∷ [] }

abbrev pub usage : SettlementUsage
usage = record {
  observed_calls = 4;
  prompt_tokens = 900;
  completion_tokens = 120;
  observed_cost = 11_000_000_000;
  charged_calls = 0;
  charged_cost = 0;
}

abbrev pub digest : String
digest = "0123456789abcdef0123456789abcdef0123456789abcdef0123456789abcdef"

-- A settlement, its repetition, and two calls that raise.
abbrev pub budget_calls : List BudgetCall
budget_calls =
    BudgetCall.settle (at 21) 2 1 7 digest usage
    ∷ BudgetCall.settle (at 22) 2 1 7 digest usage
    ∷ BudgetCall.release (at 23) reserved_lease
    ∷ BudgetCall.reserve (at 24) lease
    ∷ []

budget_calls_end :
    let t = perform_all 2 budget_calls over_tables in
    (t.campaign.reserved_calls ≡ 0)
    × (t.campaign.observed_calls ≡ 4)
    × (t.campaign.status ≡ CampaignStatus.running)
unfolding perform_all reserve_run_budget release_run_budget settle_run_budget strip is_active_lease
budget_calls_end = (refl, refl, refl)
