-- ===== src/Campaign/Ledger.antt =====
-- The budget ledger of a campaign, in sana/platform/db/shadow_campaign_repository.py and in
-- `mark_failure` of shadow_runner.py: the rows that they lock, and what the operations share. A row
-- holds the columns that they read or write. Of the constraints of the tables, an operation has those
-- that it can come up against by what it counts or gives back; the widths of the columns are left out.
pub mod Reserve
pub mod Settle
pub mod Release
pub mod Failure
pub mod Steps
pub mod Find
pub mod Decide
pub mod Moves
pub mod Failing
pub mod Rows
pub mod Balance
pub mod Settled
pub mod Once
pub mod Limits
use sana_v.Base.{
  ℕ, ◌+◌, ◌/◌, ◌%◌, String, Bool, true, false, not, ◌&&◌, ◌||◌, Option, none, some, List, [], ◌∷◌,
  is_some, ltb, leb, ◌==◌, str_eq, Dict, lookup, if◌then◌else◌,
}
use sana_v.Shared.Errors.{
  Error, Result, ok, err, invariant_violation_with, raise_if, unexpected, ◌>>=◌, ◌>>◌,
}
use sana_v.Shared.Time.{DateTime, is_at_most}
use sana_v.Campaign.Status.{
  CampaignStatus, StopIntent, SchedulingState, ReservationState, ErrorClass,
}
use sana_v.Campaign.Money.{Decimal}
use sana_v.Campaign.Budget.{ReservationRequest, new_request, CampaignBudgetSnapshot}
use sana_v.Campaign.Lease.{RunLease, is_not_leased, accept_budget_fence}

pub record CampaignRecord : Type 0 where
  pub id : ℕ
  pub tenant_id : ℕ
  pub max_runs : ℕ
  pub status : CampaignStatus
  pub stop_intent : StopIntent
  pub stop_reason : Option String
  pub admission_ceiling : ℕ
  pub structural_ceiling : ℕ
  pub cost_threshold : ℕ
  pub cost_rate_snapshot : Dict (Option Decimal)
  pub observed_calls : ℕ
  pub prompt_tokens : ℕ
  pub completion_tokens : ℕ
  pub observed_cost : ℕ
  pub charged_calls : ℕ
  pub charged_cost : ℕ
  pub possibly_billed_count : ℕ
  pub reserved_calls : ℕ
  pub reserved_cost : ℕ
  pub failed_count : ℕ
  pub version : ℕ
  pub updated_at : DateTime

pub record ResultRecord : Type 0 where
  pub id : ℕ
  pub scheduling_state : SchedulingState
  pub lease_owner : Option String
  pub lease_expires_at : Option DateTime
  pub submission_attempt_count : ℕ
  pub source_terminal_at : Option DateTime
  pub source_snapshot_digest : Option String
  pub reservation_state : ReservationState
  pub reserved_calls : ℕ
  pub reserved_cost : ℕ
  pub reserved_at : Option DateTime
  pub released_at : Option DateTime
  pub settled_at : Option DateTime
  pub observed_calls : ℕ
  pub prompt_tokens : ℕ
  pub completion_tokens : ℕ
  pub observed_cost : ℕ
  pub estimated_cost : ℕ
  pub charged_calls : ℕ
  pub charged_cost : ℕ
  pub budget_violation : Bool
  pub error_class : Option ErrorClass
  pub error_code : Option String
  pub failed_phase : Option String
  pub error_signal_flags : List String
  pub version : ℕ
  pub updated_at : DateTime

-- The row of one campaign, and the rows of its results.
pub record Tables : Type 0 where
  pub campaign : CampaignRecord
  pub results : List ResultRecord

-- What an operation leaves of the two rows that it has locked, of the lease of the worker, and what
-- it returns.
pub record Outcome (A : Type 0) : Type 0 where
  pub campaign : CampaignRecord
  pub result : ResultRecord
  pub lease : RunLease
  pub receipt : A

-- `select(ShadowRunResultRecord).where(… id == result_id)`
abbrev pub find_result : ℕ → List ResultRecord → Option ResultRecord
find_result id [] = none
find_result id (r ∷ rest) = if r.id == id then some r else find_result id rest

-- The table after the row of that id has been written.
abbrev pub put_result : ℕ → ResultRecord → List ResultRecord → List ResultRecord
put_result id new [] = []
put_result id new (r ∷ rest) = if r.id == id then new ∷ rest else r ∷ put_result id new rest

abbrev pub found : Option ResultRecord → Result ResultRecord
found none = err (
    invariant_violation_with "Shadow campaign result does not exist" "campaign_result_not_found" [])
found (some r) = ok r

-- `_assert_tenant` of the repository of tenant `tenant`
abbrev pub assert_tenant : ℕ → ℕ → Result (Unit {0})
assert_tenant tenant tenant_id =
    raise_if (not (tenant == tenant_id)) (
      invariant_violation_with "Repository cannot cross its tenant scope" "tenant_scope_mismatch"
        [])

-- `_locked_budget_records`, but for the clock of the database, which is an argument
unfoldable pub locked_budget_records : ℕ → ℕ → ℕ → Tables → Result ResultRecord
locked_budget_records tenant_id campaign_id result_id t = do
  raise_if (not (t.campaign.tenant_id == tenant_id && t.campaign.id == campaign_id))
      (invariant_violation_with "Shadow campaign does not exist" "campaign_not_found" [])
  found (find_result result_id t.results)

abbrev pub same_scheduling : SchedulingState → SchedulingState → Bool
same_scheduling SchedulingState.claimed SchedulingState.claimed = true
same_scheduling SchedulingState.conversation_bound SchedulingState.conversation_bound = true
same_scheduling SchedulingState.pending SchedulingState.pending = true
same_scheduling SchedulingState.submitted SchedulingState.submitted = true
same_scheduling SchedulingState.collected SchedulingState.collected = true
same_scheduling SchedulingState.failed SchedulingState.failed = true
same_scheduling SchedulingState.skipped SchedulingState.skipped = true
same_scheduling _ _ = false

abbrev pub is_owner : Option String → String → Bool
is_owner none owner = false
is_owner (some o) owner = str_eq o owner

abbrev pub is_open : Option DateTime → DateTime → Bool
is_open none now = false
is_open (some end) now = not (is_at_most end now)

-- `_assert_active_lease`, negated: the row is leased to the holder of the lease
unfoldable pub is_active_lease : ResultRecord → RunLease → DateTime → Bool
is_active_lease r lease now =
    not (is_not_leased r.scheduling_state)
    && same_scheduling r.scheduling_state lease.state
    && is_owner r.lease_owner lease.lease_owner
    && is_open r.lease_expires_at now
    && r.version == lease.persisted_version

abbrev pub stale_lease : Error
stale_lease =
    invariant_violation_with "Scheduling lease fencing token is stale" "scheduling_lease_fence_lost"
      []

abbrev pub assert_active_lease : ResultRecord → RunLease → DateTime → Result (Unit {0})
assert_active_lease r lease now = raise_if (not (is_active_lease r lease now)) stale_lease

abbrev invalid_snapshot : String → Error
invalid_snapshot message = invariant_violation_with message "campaign_budget_snapshot_invalid" []

-- `cost_rate_snapshot.get("run_reservation_usd", cost_rate_snapshot.get(…))`, where a JSON `null`
-- is a value, and what `Decimal` makes of the value that it finds
abbrev pub raw_cost : Dict (Option Decimal) → Option Decimal
raw_cost rates = elim (lookup "run_reservation_usd" rates) [
  | some value ↦ value
  | none ↦ elim (lookup "possibly_billed_run_reserve_usd" rates) [
    | some value ↦ value
    | none ↦ none
  ]
]

unfoldable pub requested : ℕ → Option Decimal → Result ReservationRequest
unfolding new_request
requested calls none = err (invalid_snapshot "Campaign cost-rate snapshot has no run reserve")
requested calls (some cost) = elim (new_request calls cost) [
  | ok request ↦ ok request
  | err _ ↦ err (invalid_snapshot "Campaign cost-rate snapshot has an invalid run reserve")
]

-- `_reservation_request`; Python raises on a division by zero
unfoldable pub reservation_request : CampaignRecord → Result ReservationRequest
reservation_request c = do
  raise_if (c.max_runs == 0) unexpected
  raise_if
      (not (c.structural_ceiling % c.max_runs == 0) || ltb (c.structural_ceiling / c.max_runs) 1)
      (invalid_snapshot "Campaign structural call envelope is corrupt")
  requested (c.structural_ceiling / c.max_runs) (raw_cost c.cost_rate_snapshot)

-- The fields of the `CampaignBudgetSnapshot` that `reserve_run_budget` builds
abbrev pub budget_of : CampaignRecord → CampaignBudgetSnapshot
budget_of c = record {
  admission_ceiling = c.admission_ceiling;
  structural_ceiling = c.structural_ceiling;
  cost_threshold = c.cost_threshold;
  observed_calls = c.observed_calls;
  charged_calls = c.charged_calls;
  reserved_calls = c.reserved_calls;
  observed_cost = c.observed_cost;
  charged_cost = c.charged_cost;
  reserved_cost = c.reserved_cost;
}

-- `lease.accept_budget_fence(…)`, which undoes the transaction where it raises
unfoldable pub fenced : ℕ → ReservationState → RunLease → Result RunLease
unfolding accept_budget_fence
fenced version state lease =
    let (done, lease') = accept_budget_fence version state lease in done >> ok lease'
