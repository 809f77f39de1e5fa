-- ===== src/Campaign/Ledger/Failure.antt =====
-- `RunnerFailure` of shadow_campaign/runner.py, and `mark_failure` of
-- sana/platform/db/shadow_runner.py: a run that fails before it is submitted gives its reservation
-- back, or, where the provider may have billed it, is charged with it. The `snapshot_hash` of what is
-- known of the failure is a parameter (`FailureHash`).
use sana_v.Base.{
  ℕ, ◌+◌, ◌-◌, String, Bool, true, false, not, ◌&&◌, ◌||◌, none, some, [], ◌∷◌, is_empty, strip,
  str_length, ltb, leb, ◌==◌, if◌then◌else◌,
}
use sana_v.Shared.Errors.{
  Result, ok, err, value_error, invariant_violation_with, unexpected, raise_if, ◌>>=◌, ◌>>◌,
}
use sana_v.Shared.Time.{DateTime}
use sana_v.Campaign.Status.{SchedulingState, ReservationState, ErrorClass}
use sana_v.Campaign.Lease.{RunLease, is_not_leased}
use sana_v.Campaign.Ledger.{
  CampaignRecord, ResultRecord, Tables, put_result, locked_budget_records, assert_tenant, is_owner,
  is_open, stale_lease,
}
use sana_v.Campaign.Ledger.Settle.{touch, is_short, is_overcounted}
use Prim.Native.Char.{code}

pub record RunnerFailure : Type 0 where
  pub error_class : ErrorClass
  pub error_code : String
  pub failed_phase : String
  pub possibly_billed : Bool

pub record RunnerFailureReceipt : Type 0 where
  pub result_id : ℕ
  pub possibly_billed : Bool
  pub duplicate : Bool

-- `any(character not in "abcdefghijklmnopqrstuvwxyz0123456789_" for character in s)`
pub has_unstable : String → Bool
has_unstable String.[] = false
has_unstable (String.◌∷◌ c s) =
    let n = code c in
    not ((leb b'a' n && leb n b'z') || (leb b'0' n && leb n b'9') || n == b'_') || has_unstable s

-- `_stable_code`, with the message that the name of the field gives
unfoldable pub stable_code : String → String → ℕ → Result String
unfolding has_unstable
stable_code value message maximum =
    let normalized = strip value in
    raise_if (is_empty normalized || ltb maximum (str_length normalized) || has_unstable normalized)
      (value_error message)
    >> ok normalized

-- `RunnerFailure.__post_init__`
unfoldable pub new_failure : RunnerFailure → Result RunnerFailure
unfolding stable_code
new_failure f = do
  error_code ← stable_code f.error_code "error_code must be a stable lowercase identifier" 200
  failed_phase ← stable_code f.failed_phase "failed_phase must be a stable lowercase identifier" 100
  ok (record f { error_code = error_code; failed_phase = failed_phase })

-- `snapshot_hash`, of the lease, the failure, the reserved calls and the reserved cost
abbrev pub FailureHash : Type 0
FailureHash = RunLease → RunnerFailure → ℕ → ℕ → String

-- The row is leased to the holder of the lease, whatever state the lease has.
unfoldable pub holds_lease : ResultRecord → RunLease → DateTime → Bool
holds_lease r lease now =
    not (is_not_leased r.scheduling_state)
    && is_owner r.lease_owner lease.lease_owner
    && is_open r.lease_expires_at now
    && r.version == lease.persisted_version

abbrev pub is_active : ReservationState → Bool
is_active ReservationState.active = true
is_active _ = false

abbrev pub is_failed : SchedulingState → Bool
is_failed SchedulingState.failed = true
is_failed _ = false

-- The reservation of the result, given back by the campaign.
abbrev pub give_back : ResultRecord → CampaignRecord → CampaignRecord
give_back r c = record c {
  reserved_calls = c.reserved_calls - r.reserved_calls;
  reserved_cost = c.reserved_cost - r.reserved_cost;
}

-- The campaign, charged with what was reserved.
abbrev pub charge_reserved : ResultRecord → CampaignRecord → CampaignRecord
charge_reserved r c = record c {
  charged_calls = c.charged_calls + r.reserved_calls;
  charged_cost = c.charged_cost + r.reserved_cost;
  possibly_billed_count = c.possibly_billed_count + 1;
}

abbrev pub charged_result : DateTime → String → ResultRecord → ResultRecord
charged_result now digest r = record r {
  charged_calls = r.reserved_calls;
  charged_cost = r.reserved_cost;
  reservation_state = ReservationState.settled;
  settled_at = some now;
  source_terminal_at = some now;
  source_snapshot_digest = some digest;
}

abbrev pub freed_result : DateTime → ResultRecord → ResultRecord
freed_result now r = record r {
  reservation_state = ReservationState.released;
  released_at = some now;
}

-- What becomes of an ACTIVE reservation.
abbrev pub end_active :
    Bool → String → DateTime → CampaignRecord → ResultRecord → CampaignRecord × ResultRecord
end_active true digest now c r = (charge_reserved r (give_back r c), charged_result now digest r)
end_active false digest now c r = (give_back r c, freed_result now r)

-- What becomes of the reservation. Where the campaign has less than is given back, the table refuses
-- a negative count.
unfoldable pub end_reservation :
    FailureHash
    → DateTime
    → RunLease
    → RunnerFailure
    → CampaignRecord
    → ResultRecord
    → ReservationState
    → Result (CampaignRecord × ResultRecord)
end_reservation hash now lease failure c r ReservationState.active = do
  raise_if (is_short c r.reserved_calls r.reserved_cost) unexpected
  ok (
      end_active failure.possibly_billed (hash lease failure r.reserved_calls r.reserved_cost) now c
        r)
end_reservation hash now lease failure c r ReservationState.none = ok (c, r)
end_reservation hash now lease failure c r _ = err (
    invariant_violation_with "A terminal reservation cannot be failed again"
      "reservation_already_terminal" [])

-- The rows with the failure.
abbrev pub failed_campaign : DateTime → CampaignRecord → CampaignRecord
failed_campaign now c = touch now (record c { failed_count = c.failed_count + 1 })

abbrev pub failed_result : DateTime → RunnerFailure → ResultRecord → ResultRecord
failed_result now failure r = record r {
  scheduling_state = SchedulingState.failed;
  lease_owner = none;
  lease_expires_at = none;
  error_class = some failure.error_class;
  error_code = some failure.error_code;
  failed_phase = some failure.failed_phase;
  error_signal_flags = failure.error_code ∷ [];
  version = r.version + 1;
  updated_at = now;
}

-- The failure of a run that has not failed yet. The table refuses a count above `max_runs`.
unfoldable pub fail_leased :
    FailureHash
    → DateTime
    → RunLease
    → RunnerFailure
    → CampaignRecord
    → ResultRecord
    → Result (CampaignRecord × ResultRecord × RunnerFailureReceipt)
unfolding end_reservation
fail_leased hash now lease failure c r = do
  raise_if (not (holds_lease r lease now)) stale_lease
  raise_if (failure.possibly_billed && not (is_active r.reservation_state)) (
      invariant_violation_with "A possibly billed failure requires an active reservation"
        "possibly_billed_without_reservation" [])
  (ended, row) ← end_reservation hash now lease failure c r r.reservation_state
  raise_if (is_overcounted ended || not (ltb ended.failed_count ended.max_runs)) unexpected
  ok (
    failed_campaign now ended,
    failed_result now failure row,
    record { result_id = r.id; possibly_billed = failure.possibly_billed; duplicate = false },
  )

-- The operation on the two rows that it has locked.
unfoldable pub fail_locked :
    FailureHash
    → DateTime
    → RunLease
    → RunnerFailure
    → CampaignRecord
    → ResultRecord
    → Result (CampaignRecord × ResultRecord × RunnerFailureReceipt)
unfolding fail_leased
fail_locked hash now lease failure c r =
    if is_failed r.scheduling_state
    then ok (
      c,
      r,
      record { result_id = r.id; possibly_billed = not (r.charged_calls == 0); duplicate = true },
    )
    else fail_leased hash now lease failure c r

-- `mark_failure` of the repository of a tenant
unfoldable pub mark_failure :
    ℕ
    → FailureHash
    → DateTime
    → RunLease
    → RunnerFailure
    → Tables
    → Result (Tables × RunnerFailureReceipt)
unfolding fail_locked locked_budget_records
mark_failure tenant hash now lease failure t = do
  assert_tenant tenant lease.tenant_id
  r ← locked_budget_records lease.tenant_id lease.campaign_id lease.id t
  (c, r', receipt) ← fail_locked hash now lease failure t.campaign r
  ok (record { campaign = c; results = put_result lease.id r' t.results }, receipt)
