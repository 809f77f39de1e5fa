-- ===== src/Campaign/Ledger/Release.antt =====
-- `release_run_budget` of shadow_campaign_repository.py.
use sana_v.Base.{ℕ, ◌+◌, ◌-◌, Bool, true, false, not, ◌||◌, some, [], is_some, ◌==◌, if◌then◌else◌}
use sana_v.Shared.Errors.{Result, ok, err, invariant_violation_with, raise_if, ◌>>=◌, ◌>>◌}
use sana_v.Shared.Time.{DateTime}
use sana_v.Campaign.Status.{ReservationState}
use sana_v.Campaign.Budget.{BudgetReleaseReceipt}
use sana_v.Campaign.Lease.{RunLease}
use sana_v.Campaign.Ledger.{
  CampaignRecord, ResultRecord, Tables, Outcome, put_result, locked_budget_records, assert_tenant,
  assert_active_lease, fenced,
}
use sana_v.Campaign.Ledger.Settle.{touch, underflow, is_short, not_active}

abbrev pub check_releasable : ReservationState → Result (Unit {0})
check_releasable ReservationState.active = ok tt
check_releasable _ = err (not_active "Only active reservations can be released")

-- The rows after a release.
abbrev pub release_campaign : DateTime → ResultRecord → CampaignRecord → CampaignRecord
release_campaign now r c = touch now (record c {
  reserved_calls = c.reserved_calls - r.reserved_calls;
  reserved_cost = c.reserved_cost - r.reserved_cost;
})

abbrev pub release_result : DateTime → ResultRecord → ResultRecord
release_result now r = record r {
  reservation_state = ReservationState.released;
  released_at = some now;
  version = r.version + 1;
  updated_at = now;
}

-- The release of a result whose reservation is not RELEASED yet.
unfoldable pub release_active :
    DateTime → RunLease → CampaignRecord → ResultRecord → Result (Outcome BudgetReleaseReceipt)
release_active now lease c r = do
  check_releasable r.reservation_state
  raise_if
      (not (r.submission_attempt_count == 0)
        || (is_some r.source_terminal_at || is_some r.source_snapshot_digest))
      (invariant_violation_with "A reservation cannot be released after submission begins"
        "reservation_release_too_late" [])
  raise_if (is_short c r.reserved_calls r.reserved_cost) underflow
  lease' ← fenced (r.version + 1) ReservationState.released lease
  ok (record {
    campaign = release_campaign now r c;
    result = release_result now r;
    lease = lease';
    receipt = record { result_id = r.id; duplicate = false };
  })

abbrev pub is_released : ReservationState → Bool
is_released ReservationState.released = true
is_released _ = false

-- The operation on the two rows that it has locked.
unfoldable pub release_locked :
    DateTime → RunLease → CampaignRecord → ResultRecord → Result (Outcome BudgetReleaseReceipt)
unfolding release_active
release_locked now lease c r =
    assert_active_lease r lease now
    >> (if is_released r.reservation_state
        then ok (record {
          campaign = c;
          result = r;
          lease = lease;
          receipt = record { result_id = r.id; duplicate = true };
        })
        else release_active now lease c r)

-- `release_run_budget` of the repository of a tenant
unfoldable pub release_run_budget :
    ℕ → DateTime → RunLease → Tables → Result (Tables × RunLease × BudgetReleaseReceipt)
unfolding release_locked locked_budget_records
release_run_budget tenant now lease t = do
  assert_tenant tenant lease.tenant_id
  r ← locked_budget_records lease.tenant_id lease.campaign_id lease.id t
  o ← release_locked now lease t.campaign r
  ok (
    record { campaign = o.campaign; results = put_result lease.id o.result t.results },
    o.lease,
    o.receipt,
  )
