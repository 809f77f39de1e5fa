-- ===== src/Campaign/Ledger/Reserve.antt =====
-- `reserve_run_budget` of shadow_campaign_repository.py. What it raises, the transaction undoes.
use sana_v.Base.{
  ℕ, ◌+◌, String, str_append, is_empty, Bool, true, false, not, ◌&&◌, ◌||◌, Option, none, some, [],
  ◌==◌, if◌then◌else◌,
}
use sana_v.Shared.Errors.{Result, ok, err, invariant_violation_with, ◌>>=◌, ◌>>◌}
use sana_v.Shared.Time.{DateTime}
use sana_v.Campaign.Status.{CampaignStatus, StopIntent, ReservationState}
use sana_v.Campaign.Budget.{
  ReservationRequest, CampaignBudgetSnapshot, new_budget_snapshot, BudgetAdmission, admit,
  admit_after_active_reservations_settle, BudgetReservationReceipt,
}
use sana_v.Campaign.Lifecycle.{is_no_intent}
use sana_v.Campaign.Lease.{RunLease}
use sana_v.Campaign.Ledger.{
  CampaignRecord, ResultRecord, Tables, Outcome, put_result, locked_budget_records, assert_tenant,
  assert_active_lease, reservation_request, budget_of, fenced,
}

abbrev pub is_running : CampaignStatus → Bool
is_running CampaignStatus.running = true
is_running _ = false

-- A receipt that grants nothing
abbrev pub refusal : StopIntent → Option String → Bool → BudgetReservationReceipt
refusal intent reason deferred = record {
  allowed = false;
  stop_intent = intent;
  reason = reason;
  reserved_calls = 0;
  reserved_cost = 0;
  deferred = deferred;
}

-- `campaign.stop_reason or "campaign_not_running"`
abbrev reason_or_default : Option String → String
reason_or_default none = "campaign_not_running"
reason_or_default (some s) = if is_empty s then "campaign_not_running" else s

-- The receipt where the campaign is not RUNNING
abbrev pub not_running : CampaignRecord → BudgetReservationReceipt
not_running c =
    refusal (if is_no_intent c.stop_intent then StopIntent.fatal else c.stop_intent)
      (some (reason_or_default c.stop_reason)) false

abbrev pub check_reservable : ReservationState → Result (Unit {0})
check_reservable ReservationState.active = err (
    invariant_violation_with "An active reservation must be reconciled before retrying the run"
      "active_reservation_recovery_required" [])
check_reservable ReservationState.none = ok tt
check_reservable _ = err (
    invariant_violation_with "A terminal reservation cannot be reserved again"
      "reservation_already_terminal" [])

-- The reason of an admission in an f-string
abbrev pub shown : Option String → String
shown none = "None"
shown (some s) = s

-- The rows after a grant.
abbrev pub charge_campaign : DateTime → ReservationRequest → CampaignRecord → CampaignRecord
charge_campaign now q c = record c {
  reserved_calls = c.reserved_calls + q.provider_calls;
  reserved_cost = c.reserved_cost + q.estimated_cost;
  version = c.version + 1;
  updated_at = now;
}

abbrev pub charge_result : DateTime → ReservationRequest → ResultRecord → ResultRecord
charge_result now q r = record r {
  reserved_calls = q.provider_calls;
  reserved_cost = q.estimated_cost;
  reservation_state = ReservationState.active;
  reserved_at = some now;
  version = r.version + 1;
  updated_at = now;
}

abbrev pub granted :
    DateTime
    → RunLease
    → CampaignRecord
    → ResultRecord
    → ReservationRequest
    → Result (Outcome BudgetReservationReceipt)
granted now lease c r q = do
  lease' ← fenced (r.version + 1) ReservationState.active lease
  ok (record {
    campaign = charge_campaign now q c;
    result = charge_result now q r;
    lease = lease';
    receipt = record {
      allowed = true;
      stop_intent = StopIntent.none;
      reason = none;
      reserved_calls = q.provider_calls;
      reserved_cost = q.estimated_cost;
      deferred = false;
    };
  })

-- The rows after a refusal that stops the campaign.
abbrev pub stop_campaign : DateTime → StopIntent → String → CampaignRecord → CampaignRecord
stop_campaign now intent reason c = record c {
  status = CampaignStatus.stopping;
  stop_intent = intent;
  stop_reason = some reason;
  version = c.version + 1;
  updated_at = now;
}

abbrev pub stopped :
    DateTime
    → RunLease
    → CampaignRecord
    → ResultRecord
    → BudgetAdmission
    → Result (Outcome BudgetReservationReceipt)
stopped now lease c r a = do
  lease' ← fenced (r.version + 1) ReservationState.none lease
  ok (record {
    campaign =
        stop_campaign now a.stop_intent (str_append "Budget admission denied: " (shown a.reason)) c;
    result = record r { budget_violation = true; version = r.version + 1; updated_at = now };
    lease = lease';
    receipt = refusal a.stop_intent a.reason false;
  })

-- What the operation does by its two admissions.
abbrev pub granted_or :
    Bool
    → Bool
    → DateTime
    → RunLease
    → CampaignRecord
    → ResultRecord
    → ReservationRequest
    → BudgetAdmission
    → Result (Outcome BudgetReservationReceipt)
granted_or true _ now lease c r q a = granted now lease c r q
granted_or false true now lease c r q a = ok (record {
  campaign = c;
  result = r;
  lease = lease;
  receipt = refusal StopIntent.none (some "active_reservation_capacity") true;
})
granted_or false false now lease c r q a = stopped now lease c r a

-- The request would be admitted once the runs in flight are settled, and there are some.
unfoldable pub has_only_to_wait :
    CampaignRecord → ReservationRequest → CampaignBudgetSnapshot → Bool
unfolding admit_after_active_reservations_settle
has_only_to_wait c q b =
    (admit_after_active_reservations_settle b q).allowed
    && (not (c.reserved_calls == 0) || not (c.reserved_cost == 0))

-- The operation from its admission on: grant, defer until a run in flight gives capacity back, or
-- stop the campaign.
unfoldable pub decide :
    DateTime
    → RunLease
    → CampaignRecord
    → ResultRecord
    → ReservationRequest
    → CampaignBudgetSnapshot
    → Result (Outcome BudgetReservationReceipt)
unfolding admit has_only_to_wait
decide now lease c r q b =
    granted_or (admit b q).allowed (has_only_to_wait c q b) now lease c r q (admit b q)

-- The operation where the campaign is RUNNING.
unfoldable pub reserve_running :
    DateTime → RunLease → CampaignRecord → ResultRecord → Result (Outcome BudgetReservationReceipt)
unfolding reservation_request new_budget_snapshot decide
reserve_running now lease c r = do
  check_reservable r.reservation_state
  q ← reservation_request c
  b ← new_budget_snapshot (budget_of c)
  decide now lease c r q b

abbrev pub reserve_if :
    Bool
    → DateTime
    → RunLease
    → CampaignRecord
    → ResultRecord
    → Result (Outcome BudgetReservationReceipt)
unfolding reserve_running
reserve_if true now lease c r = reserve_running now lease c r
reserve_if false now lease c r =
    ok (record { campaign = c; result = r; lease = lease; receipt = not_running c })

-- The operation on the two rows that it has locked.
unfoldable pub reserve_locked :
    DateTime → RunLease → CampaignRecord → ResultRecord → Result (Outcome BudgetReservationReceipt)
unfolding reserve_running
reserve_locked now lease c r = do
  assert_active_lease r lease now
  reserve_if (is_running c.status) now lease c r

-- `reserve_run_budget` of the repository of a tenant, with the clock of the database: the tables
-- that it commits, the lease that it leaves and what it returns.
unfoldable pub reserve_run_budget :
    ℕ → DateTime → RunLease → Tables → Result (Tables × RunLease × BudgetReservationReceipt)
unfolding reserve_locked locked_budget_records
reserve_run_budget tenant now lease t = do
  assert_tenant tenant lease.tenant_id
  r ← locked_budget_records lease.tenant_id lease.campaign_id lease.id t
  o ← reserve_locked now lease t.campaign r
  ok (
    record { campaign = o.campaign; results = put_result lease.id o.result t.results },
    o.lease,
    o.receipt,
  )
