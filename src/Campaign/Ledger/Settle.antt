-- ===== src/Campaign/Ledger/Settle.antt =====
-- `settle_run_budget` of shadow_campaign_repository.py.
use sana_v.Base.{
  ℕ, ◌+◌, ◌-◌, String, Bool, true, false, not, ◌&&◌, ◌||◌, Option, none, some, [], pos, is_some,
  strip, str_length, ltb, leb, ◌==◌, str_eq, if◌then◌else◌,
}
use sana_v.Shared.Errors.{
  Error, Result, ok, err, value_error, invariant_violation_with, unexpected, raise_if, ◌>>=◌, ◌>>◌,
}
use sana_v.Shared.Time.{DateTime}
use sana_v.Campaign.Status.{CampaignStatus, StopIntent, SchedulingState, ReservationState}
use sana_v.Campaign.Money.{Decimal}
use sana_v.Campaign.Budget.{
  ReservationRequest, new_request, SettlementUsage, exceeds, BudgetSettlementReceipt,
}
use sana_v.Campaign.Lifecycle.{is_no_intent}
use sana_v.Campaign.Ledger.{
  CampaignRecord, ResultRecord, Tables, put_result, locked_budget_records, assert_tenant,
}
use sana_v.Campaign.Ledger.Reserve.{is_running}
use Prim.Native.Char.{code}

-- `any(character not in "0123456789abcdef" for character in digest)`
pub has_foreign : String → Bool
has_foreign String.[] = false
has_foreign (String.◌∷◌ c s) =
    let n = code c in
    not ((leb b'0' n && leb n b'9') || (leb b'a' n && leb n b'f')) || has_foreign s

-- The check of a digest; one that has only these characters is its own `lower()`.
unfoldable pub check_digest : String → Result (Unit {0})
unfolding has_foreign
check_digest digest =
    raise_if (not (str_length digest == 64) || has_foreign digest)
      (value_error "source_snapshot_digest must be a lowercase SHA-256")

abbrev pub same_digest : Option String → String → Bool
same_digest none digest = false
same_digest (some d) digest = str_eq d digest

-- `_settlement_matches`
unfoldable pub settlement_matches : ResultRecord → String → SettlementUsage → Bool
settlement_matches r digest u =
    same_digest r.source_snapshot_digest digest
    && r.observed_calls == u.observed_calls
    && r.prompt_tokens == u.prompt_tokens
    && r.completion_tokens == u.completion_tokens
    && r.observed_cost == u.observed_cost
    && r.charged_calls == u.charged_calls
    && r.charged_cost == u.charged_cost

-- `_budget_breach`
unfoldable pub budget_breach :
    CampaignRecord → ReservationRequest → SettlementUsage → StopIntent × Option String
budget_breach c q u =
    let calls = c.observed_calls + c.charged_calls + c.reserved_calls in
    let cost = c.observed_cost + c.charged_cost + c.reserved_cost in
    if ltb c.structural_ceiling calls
    then (StopIntent.call_ceiling, some "provider_call_structural_ceiling")
    else if ltb c.admission_ceiling calls
    then (StopIntent.call_ceiling, some "provider_call_admission_ceiling")
    else if ltb q.provider_calls (u.observed_calls + u.charged_calls)
    then (StopIntent.call_ceiling, some "run_provider_call_reservation")
    else if ltb c.cost_threshold cost
    then (StopIntent.budget, some "estimated_cost_stop_threshold")
    else if ltb q.estimated_cost (u.observed_cost + u.charged_cost)
    then (StopIntent.budget, some "run_estimated_cost_reservation")
    else (StopIntent.none, none)

-- The reservation of a result, given back by its campaign.
abbrev pub uncharge : ReservationRequest → CampaignRecord → CampaignRecord
uncharge q c = record c {
  reserved_calls = c.reserved_calls - q.provider_calls;
  reserved_cost = c.reserved_cost - q.estimated_cost;
}

-- The usage of a run, counted by its campaign.
abbrev pub observe : SettlementUsage → CampaignRecord → CampaignRecord
observe u c = record c {
  observed_calls = c.observed_calls + u.observed_calls;
  prompt_tokens = c.prompt_tokens + u.prompt_tokens;
  completion_tokens = c.completion_tokens + u.completion_tokens;
  observed_cost = c.observed_cost + u.observed_cost;
  charged_calls = c.charged_calls + u.charged_calls;
  charged_cost = c.charged_cost + u.charged_cost;
  possibly_billed_count =
      if not (u.charged_calls == 0) || not (u.charged_cost == 0)
      then c.possibly_billed_count + 1
      else c.possibly_billed_count;
}

-- The result once its usage is known.
abbrev pub settle_result :
    DateTime → String → ReservationRequest → SettlementUsage → ResultRecord → ResultRecord
settle_result now digest q u r = record r {
  reservation_state = ReservationState.settled;
  observed_calls = u.observed_calls;
  prompt_tokens = u.prompt_tokens;
  completion_tokens = u.completion_tokens;
  observed_cost = u.observed_cost;
  estimated_cost = u.observed_cost;
  charged_calls = u.charged_calls;
  charged_cost = u.charged_cost;
  settled_at = some now;
  source_snapshot_digest = some digest;
  budget_violation = exceeds u q;
  version = r.version + 1;
  updated_at = now;
}

-- The campaign where a breach has been looked for: one that is RUNNING stops.
abbrev pub stop_on_breach : StopIntent × Option String → CampaignRecord → CampaignRecord
stop_on_breach (intent, reason) c =
    if not (is_no_intent intent) && is_running c.status
    then record c { status = CampaignStatus.stopping; stop_intent = intent; stop_reason = reason }
    else c

abbrev pub touch : DateTime → CampaignRecord → CampaignRecord
touch now c = record c { version = c.version + 1; updated_at = now }

unfoldable pub settle_campaign :
    DateTime → ReservationRequest → SettlementUsage → CampaignRecord → CampaignRecord
unfolding budget_breach
settle_campaign now q u c =
    let counted = observe u (uncharge q c) in
    touch now (stop_on_breach (budget_breach counted q u) counted)

abbrev pub may_settle : SchedulingState → Bool
may_settle SchedulingState.submitted = true
may_settle SchedulingState.collected = true
may_settle SchedulingState.failed = true
may_settle _ = false

abbrev pub underflow : Error
underflow =
    invariant_violation_with "Campaign reservation ledgers are inconsistent"
      "reservation_ledger_underflow" []

abbrev pub is_short : CampaignRecord → ℕ → ℕ → Bool
is_short c calls cost = ltb c.reserved_calls calls || ltb c.reserved_cost cost

abbrev pub settlement_conflict : String → Error
settlement_conflict message = invariant_violation_with message "settlement_conflict" []

abbrev pub not_active : String → Error
not_active message = invariant_violation_with message "reservation_not_active" []

-- The guards of a settlement: the run is not over, or its source has changed.
abbrev pub is_not_over : ResultRecord → Bool
is_not_over r = not (may_settle r.scheduling_state) || not (is_some r.source_terminal_at)

abbrev pub is_changed : ResultRecord → String → Bool
is_changed r digest =
    is_some r.source_snapshot_digest && not (same_digest r.source_snapshot_digest digest)

-- Of the CHECK constraint of the row: `possibly_billed_count <= max_runs`, negated.
abbrev pub is_overcounted : CampaignRecord → Bool
is_overcounted c = ltb c.max_runs c.possibly_billed_count

-- The settlement of a reservation.
unfoldable pub settle_request :
    DateTime
    → String
    → SettlementUsage
    → CampaignRecord
    → ResultRecord
    → ReservationRequest
    → Result (CampaignRecord × ResultRecord × BudgetSettlementReceipt)
unfolding settle_campaign
settle_request now digest u c r q = do
  raise_if (is_short c q.provider_calls q.estimated_cost) underflow
  raise_if (is_overcounted (settle_campaign now q u c)) unexpected
  ok (
    settle_campaign now q u c,
    settle_result now digest q u r,
    record { result_id = r.id; duplicate = false; budget_violation = exceeds u q },
  )

-- The settlement of a result whose reservation is ACTIVE.
unfoldable pub settle_active :
    DateTime
    → String
    → SettlementUsage
    → CampaignRecord
    → ResultRecord
    → Result (CampaignRecord × ResultRecord × BudgetSettlementReceipt)
unfolding new_request settle_request
settle_active now digest u c r = do
  raise_if (is_not_over r) (
      invariant_violation_with "Budget settlement requires a terminal source snapshot"
        "source_not_terminal" [])
  raise_if (is_changed r digest)
      (settlement_conflict "The terminal source snapshot changed before settlement")
  q ← new_request r.reserved_calls (Decimal.number (pos r.reserved_cost) 10)
  settle_request now digest u c r q

-- A result that is SETTLED: the same settlement again, or another one.
abbrev pub settle_again :
    String
    → SettlementUsage
    → CampaignRecord
    → ResultRecord
    → Bool
    → Result (CampaignRecord × ResultRecord × BudgetSettlementReceipt)
settle_again digest u c r true =
    ok (c, r, record { result_id = r.id; duplicate = true; budget_violation = r.budget_violation })
settle_again digest u c r false =
    err (settlement_conflict "A result budget was already settled from different source data")

-- The operation on the two rows that it has locked.
unfoldable pub settle_locked :
    DateTime
    → String
    → SettlementUsage
    → CampaignRecord
    → ResultRecord
    → ReservationState
    → Result (CampaignRecord × ResultRecord × BudgetSettlementReceipt)
unfolding settlement_matches settle_active
settle_locked now digest u c r ReservationState.settled =
    settle_again digest u c r (settlement_matches r digest u)
settle_locked now digest u c r ReservationState.active = settle_active now digest u c r
settle_locked now digest u c r _ = err (not_active "Only active reservations can be settled")

-- `settle_run_budget` of the repository of a tenant
unfoldable pub settle_run_budget :
    ℕ
    → DateTime
    → ℕ
    → ℕ
    → ℕ
    → String
    → SettlementUsage
    → Tables
    → Result (Tables × BudgetSettlementReceipt)
unfolding check_digest locked_budget_records settle_locked
settle_run_budget tenant now tenant_id campaign_id result_id source_snapshot_digest u t =
    let digest = strip source_snapshot_digest in
    assert_tenant tenant tenant_id
    >> (check_digest digest
        >> (locked_budget_records tenant_id campaign_id result_id t >>= λ r.
            settle_locked now digest u t.campaign r r.reservation_state >>= λ (c, r', receipt).
            ok (record { campaign = c; results = put_result result_id r' t.results }, receipt)))
