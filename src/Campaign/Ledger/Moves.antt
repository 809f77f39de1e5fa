-- ===== src/Campaign/Ledger/Moves.antt =====
-- What each operation makes of the reservations of the campaign and of the result that it has locked.
use sana_v.Base.{
  pos, ◌+◌, ◌-◌, ◌≡◌, refl, sym, ap, ◌∙◌, String, arith, Bool, Bool-cases, true, false, Option, inl,
  inr,
}
use sana_v.Shared.Errors.{ok, err, bind-ok, ok-injective, check-rest}
use sana_v.Shared.Time.{DateTime}
use sana_v.Campaign.Money.{Decimal, quantize, nonnegative_decimal}
use sana_v.Campaign.Status.{StopIntent, ReservationState}
use sana_v.Campaign.Budget.{
  CampaignBudgetSnapshot, admit, SettlementUsage, ReservationRequest, exceeds, new_request,
  BudgetReservationReceipt, BudgetSettlementReceipt, BudgetReleaseReceipt,
}
use sana_v.Campaign.Lease.{RunLease}
use sana_v.Campaign.Ledger.{CampaignRecord, ResultRecord, Outcome, budget_of}
use sana_v.Campaign.Ledger.Reserve.{
  reserve_locked, is_running, decide, granted_or, has_only_to_wait,
}
use sana_v.Campaign.Ledger.Settle.{
  settle_locked, settle_active, settle_again, settlement_conflict, settle_request, is_not_over,
  is_changed, settle_campaign, settle_result, settlement_matches, budget_breach, stop_on_breach,
  observe, uncharge, is_short, is_overcounted,
}
use sana_v.Campaign.Ledger.Release.{release_locked}
use sana_v.Campaign.Ledger.Decide.{reserve_idle, reserve_decides, granted-rows, stopped-rows}
use sana_v.Campaign.Ledger.Steps.{held_calls, held_cost}

-- What two rows make of the ledger: the campaign moves by what the result does.
pub record Moves (c c' : CampaignRecord) (r r' : ResultRecord) : Type 0 where
  pub calls : c'.reserved_calls + held_calls r ≡ c.reserved_calls + held_calls r'
  pub cost : c'.reserved_cost + held_cost r ≡ c.reserved_cost + held_cost r'

decide-Moves :
    (now : DateTime) (lease : RunLease) (c : CampaignRecord) (r : ResultRecord)
    (q : ReservationRequest) (b : CampaignBudgetSnapshot) {o : Outcome BudgetReservationReceipt}
    → r.reservation_state ≡ ReservationState.none
    → decide now lease c r q b ≡ ok o
    → Moves c o.campaign r o.result
unfolding decide
decide-Moves now lease c r q b free h = go (admit b q).allowed (has_only_to_wait c q b) h
  where
    go :
        (now_fits later_fits : Bool) {o : Outcome BudgetReservationReceipt}
        → granted_or now_fits later_fits now lease c r q (admit b q) ≡ ok o
        → Moves c o.campaign r o.result
    go true _ h =
        let (campaign, result) = granted-rows now lease c r q h in
        record {
          calls = rw (campaign, result, free) (omega arith);
          cost = rw (campaign, result, free) (omega arith);
        }
    go false true h =
        let same = ok-injective h in
        record { calls = rw (sym same) refl; cost = rw (sym same) refl }
    go false false h =
        let (campaign, result) = stopped-rows now lease c r (admit b q) h in
        record { calls = rw (campaign, result) refl; cost = rw (campaign, result) refl }

pub reserve-Moves :
    (now : DateTime) (lease : RunLease) (c : CampaignRecord) (r : ResultRecord)
    {o : Outcome BudgetReservationReceipt}
    → reserve_locked now lease c r ≡ ok o
    → Moves c o.campaign r o.result
reserve-Moves now lease c r h = elim (Bool-cases (is_running c.status)) [
  | inl running ↦
      let (q, free, decided) = reserve_decides now lease c r h running in
      decide-Moves now lease c r q (budget_of c) free decided
  | inr idle ↦
      let (campaign, result) = reserve_idle now lease c r h idle in
      record { calls = rw (campaign, result) refl; cost = rw (campaign, result) refl }
]

-- The reservation that is read back from a result.
pub record Reads (r : ResultRecord) (q : ReservationRequest) : Type 0 where
  pub calls : q.provider_calls ≡ r.reserved_calls
  pub cost : q.estimated_cost ≡ r.reserved_cost

request-Reads :
    (r : ResultRecord) {q : ReservationRequest}
    → new_request r.reserved_calls (Decimal.number (pos r.reserved_cost) 10) ≡ ok q
    → Reads r q
unfolding new_request nonnegative_decimal quantize
request-Reads r h = ground arith

breach_keeps :
    (b : StopIntent × Option String) (c : CampaignRecord)
    → ((stop_on_breach b c).reserved_calls ≡ c.reserved_calls)
      × ((stop_on_breach b c).reserved_cost ≡ c.reserved_cost)
breach_keeps b c = ground arith

settle_campaign-reserved :
    (now : DateTime) (q : ReservationRequest) (u : SettlementUsage) (c : CampaignRecord)
    → ((settle_campaign now q u c).reserved_calls ≡ c.reserved_calls - q.provider_calls)
      × ((settle_campaign now q u c).reserved_cost ≡ c.reserved_cost - q.estimated_cost)
unfolding settle_campaign
settle_campaign-reserved now q u c =
    breach_keeps (budget_breach (observe u (uncharge q c)) q u) (observe u (uncharge q c))

-- What an ACTIVE result that is settled leaves.
pub record Settles (now : DateTime) (digest : String) (u : SettlementUsage) (c c' : CampaignRecord)
    (r r' : ResultRecord) (receipt : BudgetSettlementReceipt) : Type 0 where
  pub request : ReservationRequest
  pub reads : Reads r request
  pub enough : is_short c request.provider_calls request.estimated_cost ≡ false
  pub campaign : c' ≡ settle_campaign now request u c
  pub result : r' ≡ settle_result now digest request u r
  pub receipt_of :
      receipt ≡ record { result_id = r.id; duplicate = false; budget_violation = exceeds u request }

pub settle_active-Settles :
    (now : DateTime) (digest : String) (u : SettlementUsage) (c : CampaignRecord) (r : ResultRecord)
    {c' : CampaignRecord} {r' : ResultRecord} {receipt : BudgetSettlementReceipt}
    → settle_active now digest u c r ≡ ok (c', r', receipt)
    → Settles now digest u c c' r r' receipt
unfolding settle_active settle_request
settle_active-Settles now digest u c r h =
    let source = check-rest (is_not_over r) _ _ h in
    let unchanged = check-rest (is_changed r digest) _ _ source.1 in
    let read =
      bind-ok (new_request r.reserved_calls (Decimal.number (pos r.reserved_cost) 10))
        (settle_request now digest u c r) unchanged.1 in
    let q = read.0 in
    let ledger = check-rest (is_short c q.provider_calls q.estimated_cost) _ _ read.2 in
    let counted = check-rest (is_overcounted (settle_campaign now q u c)) _ _ ledger.1 in
    let out = ok-injective counted.1 in
    record {
      request = q;
      reads = request-Reads r read.1;
      enough = ledger.0;
      campaign = sym (ap (λ o. o.0) out);
      result = sym (ap (λ o. o.1) out);
      receipt_of = sym (ap (λ o. o.2) out);
    }

settle_active-Moves :
    (now : DateTime) (digest : String) (u : SettlementUsage) (c : CampaignRecord) (r : ResultRecord)
    {c' : CampaignRecord} {r' : ResultRecord} {receipt : BudgetSettlementReceipt}
    → r.reservation_state ≡ ReservationState.active
    → settle_active now digest u c r ≡ ok (c', r', receipt)
    → Moves c c' r r'
settle_active-Moves now digest u c r active h =
    let s = settle_active-Settles now digest u c r h in
    let kept = settle_campaign-reserved now s.request u c in
    let reads = s.reads in
    let enough = s.enough in
    record {
      calls = rw (s.campaign, s.result, active, kept.0, reads.calls) (ground arith);
      cost = rw (s.campaign, s.result, active, kept.1, reads.cost) (ground arith);
    }

pub settled_again-same :
    (now : DateTime) (digest : String) (u : SettlementUsage) (c : CampaignRecord) (r : ResultRecord)
    {c' : CampaignRecord} {r' : ResultRecord} {receipt : BudgetSettlementReceipt}
    → settle_locked now digest u c r ReservationState.settled ≡ ok (c', r', receipt)
    → (c ≡ c')
      × (r ≡ r')
      × (receipt
          ≡ record { result_id = r.id; duplicate = true; budget_violation = r.budget_violation })
      × (settlement_matches r digest u ≡ true)
unfolding settle_locked
settled_again-same now digest u c r h = elim (Bool-cases (settlement_matches r digest u)) [
  | inl same ↦
      let out = ok-injective (sym (ap (λ b. settle_again digest u c r b) same) ∙ h) in
      (ap (λ o. o.0) out, ap (λ o. o.1) out, sym (ap (λ o. o.2) out), same)
  | inr other ↦
      let raised : err
            (settlement_conflict "A result budget was already settled from different source data")
          ≡ ok _ =
        sym (ap (λ b. settle_again digest u c r b) other) ∙ h in
      cc
]

settled-Moves :
    (now : DateTime) (digest : String) (u : SettlementUsage) (c : CampaignRecord) (r : ResultRecord)
    {c' : CampaignRecord} {r' : ResultRecord} {receipt : BudgetSettlementReceipt}
    → settle_locked now digest u c r ReservationState.settled ≡ ok (c', r', receipt)
    → Moves c c' r r'
settled-Moves now digest u c r h =
    let same = settled_again-same now digest u c r h in
    record { calls = rw (sym same.0, sym same.1) refl; cost = rw (sym same.0, sym same.1) refl }

pub settle-Moves :
    (now : DateTime) (digest : String) (u : SettlementUsage) (c : CampaignRecord) (r : ResultRecord)
    (state : ReservationState) {c' : CampaignRecord} {r' : ResultRecord}
    {receipt : BudgetSettlementReceipt}
    → r.reservation_state ≡ state
    → settle_locked now digest u c r state ≡ ok (c', r', receipt)
    → Moves c c' r r'
unfolding settle_locked
settle-Moves now digest u c r ReservationState.active e h = settle_active-Moves now digest u c r e h
settle-Moves now digest u c r ReservationState.settled e h = settled-Moves now digest u c r h
settle-Moves now digest u c r ReservationState.none e h = cc
settle-Moves now digest u c r ReservationState.released e h = cc

pub release-Moves :
    (now : DateTime) (lease : RunLease) (c : CampaignRecord) (r : ResultRecord)
    {o : Outcome BudgetReleaseReceipt}
    → release_locked now lease c r ≡ ok o
    → Moves c o.campaign r o.result
unfolding release_locked
release-Moves now lease c r h = ground arith
