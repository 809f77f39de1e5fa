-- ===== src/Campaign/Ledger/Settled.antt =====
-- What a settlement leaves in the row of the result, and what guards it.
use sana_v.Base.{
  ℕ, ◌≡◌, refl, sym, ap, ◌∙◌, subst, String, arith, true, false, not, ◌&&◌, ◌==◌, Option, some,
  strip, eq_refl,
}
use sana_v.Shared.Errors.{ok, bind-ok, check-rest}
use sana_v.Shared.Time.{DateTime}
use sana_v.Campaign.Status.{StopIntent, ReservationState}
use sana_v.Campaign.Budget.{ReservationRequest, SettlementUsage, BudgetSettlementReceipt}
use sana_v.Campaign.Ledger.{
  CampaignRecord, ResultRecord, Tables, find_result, put_result, locked_budget_records,
}
use sana_v.Campaign.Ledger.Settle.{
  settle_run_budget, settle_locked, settle_active, settlement_matches, check_digest,
  settle_campaign, settle_result, stop_on_breach, budget_breach, observe, uncharge,
}
use sana_v.Campaign.Ledger.Find.{find-id, put-find}
use sana_v.Campaign.Ledger.Moves.{settle_active-Settles, settled_again-same}
use sana_v.Campaign.Ledger.Rows.{Writes, Settled}

-- After a settlement the result is SETTLED, and matches what it was settled with.
pub record IsSettled (digest : String) (u : SettlementUsage) (r : ResultRecord) : Type 0 where
  pub state : r.reservation_state ≡ ReservationState.settled
  pub match : settlement_matches r digest u ≡ true

self_match :
    (r : ResultRecord) (digest : String) (u : SettlementUsage)
    → r.source_snapshot_digest ≡ some digest
    → r.observed_calls ≡ u.observed_calls
    → r.prompt_tokens ≡ u.prompt_tokens
    → r.completion_tokens ≡ u.completion_tokens
    → r.observed_cost ≡ u.observed_cost
    → r.charged_calls ≡ u.charged_calls
    → r.charged_cost ≡ u.charged_cost
    → settlement_matches r digest u ≡ true
unfolding settlement_matches
self_match r digest u d calls prompt completion cost charged charge =
    rw (d, eq_refl digest) (ground arith)

settle_active-IsSettled :
    (now : DateTime) (digest : String) (u : SettlementUsage) (c : CampaignRecord) (r : ResultRecord)
    {c' : CampaignRecord} {r' : ResultRecord} {receipt : BudgetSettlementReceipt}
    → settle_active now digest u c r ≡ ok (c', r', receipt)
    → IsSettled digest u r'
settle_active-IsSettled now digest u c r h =
    let s = settle_active-Settles now digest u c r h in
    let done = settle_result now digest s.request u r in
    subst (IsSettled digest u) (sym s.result)
      (record { state = refl; match = self_match done digest u refl refl refl refl refl refl refl })

settle-IsSettled :
    (now : DateTime) (digest : String) (u : SettlementUsage) (c : CampaignRecord) (r : ResultRecord)
    (state : ReservationState) {c' : CampaignRecord} {r' : ResultRecord}
    {receipt : BudgetSettlementReceipt}
    → r.reservation_state ≡ state
    → settle_locked now digest u c r state ≡ ok (c', r', receipt)
    → IsSettled digest u r'
unfolding settle_locked
settle-IsSettled now digest u c r ReservationState.active e h =
    settle_active-IsSettled now digest u c r h
settle-IsSettled now digest u c r ReservationState.settled e h =
    let same = settled_again-same now digest u c r h in
    record {
      state = ap (λ (x : ResultRecord). x.reservation_state) (sym same.1) ∙ e;
      match = subst (λ x. settlement_matches x digest u ≡ true) same.1 same.3;
    }
settle-IsSettled now digest u c r ReservationState.none e h = cc
settle-IsSettled now digest u c r ReservationState.released e h = cc

settle-id :
    (now : DateTime) (digest : String) (u : SettlementUsage) (c : CampaignRecord) (r : ResultRecord)
    (state : ReservationState) {c' : CampaignRecord} {r' : ResultRecord}
    {receipt : BudgetSettlementReceipt}
    → settle_locked now digest u c r state ≡ ok (c', r', receipt)
    → r'.id ≡ r.id
unfolding settle_locked
settle-id now digest u c r ReservationState.active h =
    let s = settle_active-Settles now digest u c r h in ap (λ (x : ResultRecord). x.id) s.result
settle-id now digest u c r ReservationState.settled h =
    let same = settled_again-same now digest u c r h in ap (λ (x : ResultRecord). x.id) (sym same.1)
settle-id now digest u c r ReservationState.none h = cc
settle-id now digest u c r ReservationState.released h = cc

-- What a settlement leaves of the keys of the campaign, and what its receipt says of the result.
pub record Reports (c c' : CampaignRecord) (r' : ResultRecord) (receipt : BudgetSettlementReceipt)
    : Type 0 where
  pub tenant : c'.tenant_id ≡ c.tenant_id
  pub campaign : c'.id ≡ c.id
  pub result : receipt.result_id ≡ r'.id
  pub violation : receipt.budget_violation ≡ r'.budget_violation

breach-keys :
    (b : StopIntent × Option String) (c : CampaignRecord)
    → ((stop_on_breach b c).tenant_id ≡ c.tenant_id) × ((stop_on_breach b c).id ≡ c.id)
breach-keys b c = ground arith

settle_campaign-keys :
    (now : DateTime) (q : ReservationRequest) (u : SettlementUsage) (c : CampaignRecord)
    → ((settle_campaign now q u c).tenant_id ≡ c.tenant_id)
      × ((settle_campaign now q u c).id ≡ c.id)
unfolding settle_campaign
settle_campaign-keys now q u c =
    breach-keys (budget_breach (observe u (uncharge q c)) q u) (observe u (uncharge q c))

pub settle-Reports :
    (now : DateTime) (digest : String) (u : SettlementUsage) (c : CampaignRecord) (r : ResultRecord)
    (state : ReservationState) {c' : CampaignRecord} {r' : ResultRecord}
    {receipt : BudgetSettlementReceipt}
    → settle_locked now digest u c r state ≡ ok (c', r', receipt)
    → Reports c c' r' receipt
unfolding settle_locked
settle-Reports now digest u c r ReservationState.active h =
    let s = settle_active-Settles now digest u c r h in
    let keys = settle_campaign-keys now s.request u c in
    record {
      tenant = rw s.campaign keys.0;
      campaign = rw s.campaign keys.1;
      result = rw (s.receipt_of, s.result) refl;
      violation = rw (s.receipt_of, s.result) refl;
    }
settle-Reports now digest u c r ReservationState.settled h =
    let same = settled_again-same now digest u c r h in
    record {
      tenant = rw (sym same.0) refl;
      campaign = rw (sym same.0) refl;
      result = rw (same.2, sym same.1) refl;
      violation = rw (same.2, sym same.1) refl;
    }
settle-Reports now digest u c r ReservationState.none h = cc
settle-Reports now digest u c r ReservationState.released h = cc

-- The row of the result after a settlement.
pub Settled-find :
    (now : DateTime) (digest : String) (u : SettlementUsage) {id : ℕ} {t t' : Tables}
    {receipt : BudgetSettlementReceipt} (w : Writes id t t' (Settled now digest u receipt))
    → find_result id t'.results ≡ some w.result
Settled-find now digest u {id = id} {t = t} w =
    let row = w.row in
    let kept = settle-id now (strip digest) u t.campaign row row.reservation_state w.work in
    let named = ap (λ n. n == id) kept ∙ find-id id row t.results w.here in
    subst (λ (s : Tables). find_result id s.results ≡ some w.result) (sym w.written)
      (put-find id row w.result t.results w.here named)

pub Settled-IsSettled :
    (now : DateTime) (digest : String) (u : SettlementUsage) {id : ℕ} {t t' : Tables}
    {receipt : BudgetSettlementReceipt} (w : Writes id t t' (Settled now digest u receipt))
    → IsSettled (strip digest) u w.result
Settled-IsSettled now digest u {t = t} w =
    let row = w.row in
    settle-IsSettled now (strip digest) u t.campaign row row.reservation_state refl w.work

-- A settlement that passes its guards and its lock is what it does with the two rows.
pub settle_unlocked :
    (tenant : ℕ) (now : DateTime) (tenant_id campaign_id id : ℕ) (digest : String)
    (u : SettlementUsage) (t : Tables) (r : ResultRecord) {c' : CampaignRecord} {r' : ResultRecord}
    {receipt : BudgetSettlementReceipt}
    → not (tenant == tenant_id) ≡ false
    → check_digest (strip digest) ≡ ok tt
    → not (t.campaign.tenant_id == tenant_id && t.campaign.id == campaign_id) ≡ false
    → find_result id t.results ≡ some r
    → settle_locked now (strip digest) u t.campaign r r.reservation_state ≡ ok (c', r', receipt)
    → settle_run_budget tenant now tenant_id campaign_id id digest u t
      ≡ ok (record { campaign = c'; results = put_result id r' t.results }, receipt)
unfolding settle_run_budget locked_budget_records
settle_unlocked tenant now tenant_id campaign_id id digest u t r scope valid known here locked =
    rw (scope, valid, known, here, locked) refl

-- The guards that a settlement which returns has passed.
pub settle_guards :
    (tenant : ℕ) (now : DateTime) (tenant_id campaign_id id : ℕ) (digest : String)
    (u : SettlementUsage) (t : Tables) {out : Tables × BudgetSettlementReceipt}
    → settle_run_budget tenant now tenant_id campaign_id id digest u t ≡ ok out
    → (not (tenant == tenant_id) ≡ false)
      × (check_digest (strip digest) ≡ ok tt)
      × (not (t.campaign.tenant_id == tenant_id && t.campaign.id == campaign_id) ≡ false)
unfolding settle_run_budget locked_budget_records
settle_guards tenant now tenant_id campaign_id id digest u t h =
    let scoped = check-rest (not (tenant == tenant_id)) _ _ h in
    let valid = bind-ok (check_digest (strip digest)) _ scoped.1 in
    let row = bind-ok (locked_budget_records tenant_id campaign_id id t) _ valid.2 in
    let known =
      check-rest (not (t.campaign.tenant_id == tenant_id && t.campaign.id == campaign_id)) _ _
        row.1 in
    (scoped.0, valid.1, known.0)
