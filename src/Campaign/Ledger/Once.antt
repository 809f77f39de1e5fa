-- ===== src/Campaign/Ledger/Once.antt =====
-- A result is settled once, and only once, and that never fails for want of a reservation.
use sana_v.Base.{
  pos, ℕ, ◌<◌, ◌≡◌, refl, sym, ap, ◌∙◌, subst, String, arith, true, false, not, ◌&&◌, ◌==◌, some,
  strip, Option,
}
use sana_v.Shared.Errors.{ok}
use sana_v.Shared.Time.{DateTime}
use sana_v.Campaign.Status.{StopIntent, ReservationState}
use sana_v.Campaign.Budget.{
  ReservationRequest, new_request, exceeds, SettlementUsage, BudgetSettlementReceipt,
}
use sana_v.Campaign.Ledger.{CampaignRecord, ResultRecord, Tables, find_result, put_result}
use sana_v.Campaign.Ledger.Settle.{
  settle_run_budget, settle_locked, settle_active, settle_again, check_digest, is_not_over,
  is_changed, is_short, is_overcounted, observe, uncharge, budget_breach, stop_on_breach,
  settle_request, settle_campaign, settle_result,
}
use mathlib.Core.Option.{some-injective}
use sana_v.Campaign.Ledger.Find.{put-put, total-find}
use sana_v.Campaign.Ledger.Moves.{settled_again-same}
use sana_v.Campaign.Ledger.Rows.{settle-Writes}
use sana_v.Campaign.Ledger.Settled.{
  IsSettled, settle-Reports, Settled-find, Settled-IsSettled, settle_unlocked, settle_guards,
}
use sana_v.Campaign.Money.{precision_limit, Decimal, nonnegative_decimal, quantize}
use sana_v.Campaign.Ledger.Steps.{held_calls, held_cost, Balanced}

rewritten :
    (t : Tables) (c : CampaignRecord) (r' : ResultRecord) (id : ℕ) (r : ResultRecord)
    → c ≡ t.campaign
    → r' ≡ r
    → find_result id t.results ≡ some r
    → let t' : Tables = record { campaign = c; results = put_result id r' t.results } in t' ≡ t
rewritten t c r' id r same row here = rw (same, row, put-put id r t.results here) refl

-- Once a result is settled, no settlement of it changes anything: one that returns is a duplicate,
-- whatever its source and usage are, and leaves the tables as they are.
pub settled_once :
    (tenant : ℕ) (now later : DateTime) (tenant_id campaign_id id : ℕ) (digest digest' : String)
    (u u' : SettlementUsage) (t : Tables) {out out' : Tables × BudgetSettlementReceipt}
    → settle_run_budget tenant now tenant_id campaign_id id digest u t ≡ ok out
    → settle_run_budget tenant later tenant_id campaign_id id digest' u' out.0 ≡ ok out'
    → (out'.0 ≡ out.0) × (out'.1.duplicate ≡ true)
settled_once tenant now later tenant_id campaign_id id digest digest' u u' t {out = out}
      {out' = out'} h again =
    let first = settle-Writes tenant now tenant_id campaign_id id digest u t h in
    let r = first.result in
    let here = Settled-find now digest u first in
    let settled = Settled-IsSettled now digest u first in
    let writes = settle-Writes tenant later tenant_id campaign_id id digest' u' out.0 again in
    let row = writes.row in
    let state =
      ap (λ (x : ResultRecord). x.reservation_state) (some-injective row r (sym writes.here ∙ here))
      ∙ settled.state in
    let locked = settle_locked later (strip digest') u' out.0.campaign row in
    let same =
      settled_again-same later (strip digest') u' out.0.campaign row
        (subst (λ s. locked s ≡ ok (writes.campaign, writes.result, out'.1)) state writes.work) in
    (
      writes.written
          ∙ rewritten out.0 writes.campaign writes.result id row (sym same.0) (sym same.1)
              writes.here,
      ap (λ (x : BudgetSettlementReceipt). x.duplicate) same.2,
    )

repeat_locked :
    (now : DateTime) (digest : String) (u : SettlementUsage) (c : CampaignRecord) (r : ResultRecord)
    → IsSettled digest u r
    → settle_locked now digest u c r r.reservation_state
      ≡ ok (
        c,
        r,
        record { result_id = r.id; duplicate = true; budget_violation = r.budget_violation },
      )
unfolding settle_locked
repeat_locked now digest u c r s =
    ap (λ state. settle_locked now digest u c r state) s.state
    ∙ ap (λ b. settle_again digest u c r b) s.match

repeated :
    (t : Tables) (r : ResultRecord) (id : ℕ) (receipt : BudgetSettlementReceipt)
    → put_result id r t.results ≡ t.results
    → receipt.result_id ≡ r.id
    → receipt.budget_violation ≡ r.budget_violation
    → let first : Tables × BudgetSettlementReceipt = (
      record t { results = put_result id r t.results },
      record { result_id = r.id; duplicate = true; budget_violation = r.budget_violation },
    ) in
      let second : Tables × BudgetSettlementReceipt = (t, record receipt { duplicate = true }) in
      ok first ≡ ok second
repeated t r id receipt same named violation = rw (same, named, violation) refl

-- A settlement can be repeated at any time: the second returns the receipt of the first, marked as
-- a duplicate, and changes nothing.
pub settle_repeats :
    (tenant : ℕ) (now later : DateTime) (tenant_id campaign_id id : ℕ) (digest : String)
    (u : SettlementUsage) (t : Tables) {out : Tables × BudgetSettlementReceipt}
    → settle_run_budget tenant now tenant_id campaign_id id digest u t ≡ ok out
    → settle_run_budget tenant later tenant_id campaign_id id digest u out.0
      ≡ ok (out.0, record out.1 { duplicate = true })
settle_repeats tenant now later tenant_id campaign_id id digest u t {out = out} h =
    let writes = settle-Writes tenant now tenant_id campaign_id id digest u t h in
    let row = writes.row in
    let reports =
      settle-Reports now (strip digest) u t.campaign row row.reservation_state writes.work in
    let guards = settle_guards tenant now tenant_id campaign_id id digest u t h in
    let r = writes.result in
    let here = Settled-find now digest u writes in
    let known : not (out.0.campaign.tenant_id == tenant_id && out.0.campaign.id == campaign_id)
        ≡ false =
      rw
        (
          ap (λ (s : Tables). s.campaign.tenant_id) writes.written,
          ap (λ (s : Tables). s.campaign.id) writes.written,
          reports.tenant,
          reports.campaign,
        )
        guards.2 in
    settle_unlocked tenant later tenant_id campaign_id id digest u out.0 r guards.0 guards.1 known
      here
      (repeat_locked later (strip digest) u out.0.campaign r
        (Settled-IsSettled now digest u writes))
    ∙ repeated out.0 r id out.1 (put-put id r out.0.results here) reports.result reports.violation

-- The request of a result that holds some calls, and a cost within the precision.
hold_request :
    (r : ResultRecord)
    → 0 < r.reserved_calls
    → r.reserved_cost < precision_limit
    → new_request r.reserved_calls (Decimal.number (pos r.reserved_cost) 10)
      ≡ ok (record { provider_calls = r.reserved_calls; estimated_cost = r.reserved_cost })
unfolding new_request nonnegative_decimal quantize
hold_request r calls cost = ground arith

not_short :
    (t : Tables) (id : ℕ) (r : ResultRecord)
    → Balanced t
    → find_result id t.results ≡ some r
    → r.reservation_state ≡ ReservationState.active
    → is_short t.campaign r.reserved_calls r.reserved_cost ≡ false
not_short t id r b here active =
    let balanced_calls = b.calls in
    let balanced_cost = b.cost in
    let calls = total-find held_calls id r t.results here in
    let cost = total-find held_cost id r t.results here in ground arith

settle_active_completes :
    (now : DateTime) (digest : String) (u : SettlementUsage) (c : CampaignRecord) (r : ResultRecord)
    (q : ReservationRequest)
    → is_not_over r ≡ false
    → is_changed r digest ≡ false
    → new_request r.reserved_calls (Decimal.number (pos r.reserved_cost) 10) ≡ ok q
    → is_short c q.provider_calls q.estimated_cost ≡ false
    → is_overcounted (settle_campaign now q u c) ≡ false
    → settle_active now digest u c r
      ≡ ok (
        settle_campaign now q u c,
        settle_result now digest q u r,
        record { result_id = r.id; duplicate = false; budget_violation = exceeds u q },
      )
unfolding settle_active settle_request
settle_active_completes now digest u c r q over changed request enough counted =
    rw (over, changed, request, enough, counted) refl

breach-counts :
    (b : StopIntent × Option String) (c : CampaignRecord)
    → ((stop_on_breach b c).max_runs ≡ c.max_runs)
      × ((stop_on_breach b c).possibly_billed_count ≡ c.possibly_billed_count)
breach-counts b c = ground arith

not_overcounted :
    (now : DateTime) (q : ReservationRequest) (u : SettlementUsage) (c : CampaignRecord)
    → c.possibly_billed_count < c.max_runs
    → is_overcounted (settle_campaign now q u c) ≡ false
unfolding settle_campaign
not_overcounted now q u c free =
    let counted = observe u (uncharge q c) in
    let (runs, count) = breach-counts (budget_breach counted q u) counted in ground arith

settle_locked_active :
    (now : DateTime) (digest : String) (u : SettlementUsage) (c : CampaignRecord) (r : ResultRecord)
    → r.reservation_state ≡ ReservationState.active
    → settle_locked now digest u c r r.reservation_state ≡ settle_active now digest u c r
unfolding settle_locked
settle_locked_active now digest u c r active =
    ap (λ state. settle_locked now digest u c r state) active

own_tenant : (a b : ℕ) → a ≡ b → not (a == b) ≡ false
own_tenant a b h = ground arith

own_keys : (c : CampaignRecord) → not (c.tenant_id == c.tenant_id && c.id == c.id) ≡ false
own_keys c = ground arith

-- A settlement completes: in tables whose ledger is balanced, in the repository of the tenant of the
-- campaign, a result with an ACTIVE reservation is settled if its run is over; the digest, once
-- stripped, is a lowercase SHA-256, and the one that has been noted, if any; the reservation has some
-- calls and a cost within the precision; and fewer results than `max_runs` have been possibly billed.
-- The settlement returns and is no duplicate.
pub settle_completes :
    (tenant : ℕ) (now : DateTime) (id : ℕ) (digest : String) (u : SettlementUsage) (t : Tables)
    (r : ResultRecord)
    → Balanced t
    → tenant ≡ t.campaign.tenant_id
    → check_digest (strip digest) ≡ ok tt
    → find_result id t.results ≡ some r
    → r.reservation_state ≡ ReservationState.active
    → is_not_over r ≡ false
    → is_changed r (strip digest) ≡ false
    → 0 < r.reserved_calls
    → r.reserved_cost < precision_limit
    → t.campaign.possibly_billed_count < t.campaign.max_runs
    → (out : Tables × BudgetSettlementReceipt) × (settle_run_budget tenant now t.campaign.tenant_id
          t.campaign.id id digest u t
        ≡ ok out)
      × (out.1.duplicate ≡ false)
settle_completes tenant now id digest u t r b scope valid here active over changed calls cost free =
    let q : ReservationRequest = record {
      provider_calls = r.reserved_calls;
      estimated_cost = r.reserved_cost;
    } in
    let done =
      settle_active_completes now (strip digest) u t.campaign r q over changed
        (hold_request r calls cost) (not_short t id r b here active)
        (not_overcounted now q u t.campaign free) in
    (
      _,
      settle_unlocked tenant now t.campaign.tenant_id t.campaign.id id digest u t r
          (own_tenant tenant t.campaign.tenant_id scope) valid (own_keys t.campaign) here
          (settle_locked_active now (strip digest) u t.campaign r active ∙ done),
      refl,
    )
