-- ===== src/Campaign/Ledger/Decide.antt =====
-- What a reservation comes to: nothing where the campaign is not RUNNING, and the decision on its
-- budget otherwise.
use sana_v.Base.{str_append, ◌+◌, ◌≡◌, refl, sym, ap, ◌∙◌, subst, arith, true, false, not}
use sana_v.Shared.Errors.{ok-injective, ok, bind-ok, check-rest}
use sana_v.Shared.Time.{DateTime}
use sana_v.Campaign.Status.{ReservationState}
use sana_v.Campaign.Budget.{
  BudgetAdmission, CampaignBudgetSnapshot, ReservationRequest, BudgetReservationReceipt,
  new_budget_snapshot,
}
use sana_v.Campaign.Lease.{RunLease}
use sana_v.Campaign.Ledger.{
  fenced, CampaignRecord, ResultRecord, Outcome, budget_of, is_active_lease, reservation_request,
}
use sana_v.Campaign.Ledger.Reserve.{
  is_running, reserve_locked, decide, granted, stopped, charge_campaign, charge_result,
  stop_campaign, shown, reserve_if, reserve_running, check_reservable,
}

-- The rest of a reservation, where the campaign is RUNNING or not.
pub reserve_idle :
    (now : DateTime) (lease : RunLease) (c : CampaignRecord) (r : ResultRecord)
    {o : Outcome BudgetReservationReceipt}
    → reserve_locked now lease c r ≡ ok o
    → is_running c.status ≡ false
    → (o.campaign ≡ c) × (o.result ≡ r)
unfolding reserve_locked
reserve_idle now lease c r h idle =
    let leased = check-rest (not (is_active_lease r lease now)) _ _ h in
    let same = ok-injective (sym (ap (λ b. reserve_if b now lease c r) idle) ∙ leased.1) in
    (
      ap (λ (o : Outcome BudgetReservationReceipt). o.campaign) (sym same),
      ap (λ (o : Outcome BudgetReservationReceipt). o.result) (sym same),
    )

snapshot_same :
    (b : CampaignBudgetSnapshot) {b' : CampaignBudgetSnapshot}
    → new_budget_snapshot b ≡ ok b'
    → b' ≡ b
unfolding new_budget_snapshot
snapshot_same b h = ground arith

free_none : (s : ReservationState) → check_reservable s ≡ ok tt → s ≡ ReservationState.none
free_none ReservationState.none h = refl
free_none ReservationState.active h = cc
free_none ReservationState.settled h = cc
free_none ReservationState.released h = cc

pub reserve_decides :
    (now : DateTime) (lease : RunLease) (c : CampaignRecord) (r : ResultRecord)
    {o : Outcome BudgetReservationReceipt}
    → reserve_locked now lease c r ≡ ok o
    → is_running c.status ≡ true
    → (q : ReservationRequest) × (r.reservation_state ≡ ReservationState.none)
      × (decide now lease c r q (budget_of c) ≡ ok o)
unfolding reserve_locked reserve_running
reserve_decides now lease c r {o = o} h running =
    let leased = check-rest (not (is_active_lease r lease now)) _ _ h in
    let rest = sym (ap (λ b. reserve_if b now lease c r) running) ∙ leased.1 in
    let free = bind-ok (check_reservable r.reservation_state) _ rest in
    let request = bind-ok (reservation_request c) _ free.2 in
    let budget = bind-ok (new_budget_snapshot (budget_of c)) _ request.2 in
    (
      request.0,
      free_none r.reservation_state free.1,
      subst (λ b. decide now lease c r request.0 b ≡ ok o) (snapshot_same (budget_of c) budget.1)
          budget.2,
    )

-- What a grant and a stop leave of the two rows.
pub granted-rows :
    (now : DateTime) (lease : RunLease) (c : CampaignRecord) (r : ResultRecord)
    (q : ReservationRequest) {o : Outcome BudgetReservationReceipt}
    → granted now lease c r q ≡ ok o
    → (o.campaign ≡ charge_campaign now q c) × (o.result ≡ charge_result now q r)
granted-rows now lease c r q h =
    let fence = bind-ok (fenced (r.version + 1) ReservationState.active lease) _ h in
    let same = sym (ok-injective fence.2) in
    (
      ap (λ (o : Outcome BudgetReservationReceipt). o.campaign) same,
      ap (λ (o : Outcome BudgetReservationReceipt). o.result) same,
    )

pub stopped-rows :
    (now : DateTime) (lease : RunLease) (c : CampaignRecord) (r : ResultRecord)
    (a : BudgetAdmission) {o : Outcome BudgetReservationReceipt}
    → stopped now lease c r a ≡ ok o
    → (o.campaign
        ≡ stop_campaign now a.stop_intent
            (str_append "Budget admission denied: " (shown a.reason))
            c)
      × (o.result ≡ record r { budget_violation = true; version = r.version + 1; updated_at = now })
stopped-rows now lease c r a h =
    let fence = bind-ok (fenced (r.version + 1) ReservationState.none lease) _ h in
    let same = sym (ok-injective fence.2) in
    (
      ap (λ (o : Outcome BudgetReservationReceipt). o.campaign) same,
      ap (λ (o : Outcome BudgetReservationReceipt). o.result) same,
    )
