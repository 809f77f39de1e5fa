-- ===== src/Campaign/Ledger/Limits.antt =====
-- A campaign that is RUNNING stays within its ceilings.
use sana_v.Base.{
  Bool, ℕ, ◌+◌, ◌≤◌, ◌≡◌, refl, sym, ap, ◌∙◌, subst, String, arith, Bool-cases, true, false, List,
  [], ◌∷◌, inl, inr, strip,
}
use sana_v.Shared.Errors.{ok-injective, Result, ok, err}
use sana_v.Shared.Time.{DateTime}
use sana_v.Campaign.Status.{ReservationState}
use sana_v.Campaign.Budget.{
  admit, ReservationRequest, SettlementUsage, BudgetReservationReceipt, BudgetSettlementReceipt,
  BudgetReleaseReceipt,
}
use sana_v.Campaign.Lease.{RunLease}
use sana_v.Campaign.Ledger.{CampaignRecord, ResultRecord, Tables, Outcome, budget_of}
use sana_v.Campaign.Ledger.Reserve.{
  granted_or, has_only_to_wait, is_running, reserve_run_budget, reserve_locked, decide,
}
use sana_v.Campaign.Ledger.Settle.{
  settle_run_budget, settle_locked, settle_campaign, budget_breach, stop_on_breach, observe,
  uncharge,
}
use sana_v.Campaign.Ledger.Release.{release_run_budget, release_locked}
use sana_v.Campaign.Ledger.Steps.{BudgetCall, committed, perform, perform_all}
use sana_v.Campaign.Ledger.Rows.{
  Writes, reserve-Writes, settle-Writes, release-Writes, failure-Writes,
}
use sana_v.Campaign.Ledger.Failing.{Ends, fail-Ends}
use sana_v.Campaign.Ledger.Failure.{mark_failure}
use sana_v.Campaign.Budget.Admission.{admit_iff}
use mathlib.Core.Bool.{false≢true}
use sana_v.Campaign.Ledger.Decide.{reserve_idle, reserve_decides, granted-rows, stopped-rows}
use sana_v.Campaign.Ledger.Moves.{settled_again-same, settle_active-Settles}

-- What a campaign has used, has been charged and has reserved fits its ceilings.
pub record Fits (c : CampaignRecord) : Type 0 where
  pub calls : c.observed_calls + c.charged_calls + c.reserved_calls ≤ c.admission_ceiling
  pub cost : c.observed_cost + c.charged_cost + c.reserved_cost ≤ c.cost_threshold

abbrev pub IsWithin : CampaignRecord → Type 0
IsWithin c = is_running c.status ≡ true → Fits c

decide-Fits :
    (now : DateTime) (lease : RunLease) (c : CampaignRecord) (r : ResultRecord)
    (q : ReservationRequest) {o : Outcome BudgetReservationReceipt}
    → decide now lease c r q (budget_of c) ≡ ok o
    → Fits c
    → IsWithin o.campaign
unfolding decide
decide-Fits now lease c r q h w =
    go (admit (budget_of c) q).allowed (has_only_to_wait c q (budget_of c)) refl h
  where
    go :
        (now_fits later_fits : Bool) {o : Outcome BudgetReservationReceipt}
        → (admit (budget_of c) q).allowed ≡ now_fits
        → granted_or now_fits later_fits now lease c r q (admit (budget_of c) q) ≡ ok o
        → IsWithin o.campaign
    go true _ fits h running =
        let (campaign, result) = granted-rows now lease c r q h in
        let (structural, calls, cost) = (admit_iff (budget_of c) q).0 fits in
        subst Fits (sym campaign) (record { calls = omega arith; cost = omega arith })
    go false true fits h running =
        subst (λ (o : Outcome BudgetReservationReceipt). Fits o.campaign) (ok-injective h) w
    go false false fits h running =
        let (campaign, result) = stopped-rows now lease c r (admit (budget_of c) q) h in
        let stopped_runs =
          sym (ap (λ (d : CampaignRecord). is_running d.status) campaign) ∙ running in
        elim (false≢true stopped_runs) [ ]

reserve-Fits :
    (now : DateTime) (lease : RunLease) (c : CampaignRecord) (r : ResultRecord)
    {o : Outcome BudgetReservationReceipt}
    → reserve_locked now lease c r ≡ ok o
    → IsWithin c
    → IsWithin o.campaign
reserve-Fits now lease c r h w running = elim (Bool-cases (is_running c.status)) [
  | inl before ↦
      let rest = reserve_decides now lease c r h before in
      decide-Fits now lease c r rest.0 rest.2 (w before) running
  | inr idle ↦
      let same = (reserve_idle now lease c r h idle).0 in
      subst Fits (sym same)
        (w (sym (ap (λ (d : CampaignRecord). is_running d.status) same) ∙ running))
]

release-Fits :
    (now : DateTime) (lease : RunLease) (c : CampaignRecord) (r : ResultRecord)
    {o : Outcome BudgetReleaseReceipt}
    → release_locked now lease c r ≡ ok o
    → Fits c
    → Fits o.campaign
unfolding release_locked
release-Fits now lease c r h w =
    let calls = w.calls in let cost = w.cost in record { calls = ground arith; cost = ground arith }

release-status :
    (now : DateTime) (lease : RunLease) (c : CampaignRecord) (r : ResultRecord)
    {o : Outcome BudgetReleaseReceipt}
    → release_locked now lease c r ≡ ok o
    → o.campaign.status ≡ c.status
unfolding release_locked
release-status now lease c r h = ground arith

-- A breach that is looked for stops a RUNNING campaign that does not fit.
breach-Fits :
    (c : CampaignRecord) (q : ReservationRequest) (u : SettlementUsage)
    → IsWithin (stop_on_breach (budget_breach c q u) c)
unfolding budget_breach
breach-Fits c q u running = ground arith

touched-Fits :
    (now : DateTime) (q : ReservationRequest) (u : SettlementUsage) (c : CampaignRecord)
    → IsWithin (settle_campaign now q u c)
unfolding settle_campaign
touched-Fits now q u c running =
    let counted = observe u (uncharge q c) in
    let f = breach-Fits counted q u running in record { calls = f.calls; cost = f.cost }

settle-Fits :
    (now : DateTime) (digest : String) (u : SettlementUsage) (c : CampaignRecord) (r : ResultRecord)
    (state : ReservationState) {c' : CampaignRecord} {r' : ResultRecord}
    {receipt : BudgetSettlementReceipt}
    → settle_locked now digest u c r state ≡ ok (c', r', receipt)
    → IsWithin c
    → IsWithin c'
unfolding settle_locked
settle-Fits now digest u c r ReservationState.active h w =
    let s = settle_active-Settles now digest u c r h in
    subst IsWithin (sym s.campaign) (touched-Fits now s.request u c)
settle-Fits now digest u c r ReservationState.settled h w =
    subst IsWithin (settled_again-same now digest u c r h).0 w
settle-Fits now digest u c r ReservationState.none h w = cc
settle-Fits now digest u c r ReservationState.released h w = cc

release-Within :
    (now : DateTime) (lease : RunLease) (c : CampaignRecord) (r : ResultRecord)
    {o : Outcome BudgetReleaseReceipt}
    → release_locked now lease c r ≡ ok o
    → IsWithin c
    → IsWithin o.campaign
release-Within now lease c r h w running =
    release-Fits now lease c r h
      (w (sym (ap is_running (release-status now lease c r h)) ∙ running))

Ends-Within :
    {c c' : CampaignRecord} {r r' : ResultRecord} → Ends c c' r r' → IsWithin c → IsWithin c'
Ends-Within e w running =
    let f = w (sym (ap is_running e.same_status) ∙ running) in
    let before_calls = f.calls in
    let before_cost = f.cost in
    let calls = e.calls in
    let cost = e.cost in
    let same_calls = e.same_calls in
    let same_cost = e.same_cost in
    let ceiling = e.same_ceiling in
    let threshold = e.same_threshold in record { calls = omega arith; cost = omega arith }

committed-Within :
    {A : Type 0} (tables : A → Tables) (t : Tables) (m : Result A)
    → IsWithin t.campaign
    → ((a : A) → m ≡ ok a → IsWithin (tables a).campaign)
    → IsWithin (committed tables t m).campaign
committed-Within tables t (ok a) w f = f a refl
committed-Within tables t (err e) w f = w

written-Within :
    {id : ℕ} {t t' : Tables}
    {Work : CampaignRecord → ResultRecord → CampaignRecord → ResultRecord → Type 0}
    (w : Writes id t t' Work)
    → IsWithin w.campaign
    → IsWithin t'.campaign
written-Within w h = subst (λ (t : Tables). IsWithin t.campaign) (sym w.written) h

perform-Within :
    (tenant : ℕ) (k : BudgetCall) (t : Tables)
    → IsWithin t.campaign
    → IsWithin (perform tenant k t).campaign
unfolding perform
perform-Within tenant (BudgetCall.reserve now lease) t w =
    committed-Within _ t (reserve_run_budget tenant now lease t) w (λ out h.
      let writes = reserve-Writes tenant now lease t h in
      let (o, locked, campaign, result) = writes.work in
      written-Within writes
        (subst IsWithin campaign (reserve-Fits now lease t.campaign writes.row locked w)))
perform-Within tenant (BudgetCall.settle now tenant_id campaign_id id digest u) t w =
    committed-Within _ t (settle_run_budget tenant now tenant_id campaign_id id digest u t) w
      (λ out h.
        let writes = settle-Writes tenant now tenant_id campaign_id id digest u t h in
        let row = writes.row in
        written-Within writes
          (settle-Fits now (strip digest) u t.campaign row row.reservation_state writes.work w))
perform-Within tenant (BudgetCall.release now lease) t w =
    committed-Within _ t (release_run_budget tenant now lease t) w (λ out h.
      let writes = release-Writes tenant now lease t h in
      let (o, locked, campaign, result) = writes.work in
      written-Within writes
        (subst IsWithin campaign (release-Within now lease t.campaign writes.row locked w)))
perform-Within tenant (BudgetCall.fail hash now lease failure) t w =
    committed-Within _ t (mark_failure tenant hash now lease failure t) w (λ out h.
      let writes = failure-Writes tenant hash now lease failure t h in
      written-Within writes
        (Ends-Within (fail-Ends hash now lease failure t.campaign writes.row _ writes.work) w))

-- A campaign that is RUNNING stays within its ceilings: after any calls of the operations on
-- budgets and of `mark_failure`, raising or not, either it has left RUNNING, or the calls and the
-- cost that it has used, been charged and reserved fit the admission ceiling and the cost threshold.
pub calls-IsWithin :
    (tenant : ℕ) (ks : List BudgetCall) (t : Tables)
    → IsWithin t.campaign
    → IsWithin (perform_all tenant ks t).campaign
unfolding perform_all
calls-IsWithin tenant [] t w = w
calls-IsWithin tenant (k ∷ ks) t w =
    calls-IsWithin tenant ks (perform tenant k t) (perform-Within tenant k t w)
