-- ===== src/Campaign/Ledger/Rows.antt =====
-- What an operation on the tables does: it finds the row of the result, works on the two rows, and
-- writes them back.
use sana_v.Base.{ℕ, ◌≡◌, refl, ◌∙◌, sym, ap, String, not, ◌&&◌, ◌==◌, strip, Option, none, some}
use sana_v.Shared.Errors.{ok, bind-ok, ok-injective, check-rest}
use sana_v.Shared.Time.{DateTime}
use sana_v.Campaign.Budget.{
  SettlementUsage, BudgetReservationReceipt, BudgetSettlementReceipt, BudgetReleaseReceipt,
}
use sana_v.Campaign.Lease.{RunLease}
use sana_v.Campaign.Ledger.{
  CampaignRecord, ResultRecord, Tables, Outcome, find_result, put_result, found,
  locked_budget_records,
}
use sana_v.Campaign.Ledger.Reserve.{reserve_run_budget, reserve_locked}
use sana_v.Campaign.Ledger.Settle.{settle_run_budget, settle_locked, check_digest}
use sana_v.Campaign.Ledger.Release.{release_run_budget, release_locked}
use sana_v.Campaign.Ledger.Failure.{
  FailureHash, RunnerFailure, RunnerFailureReceipt, fail_locked, mark_failure,
}

-- The tables `t'` are `t` with two rows written, of which `Work` says what has been done.
pub record Writes (id : ℕ) (t t' : Tables)
    (Work : CampaignRecord → ResultRecord → CampaignRecord → ResultRecord → Type 0) : Type 0 where
  pub row : ResultRecord
  pub here : find_result id t.results ≡ some row
  pub campaign : CampaignRecord
  pub result : ResultRecord
  pub work : Work t.campaign row campaign result
  pub written : t' ≡ record { campaign = campaign; results = put_result id result t.results }

found-some : (o : Option ResultRecord) {r : ResultRecord} → found o ≡ ok r → o ≡ some r
found-some none h = cc
found-some (some r) h = ap some (ok-injective h)

locked-found :
    (tenant_id campaign_id id : ℕ) (t : Tables) {r : ResultRecord}
    → locked_budget_records tenant_id campaign_id id t ≡ ok r
    → find_result id t.results ≡ some r
unfolding locked_budget_records
locked-found tenant_id campaign_id id t h =
    found-some (find_result id t.results)
      (check-rest (not (t.campaign.tenant_id == tenant_id && t.campaign.id == campaign_id)) _ _ h).1

-- What a reservation, a settlement and a release do with the two rows.
abbrev pub Reserved :
    DateTime → RunLease → CampaignRecord → ResultRecord → CampaignRecord → ResultRecord → Type 0
Reserved now lease c r c' r' =
    (o : Outcome BudgetReservationReceipt) × (reserve_locked now lease c r ≡ ok o)
    × (o.campaign ≡ c')
    × (o.result ≡ r')

abbrev pub Settled :
    DateTime
    → String
    → SettlementUsage
    → BudgetSettlementReceipt
    → CampaignRecord
    → ResultRecord
    → CampaignRecord
    → ResultRecord
    → Type 0
Settled now digest u receipt c r c' r' =
    settle_locked now (strip digest) u c r r.reservation_state ≡ ok (c', r', receipt)

abbrev pub Released :
    DateTime → RunLease → CampaignRecord → ResultRecord → CampaignRecord → ResultRecord → Type 0
Released now lease c r c' r' =
    (o : Outcome BudgetReleaseReceipt) × (release_locked now lease c r ≡ ok o)
    × (o.campaign ≡ c')
    × (o.result ≡ r')

abbrev pub Failed :
    FailureHash
    → DateTime
    → RunLease
    → RunnerFailure
    → RunnerFailureReceipt
    → CampaignRecord
    → ResultRecord
    → CampaignRecord
    → ResultRecord
    → Type 0
Failed hash now lease failure receipt c r c' r' =
    fail_locked hash now lease failure c r ≡ ok (c', r', receipt)

pub reserve-Writes :
    (tenant : ℕ) (now : DateTime) (lease : RunLease) (t : Tables)
    {out : Tables × RunLease × BudgetReservationReceipt}
    → reserve_run_budget tenant now lease t ≡ ok out
    → Writes lease.id t out.0 (Reserved now lease)
unfolding reserve_run_budget
reserve-Writes tenant now lease t h =
    let scoped = check-rest (not (tenant == lease.tenant_id)) _ _ h in
    let row =
      bind-ok (locked_budget_records lease.tenant_id lease.campaign_id lease.id t) _ scoped.1 in
    let done = bind-ok (reserve_locked now lease t.campaign row.0) _ row.2 in
    record {
      row = row.0;
      here = locked-found lease.tenant_id lease.campaign_id lease.id t row.1;
      campaign = done.0.campaign;
      result = done.0.result;
      work = (done.0, done.1, refl, refl);
      written = sym (ap (λ o. o.0) (ok-injective done.2));
    }

pub settle-Writes :
    (tenant : ℕ) (now : DateTime) (tenant_id campaign_id id : ℕ) (digest : String)
    (u : SettlementUsage) (t : Tables) {out : Tables × BudgetSettlementReceipt}
    → settle_run_budget tenant now tenant_id campaign_id id digest u t ≡ ok out
    → Writes id t out.0 (Settled now digest u out.1)
unfolding settle_run_budget
settle-Writes tenant now tenant_id campaign_id id digest u t h =
    let scoped = check-rest (not (tenant == tenant_id)) _ _ h in
    let valid = bind-ok (check_digest (strip digest)) _ scoped.1 in
    let row = bind-ok (locked_budget_records tenant_id campaign_id id t) _ valid.2 in
    let done =
      bind-ok (settle_locked now (strip digest) u t.campaign row.0 row.0.reservation_state) _
        row.2 in
    record {
      row = row.0;
      here = locked-found tenant_id campaign_id id t row.1;
      campaign = done.0.0;
      result = done.0.1;
      work =
          done.1
          ∙ ap (λ receipt. ok (done.0.0, done.0.1, receipt)) (ap (λ o. o.1) (ok-injective done.2));
      written = sym (ap (λ o. o.0) (ok-injective done.2));
    }

pub release-Writes :
    (tenant : ℕ) (now : DateTime) (lease : RunLease) (t : Tables)
    {out : Tables × RunLease × BudgetReleaseReceipt}
    → release_run_budget tenant now lease t ≡ ok out
    → Writes lease.id t out.0 (Released now lease)
unfolding release_run_budget
release-Writes tenant now lease t h =
    let scoped = check-rest (not (tenant == lease.tenant_id)) _ _ h in
    let row =
      bind-ok (locked_budget_records lease.tenant_id lease.campaign_id lease.id t) _ scoped.1 in
    let done = bind-ok (release_locked now lease t.campaign row.0) _ row.2 in
    record {
      row = row.0;
      here = locked-found lease.tenant_id lease.campaign_id lease.id t row.1;
      campaign = done.0.campaign;
      result = done.0.result;
      work = (done.0, done.1, refl, refl);
      written = sym (ap (λ o. o.0) (ok-injective done.2));
    }

pub failure-Writes :
    (tenant : ℕ) (hash : FailureHash) (now : DateTime) (lease : RunLease) (failure : RunnerFailure)
    (t : Tables) {out : Tables × RunnerFailureReceipt}
    → mark_failure tenant hash now lease failure t ≡ ok out
    → Writes lease.id t out.0 (Failed hash now lease failure out.1)
unfolding mark_failure
failure-Writes tenant hash now lease failure t h =
    let scoped = check-rest (not (tenant == lease.tenant_id)) _ _ h in
    let row =
      bind-ok (locked_budget_records lease.tenant_id lease.campaign_id lease.id t) _ scoped.1 in
    let done = bind-ok (fail_locked hash now lease failure t.campaign row.0) _ row.2 in
    record {
      row = row.0;
      here = locked-found lease.tenant_id lease.campaign_id lease.id t row.1;
      campaign = done.0.0;
      result = done.0.1;
      work =
          done.1
          ∙ ap (λ receipt. ok (done.0.0, done.0.1, receipt)) (ap (λ o. o.1) (ok-injective done.2));
      written = sym (ap (λ o. o.0) (ok-injective done.2));
    }
