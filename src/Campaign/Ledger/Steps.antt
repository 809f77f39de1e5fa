-- ===== src/Campaign/Ledger/Steps.antt =====
-- What happens to the two tables: the operations that write reservations, which are those on budgets
-- and the failure of a run, and the rest of the system, which writes the other columns of the rows
-- and adds rows that have no reservation. The failure of a run that has been submitted
-- (`mark_collector_failure`) writes other columns, and settles the budget.
use sana_v.Base.{ℕ, ◌+◌, String, some, List, [], ◌∷◌, ◌≡◌}
use sana_v.Shared.Errors.{Result, ok, err}
use sana_v.Shared.Time.{DateTime}
use sana_v.Campaign.Status.{ReservationState}
use sana_v.Campaign.Budget.{
  SettlementUsage, BudgetReservationReceipt, BudgetSettlementReceipt, BudgetReleaseReceipt,
}
use sana_v.Campaign.Lease.{RunLease}
use sana_v.Campaign.Ledger.{CampaignRecord, ResultRecord, Tables, find_result, put_result}
use sana_v.Campaign.Ledger.Reserve.{reserve_run_budget}
use sana_v.Campaign.Ledger.Settle.{settle_run_budget}
use sana_v.Campaign.Ledger.Release.{release_run_budget}
use sana_v.Campaign.Ledger.Failure.{FailureHash, RunnerFailure, RunnerFailureReceipt, mark_failure}

-- What a result holds of the budget of its campaign.
abbrev pub held : ReservationState → ℕ → ℕ
held ReservationState.active n = n
held _ n = 0

abbrev pub held_calls : ResultRecord → ℕ
held_calls r = held r.reservation_state r.reserved_calls

abbrev pub held_cost : ResultRecord → ℕ
held_cost r = held r.reservation_state r.reserved_cost

abbrev pub total : (ResultRecord → ℕ) → List ResultRecord → ℕ
total f [] = 0
total f (r ∷ rest) = f r + total f rest

-- The ledger of the campaign is what its results hold.
pub record Balanced (t : Tables) : Type 0 where
  pub calls : t.campaign.reserved_calls ≡ total held_calls t.results
  pub cost : t.campaign.reserved_cost ≡ total held_cost t.results

pub data Step (tenant : ℕ) : Tables → Tables → Type 0 where
  reserved :
      (now : DateTime) (lease lease' : RunLease) (t t' : Tables)
      (receipt : BudgetReservationReceipt)
      → reserve_run_budget tenant now lease t ≡ ok (t', lease', receipt)
      → Step tenant t t'
  settled :
      (now : DateTime) (tenant_id campaign_id result_id : ℕ) (digest : String) (u : SettlementUsage)
      (t t' : Tables) (receipt : BudgetSettlementReceipt)
      → settle_run_budget tenant now tenant_id campaign_id result_id digest u t ≡ ok (t', receipt)
      → Step tenant t t'
  released :
      (now : DateTime) (lease lease' : RunLease) (t t' : Tables) (receipt : BudgetReleaseReceipt)
      → release_run_budget tenant now lease t ≡ ok (t', lease', receipt)
      → Step tenant t t'
  failed :
      (hash : FailureHash) (now : DateTime) (lease : RunLease) (failure : RunnerFailure)
      (t t' : Tables) (receipt : RunnerFailureReceipt)
      → mark_failure tenant hash now lease failure t ≡ ok (t', receipt)
      → Step tenant t t'
  campaign_written :
      (t : Tables) (c : CampaignRecord)
      → c.reserved_calls ≡ t.campaign.reserved_calls
      → c.reserved_cost ≡ t.campaign.reserved_cost
      → Step tenant t (record t { campaign = c })
  result_written :
      (t : Tables) (id : ℕ) (r r' : ResultRecord)
      → find_result id t.results ≡ some r
      → r'.reservation_state ≡ r.reservation_state
      → r'.reserved_calls ≡ r.reserved_calls
      → r'.reserved_cost ≡ r.reserved_cost
      → Step tenant t (record t { results = put_result id r' t.results })
  result_added :
      (t : Tables) (r : ResultRecord)
      → r.reservation_state ≡ ReservationState.none
      → Step tenant t (record t { results = r ∷ t.results })

pub data Steps (tenant : ℕ) : Tables → Tables → Type 0 where
  done : (t : Tables) → Steps tenant t t
  more : (s t u : Tables) → Steps tenant s t → Step tenant t u → Steps tenant s u

-- The operations on budgets and the failure of a run as calls, each of which is a transaction: what it raises leaves the
-- tables as they were.
pub data BudgetCall : Type 0 where
  reserve : DateTime → RunLease → BudgetCall
  settle : DateTime → ℕ → ℕ → ℕ → String → SettlementUsage → BudgetCall
  release : DateTime → RunLease → BudgetCall
  fail : FailureHash → DateTime → RunLease → RunnerFailure → BudgetCall

abbrev pub committed : {A : Type 0} → (A → Tables) → Tables → Result A → Tables
committed tables t (ok a) = tables a
committed tables t (err _) = t

unfoldable pub perform : ℕ → BudgetCall → Tables → Tables
perform tenant (BudgetCall.reserve now lease) t =
    committed (λ o. o.0) t (reserve_run_budget tenant now lease t)
perform tenant (BudgetCall.settle now tenant_id campaign_id result_id digest u) t =
    committed (λ o. o.0) t (settle_run_budget tenant now tenant_id campaign_id result_id digest u t)
perform tenant (BudgetCall.release now lease) t =
    committed (λ o. o.0) t (release_run_budget tenant now lease t)
perform tenant (BudgetCall.fail hash now lease failure) t =
    committed (λ o. o.0) t (mark_failure tenant hash now lease failure t)

unfoldable pub perform_all : ℕ → List BudgetCall → Tables → Tables
unfolding perform
perform_all tenant [] t = t
perform_all tenant (k ∷ ks) t = perform_all tenant ks (perform tenant k t)
