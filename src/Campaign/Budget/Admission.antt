-- ===== src/Campaign/Budget/Admission.antt =====
-- What the budget of a campaign admits.
use sana_v.Base.{◌+◌, ◌≤◌, ◌≡◌, ◌↔◌, arith, true}
use sana_v.Campaign.Budget.{CampaignBudgetSnapshot, ReservationRequest, admit}

-- The budget admits a request exactly if what has been used, charged and reserved, together with
-- the request, is within both ceilings of calls and the threshold of the cost.
pub admit_iff :
    (b : CampaignBudgetSnapshot) (q : ReservationRequest)
    → ((admit b q).allowed ≡ true) ↔ (
        (b.observed_calls + b.charged_calls + b.reserved_calls + q.provider_calls
          ≤ b.structural_ceiling)
        × (b.observed_calls + b.charged_calls + b.reserved_calls + q.provider_calls
            ≤ b.admission_ceiling)
        × (b.observed_cost + b.charged_cost + b.reserved_cost + q.estimated_cost
            ≤ b.cost_threshold))
unfolding admit
admit_iff b q = ground arith
