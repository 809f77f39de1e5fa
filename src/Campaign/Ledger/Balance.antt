-- ===== src/Campaign/Ledger/Balance.antt =====
-- The ledger of a campaign stays the sum of what its results hold.
use sana_v.Base.{ℕ, ◌≡◌, refl, sym, ◌∙◌, arith, some, subst, strip, All, List, [], ◌∷◌}
use sana_v.Campaign.Status.{ReservationState}
use sana_v.Campaign.Ledger.{CampaignRecord, ResultRecord, Tables, find_result, put_result}
use sana_v.Campaign.Ledger.Steps.{total, held_calls, held_cost, Balanced, Step, Steps}
use sana_v.Campaign.Ledger.Find.{total-put}
use sana_v.Campaign.Ledger.Rows.{
  Writes, reserve-Writes, settle-Writes, release-Writes, failure-Writes,
}
use sana_v.Campaign.Ledger.Failing.{fail-Ends}
use sana_v.Campaign.Ledger.Moves.{Moves, reserve-Moves, settle-Moves, release-Moves}

-- The tables that an operation writes are balanced again.
put-Balanced :
    (t : Tables) (id : ℕ) (c : CampaignRecord) (r r' : ResultRecord)
    → find_result id t.results ≡ some r
    → Moves t.campaign c r r'
    → Balanced t
    → Balanced (record { campaign = c; results = put_result id r' t.results })
put-Balanced t id c r r' here m b =
    let calls = m.calls in
    let cost = m.cost in
    let before_calls = b.calls in
    let before_cost = b.cost in
    record {
      calls = omega (arith, total-put held_calls id r r' t.results here);
      cost = omega (arith, total-put held_cost id r r' t.results here);
    }

written-Balanced :
    {id : ℕ} {t t' : Tables}
    {Work : CampaignRecord → ResultRecord → CampaignRecord → ResultRecord → Type 0}
    (w : Writes id t t' Work)
    → Moves t.campaign w.campaign w.row w.result
    → Balanced t
    → Balanced t'
written-Balanced {id = id} {t = t} w m b =
    subst Balanced (sym w.written) (put-Balanced t id w.campaign w.row w.result w.here m b)

cast-Moves :
    {c c₁ c₂ : CampaignRecord} {r r₁ r₂ : ResultRecord}
    → c₁ ≡ c₂
    → r₁ ≡ r₂
    → Moves c c₁ r r₁
    → Moves c c₂ r r₂
cast-Moves campaign result m = rw (sym campaign, sym result) m

step-Balanced : (tenant : ℕ) {t t' : Tables} → Step tenant t t' → Balanced t → Balanced t'
step-Balanced tenant (Step.reserved now lease lease' t t' receipt h) b =
    let writes = reserve-Writes tenant now lease t h in
    let (o, locked, campaign, result) = writes.work in
    let m = reserve-Moves now lease t.campaign writes.row locked in
    written-Balanced writes (cast-Moves campaign result m) b
step-Balanced tenant (Step.settled now tenant_id campaign_id id digest u t t' receipt h) b =
    let writes = settle-Writes tenant now tenant_id campaign_id id digest u t h in
    let row = writes.row in
    written-Balanced writes
      (settle-Moves now (strip digest) u t.campaign row row.reservation_state refl writes.work) b
step-Balanced tenant (Step.released now lease lease' t t' receipt h) b =
    let writes = release-Writes tenant now lease t h in
    let (o, locked, campaign, result) = writes.work in
    let m = release-Moves now lease t.campaign writes.row locked in
    written-Balanced writes (cast-Moves campaign result m) b
step-Balanced tenant (Step.failed hash now lease failure t t' receipt h) b =
    let writes = failure-Writes tenant hash now lease failure t h in
    let ends = fail-Ends hash now lease failure t.campaign writes.row _ writes.work in
    written-Balanced writes ends.moves b
step-Balanced tenant (Step.campaign_written t c calls cost) b = record {
  calls = calls ∙ b.calls;
  cost = cost ∙ b.cost;
}
step-Balanced tenant (Step.result_written t id r r' here state calls cost) b =
    put-Balanced t id t.campaign r r' here
      (record { calls = rw (state, calls) refl; cost = rw (state, cost) refl }) b
step-Balanced tenant (Step.result_added t r state) b = record {
  calls = rw state (omega (arith, b.calls));
  cost = rw state (omega (arith, b.cost));
}

-- Tables in which no result has a reservation, and the campaign has none reserved, are balanced.
pub unreserved-Balanced :
    (t : Tables)
    → t.campaign.reserved_calls ≡ 0
    → t.campaign.reserved_cost ≡ 0
    → All (λ (r : ResultRecord). r.reservation_state ≡ ReservationState.none) t.results
    → Balanced t
unreserved-Balanced t calls cost free = record {
  calls = calls ∙ sym (unheld held_calls t.results (λ r is. rw is refl) free);
  cost = cost ∙ sym (unheld held_cost t.results (λ r is. rw is refl) free);
}
  where
    unheld :
        (f : ResultRecord → ℕ) (rs : List ResultRecord)
        → ((r : ResultRecord) → r.reservation_state ≡ ReservationState.none → f r ≡ 0)
        → All (λ (r : ResultRecord). r.reservation_state ≡ ReservationState.none) rs
        → total f rs ≡ 0
    unheld f [] none free = refl
    unheld f (r ∷ rs) none free = omega (arith, none r free.0, unheld f rs none free.1)

-- In tables where the reserved calls and the reserved cost of a campaign are the sums over the
-- results whose reservation is ACTIVE, they stay so, through any sequence of reservations,
-- settlements, releases and failures of runs (`mark_failure`) that return, and of writes of the rest
-- of the system: these leave the reserved calls, the reserved cost and the reservation states as
-- they are, and a result that they add has no reservation.
pub Steps-Balanced : (tenant : ℕ) {t t' : Tables} → Steps tenant t t' → Balanced t → Balanced t'
Steps-Balanced tenant (Steps.done t) b = b
Steps-Balanced tenant (Steps.more s t u before step) b =
    step-Balanced tenant step (Steps-Balanced tenant before b)
