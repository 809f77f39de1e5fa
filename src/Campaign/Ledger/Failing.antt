-- ===== src/Campaign/Ledger/Failing.antt =====
-- What the failure of a run makes of the reservations and the charges.
use sana_v.Base.{
  ◌+◌, ◌≤◌, ◌≡◌, refl, arith, subst, Bool, Bool-cases, true, false, not, ◌&&◌, ◌||◌, ltb, inl, inr,
  String,
}
use sana_v.Shared.Errors.{ok, ok-elim, check-rest, ok-injective}
use sana_v.Shared.Time.{DateTime}
use sana_v.Campaign.Status.{ReservationState}
use sana_v.Campaign.Lease.{RunLease}
use sana_v.Campaign.Ledger.{CampaignRecord, ResultRecord}
use sana_v.Campaign.Ledger.Settle.{is_short, is_overcounted}
use sana_v.Campaign.Ledger.Failure.{
  FailureHash, RunnerFailure, RunnerFailureReceipt, holds_lease, is_active, is_failed, end_active,
  end_reservation, failed_campaign, failed_result, fail_leased, fail_locked,
}
use sana_v.Campaign.Ledger.Moves.{Moves}

-- The campaign reserves less by what the result holds less, and what it has been charged with and
-- has reserved together is no more than before, in calls and in cost. Nothing else counts.
pub record Ends (c c' : CampaignRecord) (r r' : ResultRecord) : Type 0 where
  pub moves : Moves c c' r r'
  pub calls : c'.charged_calls + c'.reserved_calls ≤ c.charged_calls + c.reserved_calls
  pub cost : c'.charged_cost + c'.reserved_cost ≤ c.charged_cost + c.reserved_cost
  pub same_calls : c'.observed_calls ≡ c.observed_calls
  pub same_cost : c'.observed_cost ≡ c.observed_cost
  pub same_status : c'.status ≡ c.status
  pub same_ceiling : c'.admission_ceiling ≡ c.admission_ceiling
  pub same_threshold : c'.cost_threshold ≡ c.cost_threshold

same-Ends : (c : CampaignRecord) (r : ResultRecord) → Ends c c r r
same-Ends c r = record {
  moves = record { calls = refl; cost = refl };
  calls = omega arith;
  cost = omega arith;
  same_calls = refl;
  same_cost = refl;
  same_status = refl;
  same_ceiling = refl;
  same_threshold = refl;
}

end_active-Ends :
    (billed : Bool) (digest : String) (now : DateTime) (c : CampaignRecord) (r : ResultRecord)
    → r.reservation_state ≡ ReservationState.active
    → is_short c r.reserved_calls r.reserved_cost ≡ false
    → let (c', r') = end_active billed digest now c r in Ends c c' r r'
end_active-Ends true digest now c r state enough = record {
  moves = record { calls = rw state (ground arith); cost = rw state (ground arith) };
  calls = ground arith;
  cost = ground arith;
  same_calls = refl;
  same_cost = refl;
  same_status = refl;
  same_ceiling = refl;
  same_threshold = refl;
}
end_active-Ends false digest now c r state enough = record {
  moves = record { calls = rw state (ground arith); cost = rw state (ground arith) };
  calls = ground arith;
  cost = ground arith;
  same_calls = refl;
  same_cost = refl;
  same_status = refl;
  same_ceiling = refl;
  same_threshold = refl;
}

end_reservation-Ends :
    (hash : FailureHash) (now : DateTime) (lease : RunLease) (failure : RunnerFailure)
    (c : CampaignRecord) (r : ResultRecord) (state : ReservationState)
    (out : CampaignRecord × ResultRecord)
    → r.reservation_state ≡ state
    → end_reservation hash now lease failure c r state ≡ ok out
    → Ends c out.0 r out.1
unfolding end_reservation
end_reservation-Ends hash now lease failure c r ReservationState.active out state h =
    let (enough, h) = check-rest (is_short c r.reserved_calls r.reserved_cost) _ _ h in
    subst (λ (o : CampaignRecord × ResultRecord). Ends c o.0 r o.1) (ok-injective h)
      (end_active-Ends failure.possibly_billed _ now c r state enough)
end_reservation-Ends hash now lease failure c r ReservationState.none out state h =
    subst (λ (o : CampaignRecord × ResultRecord). Ends c o.0 r o.1) (ok-injective h) (same-Ends c r)
end_reservation-Ends hash now lease failure c r ReservationState.settled out state h = cc
end_reservation-Ends hash now lease failure c r ReservationState.released out state h = cc

noted-Ends :
    (now : DateTime) (failure : RunnerFailure) (c c' : CampaignRecord) (r r' : ResultRecord)
    → Ends c c' r r'
    → Ends c (failed_campaign now c') r (failed_result now failure r')
noted-Ends now failure c c' r r' e = record {
  moves = record { calls = e.moves.calls; cost = e.moves.cost };
  calls = e.calls;
  cost = e.cost;
  same_calls = e.same_calls;
  same_cost = e.same_cost;
  same_status = e.same_status;
  same_ceiling = e.same_ceiling;
  same_threshold = e.same_threshold;
}

fail_leased-Ends :
    (hash : FailureHash) (now : DateTime) (lease : RunLease) (failure : RunnerFailure)
    (c : CampaignRecord) (r : ResultRecord)
    (out : CampaignRecord × ResultRecord × RunnerFailureReceipt)
    → fail_leased hash now lease failure c r ≡ ok out
    → Ends c out.0 r out.1
unfolding fail_leased
fail_leased-Ends hash now lease failure c r out h =
    let (_, h) = check-rest (not (holds_lease r lease now)) _ _ h in
    let (_, h) =
      check-rest (failure.possibly_billed && not (is_active r.reservation_state)) _ _ h in
    ok-elim (end_reservation hash now lease failure c r r.reservation_state) _ h λ ended ends h.
      let (_, h) =
        check-rest (is_overcounted ended.0 || not (ltb ended.0.failed_count ended.0.max_runs)) _ _
          h in
      subst (λ (o : CampaignRecord × ResultRecord × RunnerFailureReceipt). Ends c o.0 r o.1)
        (ok-injective h)
        (noted-Ends now failure c ended.0 r ended.1
          (end_reservation-Ends hash now lease failure c r r.reservation_state ended refl ends))

-- A failure that returns ends the reservation of the result, or leaves it as it is.
pub fail-Ends :
    (hash : FailureHash) (now : DateTime) (lease : RunLease) (failure : RunnerFailure)
    (c : CampaignRecord) (r : ResultRecord)
    (out : CampaignRecord × ResultRecord × RunnerFailureReceipt)
    → fail_locked hash now lease failure c r ≡ ok out
    → Ends c out.0 r out.1
unfolding fail_locked
fail-Ends hash now lease failure c r out h = elim (Bool-cases (is_failed r.scheduling_state)) [
  | inl again ↦
      subst (λ (o : CampaignRecord × ResultRecord × RunnerFailureReceipt). Ends c o.0 r o.1)
        (ok-injective (rw again at h)) (same-Ends c r)
  | inr first ↦ fail_leased-Ends hash now lease failure c r out (rw first at h)
]
