-- ===== src/Campaign/Lease.antt =====
-- `RunLease` of shadow_campaign/scheduler.py: the right of one worker to carry out one run of a
-- campaign, fenced by a version.
use sana_v.Base.{ℕ, ◌+◌, String, Bool, true, false, Option, some, [], leb}
use sana_v.Shared.Errors.{invariant_violation, invariant_violation_with}
use sana_v.Shared.Time.{DateTime, require_aware, is_at_most}
use sana_v.Shared.Method.{Method, Done, ◌>>=◌, ◌>>◌, lift, self, refuse_if, modify}
use sana_v.Campaign.Status.{SchedulingState, ReservationState}

pub record RunLease : Type 0 where
  pub id : ℕ
  pub tenant_id : ℕ
  pub campaign_id : ℕ
  pub case_id : String
  pub repetition : ℕ
  pub schedule_ordinal : ℕ
  pub state : SchedulingState
  pub lease_owner : String
  pub lease_expires_at : DateTime
  pub conversation_id : Option ℕ
  pub search_run_id : Option ℕ
  pub conversation_key : String
  pub message_key : String
  pub request_hash : String
  pub reservation_state : ReservationState
  pub version : ℕ
  pub persisted_version : ℕ
  pub conversation_attempts : ℕ
  pub submission_attempts : ℕ

-- `self.state not in {CLAIMED, CONVERSATION_BOUND}`
abbrev pub is_not_leased : SchedulingState → Bool
is_not_leased SchedulingState.claimed = false
is_not_leased SchedulingState.conversation_bound = false
is_not_leased _ = true

unfoldable pub accept_budget_fence : ℕ → ReservationState → Method RunLease Done
accept_budget_fence version state = do
  l ← self
  refuse_if (leb version l.version) (invariant_violation "Budget fencing token must advance")
  modify
      (λ l. record l { version = version; persisted_version = version; reservation_state = state })

unfoldable pub accept_attempt_fence : ℕ → Method RunLease Done
accept_attempt_fence version = do
  l ← self
  refuse_if (leb version l.version) (invariant_violation "Execution fencing token must advance")
  modify (λ l. record l { version = version; persisted_version = version })

unfoldable pub accept_conversation_fence : ℕ → ℕ → Method RunLease Done
unfolding accept_attempt_fence
accept_conversation_fence version conversation_id = do
  accept_attempt_fence version
  modify (λ l. record l {
    state = SchedulingState.conversation_bound;
    conversation_id = some conversation_id;
  })

unfoldable pub renew : DateTime → DateTime → Method RunLease Done
renew now lease_expires_at = do
  lift (require_aware now "lease renewal time")
  lift (require_aware lease_expires_at "lease_expires_at")
  l ← self
  refuse_if (is_at_most l.lease_expires_at now) (
      invariant_violation_with "Expired scheduling leases cannot be renewed"
        "scheduling_lease_expired" [])
  refuse_if (is_at_most lease_expires_at l.lease_expires_at)
      (invariant_violation "Scheduling lease renewal must extend the lease")
  modify (λ l. record l { lease_expires_at = lease_expires_at; version = l.version + 1 })

unfoldable pub mark_persisted : Method RunLease Done
mark_persisted = modify (λ l. record l { persisted_version = l.version })
