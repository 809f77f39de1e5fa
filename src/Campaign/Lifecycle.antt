-- ===== src/Campaign/Lifecycle.antt =====
-- `CampaignLifecycle` of shadow_campaign/domain.py: the state machine of one campaign.
pub mod Loading
pub mod Calls
pub mod Safety
pub mod Traces
use sana_v.Base.{
  ℕ, ◌+◌, String, str_append, Bool, true, false, not, ◌||◌, Option, none, some, List, [], ◌∷◌, any,
  ◌==◌, str_eq, is_blank, strip, or_else, if◌then◌else◌,
}
use sana_v.Shared.Errors.{
  Detail, Error, Result, ok, err, invariant_violation, invariant_violation_with,
}
use sana_v.Shared.Time.{DateTime, require_aware, is_before, is_at_most}
use sana_v.Shared.Method.{Method, Done, ◌>>=◌, ◌>>◌, lift, self, refuse_if, modify}
use sana_v.Campaign.Status.{
  CampaignStatus, GateStatus, StopIntent, campaign_value, campaign_transitions,
}

pub record CampaignLifecycle : Type 0 where
  pub id : ℕ
  pub tenant_id : ℕ
  pub created_by_user_id : ℕ
  pub max_runs : ℕ
  pub planned_count : ℕ
  pub status : CampaignStatus
  pub gate_status : GateStatus
  pub stop_intent : StopIntent
  pub stop_reason : Option String
  pub started_at : Option DateTime
  pub review_deadline_at : Option DateTime
  pub completed_at : Option DateTime
  pub version : ℕ
  pub persisted_version : ℕ

-- `CampaignLifecycle(…)` with the defaults of the other fields
abbrev pub new_campaign : ℕ → ℕ → ℕ → ℕ → ℕ → CampaignLifecycle
new_campaign id tenant_id created_by_user_id max_runs planned_count = record {
  id = id;
  tenant_id = tenant_id;
  created_by_user_id = created_by_user_id;
  max_runs = max_runs;
  planned_count = planned_count;
  status = CampaignStatus.created;
  gate_status = GateStatus.pending;
  stop_intent = StopIntent.none;
  stop_reason = none;
  started_at = none;
  review_deadline_at = none;
  completed_at = none;
  version = 0;
  persisted_version = 0;
}

-- `self.status in {COMPLETED, ABORTED}`
abbrev pub is_final : CampaignStatus → Bool
is_final CampaignStatus.completed = true
is_final CampaignStatus.aborted = true
is_final _ = false

abbrev pub is_terminal : CampaignLifecycle → Bool
is_terminal c = is_final c.status

unfoldable pub mark_persisted : Method CampaignLifecycle Done
mark_persisted = modify (λ c. record c { persisted_version = c.version })

-- `_require_not_before_start`
unfoldable pub require_not_before_start : DateTime → String → Method CampaignLifecycle Done
require_not_before_start at name = do
  c ← self
  refuse_if (elim c.started_at [ none ↦ false | some start ↦ is_before at start ])
      (invariant_violation (str_append name " cannot precede campaign start"))

-- The error of an illegal transition.
abbrev pub illegal_transition : CampaignStatus → CampaignStatus → Error
illegal_transition current target =
    invariant_violation_with
      (str_append "Illegal campaign transition: "
        (str_append (campaign_value current) (str_append " -> " (campaign_value target))))
      "illegal_state_transition"
      (("entity", Detail.text "campaign")
        ∷ ("current", Detail.text (campaign_value current))
        ∷ ("target", Detail.text (campaign_value target))
        ∷ [])

-- `_transition`
unfoldable pub transition : CampaignStatus → Method CampaignLifecycle Done
unfolding campaign_transitions
transition target = do
  c ← self
  refuse_if
      (not (
        any (λ s. str_eq (campaign_value s) (campaign_value target))
          (campaign_transitions c.status)))
      (illegal_transition c.status target)
  modify (λ c. record c { status = target; version = c.version + 1 })

unfoldable pub start : DateTime → Method CampaignLifecycle Done
unfolding transition require_not_before_start
start at = do
  lift (require_aware at "started_at")
  require_not_before_start at "started_at"
  c ← self
  refuse_if (not (c.planned_count == c.max_runs)) (
      invariant_violation_with "Campaign cannot start before every planned run is materialized"
        "campaign_not_materialized" [])
  transition CampaignStatus.running
  modify (λ c. record c {
    started_at = some (or_else c.started_at at);
    stop_intent = StopIntent.none;
    stop_reason = none;
  })

unfoldable pub resume : DateTime → Method CampaignLifecycle Done
unfolding transition require_not_before_start
resume at = do
  lift (require_aware at "resumed_at")
  require_not_before_start at "resumed_at"
  transition CampaignStatus.running
  modify (λ c. record c {
    stop_intent = StopIntent.none;
    stop_reason = none;
    review_deadline_at = none;
  })

abbrev pub is_no_intent : StopIntent → Bool
is_no_intent StopIntent.none = true
is_no_intent _ = false

abbrev pub is_pause : StopIntent → Bool
is_pause StopIntent.pause = true
is_pause _ = false

abbrev pub is_stopping : CampaignStatus → Bool
is_stopping CampaignStatus.stopping = true
is_stopping _ = false

unfoldable pub request_stop : StopIntent → String → Method CampaignLifecycle Done
unfolding transition
request_stop intent reason = do
  refuse_if (is_no_intent intent) (invariant_violation "Stopping a campaign requires a stop intent")
  refuse_if (is_blank reason) (invariant_violation "Stopping a campaign requires a reason")
  transition CampaignStatus.stopping
  modify (λ c. record c { stop_intent = intent; stop_reason = some (strip reason) })

unfoldable pub escalate_stop : StopIntent → String → Method CampaignLifecycle Done
escalate_stop intent reason = do
  c ← self
  refuse_if (not (is_stopping c.status)) (
      invariant_violation_with "Only a STOPPING campaign can escalate its stop intent"
        "campaign_not_stopping" [])
  refuse_if (not (is_pause c.stop_intent) || (is_no_intent intent || is_pause intent)) (
      invariant_violation_with "Campaign stop intent cannot be downgraded or replaced"
        "stop_intent_escalation_invalid" [])
  refuse_if (is_blank reason) (invariant_violation "Stop escalation requires a reason")
  modify (λ c. record c {
    stop_intent = intent;
    stop_reason = some (strip reason);
    version = c.version + 1;
  })

-- The status that a settled stop leads to, and the completion time that it leaves.
abbrev pub settled_status : StopIntent → CampaignStatus
settled_status StopIntent.pause = CampaignStatus.paused
settled_status _ = CampaignStatus.aborted

abbrev pub settled_time : CampaignStatus → DateTime → Option DateTime → Option DateTime
settled_time CampaignStatus.aborted at old = some at
settled_time _ at old = old

unfoldable pub settle_stop : DateTime → Method CampaignLifecycle Done
unfolding transition require_not_before_start
settle_stop at = do
  lift (require_aware at "stop settled_at")
  require_not_before_start at "stop settled_at"
  c ← self
  transition (settled_status c.stop_intent)
  modify (λ d. record d {
    completed_at = settled_time (settled_status c.stop_intent) at d.completed_at;
  })

unfoldable pub await_review : DateTime → DateTime → Method CampaignLifecycle Done
unfolding transition require_not_before_start
await_review at deadline = do
  lift (require_aware at "awaiting_review_at")
  lift (require_aware deadline "review_deadline_at")
  require_not_before_start at "awaiting_review_at"
  refuse_if (is_at_most deadline at)
      (invariant_violation "Review deadline must be after review start")
  transition CampaignStatus.awaiting_review
  modify (λ c. record c { review_deadline_at = some deadline })

abbrev pub is_pending : GateStatus → Bool
is_pending GateStatus.pending = true
is_pending _ = false

unfoldable pub complete : GateStatus → DateTime → Method CampaignLifecycle Done
unfolding transition require_not_before_start
complete decision at = do
  lift (require_aware at "completed_at")
  require_not_before_start at "completed_at"
  refuse_if (is_pending decision)
      (invariant_violation "Campaign completion requires a final gate decision")
  transition CampaignStatus.completed
  modify (λ c. record c { gate_status = decision; completed_at = some at })

unfoldable pub abort : String → DateTime → Method CampaignLifecycle Done
unfolding transition require_not_before_start
abort reason at = do
  lift (require_aware at "completed_at")
  require_not_before_start at "completed_at"
  refuse_if (is_blank reason) (invariant_violation "Campaign abort requires a reason")
  transition CampaignStatus.aborted
  modify (λ c. record c {
    stop_intent = StopIntent.abort;
    stop_reason = some (strip reason);
    completed_at = some at;
  })
