-- ===== src/Campaign/Status.antt =====
-- The enumerations and the transition table of shadow_campaign/domain.py.
use sana_v.Base.{String, List, [], ◌∷◌}

pub data CampaignStatus : Type 0 where
  created running stopping paused awaiting_review completed aborted : CampaignStatus

pub data GateStatus : Type 0 where
  pending pass fail insufficient_sample : GateStatus

pub data StopIntent : Type 0 where
  none pause abort fatal budget call_ceiling : StopIntent

pub data SchedulingState : Type 0 where
  pending claimed conversation_bound submitted collected failed skipped : SchedulingState

pub data ErrorClass : Type 0 where
  candidate_defect permanent_configuration infrastructure provider_transient content_gap :
      ErrorClass

pub data ReservationState : Type 0 where
  none active settled released : ReservationState

-- `.value` of the members
abbrev pub campaign_value : CampaignStatus → String
campaign_value CampaignStatus.created = "CREATED"
campaign_value CampaignStatus.running = "RUNNING"
campaign_value CampaignStatus.stopping = "STOPPING"
campaign_value CampaignStatus.paused = "PAUSED"
campaign_value CampaignStatus.awaiting_review = "AWAITING_REVIEW"
campaign_value CampaignStatus.completed = "COMPLETED"
campaign_value CampaignStatus.aborted = "ABORTED"

-- `_CAMPAIGN_TRANSITIONS[current]`
unfoldable pub campaign_transitions : CampaignStatus → List CampaignStatus
campaign_transitions CampaignStatus.created = CampaignStatus.running ∷ CampaignStatus.aborted ∷ []
campaign_transitions CampaignStatus.running =
    CampaignStatus.stopping ∷ CampaignStatus.awaiting_review ∷ CampaignStatus.completed ∷ []
campaign_transitions CampaignStatus.stopping =
    CampaignStatus.paused ∷ CampaignStatus.awaiting_review ∷ CampaignStatus.completed
    ∷ CampaignStatus.aborted ∷ []
campaign_transitions CampaignStatus.paused = CampaignStatus.running ∷ CampaignStatus.aborted ∷ []
campaign_transitions CampaignStatus.awaiting_review =
    CampaignStatus.completed ∷ CampaignStatus.aborted ∷ []
campaign_transitions CampaignStatus.completed = []
campaign_transitions CampaignStatus.aborted = []
