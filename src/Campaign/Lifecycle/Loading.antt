-- ===== src/Campaign/Lifecycle/Loading.antt =====
-- `CampaignLifecycle.rehydrate` and `_validate_loaded_state`. The row is written as a campaign,
-- whose `persisted_version` is not read.
use sana_v.Base.{
  String, Bool, true, false, not, xor, ◌||◌, Option, none, some, List, [], ◌∷◌, is_some, ltb, leb,
  is_blank,
}
use sana_v.Shared.Errors.{Result, ok, invariant_violation, raise_if, check_all, ◌>>◌}
use sana_v.Shared.Time.{DateTime, require_aware, is_before}
use sana_v.Campaign.Status.{CampaignStatus, StopIntent}
use sana_v.Campaign.Lifecycle.{CampaignLifecycle, is_final, is_no_intent, is_pending}

-- `if value is not None: require_aware(value, name)`
abbrev pub aware_if_some : Option DateTime → String → Result (Unit {0})
aware_if_some none name = ok tt
aware_if_some (some value) name = require_aware value name

-- The branch of `_validate_loaded_state` on CREATED and the branch on the statuses that need a
-- start.
abbrev pub check_timestamps : CampaignStatus → Option DateTime → Option DateTime → Result (Unit {0})
check_timestamps CampaignStatus.created started_at completed_at =
    raise_if (is_some started_at || is_some completed_at)
      (invariant_violation "Persisted CREATED campaign has run timestamps")
check_timestamps CampaignStatus.aborted started_at completed_at = ok tt
check_timestamps _ started_at completed_at =
    raise_if (not (is_some started_at))
      (invariant_violation "Persisted active campaign has no started_at")

-- `not (self.stop_reason or "").strip()`
abbrev pub is_blank_reason : Option String → Bool
is_blank_reason none = true
is_blank_reason (some reason) = is_blank reason

abbrev pub lacks_stop_intent : CampaignStatus → StopIntent → Option String → Bool
lacks_stop_intent CampaignStatus.stopping intent reason =
    is_no_intent intent || is_blank_reason reason
lacks_stop_intent _ intent reason = false

abbrev pub lacks_review_deadline : CampaignStatus → Option DateTime → Bool
lacks_review_deadline CampaignStatus.awaiting_review deadline = not (is_some deadline)
lacks_review_deadline _ deadline = false

abbrev pub is_undecided : CampaignLifecycle → CampaignStatus → Bool
is_undecided c CampaignStatus.completed = is_pending c.gate_status
is_undecided c _ = false

abbrev pub moves_backwards : Option DateTime → Option DateTime → Bool
moves_backwards (some started_at) (some completed_at) = is_before completed_at started_at
moves_backwards _ _ = false

-- The checks of `_validate_loaded_state`, in their order. A version and the counts are numbers
-- here, so that of the first check `version < 0` and `planned_count < 0` are left out.
abbrev pub loading_checks : CampaignLifecycle → List (Result (Unit {0}))
loading_checks c =
    aware_if_some c.started_at "started_at"
    ∷ aware_if_some c.review_deadline_at "review_deadline_at"
    ∷ aware_if_some c.completed_at "completed_at"
    ∷ raise_if (ltb c.max_runs 1 || not (leb c.planned_count c.max_runs))
        (invariant_violation "Campaign planning counters are invalid")
    ∷ check_timestamps c.status c.started_at c.completed_at
    ∷ raise_if (lacks_stop_intent c.status c.stop_intent c.stop_reason)
        (invariant_violation "Persisted STOPPING campaign has no stop intent")
    ∷ raise_if (lacks_review_deadline c.status c.review_deadline_at)
        (invariant_violation "Persisted review campaign has no deadline")
    ∷ raise_if (xor (is_final c.status) (is_some c.completed_at))
        (invariant_violation "Persisted campaign terminal timestamp is inconsistent")
    ∷ raise_if (is_undecided c c.status)
        (invariant_violation "Persisted completed campaign has no gate decision")
    ∷ raise_if (moves_backwards c.started_at c.completed_at)
        (invariant_violation "Persisted campaign timestamps move backwards")
    ∷ []

unfoldable pub rehydrate : CampaignLifecycle → Result CampaignLifecycle
rehydrate row =
    check_all (loading_checks row) >> ok (record row { persisted_version = row.version })
