-- ===== src/Campaign/Lifecycle/Safety.antt =====
-- The life of a campaign over any sequence of calls.
use sana_v.Base.{
  ◌≤◌, ◌≡◌, refl, ◌⊎◌, inl, inr, arith, true, false, Bool, Option, none, some, is_some,
  is_blank-strip, String, xor,
}
use sana_v.Shared.Errors.{Error, ok, err, check_all_pass}
use sana_v.Shared.Time.{DateTime}
use sana_v.Campaign.Status.{CampaignStatus, StopIntent}
use sana_v.Campaign.Lifecycle.{CampaignLifecycle, is_final, is_stopping, settled_status}
use sana_v.Campaign.Lifecycle.Calls.{Call, call}
use sana_v.Campaign.Lifecycle.Loading.{
  rehydrate, loading_checks, aware_if_some, check_timestamps, lacks_stop_intent,
  lacks_review_deadline, is_undecided, moves_backwards,
}

-- A call that raises leaves the campaign as it was.
pub campaign_call_atomic :
    (k : Call) (c : CampaignLifecycle) {e : Error} → (call k c).0 ≡ err e → (call k c).1 ≡ c
unfolding call
campaign_call_atomic k c h = ground arith

-- A time that is given is aware.
abbrev pub AwareIfSome : Option DateTime → Type 0
AwareIfSome none = Unit
AwareIfSome (some at) = at.is_aware ≡ true

-- Only a campaign that has begun, or one that was aborted before it began.
abbrev pub has_begun : CampaignStatus → Option DateTime → Bool
has_begun CampaignStatus.created started_at = false
has_begun CampaignStatus.aborted started_at = true
has_begun _ started_at = is_some started_at

-- What holds of a campaign that has been started or aborted, between calls.
pub record IsSound (c : CampaignLifecycle) : Type 0 where
  pub planned : (1 ≤ c.max_runs) × (c.planned_count ≤ c.max_runs)
  pub aware_start : AwareIfSome c.started_at
  pub aware_review : AwareIfSome c.review_deadline_at
  pub aware_end : AwareIfSome c.completed_at
  pub begun : has_begun c.status c.started_at ≡ true
  pub stopping : lacks_stop_intent c.status c.stop_intent c.stop_reason ≡ false
  pub reviewing : lacks_review_deadline c.status c.review_deadline_at ≡ false
  pub ended : is_some c.completed_at ≡ is_final c.status
  pub decided : is_undecided c c.status ≡ false
  pub ordered : moves_backwards c.started_at c.completed_at ≡ false

module _ (k : Call) (c : CampaignLifecycle) (s : IsSound c) where
  call-planned : (1 ≤ (call k c).1.max_runs) × ((call k c).1.planned_count ≤ (call k c).1.max_runs)
  unfolding call
  call-planned = ground arith

  call-aware_start : AwareIfSome (call k c).1.started_at
  unfolding call
  call-aware_start = ground arith

  call-begun : has_begun (call k c).1.status (call k c).1.started_at ≡ true
  unfolding call
  call-begun = ground arith

  call-aware_review : AwareIfSome (call k c).1.review_deadline_at
  unfolding call
  call-aware_review = ground arith

  call-aware_end : AwareIfSome (call k c).1.completed_at
  unfolding call
  call-aware_end = ground arith

  call-reviewing : lacks_review_deadline (call k c).1.status (call k c).1.review_deadline_at ≡ false
  unfolding call
  call-reviewing = ground arith

  call-ended : is_some (call k c).1.completed_at ≡ is_final (call k c).1.status
  unfolding call
  call-ended = ground arith

  call-decided : is_undecided (call k c).1 (call k c).1.status ≡ false
  unfolding call
  call-decided = ground arith

  call-ordered : moves_backwards (call k c).1.started_at (call k c).1.completed_at ≡ false
  unfolding call
  call-ordered = ground arith

-- The calls that have to do with stopping.
abbrev asks_stop : Call → Bool
asks_stop (Call.request_stop intent reason) = true
asks_stop (Call.escalate_stop intent reason) = true
asks_stop _ = false

-- The stop of `c` is as it was in `b`, or `c` is not stopping.
abbrev LeavesStop : CampaignLifecycle → CampaignLifecycle → Type 0
LeavesStop b c =
    ((c.status ≡ b.status) × (c.stop_intent ≡ b.stop_intent) × (c.stop_reason ≡ b.stop_reason))
    ⊎ (is_stopping c.status ≡ false)

settle_leaves :
    (c : CampaignLifecycle) (at : DateTime) (i : StopIntent)
    → c.stop_intent ≡ i
    → LeavesStop c (call (Call.settle_stop at) c).1
unfolding call
settle_leaves c at StopIntent.pause e = rw (e, settled_status) (ground arith)
settle_leaves c at i e = rw (e, settled_status) (ground arith)

left_stopping : (k : Call) (c : CampaignLifecycle) → asks_stop k ≡ false → LeavesStop c (call k c).1
unfolding call
left_stopping (Call.start at) c h = ground arith
left_stopping (Call.request_stop intent reason) c h = cc
left_stopping (Call.escalate_stop intent reason) c h = cc
left_stopping (Call.settle_stop at) c h = settle_leaves c at c.stop_intent refl
left_stopping _ c h = ground arith

not_stopping :
    (status : CampaignStatus) (intent : StopIntent) (reason : Option String)
    → is_stopping status ≡ false
    → lacks_stop_intent status intent reason ≡ false
not_stopping CampaignStatus.stopping intent reason h = cc
not_stopping CampaignStatus.created intent reason h = refl
not_stopping _ intent reason h = refl

left_alone :
    (b c : CampaignLifecycle)
    → LeavesStop b c
    → lacks_stop_intent b.status b.stop_intent b.stop_reason ≡ false
    → lacks_stop_intent c.status c.stop_intent c.stop_reason ≡ false
left_alone b c (inl (status, intent, reason)) h = rw (status, intent, reason) h
left_alone b c (inr over) h = not_stopping c.status c.stop_intent c.stop_reason over

xor_same : (a b : Bool) → a ≡ b → xor b a ≡ false
xor_same a b h = ground arith

call-stopping :
    (k : Call) (c : CampaignLifecycle)
    → lacks_stop_intent c.status c.stop_intent c.stop_reason ≡ false
    → let c' = (call k c).1 in lacks_stop_intent c'.status c'.stop_intent c'.stop_reason ≡ false
unfolding call
call-stopping (Call.request_stop intent reason) c h = ground (arith, is_blank-strip reason)
call-stopping (Call.escalate_stop intent reason) c h = ground (arith, is_blank-strip reason)
call-stopping (Call.start at) c h =
    left_alone c (call (Call.start at) c).1 (left_stopping (Call.start at) c refl) h
call-stopping (Call.resume at) c h =
    left_alone c (call (Call.resume at) c).1 (left_stopping (Call.resume at) c refl) h
call-stopping (Call.settle_stop at) c h =
    left_alone c (call (Call.settle_stop at) c).1 (left_stopping (Call.settle_stop at) c refl) h
call-stopping (Call.await_review at deadline) c h =
    left_alone c (call (Call.await_review at deadline) c).1
      (left_stopping (Call.await_review at deadline) c refl) h
call-stopping (Call.complete decision at) c h =
    left_alone c (call (Call.complete decision at) c).1
      (left_stopping (Call.complete decision at) c refl) h
call-stopping (Call.abort reason at) c h =
    left_alone c (call (Call.abort reason at) c).1 (left_stopping (Call.abort reason at) c refl) h
call-stopping Call.mark_persisted c h =
    left_alone c (call Call.mark_persisted c).1 (left_stopping Call.mark_persisted c refl) h

pub call-IsSound : (k : Call) (c : CampaignLifecycle) → IsSound c → IsSound (call k c).1
call-IsSound k c s = record {
  planned = call-planned k c s;
  aware_start = call-aware_start k c s;
  aware_review = call-aware_review k c s;
  aware_end = call-aware_end k c s;
  begun = call-begun k c s;
  stopping = call-stopping k c s.stopping;
  reviewing = call-reviewing k c s;
  ended = call-ended k c s;
  decided = call-decided k c s;
  ordered = call-ordered k c s;
}

aware_check : (t : Option DateTime) (name : String) → AwareIfSome t → aware_if_some t name ≡ ok tt
aware_check none name h = refl
aware_check (some at) name h = ground arith

timestamps_check :
    (status : CampaignStatus) (start end : Option DateTime)
    → has_begun status start ≡ true
    → check_timestamps status start end ≡ ok tt
timestamps_check status start end h = ground arith

-- A campaign with these properties passes every check of `rehydrate`.
pub IsSound-rehydrate :
    (c : CampaignLifecycle)
    → IsSound c
    → rehydrate c ≡ ok (record c { persisted_version = c.version })
unfolding rehydrate
IsSound-rehydrate c s = rw (
    check_all_pass (loading_checks c) (
      aware_check c.started_at "started_at" s.aware_start,
      (
        aware_check c.review_deadline_at "review_deadline_at" s.aware_review,
        (
          aware_check c.completed_at "completed_at" s.aware_end,
          (
            ground arith,
            (
              timestamps_check c.status c.started_at c.completed_at s.begun,
              (
                rw s.stopping,
                (
                  rw s.reviewing,
                  (
                    rw (xor_same (is_some c.completed_at) (is_final c.status) s.ended),
                    (rw s.decided, (rw s.ordered, tt)),
                  ),
                ),
              ),
            ),
          ),
        ),
      ),
    ))
