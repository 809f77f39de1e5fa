-- ===== src/Campaign/Lifecycle/Traces.antt =====
-- What holds of a campaign after any sequence of calls.
use sana_v.Base.{
  ◌+◌, ◌≡◌, ◌≢◌, refl, List, [], ◌∷◌, arith, true, false, Bool, Option, none, some, is_some, String,
  xor, ap, subst,
}
use sana_v.Shared.Errors.{Result, ok, passed, check_all-ok, check_all-bind}
use sana_v.Shared.Time.{DateTime}
use sana_v.Shared.Method.{Done, run_all, run_all_induction}
use sana_v.Campaign.Status.{CampaignStatus, StopIntent}
use sana_v.Campaign.Lifecycle
use sana_v.Campaign.Lifecycle.{
  CampaignLifecycle, is_terminal, is_final, settled_status, settled_time, request_stop,
  escalate_stop, settle_stop,
}
use sana_v.Campaign.Lifecycle.Calls.{Call, call}
use sana_v.Campaign.Lifecycle.Loading.{rehydrate, loading_checks, aware_if_some, check_timestamps}
use sana_v.Campaign.Lifecycle.Safety.{
  IsSound, AwareIfSome, has_begun, call-IsSound, IsSound-rehydrate,
}

aware_of_check :
    (t : Option DateTime) (name : String) → aware_if_some t name ≡ ok tt → AwareIfSome t
aware_of_check none name h = tt
aware_of_check (some at) name h = ground arith

begun_of_check :
    (status : CampaignStatus) (start end : Option DateTime)
    → status ≢ CampaignStatus.created
    → check_timestamps status start end ≡ ok tt
    → has_begun status start ≡ true
begun_of_check status start end begun h = ground arith

same_of_xor : (a b : Bool) → xor a b ≡ false → b ≡ a
same_of_xor a b h = ground arith

-- A campaign other than a CREATED one that passes the checks of `rehydrate` is sound.
rehydrate-IsSound :
    (c : CampaignLifecycle) {d : CampaignLifecycle}
    → rehydrate c ≡ ok d
    → c.status ≢ CampaignStatus.created
    → IsSound c
unfolding rehydrate
rehydrate-IsSound c h begun =
    let checks =
      check_all-ok (loading_checks c)
        (check_all-bind (loading_checks c) (ok (record c { persisted_version = c.version })) h) in
    let planned = checks.1.1.1.0 in
    let stopping = checks.1.1.1.1.1.0 in
    let reviewing = checks.1.1.1.1.1.1.0 in
    let ended = checks.1.1.1.1.1.1.1.0 in
    let decided = checks.1.1.1.1.1.1.1.1.0 in
    let ordered = checks.1.1.1.1.1.1.1.1.1.0 in
    record {
      planned = ground arith;
      aware_start = aware_of_check c.started_at "started_at" checks.0;
      aware_review = aware_of_check c.review_deadline_at "review_deadline_at" checks.1.0;
      aware_end = aware_of_check c.completed_at "completed_at" checks.1.1.0;
      begun = begun_of_check c.status c.started_at c.completed_at begun checks.1.1.1.1.0;
      stopping = passed _ _ stopping;
      reviewing = passed _ _ reviewing;
      ended = same_of_xor (is_final c.status) (is_some c.completed_at) (passed _ _ ended);
      decided = passed _ _ decided;
      ordered = passed _ _ ordered;
    }

-- Once a campaign that loads has left CREATED, whatever calls are made on it and whichever of them
-- raise, its row is accepted by `rehydrate` and loads back to it.
pub campaign_calls-rehydrate :
    (ks : List Call) (c : CampaignLifecycle) {d : CampaignLifecycle}
    → rehydrate c ≡ ok d
    → c.status ≢ CampaignStatus.created
    → let c' = run_all call ks c in rehydrate c' ≡ ok (record c' { persisted_version = c'.version })
campaign_calls-rehydrate ks c h begun =
    IsSound-rehydrate (run_all call ks c)
      (run_all_induction call IsSound call-IsSound ks c (rehydrate-IsSound c h begun))

-- What `resume` makes of a CREATED campaign.
abbrev resumed : CampaignLifecycle → CampaignLifecycle
resumed c = record c {
  status = CampaignStatus.running;
  stop_intent = StopIntent.none;
  stop_reason = none;
  review_deadline_at = none;
  version = c.version + 1;
}

resume-resumed :
    (c : CampaignLifecycle) (at : DateTime)
    → c.status ≡ CampaignStatus.created
    → c.started_at ≡ none
    → at.is_aware ≡ true
    → Lifecycle.resume at c ≡ (ok tt, resumed c)
unfolding Lifecycle.resume
resume-resumed c at status start aware = ground arith

resumed_unsound : (c : CampaignLifecycle) → c.started_at ≡ none → ¬ IsSound (resumed c)
resumed_unsound c start s =
    let begun : has_begun CampaignStatus.running c.started_at ≡ true = s.begun in ground arith

-- `resume` is not limited to PAUSED campaigns: it takes a CREATED one, which has no start time, to
-- RUNNING, and the row of what results is refused by `rehydrate`.
pub resume-created :
    (c : CampaignLifecycle) (at : DateTime)
    → c.status ≡ CampaignStatus.created
    → c.started_at ≡ none
    → at.is_aware ≡ true
    → ((Lifecycle.resume at c).0 ≡ ok tt)
      × ((d : CampaignLifecycle) → rehydrate (Lifecycle.resume at c).1 ≢ ok d)
resume-created c at status start aware =
    let done = resume-resumed c at status start aware in
    (
      ap (λ (r : Result Done × CampaignLifecycle). r.0) done,
      λ d h. resumed_unsound c start (
          rehydrate-IsSound (resumed c)
            (subst (λ (r : Result Done × CampaignLifecycle). rehydrate r.1 ≡ ok d) done h)
            (λ e. cc)),
    )

-- `c` is `b`, but for the persisted version.
abbrev Same : CampaignLifecycle → CampaignLifecycle → Type 0
Same b c = c ≡ record b { persisted_version = c.persisted_version }

settle-terminal :
    (c : CampaignLifecycle) (at : DateTime) (i : StopIntent)
    → c.stop_intent ≡ i
    → is_terminal c ≡ true
    → Same c (call (Call.settle_stop at) c).1
unfolding call
settle-terminal c at StopIntent.pause e h = rw (e, settled_status) (ground arith)
settle-terminal c at i e h = rw (e, settled_status) (ground arith)

call-terminal : (k : Call) (c : CampaignLifecycle) → is_terminal c ≡ true → Same c (call k c).1
unfolding call
call-terminal (Call.settle_stop at) c h = settle-terminal c at c.stop_intent refl h
call-terminal (Call.start at) c h = ground arith
call-terminal _ c h = ground arith

-- A COMPLETED or ABORTED campaign is never changed again, its gate decision included, by any
-- calls, but for the version that `mark_persisted` notes.
pub campaign_terminal_absorbs :
    (ks : List Call) (c : CampaignLifecycle)
    → is_terminal c ≡ true
    → let c' = run_all call ks c in c' ≡ record c { persisted_version = c'.persisted_version }
unfolding run_all
campaign_terminal_absorbs [] c h = refl
campaign_terminal_absorbs (k ∷ ks) c h =
    let step = call-terminal k c h in
    cc (step, campaign_terminal_absorbs ks (call k c).1 (ground arith))

call-started :
    (k : Call) (c : CampaignLifecycle) (t : DateTime)
    → c.started_at ≡ some t
    → (call k c).1.started_at ≡ some t
unfolding call
call-started k c t h = ground arith

-- The start time of a campaign is fixed: pauses, resumptions and further starts keep the first.
pub start_time_fixed :
    (ks : List Call) (c : CampaignLifecycle) (t : DateTime)
    → c.started_at ≡ some t
    → (run_all call ks c).started_at ≡ some t
unfolding run_all
start_time_fixed [] c t h = h
start_time_fixed (k ∷ ks) c t h = start_time_fixed ks (call k c).1 t (call-started k c t h)
