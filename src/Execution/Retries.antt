-- ===== src/Execution/Retries.antt =====
-- When a failed step is tried again.
use sana_v.Base.{
  ℕ, ◌+◌, ◌≤◌, ◌<◌, ◌≡◌, refl, sym, ap, ◌∙◌, subst, arith, Bool, Bool-cases, true, false, ◌||◌,
  Option, none, some, or_else, inl, inr, pos, String,
}
use sana_v.Shared.Errors.{TypedError, ok, ok-elim, ok-injective, ◌>>=◌}
use sana_v.Shared.Time.{DateTime, shift}
use sana_v.Orchestration.Status.{StepStatus}
use sana_v.Orchestration.Run.{SearchRun, is_terminal}
use sana_v.Orchestration.Run.Loading as RunLoading
use sana_v.Orchestration.Step
use sana_v.Orchestration.Step.{SearchStep}
use sana_v.Orchestration.Attempt
use sana_v.Orchestration.Attempt.{StepAttempt}
use sana_v.Orchestration.Lease.{is_running}
use sana_v.Execution.Values.{ExecutionDisposition, ClaimedStep}
use sana_v.Execution.Tables.{
  Tables, find_step, first_where, has_run_id, get_step, get_run, loaded, save_step, save_run,
  complete_attempt, step_values,
}
use sana_v.Execution.Store.{Store, Moment, after, add_successors, record_event, attempt_limit}
use sana_v.Execution.Moves.{Saved, is_let_go}
use sana_v.Orchestration.Values.{BudgetSnapshot}
use sana_v.Execution.Moves.Parts.{
  Loaded, get_step-Loaded, Loaded-Saved, add_successors-Added, complete_attempt-written, told-Same,
}
use sana_v.Execution.Moves.Finishing.{fail_step-LetGo}
use sana_v.Execution.System.Exclusion.Rows.{Saved-own}
use sana_v.Execution.Store.Finish.{
  fail, fail_in_run, fail_step, decide_retry, retry_or_fail, may_retry, retry_delay,
  is_cancelled_category, holds, with_held,
}

-- The delay doubles with each attempt, and stops at its maximum.
pub retry_delay-le_max : (store : Store) (n : ℕ) → retry_delay store n ≤ store.retry_max
retry_delay-le_max store n = ground arith

-- What is said of a step that is put off, from the loaded step and the run.
record PutOff (store : Store) (now : DateTime) (c : ClaimedStep) (e : TypedError)
    (step : SearchStep) (run : SearchRun) (out : SearchStep) : Type 0 where
  retryable : e.retryable ≡ true
  below_limit : c.attempt.attempt_no < attempt_limit store step.step_type
  at : DateTime
  when : at.instant ≡ now.instant + retry_delay store c.attempt.attempt_no
  in_time : at.instant < run.budget.hard_deadline_at.instant
  waits : out ≡ record step {
    status = StepStatus.retry_wait;
    retry_at = some at;
    version = step.version + 1;
  }

may_retry-true :
    (store : Store) (c : ClaimedStep) (e : TypedError) (step : SearchStep) (run : SearchRun)
    (at : DateTime)
    → may_retry store c e step run at ≡ ok true
    → (e.retryable ≡ true)
      × (c.attempt.attempt_no < attempt_limit store step.step_type)
      × (at.instant < run.budget.hard_deadline_at.instant)
unfolding may_retry
may_retry-true store c e step run at h = ground arith

shift-later :
    (t : DateTime) (d : ℕ) {t' : DateTime} → shift t (pos d) ≡ ok t' → t'.instant ≡ t.instant + d
unfolding shift
shift-later t d h = ground arith

retried-waits :
    (at : DateTime) (s : SearchStep) {s' : SearchStep}
    → after (Step.retry_later at) s ≡ ok s'
    → s' ≡ record s { status = StepStatus.retry_wait; retry_at = some at; version = s.version + 1 }
unfolding Step.retry_later
retried-waits at s h = ground arith

-- The disposition says that the step is to be tried again.
abbrev Again : (Tables × ClaimedStep × ExecutionDisposition) → Type 0
Again out = out.2 ≡ ExecutionDisposition.retry_scheduled

decide-PutOff :
    (store : Store) (now : DateTime) (c : ClaimedStep) (e : TypedError) (step : SearchStep)
    (run : SearchRun) {out : SearchStep × ExecutionDisposition × String}
    → fail_step store now c e step run ≡ ok out
    → out.1 ≡ ExecutionDisposition.retry_scheduled
    → PutOff store now c e step run out.0
unfolding fail_step decide_retry
decide-PutOff store now c e step run {out = out} h again =
    elim (Bool-cases (is_terminal run || is_cancelled_category e.category)) [
      | inl ended ↦ ok-elim (after Step.cancel step) _ (rw ended at h) λ s _ h.
          let d : ExecutionDisposition.cancelled ≡ out.1 = ap (λ x. x.1) (ok-injective h) in
          cc (d, again)
      | inr going ↦
          ok-elim (shift now (pos (retry_delay store c.attempt.attempt_no))) _ (rw going at h)
            λ at shifts h. ok-elim (may_retry store c e step run at) _ h λ may mays h.
              decided at may (shift-later now (retry_delay store c.attempt.attempt_no) shifts) mays
                h
    ]
  where
    decided :
        (at : DateTime) (may : Bool)
        → at.instant ≡ now.instant + retry_delay store c.attempt.attempt_no
        → may_retry store c e step run at ≡ ok may
        → retry_or_fail step at may ≡ ok out
        → PutOff store now c e step run out.0
    decided at false when mays h = ok-elim (after Step.fail step) _ h λ s _ h.
        let d : ExecutionDisposition.failed ≡ out.1 = ap (λ x. x.1) (ok-injective h) in
        cc (d, again)
    decided at true when mays h = ok-elim (after (Step.retry_later at) step) _ h λ s waits h.
        let (retryable, below, early) = may_retry-true store c e step run at mays in
        record {
          retryable = retryable;
          below_limit = below;
          at = at;
          when = when;
          in_time = early;
          waits = ap (λ x. x.0) (sym (ok-injective h)) ∙ retried-waits at step waits;
        }

-- A step that has been put off: the attempt was not the last, the error is one to try again, and the
-- row waits for a time that is the delay from now and before the hard deadline of the run.
pub record IsPutOff (store : Store) (m : Moment) (c : ClaimedStep) (e : TypedError) (t t' : Tables)
    : Type 0 where
  pub retryable : e.retryable ≡ true
  pub step : SearchStep
  pub here : find_step c.context.step_id t'.steps ≡ some step
  pub waits : step.status ≡ StepStatus.retry_wait
  pub below_limit : c.attempt.attempt_no < attempt_limit store step.step_type
  pub at : DateTime
  pub put_off : step.retry_at ≡ some at
  pub when : at.instant ≡ m.now.instant + retry_delay store c.attempt.attempt_no
  pub delayed : at.instant ≤ m.now.instant + store.retry_max
  pub run : SearchRun
  pub of_run : first_where (has_run_id c.context.run_id) t.runs ≡ some run
  pub in_time : at.instant < run.budget.hard_deadline_at.instant

loaded-run :
    (o : Option SearchRun) {r : SearchRun}
    → loaded RunLoading.rehydrate o ≡ ok (some r)
    → (row : SearchRun) × (o ≡ some row) × (r.budget ≡ row.budget)
unfolding RunLoading.rehydrate
loaded-run none h = cc
loaded-run (some row) h = (row, refl, ground arith)

get_run-row :
    (id : ℕ) (t : Tables) {r : SearchRun}
    → get_run id t ≡ ok (some r)
    → (row : SearchRun) × (first_where (has_run_id id) t.runs ≡ some row) × (r.budget ≡ row.budget)
unfolding get_run
get_run-row id t h = loaded-run (first_where (has_run_id id) t.runs) h

PutOff-IsPutOff :
    (store : Store) (m : Moment) (c : ClaimedStep) (e : TypedError) (t t' : Tables)
    (loaded_step : SearchStep) (run : SearchRun) (step : SearchStep)
    → Loaded c.context.step_id t loaded_step
    → get_run c.context.run_id t ≡ ok (some run)
    → PutOff store m.now c e loaded_step run step
    → Saved t t' step is_running is_let_go
    → IsPutOff store m c e t t'
PutOff-IsPutOff store m c e t t' loaded_step run step found of_run off saved =
    let there = get_run-row c.context.run_id t of_run in
    let id : step.id ≡ c.context.step_id =
      ap (λ (s : SearchStep). s.id) off.waits ∙ found.same_id in
    let same : found.row ≡ saved.row =
      ap (λ o. or_else o found.row)
        (sym found.here ∙ ap (λ k. find_step k t.steps) (sym id) ∙ saved.here) in
    let type : loaded_step.step_type ≡ saved.row.step_type =
      found.same_type ∙ ap (λ (s : SearchStep). s.step_type) same in
    record {
      retryable = off.retryable;
      step = step_values step saved.row;
      here = ap (λ k. find_step k t'.steps) (sym id) ∙ Saved-own saved;
      waits = ap (λ (s : SearchStep). s.status) off.waits;
      below_limit =
          subst (λ ty. c.attempt.attempt_no < attempt_limit store ty) type off.below_limit;
      at = off.at;
      put_off = ap (λ (s : SearchStep). s.retry_at) off.waits;
      when = off.when;
      delayed =
          let le = retry_delay-le_max store c.attempt.attempt_no in
          let e = off.when in omega (arith, le, e);
      run = there.0;
      of_run = there.1;
      in_time =
          subst (λ (b : BudgetSnapshot). off.at.instant < b.hard_deadline_at.instant) there.2
            off.in_time;
    }

module _ (store : Store) (m : Moment) (c : ClaimedStep) (e : TypedError) (t : Tables)
    {out : Tables × ClaimedStep × ExecutionDisposition} (again : Again out) where
  in_run-IsPutOff :
      (step : SearchStep) (run : Option SearchRun)
      → Loaded c.context.step_id t step
      → is_running step.status ≡ true
      → get_run c.context.run_id t ≡ ok run
      → fail_in_run store m c e step t run ≡ ok out
      → IsPutOff store m c e t out.0
  in_run-IsPutOff step none found runs of_run h =
      let d : ExecutionDisposition.stale ≡ out.2 = ap (λ x. x.2) (ok-injective h) in cc (d, again)
  in_run-IsPutOff step (some run) found runs of_run h =
      ok-elim (after (Attempt.fail e m.now) c.attempt) _ h λ attempt ends h.
        ok-elim (fail_step store m.now c e step run) _ h λ outcome decides h.
          ok-elim (store.completion.on_failure t run outcome.0 e outcome.1) _ h λ hooked _ h.
            ok-elim (add_successors hooked.added t) _ h λ grown grows h.
              ok-elim (complete_attempt attempt grown) _ h λ completed completes h.
                ok-elim (save_step outcome.0 completed) _ h λ saved saves h.
                  ok-elim (save_run hooked.run saved) _ h λ noted notes h.
                    ok-elim (record_event m hooked.run _ _ noted) _ h λ told tells h.
                      let d : outcome.1 ≡ ExecutionDisposition.retry_scheduled =
                        ap (λ x. x.2) (ok-injective h) ∙ again in
                      let off = decide-PutOff store m.now c e step run decides d in
                      let new = add_successors-Added hooked.added t grows in
                      let let_go = fail_step-LetGo store m.now c e step run decides in
                      let rest = told-Same m hooked.run _ _ saved noted notes tells in
                      subst (IsPutOff store m c e t) (ap (λ x. x.0) (ok-injective h)) (
                        PutOff-IsPutOff store m c e t told step run outcome.0 found of_run off (
                          Loaded-Saved c.context.step_id t completed saved told step outcome.0 found
                            let_go.0 runs let_go.1 new.added new.fresh
                            ((complete_attempt-written attempt grown completes).0 ∙ new.steps) saves
                            rest.steps))

  step-IsPutOff :
      (step : Option SearchStep)
      → get_step c.context.step_id t ≡ ok step
      → with_held c t ExecutionDisposition.stale
          (λ step. get_run c.context.run_id t >>= fail_in_run store m c e step t)
          step
        ≡ ok out
      → IsPutOff store m c e t out.0
  step-IsPutOff none found h =
      let d : ExecutionDisposition.stale ≡ out.2 = ap (λ x. x.2) (ok-injective h) in cc (d, again)
  step-IsPutOff (some step) found h = elim (Bool-cases (holds c t (some step))) [
    | inl held ↦ ok-elim (get_run c.context.run_id t) _ (rw held at h) λ run of_run h.
        in_run-IsPutOff step run (get_step-Loaded c.context.step_id t found) (ground arith) of_run h
    | inr lost ↦
        let d : ExecutionDisposition.stale ≡ out.2 = ap (λ x. x.2) (ok-injective (rw lost at h)) in
        cc (d, again)
  ]

-- Where `fail` answers RETRY_SCHEDULED, the error is one to try again, the attempt's number is below
-- the limit for the type of the step, and the row of the step waits, for the delay of this attempt,
-- which is at most the maximum, until a time before the hard deadline of the run.
pub fail-IsPutOff :
    (store : Store) (m : Moment) (c : ClaimedStep) (e : TypedError) (t : Tables)
    {out : Tables × ClaimedStep × ExecutionDisposition}
    → fail store m c e t ≡ ok out
    → out.2 ≡ ExecutionDisposition.retry_scheduled
    → IsPutOff store m c e t out.0
unfolding fail
fail-IsPutOff store m c e t h again =
    ok-elim (get_step c.context.step_id t) _ h
      λ step found h. step-IsPutOff store m c e t again step found h
