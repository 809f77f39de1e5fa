-- ===== src/Execution/Moves/Finishing.antt =====
-- `succeed`, `fail` and `renew` are one move each, of the attempt of the claim.
pub mod Holding
use sana_v.Base.{
  ◌⊎◌, ℕ, ◌≡◌, refl, sym, ap, ◌∙◌, arith, Bool, Bool-cases, true, false, not, ◌&&◌, Option, none,
  some, List, [], ◌∷◌, ◌++◌, String, inl, inr, if◌then◌else◌, subst, or_else, pos, ◌||◌,
}
use mathlib.Core.List.{append-nil}
use sana_v.Shared.Errors.{TypedError, Result, ok, err, ok-elim, ok-injective}
use sana_v.Shared.Time.{DateTime, le_or_raise, shift}
use sana_v.Orchestration.Values.{ArtifactRef}
use sana_v.Orchestration.Run.{SearchRun, is_terminal}
use sana_v.Orchestration.Step
use sana_v.Orchestration.Step.{SearchStep}
use sana_v.Orchestration.Attempt
use sana_v.Orchestration.Attempt.{StepAttempt, is_complete}
use sana_v.Orchestration.Lease.{is_running, earlier}
use sana_v.Execution.Values.{ExecutionDisposition, ClaimedStep, StepExecutionResult}
use sana_v.Execution.Tables.{
  Tables, find_attempt, has_attempt_id, update_where, is_open_row, completed_values, get_step,
  get_run, save_step, save_run, complete_attempt, renew_attempt,
}
use sana_v.Execution.Store.{
  Store, Moment, after, record_event, add_successors, is_current_row, is_current_attempt,
}
use sana_v.Execution.Store.Finish.{
  Finished, holds, keep_attempt, run_terminal, succeed, succeed_in_run, succeed_ended,
  succeed_active, charge, with_held, extend, renew, decide_retry, retry_or_fail, may_retry,
  fail_step, fail, fail_in_run, retry_delay, is_cancelled_category,
}
use sana_v.Execution.Tables.Laws.{first_where-holds, first_where-update}
use sana_v.Execution.Moves.{
  Saved, Move, quiet, finished, renewed, is_let_go, AllReady, Issued, Closed,
}
use sana_v.Execution.Moves.Parts.{
  Same, save_step-written, complete_attempt-written, renew_attempt-written, add_successors-Added,
  Loaded, get_step-Loaded, Loaded-Saved, told-Same, record_event-Same, Keeps, cancelled-step,
}
use sana_v.Execution.Moves.Finishing.Holding.{
  Any, Ended, Final, Held, Outcome, cancelled-let_go, completed-find, current-open, failed-attempt,
  failed-step, finish, holds-Held, let_go_Outcome, retried-step, some-injective, succeeded-attempt,
  succeeded-step, unchanged,
}

-- What is made of the step of a failure.
abbrev pub LetGo : SearchStep → SearchStep × ExecutionDisposition × String → Type 0
LetGo step out = Keeps step out.0 × (is_let_go out.0.status ≡ true)

retry_or_fail-LetGo :
    (step : SearchStep) (at : DateTime) (again : Bool)
    {out : SearchStep × ExecutionDisposition × String}
    → retry_or_fail step at again ≡ ok out
    → LetGo step out
retry_or_fail-LetGo step at true h =
    ok-elim (after (Step.retry_later at) step) _ h
      λ s waits h. subst (LetGo step) (ok-injective h) (retried-step at step waits)
retry_or_fail-LetGo step at false h =
    ok-elim (after Step.fail step) _ h
      λ s fails h. subst (LetGo step) (ok-injective h) (failed-step step fails)

pub fail_step-LetGo :
    (store : Store) (now : DateTime) (c : ClaimedStep) (e : TypedError) (step : SearchStep)
    (run : SearchRun) {out : SearchStep × ExecutionDisposition × String}
    → fail_step store now c e step run ≡ ok out
    → LetGo step out
unfolding fail_step decide_retry
fail_step-LetGo store now c e step run h =
    elim (Bool-cases (is_terminal run || is_cancelled_category e.category)) [
      | inl ended ↦
          ok-elim (after Step.cancel step) _ (rw ended at h)
            λ s cancels h. subst (LetGo step) (ok-injective h) (cancelled-let_go step cancels)
      | inr going ↦
          ok-elim (shift now (pos (retry_delay store c.attempt.attempt_no))) _ (rw going at h)
            λ at _ h.
              ok-elim (may_retry store c e step run at) _ h
                λ again _ h. retry_or_fail-LetGo step at again h
    ]

module _ (store : Store) (m : Moment) {c : ClaimedStep} {t : Tables} {step : SearchStep}
    (held : Held c t step) {out : Tables × ClaimedStep × ExecutionDisposition} where
  ended-Outcome :
      (run : SearchRun) → succeed_ended store m c step run t ≡ ok out → Outcome (Final c) t c out
  unfolding succeed_ended
  ended-Outcome run h =
      ok-elim (after (Attempt.fail run_terminal m.now) c.attempt) _ h λ attempt ends h.
        ok-elim (after Step.cancel step) _ h λ cancelled cancels h.
          ok-elim (complete_attempt attempt t) _ h λ completed completes h.
            ok-elim (save_step cancelled completed) _ h λ saved saves h.
              ok-elim (record_event m run _ _ saved) _ h λ told tells h.
                let ended = failed-attempt run_terminal m.now c.attempt ends in
                subst (Outcome (Final c) t c) (ok-injective h) (
                  let_go_Outcome c told attempt ExecutionDisposition.cancelled ended (
                    finish c t t completed saved told step cancelled attempt held
                      (cancelled-let_go step cancels) ended [] tt (sym (append-nil t.steps)) refl
                      completes saves (record_event-Same m run _ _ saved tells)))

  active-Outcome :
      (result : StepExecutionResult) (run : SearchRun)
      → succeed_active store m c result step run t ≡ ok out
      → Outcome (Final c) t c out
  unfolding succeed_active
  active-Outcome result run h =
      ok-elim (after (Attempt.succeed result.output_ref m.now) c.attempt) _ h λ attempt ends h.
        ok-elim (after (Step.succeed result.output_ref) step) _ h λ done succeeds h.
          ok-elim (charge m c result run) _ h λ charged _ h.
            ok-elim (store.completion.on_success t charged done result) _ h λ hooked _ h.
              ok-elim (add_successors hooked.added t) _ h λ grown grows h.
                ok-elim (complete_attempt attempt grown) _ h λ completed completes h.
                  ok-elim (save_step done completed) _ h λ saved saves h.
                    ok-elim (save_run hooked.run saved) _ h λ noted notes h.
                      ok-elim (record_event m hooked.run _ _ noted) _ h λ told tells h.
                        let ended = succeeded-attempt result.output_ref m.now c.attempt ends in
                        let new = add_successors-Added hooked.added t grows in
                        subst (Outcome (Final c) t c) (ok-injective h) (
                          let_go_Outcome c told attempt ExecutionDisposition.succeeded ended (
                            finish c t grown completed saved told step done attempt held
                              (succeeded-step result.output_ref step succeeds) ended new.added
                              new.fresh new.steps new.attempts completes saves
                              (told-Same m hooked.run _ _ saved noted notes tells)))

  succeed_in_run-Outcome :
      (result : StepExecutionResult) (run : Option SearchRun)
      → succeed_in_run store m c result step t run ≡ ok out
      → Outcome (Final c) t c out
  succeed_in_run-Outcome result none h =
      subst (Outcome (Final c) t c) (ok-injective h)
        (unchanged (Final c) t c ExecutionDisposition.stale (inl refl))
  succeed_in_run-Outcome result (some run) h = elim (Bool-cases (is_terminal run)) [
    | inl ended ↦ ended-Outcome run (rw ended at h)
    | inr going ↦ active-Outcome result run (rw going at h)
  ]

  fail_in_run-Outcome :
      (e : TypedError) (run : Option SearchRun)
      → fail_in_run store m c e step t run ≡ ok out
      → Outcome (Final c) t c out
  fail_in_run-Outcome e none h =
      subst (Outcome (Final c) t c) (ok-injective h)
        (unchanged (Final c) t c ExecutionDisposition.stale (inl refl))
  fail_in_run-Outcome e (some run) h =
      ok-elim (after (Attempt.fail e m.now) c.attempt) _ h λ attempt ends h.
        ok-elim (fail_step store m.now c e step run) _ h λ outcome decides h.
          ok-elim (store.completion.on_failure t run outcome.0 e outcome.1) _ h λ hooked _ h.
            ok-elim (add_successors hooked.added t) _ h λ grown grows h.
              ok-elim (complete_attempt attempt grown) _ h λ completed completes h.
                ok-elim (save_step outcome.0 completed) _ h λ saved saves h.
                  ok-elim (save_run hooked.run saved) _ h λ noted notes h.
                    ok-elim (record_event m hooked.run _ _ noted) _ h λ told tells h.
                      let ended = failed-attempt e m.now c.attempt ends in
                      let new = add_successors-Added hooked.added t grows in
                      subst (Outcome (Final c) t c) (ok-injective h) (
                        let_go_Outcome c told attempt outcome.1 ended (
                          finish c t grown completed saved told step outcome.0 attempt held
                            (fail_step-LetGo store m.now c e step run decides) ended new.added
                            new.fresh new.steps new.attempts completes saves
                            (told-Same m hooked.run _ _ saved noted notes tells)))

renewed-attempt :
    (until : DateTime) (a : StepAttempt) {a' : StepAttempt}
    → after (Attempt.renew_lease until) a ≡ ok a'
    → a'.id ≡ a.id
unfolding Attempt.renew_lease
renewed-attempt until a h = ground arith

extend-Outcome :
    (store : Store) (m : Moment) (c : ClaimedStep) (t : Tables) {out : Tables × ClaimedStep × Bool}
    → extend store m c t ≡ ok out
    → Outcome Any t c out
unfolding extend
extend-Outcome store m c t h = ok-elim (shift m.now store.lease_extension) _ h λ limit _ h.
    let until = earlier c.context.deadline_at limit in
    ok-elim (le_or_raise until c.attempt.leased_until) _ h λ past _ h. elim (Bool-cases past) [
      | inl long ↦ subst (Outcome Any t c) (ok-injective (rw long at h)) (unchanged Any t c true tt)
      | inr short ↦
          ok-elim (after (Attempt.renew_lease until) c.attempt) _ (rw short at h) λ a renews h.
            ok-elim (renew_attempt a t) _ h λ written writes h.
              let wrote = renew_attempt-written a t writes in
              subst (Outcome Any t c) (ok-injective h) (record {
                move = renewed a wrote.0 wrote.1;
                same_context = refl;
                same_attempt = renewed-attempt until c.attempt renews;
                says = tt;
              })
    ]

-- An operation on a claim: either the claim no longer holds the step, or the rest goes on with it.
with_held-Outcome :
    {A : Type 0} (Says : Tables → A → Type 0) (c : ClaimedStep) (t : Tables) (stale : A)
    (next : SearchStep → Finished A) (step : Option SearchStep) {out : Tables × ClaimedStep × A}
    → Issued c t
    → Says t stale
    → get_step c.context.step_id t ≡ ok step
    → with_held c t stale next step ≡ ok out
    → ((s : SearchStep) → Held c t s → next s ≡ ok out → Outcome Says t c out)
    → Outcome Says t c out
with_held-Outcome Says c t stale next none issued says found h go =
    subst (Outcome Says t c) (ok-injective h) (unchanged Says t c stale says)
with_held-Outcome Says c t stale next (some step) issued says found h go =
    elim (Bool-cases (holds c t (some step))) [
      | inl held ↦ go step (holds-Held c t step issued found held) (rw held at h)
      | inr lost ↦
          subst (Outcome Says t c) (ok-injective (rw lost at h)) (unchanged Says t c stale says)
    ]

module _ (store : Store) (m : Moment) (c : ClaimedStep) (t : Tables) (issued : Issued c t) where
  -- Each operation on a claim that returns makes one move.
  pub succeed-Outcome :
      (result : StepExecutionResult) {out : Tables × ClaimedStep × ExecutionDisposition}
      → succeed store m c result t ≡ ok out
      → Outcome (Final c) t c out
  unfolding succeed
  succeed-Outcome result h = ok-elim (get_step c.context.step_id t) _ h λ step found h.
      with_held-Outcome (Final c) c t ExecutionDisposition.stale _ step issued (inl refl) found h
        λ s held h.
          ok-elim (get_run c.context.run_id t) _ h
            λ run _ h. succeed_in_run-Outcome store m held result run h

  pub fail-Outcome :
      (e : TypedError) {out : Tables × ClaimedStep × ExecutionDisposition}
      → fail store m c e t ≡ ok out
      → Outcome (Final c) t c out
  unfolding fail
  fail-Outcome e h = ok-elim (get_step c.context.step_id t) _ h λ step found h.
      with_held-Outcome (Final c) c t ExecutionDisposition.stale _ step issued (inl refl) found h
        λ s held h.
          ok-elim (get_run c.context.run_id t) _ h
            λ run _ h. fail_in_run-Outcome store m held e run h

  pub renew-Outcome :
      {out : Tables × ClaimedStep × Bool} → renew store m c t ≡ ok out → Outcome Any t c out
  unfolding renew
  renew-Outcome h = ok-elim (get_step c.context.step_id t) _ h λ step found h.
      with_held-Outcome Any c t false _ step issued tt found h λ s held h.
        ok-elim (le_or_raise c.context.deadline_at m.now) _ h λ late _ h. elim (Bool-cases late) [
          | inl over ↦
              subst (Outcome Any t c) (ok-injective (rw over at h)) (unchanged Any t c false tt)
          | inr early ↦ extend-Outcome store m c t (rw early at h)
        ]
