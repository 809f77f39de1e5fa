-- ===== src/Execution/Moves/Claiming.antt =====
-- `claim` is one move, and the claim that it answers is of the attempt that it adds.
use sana_v.Base.{
  ℕ, ◌≡◌, refl, sym, ap, ◌∙◌, arith, Bool-cases, true, false, subst, Option, none, some, [], String,
  inl, inr,
}
use mathlib.Core.List.{append-nil}
use sana_v.Shared.Errors.{ok, ok-elim, bind-ok, ok-injective, ◌>>=◌}
use sana_v.Shared.Time.{DateTime, le_or_raise}
use sana_v.Orchestration.Status.{StopReason}
use sana_v.Orchestration.Run
use sana_v.Orchestration.Run.{SearchRun, is_terminal}
use sana_v.Orchestration.Step
use sana_v.Orchestration.Step.{SearchStep}
use sana_v.Orchestration.Step.Lifecycle.{is_final}
use sana_v.Orchestration.Attempt.{StepAttempt, is_complete}
use sana_v.Orchestration.Lease
use sana_v.Orchestration.Lease.Safety.{Grants, claim-Grants}
use sana_v.Orchestration.Lease.{is_ready, is_running}
use sana_v.Orchestration.Policy.{deadline_for}
use sana_v.Execution.Values.{
  ExecutionDisposition, ClaimedStep, ClaimResult, StepExecutionContext, new_context, acquired,
}
use sana_v.Execution.Tables.{
  Tables, get_step, get_run, save_step, save_run, add_attempt, find_attempt,
}
use sana_v.Execution.Store.{
  Store, Moment, after, record_event, add_successors, enter, phase_for_step,
}
use sana_v.Execution.Store.Claim.{
  claim, claim_step, claim_in_run, claim_of_ended, claim_admitted, claim_past_hard,
  claim_past_phase, claim_leased, fail_unstarted, take, skip, context_for,
}
use sana_v.Execution.Moves.{Move, quiet, refused, granted, Issued}
use sana_v.Execution.Moves.Parts.{
  save_step-written, add_attempt-written, add_attempt-find, add_successors-Added, Loaded,
  get_step-Loaded, Loaded-Saved, told-Same, Keeps, cancelled-step,
}

new_context_step :
    (c : StepExecutionContext) {c' : StepExecutionContext}
    → new_context c ≡ ok c'
    → c'.step_id ≡ c.step_id
unfolding new_context
new_context_step c h = ground arith

failed-step :
    (s : SearchStep) {s' : SearchStep}
    → fail_unstarted s ≡ ok s'
    → Keeps s s' × (is_final s'.status ≡ true)
unfolding fail_unstarted Step.start Step.fail
failed-step s h = ground arith

-- What a lease gives.
record Taken (s : SearchStep) (a : StepAttempt) (s' : SearchStep) : Type 0 where
  kept : Keeps s s'
  running : is_running s'.status ≡ true
  of_step : a.step_id ≡ s.id
  still_open : is_complete a ≡ false

Grants-Taken :
    {c : Lease.Claim} {s s' : SearchStep} {a : StepAttempt} → Grants c s s' a → Taken s a s'
Grants-Taken g = ground arith

take-Taken :
    (store : Store) (m : Moment) (worker_id : String) (deadline : DateTime) (s : SearchStep)
    (t : Tables) {a : StepAttempt} {s' : SearchStep}
    → take store m worker_id deadline s t ≡ ok (a, s')
    → Taken s a s'
unfolding take
take-Taken store m worker_id deadline s t h =
    let got = bind-ok (Lease.claim store.print store.leases _ s).0 _ h in
    subst (λ (x : StepAttempt × SearchStep). Taken s x.0 x.1) (ok-injective got.2)
      (Grants-Taken (claim-Grants store.print store.leases _ s got.1))

-- The answer to a claim that is granted.
answered :
    (a : StepAttempt) (context : StepExecutionContext) (t : Tables) {out : Tables × ClaimResult}
    → (acquired (record { attempt = a; context = context }) >>= λ answer. ok (t, answer)) ≡ ok out
    → (out.0 ≡ t) × (out.1.claimed ≡ some (record { attempt = a; context = context }))
answered a context t h = ground arith

abbrev claimed_with : StepAttempt → StepExecutionContext → ClaimedStep
claimed_with a context = record { attempt = a; context = context }

answered-Issued :
    (a : StepAttempt) (context : StepExecutionContext) (t : Tables) {t' : Tables} {c : ClaimedStep}
    → find_attempt a.id t'.attempts ≡ some a
    → a.step_id ≡ context.step_id
    → some (claimed_with a context) ≡ some c
    → Issued c t'
answered-Issued a context t {t' = t'} {c = c} here same e =
    subst (λ (x : ClaimedStep). Issued x t') (claim_of e)
      (record { row = a; here = here; of_step = same })
  where
    claim_or : ClaimedStep → Option ClaimedStep → ClaimedStep
    claim_or d none = d
    claim_or d (some x) = x

    claim_of : some (claimed_with a context) ≡ some c → claimed_with a context ≡ c
    claim_of e = ap (claim_or c) e

-- What a claim does: its move, and the attempt that it answers.
pub record Outcome (t : Tables) (out : Tables × ClaimResult) : Type 0 where
  pub move : Move t out.0
  pub issued : (c : ClaimedStep) → out.1.claimed ≡ some c → Issued c out.0

-- An answer without an attempt.
skip-Outcome :
    (d : ExecutionDisposition) (t s : Tables) {out : Tables × ClaimResult}
    → skip d s ≡ ok out
    → Move t s
    → Outcome t out
skip-Outcome d t s {out = out} h move =
    let answer : (out.0 ≡ s) × (out.1.claimed ≡ none) = ground arith in
    record { move = rw answer.0 move; issued = λ c e. cc (answer.1) }

module _ (store : Store) (m : Moment) {id : ℕ} {t : Tables} {step : SearchStep}
    (found : Loaded id t step) (ready : is_ready step.status ≡ true)
    {out : Tables × ClaimResult} where
  of_ended-Outcome : claim_of_ended step t ≡ ok out → Outcome t out
  unfolding claim_of_ended
  of_ended-Outcome h = ok-elim (after Step.cancel step) _ h λ cancelled cancels h.
      ok-elim (save_step cancelled t) _ h λ saved saves h.
        let (kept, final) = cancelled-step step cancels in
        skip-Outcome ExecutionDisposition.cancelled t saved h (
          refused cancelled
            (Loaded-Saved id t t saved saved step cancelled found kept ready final [] tt
              (sym (append-nil t.steps)) saves refl)
            (save_step-written cancelled t saves).1)

  past_hard-Outcome :
      (run : SearchRun) → claim_past_hard store m step run t ≡ ok out → Outcome t out
  unfolding claim_past_hard
  past_hard-Outcome run h = ok-elim (fail_unstarted step) _ h λ failed fails h.
      ok-elim (after (Run.fail StopReason.time_budget m.now) run) _ h λ ended _ h.
        ok-elim (save_step failed t) _ h λ saved saves h.
          ok-elim (save_run ended saved) _ h λ noted notes h.
            ok-elim (record_event m ended _ _ noted) _ h λ told tells h.
              let (kept, final) = failed-step step fails in
              let rest = told-Same m ended _ _ saved noted notes tells in
              skip-Outcome ExecutionDisposition.failed t told h (
                refused failed
                  (Loaded-Saved id t t saved told step failed found kept ready final [] tt
                    (sym (append-nil t.steps)) saves rest.steps)
                  (rest.attempts ∙ (save_step-written failed t saves).1))

  past_phase-Outcome :
      (run : SearchRun) → claim_past_phase store m step run t ≡ ok out → Outcome t out
  unfolding claim_past_phase
  past_phase-Outcome run h = ok-elim (enter run.status m.now run) _ h λ entered _ h.
      ok-elim (fail_unstarted step) _ h λ failed fails h.
        ok-elim (store.completion.on_failure t entered failed _ _) _ h λ hooked _ h.
          ok-elim (add_successors hooked.added t) _ h λ grown grows h.
            ok-elim (save_step failed grown) _ h λ saved saves h.
              ok-elim (save_run hooked.run saved) _ h λ noted notes h.
                ok-elim (record_event m hooked.run _ _ noted) _ h λ told tells h.
                  let (kept, final) = failed-step step fails in
                  let new = add_successors-Added hooked.added t grows in
                  let rest = told-Same m hooked.run _ _ saved noted notes tells in
                  skip-Outcome ExecutionDisposition.failed t told h (
                    refused failed
                      (Loaded-Saved id t grown saved told step failed found kept ready final
                        new.added new.fresh new.steps saves rest.steps)
                      (rest.attempts ∙ (save_step-written failed grown saves).1 ∙ new.attempts))

  leased-Outcome :
      (worker_id : String) (deadline : DateTime) (run : SearchRun)
      → claim_leased store m worker_id deadline step run t ≡ ok out
      → Outcome t out
  unfolding claim_leased
  leased-Outcome worker_id deadline run h = ok-elim (enter run.status m.now run) _ h λ entered _ h.
      ok-elim (take store m worker_id deadline step t) _ h λ taken takes h.
        ok-elim (add_attempt taken.0 t) _ h λ added adds h.
          ok-elim (save_step taken.1 added) _ h λ saved saves h.
            ok-elim (save_run entered saved) _ h λ noted notes h.
              ok-elim (record_event m entered _ _ noted) _ h λ told tells h.
                ok-elim (new_context (context_for taken.1 taken.0 deadline)) _ h λ context makes h.
                  let grants = take-Taken store m worker_id deadline step t takes in
                  let wrote = add_attempt-written taken.0 t adds in
                  let rest = told-Same m entered _ _ saved noted notes tells in
                  let attempts = rest.attempts ∙ (save_step-written taken.1 added saves).1 in
                  let answer = answered taken.0 context told h in
                  let same = grants.of_step ∙ sym (grants.kept.0) in
                  let moved : Move t told =
                    granted taken.1
                      (Loaded-Saved id t added saved told step taken.1 found grants.kept ready
                        grants.running [] tt (wrote.0 ∙ sym (append-nil t.steps)) saves rest.steps)
                      taken.0 same grants.still_open (attempts ∙ wrote.1) in
                  let here =
                    ap (find_attempt taken.0.id) attempts ∙ add_attempt-find taken.0 t adds in
                  record {
                    move = subst (Move t) (sym answer.0) moved;
                    issued = λ c e. subst (Issued c) (sym answer.0) (
                        answered-Issued taken.0 context told {t' = told} here
                          (same
                            ∙ sym (new_context_step (context_for taken.1 taken.0 deadline) makes))
                          (sym answer.1 ∙ e));
                  }

  admitted-Outcome :
      (worker_id : String) (run : SearchRun)
      → claim_admitted store m worker_id step run t ≡ ok out
      → Outcome t out
  unfolding claim_admitted
  admitted-Outcome worker_id run h =
      ok-elim (le_or_raise run.budget.hard_deadline_at m.now) _ h λ past_hard _ h.
        elim (Bool-cases past_hard) [
          | inl late ↦ past_hard-Outcome run (rw late at h)
          | inr early ↦
              ok-elim (deadline_for run.budget (phase_for_step step.step_type)) _ (rw early at h)
                λ deadline _ h. ok-elim (le_or_raise deadline m.now) _ h λ past_phase _ h.
                  elim (Bool-cases past_phase) [
                    | inl late ↦ past_phase-Outcome run (rw late at h)
                    | inr early ↦ leased-Outcome worker_id deadline run (rw early at h)
                  ]
        ]

  in_run-Outcome :
      (worker_id : String) (run : Option SearchRun)
      → claim_in_run store m worker_id step t run ≡ ok out
      → Outcome t out
  in_run-Outcome worker_id none h = skip-Outcome ExecutionDisposition.stale t t h (quiet refl refl)
  in_run-Outcome worker_id (some run) h = elim (Bool-cases (is_terminal run)) [
    | inl ended ↦ of_ended-Outcome (rw ended at h)
    | inr active ↦ admitted-Outcome worker_id run (rw active at h)
  ]

step-Outcome :
    (store : Store) (m : Moment) (worker_id : String) (id : ℕ) (t : Tables)
    (step : Option SearchStep) {out : Tables × ClaimResult}
    → get_step id t ≡ ok step
    → claim_step store m worker_id t step ≡ ok out
    → Outcome t out
step-Outcome store m worker_id id t none found h =
    skip-Outcome ExecutionDisposition.ignored t t h (quiet refl refl)
step-Outcome store m worker_id id t (some step) found h = elim (Bool-cases (is_ready step.status)) [
  | inl ready ↦
      ok-elim (get_run step.run_id t) _ (rw ready at h)
        λ run _ h. in_run-Outcome store m (get_step-Loaded id t found) ready worker_id run h
  | inr other ↦ skip-Outcome ExecutionDisposition.ignored t t (rw other at h) (quiet refl refl)
]

-- A claim that returns makes one move, and what it answers is an attempt of its step.
pub claim-Outcome :
    (store : Store) (m : Moment) (step_id : ℕ) (worker_id : String) (t : Tables)
    {out : Tables × ClaimResult}
    → claim store m step_id worker_id t ≡ ok out
    → Outcome t out
unfolding claim
claim-Outcome store m step_id worker_id t h =
    ok-elim (get_step step_id t) _ h
      λ step found h. step-Outcome store m worker_id step_id t step found h
