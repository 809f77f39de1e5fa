-- ===== src/Execution/Moves/Finishing/Holding.antt =====
-- A claim that still holds its step, and the end of an operation that lets the step go.
use sana_v.Base.{
  ◌⊎◌, ◌≡◌, refl, sym, ap, ◌∙◌, arith, Bool, true, false, Option, none, some, List, ◌++◌, inr,
  if◌then◌else◌, or_else,
}
use sana_v.Shared.Errors.{TypedError, ok}
use sana_v.Shared.Time.{DateTime}
use sana_v.Orchestration.Values.{ArtifactRef}
use sana_v.Orchestration.Step
use sana_v.Orchestration.Step.{SearchStep}
use sana_v.Orchestration.Attempt
use sana_v.Orchestration.Attempt.{StepAttempt, is_complete}
use sana_v.Orchestration.Lease.{is_running}
use sana_v.Execution.Values.{ExecutionDisposition, ClaimedStep}
use sana_v.Execution.Tables.{
  Tables, find_attempt, has_attempt_id, update_where, is_open_row, completed_values, get_step,
  save_step, complete_attempt,
}
use sana_v.Execution.Store.{after, is_current_row, is_current_attempt}
use sana_v.Execution.Store.Finish.{holds, keep_attempt}
use sana_v.Execution.Tables.Laws.{first_where-holds, first_where-update}
use sana_v.Execution.Moves.{Move, quiet, finished, is_let_go, AllReady, Issued, Closed}
use sana_v.Execution.Moves.Parts.{
  Same, save_step-written, complete_attempt-written, Loaded, get_step-Loaded, Loaded-Saved, Keeps,
}

-- What an operation with a claim does: its move, a claim of the same attempt, and what its answer
-- says.
pub record Outcome {A : Type 0} (Says : Tables → A → Type 0) (t : Tables) (c : ClaimedStep)
    (out : Tables × ClaimedStep × A) : Type 0 where
  pub move : Move t out.0
  pub same_context : out.1.context ≡ c.context
  pub same_attempt : out.1.attempt.id ≡ c.attempt.id
  pub says : Says out.0 out.2

-- The disposition of a finalization: the claim is stale, or its attempt is complete.
abbrev pub Final : ClaimedStep → Tables → ExecutionDisposition → Type 0
Final c t d = (d ≡ ExecutionDisposition.stale) ⊎ Closed c t

abbrev pub Any : Tables → Bool → Type 0
Any t alive = Unit {0}

-- Nothing is written.
pub unchanged :
    {A : Type 0} (Says : Tables → A → Type 0) (t : Tables) (c : ClaimedStep) (a : A)
    → Says t a
    → Outcome Says t c (t, c, a)
unchanged Says t c a h = record {
  move = quiet refl refl;
  same_context = refl;
  same_attempt = refl;
  says = h;
}

pub current-open :
    (c : ClaimedStep) (t : Tables) (o : Option StepAttempt)
    → is_current_row c t o ≡ true
    → (row : StepAttempt) × (o ≡ some row) × (is_complete row ≡ false)
current-open c t none h = cc
current-open c t (some row) h = (row, refl, ground arith)

pub some-injective : {a b : StepAttempt} → some a ≡ some b → a ≡ b
some-injective {a = a} h = ap (λ o. or_else o a) h

-- The step of a claim that still holds it is RUNNING, and the attempt's row is open.
pub record Held (c : ClaimedStep) (t : Tables) (step : SearchStep) : Type 0 where
  pub loaded : Loaded c.context.step_id t step
  pub running : is_running step.status ≡ true
  pub row : StepAttempt
  pub here : find_attempt c.attempt.id t.attempts ≡ some row
  pub of_step : row.step_id ≡ c.context.step_id
  pub open_row : is_complete row ≡ false

pub holds-Held :
    (c : ClaimedStep) (t : Tables) (step : SearchStep)
    → Issued c t
    → get_step c.context.step_id t ≡ ok (some step)
    → holds c t (some step) ≡ true
    → Held c t step
holds-Held c t step issued found h =
    let running : is_running step.status ≡ true = ground arith in
    let current : is_current_attempt c t ≡ true = ground arith in
    let row = current-open c t (find_attempt c.attempt.id t.attempts) current in
    record {
      loaded = get_step-Loaded c.context.step_id t found;
      running = running;
      row = row.0;
      here = row.1;
      of_step =
          ap (λ (r : StepAttempt). r.step_id) (some-injective (sym row.1 ∙ issued.here))
          ∙ issued.of_step;
      open_row = row.2;
    }

-- What an attempt keeps, and that it is complete.
abbrev pub Ended : StepAttempt → StepAttempt → Type 0
Ended a a' = (a'.id ≡ a.id) × (is_complete a' ≡ true)

pub failed-attempt :
    (e : TypedError) (at : DateTime) (a : StepAttempt) {a' : StepAttempt}
    → after (Attempt.fail e at) a ≡ ok a'
    → Ended a a'
unfolding Attempt.fail
failed-attempt e at a h = ground arith

pub succeeded-attempt :
    (o : ArtifactRef) (at : DateTime) (a : StepAttempt) {a' : StepAttempt}
    → after (Attempt.succeed o at) a ≡ ok a'
    → Ended a a'
unfolding Attempt.succeed
succeeded-attempt o at a h = ground arith

pub succeeded-step :
    (o : ArtifactRef) (s : SearchStep) {s' : SearchStep}
    → after (Step.succeed o) s ≡ ok s'
    → Keeps s s' × (is_let_go s'.status ≡ true)
unfolding Step.succeed
succeeded-step o s h = ground arith

pub retried-step :
    (at : DateTime) (s : SearchStep) {s' : SearchStep}
    → after (Step.retry_later at) s ≡ ok s'
    → Keeps s s' × (is_let_go s'.status ≡ true)
unfolding Step.retry_later
retried-step at s h = ground arith

pub failed-step :
    (s : SearchStep) {s' : SearchStep}
    → after Step.fail s ≡ ok s'
    → Keeps s s' × (is_let_go s'.status ≡ true)
unfolding Step.fail
failed-step s h = ground arith

pub cancelled-let_go :
    (s : SearchStep) {s' : SearchStep}
    → after Step.cancel s ≡ ok s'
    → Keeps s s' × (is_let_go s'.status ≡ true)
unfolding Step.cancel
cancelled-let_go s h = ground arith

pub let_go_Outcome :
    {t : Tables} (c : ClaimedStep) (t' : Tables) (a : StepAttempt) (d : ExecutionDisposition)
    → Ended c.attempt a
    → Move t t' × Closed c t'
    → Outcome (Final c) t c (t', keep_attempt c a, d)
let_go_Outcome c t' a d ended done = record {
  move = done.0;
  same_context = refl;
  same_attempt = ended.0;
  says = inr done.1;
}

pub completed-find :
    (a row : StepAttempt) (rows : List StepAttempt)
    → find_attempt a.id rows ≡ some row
    → is_complete row ≡ false
    → find_attempt a.id (update_where (is_open_row a.id) (completed_values a) rows)
      ≡ some (completed_values a row)
completed-find a row rows here open_row =
    let hit : is_open_row a.id row ≡ true =
      rw (first_where-holds (has_attempt_id a.id) row rows here, open_row) refl in
    first_where-update (has_attempt_id a.id) (is_open_row a.id) (completed_values a) row rows
      (λ x. refl) here
    ∙ ap (λ b. some (if b then completed_values a row else row)) hit

-- The end of an operation that lets the step go: the attempt is completed and the step is saved.
pub finish :
    (c : ClaimedStep) (t s1 s2 s3 t' : Tables) (loaded_step step : SearchStep) (a : StepAttempt)
    → Held c t loaded_step
    → Keeps loaded_step step × (is_let_go step.status ≡ true)
    → Ended c.attempt a
    → (added : List SearchStep) → AllReady added
    → s1.steps ≡ t.steps ++ added
    → s1.attempts ≡ t.attempts
    → complete_attempt a s1 ≡ ok s2
    → save_step step s2 ≡ ok s3
    → Same s3 t'
    → Move t t' × Closed c t'
finish c t s1 s2 s3 t' loaded_step step a held kept ended added fresh steps attempts completes saves
      rest =
    let wrote = complete_attempt-written a s1 completes in
    let written =
      rest.attempts
      ∙ (save_step-written step s2 saves).1
      ∙ wrote.1
      ∙ ap (update_where (is_open_row a.id) (completed_values a)) attempts in
    let here = ap (λ k. find_attempt k t.attempts) ended.0 ∙ held.here in
    (
      finished step
          (Loaded-Saved c.context.step_id t s2 s3 t' loaded_step step held.loaded kept.0
            held.running kept.1 added fresh (wrote.0 ∙ steps) saves rest.steps)
          a held.row ended.1 here (held.of_step ∙ sym (kept.0.0 ∙ held.loaded.same_id))
          held.open_row written,
      record {
        row = completed_values a held.row;
        here =
            ap (λ k. find_attempt k t'.attempts) (sym ended.0)
            ∙ ap (find_attempt a.id) written
            ∙ completed-find a held.row t.attempts here held.open_row;
        complete = ended.1;
      },
    )
