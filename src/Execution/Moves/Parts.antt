-- ===== src/Execution/Moves/Parts.antt =====
-- How the parts of an operation on the store read and write the steps.
use sana_v.Base.{
  String, ℕ, ◌≡◌, refl, any, false, sym, ap, ◌∙◌, arith, Bool, true, not, ◌==◌, ==_iff, Option,
  none, some, List, [], ◌∷◌, ◌++◌,
}
use mathlib.Core.List.{append-nil, append_assoc}
use sana_v.Shared.Errors.{Detail, ok, bind-ok, check-rest, ok-injective}
use sana_v.Orchestration.Run.{SearchRun}
use sana_v.Orchestration.Step
use sana_v.Orchestration.Step.Lifecycle.{is_final}
use sana_v.Orchestration.Step.{SearchStep, StepKeys, new_step}
use sana_v.Orchestration.Attempt.{StepAttempt, is_complete}
use sana_v.Orchestration.Lease.{is_ready}
use sana_v.Execution.Tables.{
  Tables, find_attempt, is_same_attempt, find_step, has_step_id, get_step, loaded, save_step,
  save_run, add_step, add_event, add_attempt, complete_attempt, renew_attempt, update_where,
  is_saved_step, step_values, is_open_row, completed_values, is_renewable,
}
use sana_v.Execution.Tables.Laws.{first_where-holds}
use sana_v.Execution.Values.{new_event}
use sana_v.Execution.Store.{Moment, after, record_event, add_successors}
use sana_v.Orchestration.Status.{StepStatus}
use sana_v.Execution.Moves.{AllReady, Saved}

-- Two tables with the same steps, and with the same attempts.
pub record Same (t t' : Tables) : Type 0 where
  pub steps : t'.steps ≡ t.steps
  pub attempts : t'.attempts ≡ t.attempts

pub save_run-Same : (r : SearchRun) (t : Tables) {t' : Tables} → save_run r t ≡ ok t' → Same t t'
unfolding save_run
save_run-Same r t h = ground arith

pub save_step-written :
    (s : SearchStep) (t : Tables) {t' : Tables}
    → save_step s t ≡ ok t'
    → (t'.steps ≡ update_where (is_saved_step s) (step_values s) t.steps)
      × (t'.attempts ≡ t.attempts)
unfolding save_step
save_step-written s t h = ground arith

pub add_attempt-written :
    (a : StepAttempt) (t : Tables) {t' : Tables}
    → add_attempt a t ≡ ok t'
    → (t'.steps ≡ t.steps) × (t'.attempts ≡ t.attempts ++ (a ∷ []))
unfolding add_attempt
add_attempt-written a t h = ground arith

inserted-find :
    (a : StepAttempt) (rows : List StepAttempt)
    → any (is_same_attempt a) rows ≡ false
    → find_attempt a.id (rows ++ (a ∷ [])) ≡ some a
inserted-find a [] h = rw ((==_iff a.id a.id).1 refl) refl
inserted-find a (x ∷ rows) h =
    let other : (x.id == a.id) ≡ false = ground arith in
    let rest : any (is_same_attempt a) rows ≡ false = ground arith in
    rw other (inserted-find a rows rest)

-- An attempt that is added is found.
pub add_attempt-find :
    (a : StepAttempt) (t : Tables) {t' : Tables}
    → add_attempt a t ≡ ok t'
    → find_attempt a.id t'.attempts ≡ some a
unfolding add_attempt
add_attempt-find a t h =
    let fresh =
      check-rest (any (is_same_attempt a) t.attempts) _ _
        (check-rest (not (a.tenant_id == t.tenant_id)) _ _ h).1 in
    ap (λ (x : Tables). find_attempt a.id x.attempts) (sym (ok-injective fresh.1))
    ∙ inserted-find a t.attempts fresh.0

pub complete_attempt-written :
    (a : StepAttempt) (t : Tables) {t' : Tables}
    → complete_attempt a t ≡ ok t'
    → (t'.steps ≡ t.steps)
      × (t'.attempts ≡ update_where (is_open_row a.id) (completed_values a) t.attempts)
      × (is_complete a ≡ true)
unfolding complete_attempt
complete_attempt-written a t h = ground arith

pub renew_attempt-written :
    (a : StepAttempt) (t : Tables) {t' : Tables}
    → renew_attempt a t ≡ ok t'
    → (t'.steps ≡ t.steps)
      × (t'.attempts
          ≡ update_where
              (is_renewable a)
              (λ row. record row { leased_until = a.leased_until })
              t.attempts)
unfolding renew_attempt
renew_attempt-written a t h = ground arith

add_step-written :
    (s : SearchStep) (t : Tables) {t' : Tables}
    → add_step s t ≡ ok t'
    → (t'.steps ≡ t.steps ++ (s ∷ [])) × (t'.attempts ≡ t.attempts)
unfolding add_step
add_step-written s t h = ground arith

new_step-ready : (k : StepKeys) {s : SearchStep} → new_step k ≡ ok s → is_ready s.status ≡ true
unfolding new_step
new_step-ready k h = ground arith

-- The steps that a hook adds are READY.
pub record Added (t t' : Tables) : Type 0 where
  pub added : List SearchStep
  pub fresh : AllReady added
  pub steps : t'.steps ≡ t.steps ++ added
  pub attempts : t'.attempts ≡ t.attempts

pub add_successors-Added :
    (ks : List StepKeys) (t : Tables) {t' : Tables} → add_successors ks t ≡ ok t' → Added t t'
unfolding add_successors
add_successors-Added [] t h = record {
  added = [];
  fresh = tt;
  steps = ap (λ (x : Tables). x.steps) (sym (ok-injective h)) ∙ sym (append-nil t.steps);
  attempts = ap (λ (x : Tables). x.attempts) (sym (ok-injective h));
}
add_successors-Added (k ∷ ks) t h =
    let made = bind-ok (new_step k) _ h in
    let stored = bind-ok (add_step made.0 t) _ made.2 in
    let rest = add_successors-Added ks stored.0 stored.2 in
    let first = add_step-written made.0 t stored.1 in
    record {
      added = made.0 ∷ rest.added;
      fresh = (new_step-ready k made.1, rest.fresh);
      steps =
          rest.steps
          ∙ ap (λ x. x ++ rest.added) first.0
          ∙ append_assoc t.steps (made.0 ∷ []) rest.added;
      attempts = rest.attempts ∙ first.1;
    }

-- A step that is loaded is its row, with the version noted.
pub record Loaded (id : ℕ) (t : Tables) (s : SearchStep) : Type 0 where
  pub row : SearchStep
  pub here : find_step id t.steps ≡ some row
  pub same_id : s.id ≡ id
  pub lock : s.persisted_version ≡ row.version
  pub same_status : s.status ≡ row.status
  pub same_type : s.step_type ≡ row.step_type
  pub same_retry : s.retry_at ≡ row.retry_at

rehydrate-keeps :
    (row : SearchStep) {s : SearchStep}
    → Step.rehydrate row ≡ ok s
    → (s.id ≡ row.id)
      × (s.persisted_version ≡ row.version)
      × (s.status ≡ row.status)
      × (s.step_type ≡ row.step_type)
      × (s.retry_at ≡ row.retry_at)
unfolding Step.rehydrate
rehydrate-keeps row h = ground arith

loaded-row :
    (o : Option SearchStep) {s : SearchStep}
    → loaded Step.rehydrate o ≡ ok (some s)
    → (row : SearchStep) × (o ≡ some row) × (Step.rehydrate row ≡ ok s)
loaded-row none h = cc
loaded-row (some row) h = let done = bind-ok (Step.rehydrate row) _ h in (row, refl, cc)

pub get_step-Loaded :
    (id : ℕ) (t : Tables) {s : SearchStep} → get_step id t ≡ ok (some s) → Loaded id t s
unfolding get_step
get_step-Loaded id t h =
    let found = loaded-row (find_step id t.steps) h in
    let kept = rehydrate-keeps found.0 found.2 in
    record {
      row = found.0;
      here = found.1;
      same_id =
          kept.0 ∙ (==_iff _ id).0 (first_where-holds (has_step_id id) found.0 t.steps found.1);
      lock = kept.1;
      same_status = kept.2;
      same_type = kept.3;
      same_retry = kept.4;
    }

-- A loaded step that is changed and saved, when steps have been added and the run and its event are
-- written, too.
pub Loaded-Saved :
    (id : ℕ) (t s1 s2 t' : Tables) (loaded_step step : SearchStep) {From To : StepStatus → Bool}
    → Loaded id t loaded_step
    → (step.id ≡ loaded_step.id) × (step.persisted_version ≡ loaded_step.persisted_version)
    → From loaded_step.status ≡ true
    → To step.status ≡ true
    → (added : List SearchStep) → AllReady added
    → s1.steps ≡ t.steps ++ added
    → save_step step s1 ≡ ok s2
    → t'.steps ≡ s2.steps
    → Saved t t' step From To
Loaded-Saved id t s1 s2 t' loaded_step step {From = From} l kept was becomes added fresh before save
      rest =
    record {
      row = l.row;
      added = added;
      here = ap (λ k. find_step k t.steps) (kept.0 ∙ l.same_id) ∙ l.here;
      lock = kept.1 ∙ l.lock;
      was = ap From (sym l.same_status) ∙ was;
      becomes = becomes;
      fresh = fresh;
      written =
          rest
          ∙ (save_step-written step s1 save).0
          ∙ ap (update_where (is_saved_step step) (step_values step)) before;
    }

pub record_event-Same :
    (m : Moment) (run : SearchRun) (event_type : String) (payload : List (String × Detail))
    (t : Tables) {t' : Tables}
    → record_event m run event_type payload t ≡ ok t'
    → Same t t'
unfolding record_event new_event add_event
record_event-Same m run event_type payload t h = ground arith

pub Same-trans : {s t u : Tables} → Same s t → Same t u → Same s u
Same-trans a b = record { steps = b.steps ∙ a.steps; attempts = b.attempts ∙ a.attempts }

-- The end of an operation: the run and its event are written.
pub told-Same :
    (m : Moment) (run : SearchRun) (event_type : String) (payload : List (String × Detail))
    (t u : Tables) {t' : Tables}
    → save_run run t ≡ ok u
    → record_event m run event_type payload u ≡ ok t'
    → Same t t'
told-Same m run event_type payload t u noted told =
    Same-trans (save_run-Same run t noted) (record_event-Same m run event_type payload u told)

-- What a step keeps when its methods are called.
abbrev pub Keeps : SearchStep → SearchStep → Type 0
Keeps s s' = (s'.id ≡ s.id) × (s'.persisted_version ≡ s.persisted_version)

pub cancelled-step :
    (s : SearchStep) {s' : SearchStep}
    → after Step.cancel s ≡ ok s'
    → Keeps s s' × (is_final s'.status ≡ true)
unfolding Step.cancel
cancelled-step s h = ground arith
