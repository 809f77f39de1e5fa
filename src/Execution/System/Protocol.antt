-- ===== src/Execution/System/Protocol.antt =====
-- Every committed transaction is one move of the tables, and keeps the claims issued.
use sana_v.Base.{
  ℕ, ◌≡◌, refl, sym, ap, ◌∙◌, subst, arith, Bool, Bool-cases, true, false, ◌==◌, Option, none, some,
  List, [], ◌∷◌, inl, inr, if◌then◌else◌, Among,
}
use sana_v.Orchestration.Attempt.{StepAttempt, is_complete}
use sana_v.Execution.Values.{ClaimedStep}
use sana_v.Execution.Tables.{
  Tables, find_attempt, has_attempt_id, update_where, is_open_row, completed_values, is_renewable,
}
use sana_v.Execution.Tables.Laws.{first_where-append, first_where-update}
use sana_v.Execution.Store.{Store}
use sana_v.Execution.Recovery.{is_expired_row, expired_values}
use sana_v.Execution.Moves.{
  Move, quiet, created, refused, granted, finished, renewed, retried, recovered, Issued, Closed,
}
use sana_v.Execution.Moves.Parts.{add_successors-Added}
use sana_v.Execution.Moves.Claiming.{claim-Outcome}
use sana_v.Execution.Moves.Finishing.{succeed-Outcome, fail-Outcome, renew-Outcome}
use sana_v.Execution.Moves.Recovering.{make_ready-Move}
use sana_v.Execution.System.{System, Step, with_answer}

-- The row of an attempt after a move: it is of the same step, and if it was complete, it is the same.
record RowAfter (id : ℕ) (row : StepAttempt) (t' : Tables) : Type 0 where
  row' : StepAttempt
  here : find_attempt id t'.attempts ≡ some row'
  of_step : row'.step_id ≡ row.step_id
  closed : is_complete row ≡ true → row' ≡ row

same-RowAfter :
    (id : ℕ) (row : StepAttempt) (t t' : Tables)
    → find_attempt id t.attempts ≡ some row
    → t'.attempts ≡ t.attempts
    → RowAfter id row t'
same-RowAfter id row t t' h same = record {
  row' = row;
  here = ap (find_attempt id) same ∙ h;
  of_step = refl;
  closed = λ _. refl;
}

update-RowAfter :
    (id : ℕ) (row : StepAttempt) (t t' : Tables) (p : StepAttempt → Bool)
    (f : StepAttempt → StepAttempt)
    → ((x : StepAttempt) → (f x).id ≡ x.id)
    → ((x : StepAttempt) → (f x).step_id ≡ x.step_id)
    → (is_complete row ≡ true → p row ≡ false)
    → find_attempt id t.attempts ≡ some row
    → t'.attempts ≡ update_where p f t.attempts
    → RowAfter id row t'
update-RowAfter id row t t' p f same_id same_step misses h written =
    let there =
      ap (find_attempt id) written
      ∙ first_where-update (has_attempt_id id) p f row t.attempts
          (λ x. ap (λ n. n == id) (same_id x)) h in
    record {
      row' = if p row then f row else row;
      here = there;
      of_step = elim (Bool-cases (p row)) [
        | inl hit ↦ rw hit (same_step row)
        | inr miss ↦ rw miss refl
      ];
      closed = λ complete. rw (misses complete) refl;
    }

Move-RowAfter :
    (id : ℕ) (row : StepAttempt) {t t' : Tables}
    → Move t t'
    → find_attempt id t.attempts ≡ some row
    → RowAfter id row t'
Move-RowAfter id row {t} {t'} (quiet steps attempts) h = same-RowAfter id row t t' h attempts
Move-RowAfter id row {t} {t'} (created added fresh steps attempts) h =
    same-RowAfter id row t t' h attempts
Move-RowAfter id row {t} {t'} (refused step s attempts) h = same-RowAfter id row t t' h attempts
Move-RowAfter id row {t} {t'} (granted step s a of_step new attempts) h = record {
  row' = row;
  here =
      ap (find_attempt id) attempts
      ∙ first_where-append (has_attempt_id id) row t.attempts (a ∷ []) h;
  of_step = refl;
  closed = λ _. refl;
}
Move-RowAfter id row {t} {t'} (finished step s a x complete here of_step open_row attempts) h =
    update-RowAfter id row t t' (is_open_row a.id) (completed_values a) (λ x. refl) (λ x. refl)
      (λ e. ground arith) h attempts
Move-RowAfter id row {t} {t'} (renewed a steps attempts) h =
    update-RowAfter id row t t' (is_renewable a) (λ x. record x { leased_until = a.leased_until })
      (λ x. refl) (λ x. refl) (λ e. ground arith) h attempts
Move-RowAfter id row {t} {t'} (retried step s attempts) h = same-RowAfter id row t t' h attempts
Move-RowAfter id row {t} {t'} (recovered step s now lease latest past attempts) h =
    update-RowAfter id row t t' (is_expired_row step.id now) (expired_values now) (λ x. refl)
      (λ x. refl) (λ e. ground arith) h attempts

pub Move-Issued : {t t' : Tables} (c : ClaimedStep) → Move t t' → Issued c t → Issued c t'
Move-Issued c move issued =
    let after = Move-RowAfter c.attempt.id issued.row move issued.here in
    record { row = after.row'; here = after.here; of_step = after.of_step ∙ issued.of_step }

pub Move-Closed : {t t' : Tables} (c : ClaimedStep) → Move t t' → Closed c t → Closed c t'
Move-Closed c move closed =
    let after = Move-RowAfter c.attempt.id closed.row move closed.here in
    record {
      row = after.row';
      here = after.here;
      complete = ap is_complete (after.closed closed.complete) ∙ closed.complete;
    }

-- The claims that are held are of attempts of the steps that they name.
abbrev pub AllIssued : System → Type 0
AllIssued w = (c : ClaimedStep) → Among c w.claims → Issued c w.tables

same-Issued :
    (c c' : ClaimedStep) (t : Tables)
    → c'.context ≡ c.context
    → c'.attempt.id ≡ c.attempt.id
    → Issued c t
    → Issued c' t
same-Issued c c' t context id issued = record {
  row = issued.row;
  here = ap (λ k. find_attempt k t.attempts) id ∙ issued.here;
  of_step = issued.of_step ∙ ap (λ x. x.step_id) (sym context);
}

-- A committed transaction is one move, and its claims are issued again.
pub Step-Move :
    (store : Store) {w w' : System} → Step store w w' → AllIssued w → Move w.tables w'.tables
Step-Move store (Step.claimed m id worker w t r h) issued =
    (claim-Outcome store m id worker w.tables h).move
Step-Move store (Step.succeeded m c c' result w t d held h) issued =
    (succeed-Outcome store m c w.tables (issued c held) result h).move
Step-Move store (Step.failed m c c' e w t d held h) issued =
    (fail-Outcome store m c w.tables (issued c held) e h).move
Step-Move store (Step.renewed m c c' w t alive held h) issued =
    (renew-Outcome store m c w.tables (issued c held) h).move
Step-Move store (Step.reconciled candidate now w t ready h) issued =
    make_ready-Move candidate now w.tables h
Step-Move store (Step.created steps w t h) issued =
    let new = add_successors-Added steps w.tables h in
    created new.added new.fresh new.steps new.attempts
Step-Move store (Step.runs_written runs events w) issued = quiet refl refl

-- The claims of one more step, of which the first is new.
with-Issued :
    (t t' : Tables) (cs : List ClaimedStep) (new : ClaimedStep)
    → Move t t'
    → ((c : ClaimedStep) → Among c cs → Issued c t)
    → Issued new t'
    → (c : ClaimedStep) → Among c (new ∷ cs)
    → Issued c t'
with-Issued t t' cs new move issued fresh c (inl same) = subst (λ x. Issued x t') (sym same) fresh
with-Issued t t' cs new move issued fresh c (inr old) = Move-Issued c move (issued c old)

kept-Issued :
    (t t' : Tables) (cs : List ClaimedStep)
    → Move t t'
    → ((c : ClaimedStep) → Among c cs → Issued c t)
    → (c : ClaimedStep) → Among c cs
    → Issued c t'
kept-Issued t t' cs move issued c old = Move-Issued c move (issued c old)

answer-Issued :
    (t t' : Tables) (cs : List ClaimedStep) (answer : Option ClaimedStep)
    → Move t t'
    → ((c : ClaimedStep) → Among c cs → Issued c t)
    → ((c : ClaimedStep) → answer ≡ some c → Issued c t')
    → (c : ClaimedStep) → Among c (with_answer answer cs)
    → Issued c t'
answer-Issued t t' cs none move issued fresh = kept-Issued t t' cs move issued
answer-Issued t t' cs (some new) move issued fresh =
    with-Issued t t' cs new move issued (fresh new refl)

pub Step-AllIssued : (store : Store) {w w' : System} → Step store w w' → AllIssued w → AllIssued w'
Step-AllIssued store (Step.claimed m id worker w t r h) issued =
    let out = claim-Outcome store m id worker w.tables h in
    answer-Issued w.tables t w.claims r.claimed out.move issued out.issued
Step-AllIssued store (Step.succeeded m c c' result w t d held h) issued =
    let out = succeed-Outcome store m c w.tables (issued c held) result h in
    with-Issued w.tables t w.claims c' out.move issued (
      same-Issued c c' t out.same_context out.same_attempt (Move-Issued c out.move (issued c held)))
Step-AllIssued store (Step.failed m c c' e w t d held h) issued =
    let out = fail-Outcome store m c w.tables (issued c held) e h in
    with-Issued w.tables t w.claims c' out.move issued (
      same-Issued c c' t out.same_context out.same_attempt (Move-Issued c out.move (issued c held)))
Step-AllIssued store (Step.renewed m c c' w t alive held h) issued =
    let out = renew-Outcome store m c w.tables (issued c held) h in
    with-Issued w.tables t w.claims c' out.move issued (
      same-Issued c c' t out.same_context out.same_attempt (Move-Issued c out.move (issued c held)))
Step-AllIssued store (Step.reconciled candidate now w t ready h) issued =
    kept-Issued w.tables t w.claims (make_ready-Move candidate now w.tables h) issued
Step-AllIssued store (Step.created steps w t h) issued =
    let new = add_successors-Added steps w.tables h in
    kept-Issued w.tables t w.claims (created new.added new.fresh new.steps new.attempts) issued
Step-AllIssued store (Step.runs_written runs events w) issued =
    kept-Issued w.tables (record w.tables { runs = runs; events = events }) w.claims
      (quiet refl refl) issued
