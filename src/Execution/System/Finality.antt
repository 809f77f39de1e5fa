-- ===== src/Execution/System/Finality.antt =====
-- A step that has ended stays as it is.
use sana_v.Base.{
  ℕ, ◌≡◌, sym, ap, ◌∙◌, arith, Bool, Bool-cases, true, false, ◌==◌, ==_iff, some, or_else, inl, inr,
}
use sana_v.Orchestration.Status.{StepStatus}
use sana_v.Orchestration.Step.{SearchStep}
use sana_v.Orchestration.Step.Lifecycle.{is_final}
use sana_v.Orchestration.Lease.{is_ready, is_running}
use sana_v.Execution.Tables.{Tables, find_step, has_step_id}
use sana_v.Execution.Tables.Laws.{first_where-append}
use sana_v.Execution.Recovery.{is_retry_wait}
use sana_v.Execution.Store.{Store}
use sana_v.Execution.Moves.{
  Saved, Move, quiet, created, refused, granted, finished, renewed, retried, recovered,
}
use sana_v.Execution.System.{System, Steps}
use sana_v.Execution.System.Exclusion.Rows.{Saved-other}
use sana_v.Execution.System.Protocol.{Step-Move}
use sana_v.Execution.System.Safety.{IsNew, IsSound, reached-IsSound, Steps-IsSound}

-- Steps that a transaction saves have not ended.
Saved-final :
    {t t' : Tables} {step r : SearchStep} {From To : StepStatus → Bool}
    (s : Saved t t' step From To) (k : ℕ)
    → ((x : StepStatus) → From x ≡ true → is_final x ≡ false)
    → find_step k t.steps ≡ some r
    → is_final r.status ≡ true
    → find_step k t'.steps ≡ some r
Saved-final {t} {t'} {step} {r} s k going h final = elim (Bool-cases (step.id == k)) [
  | inr other ↦ Saved-other s k other h
  | inl same ↦
      let here : find_step k t.steps ≡ some s.row =
        ap (λ i. find_step i t.steps) (sym ((==_iff _ _).0 same)) ∙ s.here in
      let row : r ≡ s.row = ap (λ o. or_else o r) (sym h ∙ here) in
      let ended = going s.row.status s.was in cc (row, ended, final)
]

ready-going : (x : StepStatus) → is_ready x ≡ true → is_final x ≡ false
ready-going x h = ground arith

running-going : (x : StepStatus) → is_running x ≡ true → is_final x ≡ false
running-going x h = ground arith

retry_wait-going : (x : StepStatus) → is_retry_wait x ≡ true → is_final x ≡ false
retry_wait-going x h = ground arith

Move-final :
    {t t' : Tables} (k : ℕ) (r : SearchStep)
    → Move t t'
    → find_step k t.steps ≡ some r
    → is_final r.status ≡ true
    → find_step k t'.steps ≡ some r
Move-final k r (quiet steps attempts) h final = ap (find_step k) steps ∙ h
Move-final {t} k r (created added fresh steps attempts) h final =
    ap (find_step k) steps ∙ first_where-append (has_step_id k) r t.steps added h
Move-final k r (refused step s attempts) h final = Saved-final s k ready-going h final
Move-final k r (granted step s a of_step new attempts) h final = Saved-final s k ready-going h final
Move-final k r (finished step s a row complete here of_step open_row attempts) h final =
    Saved-final s k running-going h final
Move-final k r (renewed a steps attempts) h final = ap (find_step k) steps ∙ h
Move-final k r (retried step s attempts) h final = Saved-final s k retry_wait-going h final
Move-final k r (recovered step s now lease latest past attempts) h final =
    Saved-final s k running-going h final

steps-final :
    (store : Store) {w w' : System} (k : ℕ) (r : SearchStep)
    → IsSound w
    → Steps store w w'
    → find_step k w.tables.steps ≡ some r
    → is_final r.status ≡ true
    → find_step k w'.tables.steps ≡ some r
steps-final store k r sound (Steps.done w) h final = h
steps-final store k r sound (Steps.more u v w before step) h final =
    Move-final k r (Step-Move store step (Steps-IsSound store sound before).issued)
      (steps-final store k r sound before h final) final

-- The row of a step that has succeeded, failed, been skipped or been cancelled never changes again,
-- its output included, whatever transactions follow.
pub final_row_kept :
    (store : Store) {w w1 w2 : System} (step_id : ℕ) (row : SearchStep)
    → IsNew w
    → Steps store w w1
    → find_step step_id w1.tables.steps ≡ some row
    → is_final row.status ≡ true
    → Steps store w1 w2
    → find_step step_id w2.tables.steps ≡ some row
final_row_kept store step_id row new before here final after =
    steps-final store step_id row (reached-IsSound store new before) after here final
