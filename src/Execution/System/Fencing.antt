-- ===== src/Execution/System/Fencing.antt =====
-- A worker whose claim is over changes nothing.
use sana_v.Base.{
  ◌≤◌, ◌≡◌, refl, sym, ap, ◌∙◌, subst, arith, Bool, Bool-cases, ◌||◌, true, false, ==_iff, Option,
  none, some, ◌∷◌, inl, inr, Among,
}
use sana_v.Shared.Errors.{TypedError, ok, ok-elim, ok-injective}
use sana_v.Orchestration.Step.{SearchStep}
use sana_v.Orchestration.Attempt.{is_complete}
use sana_v.Orchestration.Lease.{is_ready}
use sana_v.Execution.Values.{ExecutionDisposition, ClaimedStep, StepExecutionResult}
use sana_v.Execution.Tables.{Tables, find_step, has_attempt_id, get_step}
use sana_v.Execution.Tables.Laws.{count_where-found}
use sana_v.Execution.Store.{Store, Moment, is_current_attempt, is_current_row}
use sana_v.Execution.Store.Finish.{Finished, succeed, fail, renew, with_held, holds}
use sana_v.Execution.Recovery.{is_open_of, is_retry_wait}
use sana_v.Execution.Moves.{Issued, Closed}
use sana_v.Execution.Moves.Finishing.{succeed-Outcome, fail-Outcome}
use sana_v.Execution.Moves.Finishing.Holding.{Final}
use sana_v.Execution.System.{System, Step, Steps}
use sana_v.Execution.System.Exclusion.{open_attempts, allowed_in, allowed}
use sana_v.Execution.System.Protocol.{Step-Move, Move-Closed}
use sana_v.Execution.System.Safety.{IsNew, IsSound, reached-IsSound, Steps-IsSound}

-- Every operation on the claim answers that it is stale, or raises, and writes nothing.
pub record Fenced (store : Store) (c : ClaimedStep) (t : Tables) : Type 0 where
  pub no_success :
      (m : Moment) (result : StepExecutionResult)
      (out : Tables × ClaimedStep × ExecutionDisposition)
      → succeed store m c result t ≡ ok out
      → out ≡ (t, c, ExecutionDisposition.stale)
  pub no_failure :
      (m : Moment) (error : TypedError) (out : Tables × ClaimedStep × ExecutionDisposition)
      → fail store m c error t ≡ ok out
      → out ≡ (t, c, ExecutionDisposition.stale)
  pub no_renewal :
      (m : Moment) (out : Tables × ClaimedStep × Bool)
      → renew store m c t ≡ ok out
      → out ≡ (t, c, false)

closed-lost : (c : ClaimedStep) (t : Tables) → Closed c t → is_current_attempt c t ≡ false
closed-lost c t closed =
    ap (is_current_row c t) closed.here ∙ (let e = closed.complete in ground arith)

lost-stale :
    {A : Type 0} (c : ClaimedStep) (t : Tables) (stale : A) (next : SearchStep → Finished A)
    (step : Option SearchStep) {out : Tables × ClaimedStep × A}
    → is_current_attempt c t ≡ false
    → with_held c t stale next step ≡ ok out
    → out ≡ (t, c, stale)
lost-stale c t stale next none lost h = sym (ok-injective h)
lost-stale c t stale next (some step) lost h =
    let gone : holds c t (some step) ≡ false = ground arith in sym (ok-injective (rw gone at h))

closed-Fenced : (store : Store) (c : ClaimedStep) (t : Tables) → Closed c t → Fenced store c t
unfolding succeed fail renew
closed-Fenced store c t closed =
    let lost = closed-lost c t closed in
    record {
      no_success = λ m result out h.
          ok-elim (get_step c.context.step_id t) _ h
            λ step _ h. lost-stale c t ExecutionDisposition.stale _ step lost h;
      no_failure = λ m error out h.
          ok-elim (get_step c.context.step_id t) _ h
            λ step _ h. lost-stale c t ExecutionDisposition.stale _ step lost h;
      no_renewal = λ m out h.
          ok-elim (get_step c.context.step_id t) _ h λ step _ h. lost-stale c t false _ step lost h;
    }

Steps-Closed :
    (store : Store) (c : ClaimedStep) {w w' : System}
    → IsSound w
    → Steps store w w'
    → Closed c w.tables
    → Closed c w'.tables
Steps-Closed store c sound (Steps.done w) closed = closed
Steps-Closed store c sound (Steps.more u v w before step) closed =
    Move-Closed c (Step-Move store step (Steps-IsSound store sound before).issued)
      (Steps-Closed store c sound before closed)

-- Once a step is READY or waits for a retry, every claim on it that has been handed out before is
-- over for good: whatever happens from then on, also when the step has been claimed again, an
-- operation on such a claim that returns answers STALE (for `renew`, False) and writes nothing.
pub given_back-Fenced :
    (store : Store) (c : ClaimedStep) {w w1 w2 : System} {s : SearchStep}
    → IsNew w
    → Steps store w w1
    → Among c w1.claims
    → find_step c.context.step_id w1.tables.steps ≡ some s
    → is_ready s.status || is_retry_wait s.status ≡ true
    → Steps store w1 w2
    → Fenced store c w2.tables
given_back-Fenced store c {w} {w1} {w2} {s} new before held here idle after =
    let sound = reached-IsSound store new before in
    let issued = sound.issued c held in
    let within : open_attempts c.context.step_id w1.tables ≤ allowed_in s.status =
      subst (λ o. open_attempts c.context.step_id w1.tables ≤ allowed o) here
        (sound.exclusive c.context.step_id) in
    let unclaimed : allowed_in s.status ≡ 0 = ground arith in
    elim (Bool-cases (is_complete issued.row)) [
      | inl complete ↦ closed-Fenced store c w2.tables (
          Steps-Closed store c sound after
            (record { row = issued.row; here = issued.here; complete = complete }))
      | inr active ↦
          let counted : is_open_of c.context.step_id issued.row ≡ true =
            rw ((==_iff _ _).1 issued.of_step, active) refl in
          absurd (
            omega (
              arith,
              within,
              unclaimed,
              count_where-found (is_open_of c.context.step_id) (has_attempt_id c.attempt.id)
                  issued.row w1.tables.attempts issued.here counted,
            ))
    ]

-- A claim is settled once: by a `succeed` or a `fail` that does not answer STALE.
pub data Finalization (store : Store) (c : ClaimedStep) (w : System) : System → Type 0 where
  by_success :
      (m : Moment) (result : StepExecutionResult) (t : Tables) (c' : ClaimedStep)
      (d : ExecutionDisposition)
      → succeed store m c result w.tables ≡ ok (t, c', d)
      → ¬ (d ≡ ExecutionDisposition.stale)
      → Finalization store c w (record { tables = t; claims = c' ∷ w.claims })
  by_failure :
      (m : Moment) (error : TypedError) (t : Tables) (c' : ClaimedStep) (d : ExecutionDisposition)
      → fail store m c error w.tables ≡ ok (t, c', d)
      → ¬ (d ≡ ExecutionDisposition.stale)
      → Finalization store c w (record { tables = t; claims = c' ∷ w.claims })

decided :
    {c : ClaimedStep} {t : Tables} {d : ExecutionDisposition}
    → Final c t d
    → ¬ (d ≡ ExecutionDisposition.stale)
    → Closed c t
decided (inl stale) settled = absurd (settled stale)
decided (inr closed) settled = closed

finalized-Steps :
    (store : Store) (c : ClaimedStep) {w w' : System}
    → Among c w.claims
    → Finalization store c w w'
    → Steps store w w'
finalized-Steps store c {w} held (Finalization.by_success m result t c' d h settled) =
    Steps.more w w _ (Steps.done w) (Step.succeeded m c c' result w t d held h)
finalized-Steps store c {w} held (Finalization.by_failure m error t c' d h settled) =
    Steps.more w w _ (Steps.done w) (Step.failed m c c' error w t d held h)

finalized-Closed :
    (store : Store) (c : ClaimedStep) {w w' : System}
    → Issued c w.tables
    → Finalization store c w w'
    → Closed c w'.tables
finalized-Closed store c issued (Finalization.by_success m result t c' d h settled) =
    decided (succeed-Outcome store m c _ issued result h).says settled
finalized-Closed store c issued (Finalization.by_failure m error t c' d h settled) =
    decided (fail-Outcome store m c _ issued error h).says settled

-- A claim is settled at most once: after a `succeed` or a `fail` of it that does not answer STALE,
-- whatever happens, every further operation on the claim that returns answers STALE (for `renew`,
-- False) and writes nothing.
pub finalized-Fenced :
    (store : Store) (c : ClaimedStep) {w w1 w2 w3 : System}
    → IsNew w
    → Steps store w w1
    → Among c w1.claims
    → Finalization store c w1 w2
    → Steps store w2 w3
    → Fenced store c w3.tables
finalized-Fenced store c {w3 = w3} new before held finalization after =
    let sound = reached-IsSound store new before in
    closed-Fenced store c w3.tables (
      Steps-Closed store c (Steps-IsSound store sound (finalized-Steps store c held finalization))
        after (finalized-Closed store c (sound.issued c held) finalization))
