-- ===== src/Execution/Examples.antt =====
-- The theorems on the execution of steps, on the step that fails and is tried again.
use sana_v.Base.{◌≤◌, ◌≡◌, refl, arith, false, some, [], ◌∷◌, inl, inr, ◌⊎◌, Among}
use sana_v.Shared.Errors.{TypedError, Error, ok, err, typed}
use sana_v.Orchestration.Status.{StepStatus}
use sana_v.Orchestration.Step.{SearchStep}
use sana_v.Execution.Values.{ExecutionDisposition}
use sana_v.Execution.Tables.{find_step}
use sana_v.Execution.Executor.{finalize}
use sana_v.Execution.Executor.Errors.{finalize-IsPutOff}
use sana_v.Execution.Retries.{IsPutOff}
use sana_v.Execution.Recovery.{make_ready}
use sana_v.Execution.Recovery.Leases.{early-make_ready}
use sana_v.Execution.System
use sana_v.Execution.System.{System, Step, Steps}
use sana_v.Execution.System.Exclusion.{open_attempts, allowed}
use sana_v.Execution.System.Safety.{IsNew, Steps-IsExclusive, Moves, Steps-Moves}
use sana_v.Execution.System.Fencing.{Fenced, Finalization, given_back-Fenced, finalized-Fenced}
use sana_v.Execution.System.Finality.{final_row_kept}
use sana_v.Execution.Samples.{
  at, page, step, moment, store, tables, timeout_error, outcome, taken, taken_lem, first_claim,
  put_off, put_off_lem, put_off_again, candidate, ready_again, ready_again_lem, retaken,
  retaken_lem, second_claim, finished, finished_lem,
}

abbrev begun : System
begun = record { tables = tables; claims = [] }

begun-IsNew : IsNew begun
begun-IsNew = record { attempts = refl; claims = refl }

abbrev first_taken : System
first_taken = record { tables = taken.0; claims = System.with_answer taken.1.claimed [] }

abbrev first_failed : System
first_failed = record { tables = put_off.0; claims = put_off.1 ∷ first_taken.claims }

abbrev released : System
released = record first_failed { tables = ready_again.0 }

abbrev second_taken : System
second_taken = record {
  tables = retaken.0;
  claims = System.with_answer retaken.1.claimed released.claims;
}

abbrev second_done : System
second_done = record { tables = finished.0; claims = finished.1 ∷ second_taken.claims }

first_held : Among first_claim first_taken.claims
unfolding taken
first_held = inl refl

second_held : Among second_claim second_taken.claims
unfolding retaken
second_held = inl refl

to_taken : Steps store begun first_taken
to_taken =
    Steps.more begun begun first_taken (Steps.done begun)
      (Step.claimed (moment 1 11) 6 "worker-a" begun taken.0 taken.1 taken_lem)

to_failed : Steps store first_taken first_failed
to_failed = Steps.more first_taken first_taken first_failed (Steps.done first_taken) (
    Step.failed (moment 2 0) first_claim put_off.1 timeout_error first_taken put_off.0 put_off.2
      first_held put_off_lem)

to_released : Steps store begun released
to_released =
    Steps.more begun first_failed released
      (Steps.more begun first_taken first_failed to_taken (
        Step.failed (moment 2 0) first_claim put_off.1 timeout_error first_taken put_off.0 put_off.2
          first_held put_off_lem))
      (Step.reconciled candidate (at 3) first_failed ready_again.0 ready_again.1 ready_again_lem)

released-taken : Steps store released second_taken
released-taken =
    Steps.more released released second_taken (Steps.done released)
      (Step.claimed (moment 4 12) 6 "worker-b" released retaken.0 retaken.1 retaken_lem)

to_retaken : Steps store begun second_taken
to_retaken =
    Steps.more begun released second_taken to_released
      (Step.claimed (moment 4 12) 6 "worker-b" released retaken.0 retaken.1 retaken_lem)

to_done : Steps store begun second_done
to_done = Steps.more begun second_taken second_done to_retaken (
    Step.succeeded (moment 5 0) second_claim finished.1 outcome second_taken finished.0 finished.2
      second_held finished_lem)

Steps-IsExclusive_example :
    (open_attempts 6 retaken.0 ≤ 1)
    × (open_attempts 6 retaken.0 ≤ allowed (find_step 6 retaken.0.steps))
Steps-IsExclusive_example = Steps-IsExclusive store begun-IsNew to_retaken 6

Steps-Moves_example : Moves tables finished.0
Steps-Moves_example = Steps-Moves store begun-IsNew to_done

abbrev ready_row : SearchStep
ready_row = record step { version = 3 }

released_row : find_step 6 ready_again.0.steps ≡ some ready_row
unfolding ready_again
released_row = refl

first_held_later : Among first_claim released.claims
unfolding taken
first_held_later = inr (inl refl)

given_back-Fenced_example : Fenced store first_claim retaken.0
given_back-Fenced_example =
    given_back-Fenced store first_claim begun-IsNew to_released first_held_later released_row refl
      released-taken

not_stale : ¬ (finished.2 ≡ ExecutionDisposition.stale)
unfolding finished
not_stale h = cc

finalized-Fenced_example : Fenced store second_claim finished.0
finalized-Fenced_example =
    finalized-Fenced store second_claim begun-IsNew to_retaken second_held
      (Finalization.by_success (moment 5 0) outcome finished.0 finished.1 finished.2 finished_lem
        not_stale)
      (Steps.done second_done)

abbrev done_row : SearchStep
done_row = record step { status = StepStatus.succeeded; output_ref = some page; version = 5 }

finished_row : find_step 6 finished.0.steps ≡ some done_row
unfolding finished
finished_row = refl

final_row_kept_example : find_step 6 finished.0.steps ≡ some done_row
final_row_kept_example = final_row_kept store 6 done_row begun-IsNew to_done finished_row refl (
    Steps.more second_done second_done
      (record second_done { tables = record finished.0 { runs = []; events = [] } })
      (Steps.done second_done) (Step.runs_written [] [] second_done))

failed_finalized :
    finalize store (moment 2 0) first_claim (err (typed timeout_error)) taken.0 ≡ ok put_off
unfolding finalize
failed_finalized = put_off_lem

finalize-IsPutOff_example :
    (error : TypedError) × (typed timeout_error ≡ typed error)
    × IsPutOff store (moment 2 0) first_claim error taken.0 put_off.0
finalize-IsPutOff_example =
    finalize-IsPutOff store (moment 2 0) first_claim (typed timeout_error) taken.0 failed_finalized
      put_off_again

abbrev waiting_row : SearchStep
waiting_row = record step { status = StepStatus.retry_wait; retry_at = some (at 3); version = 2 }

waiting : find_step 6 put_off.0.steps ≡ some waiting_row
unfolding put_off
waiting = refl

early-make_ready_example :
    (make_ready candidate (at 2) put_off.0 ≡ ok (put_off.0, false))
    ⊎ ((e : Error) × (make_ready candidate (at 2) put_off.0 ≡ err e))
early-make_ready_example =
    early-make_ready candidate (at 2) put_off.0 waiting_row waiting (omega arith)
