-- ===== src/Orchestration/Step/Lifecycle.antt =====
-- The life of a step over any sequence of calls.
use sana_v.Base.{◌≡◌, refl, List, [], ◌∷◌, arith, Bool, true, false, Option, is_some}
use sana_v.Shared.Errors.{Error, ok, err}
use sana_v.Shared.Method.{run_all, run_all_induction}
use sana_v.Shared.Time.{DateTime}
use sana_v.Orchestration.Status.{StepStatus}
use sana_v.Orchestration.Step.{SearchStep, StepKeys, new_step, rehydrate, is_succeeded}
use sana_v.Orchestration.Step.Calls.{Call, call}

-- A call that raises leaves the step as it was.
pub step_call_atomic :
    (c : Call) (s : SearchStep) {e : Error} → (call c s).0 ≡ err e → (call c s).1 ≡ s
unfolding call
step_call_atomic c s h = ground arith

-- The status of a step in RETRY_WAIT comes with the time of the retry.
abbrev has_retry_time : StepStatus → Option DateTime → Bool
has_retry_time StepStatus.retry_wait at = is_some at
has_retry_time _ at = true

-- What holds of a step between calls: its row loads back to it, its output is there exactly if it
-- has succeeded, and a step that waits has the time of its retry.
pub record IsSound (s : SearchStep) : Type 0 where
  pub loads : rehydrate s ≡ ok (record s { persisted_version = s.version })
  pub output : is_some s.output_ref ≡ is_succeeded s.status
  pub retry : has_retry_time s.status s.retry_at ≡ true

call-IsSound : (c : Call) (s : SearchStep) → IsSound s → IsSound (call c s).1
unfolding call rehydrate
call-IsSound c s h = ground arith

new_step-IsSound : (k : StepKeys) {s : SearchStep} → new_step k ≡ ok s → IsSound s
unfolding new_step rehydrate
new_step-IsSound k h = ground arith

-- Whatever calls are made on a new step, and whichever of them raise: the row of the step loads
-- back to it, it has an output exactly if it has succeeded, and while it waits for a retry the
-- time of the retry is known.
pub steps-IsSound :
    (k : StepKeys) (cs : List Call) {s : SearchStep}
    → new_step k ≡ ok s
    → IsSound (run_all call cs s)
steps-IsSound k cs {s} h = run_all_induction call IsSound call-IsSound cs s (new_step-IsSound k h)

-- SUCCEEDED, FAILED, SKIPPED and CANCELLED are the statuses with no way out.
abbrev pub is_final : StepStatus → Bool
is_final StepStatus.ready = false
is_final StepStatus.running = false
is_final StepStatus.retry_wait = false
is_final _ = true

call-final :
    (c : Call) (s : SearchStep)
    → is_final s.status ≡ true
    → (call c s).1 ≡ record s { persisted_version = (call c s).1.persisted_version }
unfolding call
call-final c s h = ground arith

-- A step that has succeeded, failed, been skipped or been cancelled is never changed again, its
-- output included, but for the version that `mark_persisted` notes.
pub final_absorbs :
    (cs : List Call) (s : SearchStep)
    → is_final s.status ≡ true
    → let s' = run_all call cs s in s' ≡ record s { persisted_version = s'.persisted_version }
unfolding run_all
final_absorbs [] s h = refl
final_absorbs (c ∷ cs) s h =
    let step = call-final c s h in cc (step, final_absorbs cs (call c s).1 (ground arith))
