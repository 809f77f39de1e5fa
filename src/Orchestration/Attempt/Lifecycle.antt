-- ===== src/Orchestration/Attempt/Lifecycle.antt =====
-- The life of an attempt over any sequence of calls.
use sana_v.Base.{
  ℕ, ◌≤◌, ◌<◌, ◌≡◌, List, [], ◌∷◌, arith, true, false, xor, Option, none, some, is_some,
}
use sana_v.Shared.Errors.{Error, ok, err}
use sana_v.Shared.Time.{DateTime}
use sana_v.Shared.Method.{run_all, run_all_induction}
use sana_v.Orchestration.Attempt.{StepAttempt, new_attempt, is_complete, lease_expired}
use sana_v.Orchestration.Attempt.Calls.{Call, call}

-- A call that raises leaves the attempt as it was.
pub attempt_call_atomic :
    (c : Call) (a : StepAttempt) {e : Error} → (call c a).0 ≡ err e → (call c a).1 ≡ a
unfolding call
attempt_call_atomic c a h = ground arith

-- The start, or a completion that is not earlier.
abbrev EndedAfter : ℕ → Option DateTime → Type 0
EndedAfter start none = Unit
EndedAfter start (some at) = start ≤ at.instant

-- What holds of an attempt between calls: its lease and its deadline end after it began, it is
-- complete exactly if it has one of an output and an error, and it did not end before it began.
pub record IsSound (a : StepAttempt) : Type 0 where
  pub leased : a.started_at.instant < a.leased_until.instant
  pub limited : a.started_at.instant < a.deadline_at.instant
  pub one_outcome : is_complete a ≡ xor (is_some a.output_ref) (is_some a.error)
  pub no_two : is_complete a ≡ false → (a.output_ref ≡ none) × (a.error ≡ none)
  pub ended : EndedAfter a.started_at.instant a.completed_at

new_attempt-IsSound : (b : StepAttempt) {a : StepAttempt} → new_attempt b ≡ ok a → IsSound a
unfolding new_attempt
new_attempt-IsSound b h = ground arith

call-IsSound : (c : Call) (a : StepAttempt) → IsSound a → IsSound (call c a).1
unfolding call
call-IsSound c a h = ground arith

-- Whatever calls are made on a new attempt, and whichever of them raise: its lease and its
-- deadline end after its start, it is complete exactly if it has an output or an error and never
-- has both, and its completion is not before its start.
pub attempts-IsSound :
    (b : StepAttempt) (cs : List Call) {a : StepAttempt}
    → new_attempt b ≡ ok a
    → IsSound (run_all call cs a)
attempts-IsSound b cs {a} h =
    run_all_induction call IsSound call-IsSound cs a (new_attempt-IsSound b h)

call_complete : (c : Call) (a : StepAttempt) → is_complete a ≡ true → (call c a).1 ≡ a
unfolding call
call_complete c a h = ground arith

-- A complete attempt is never changed by any calls, and its lease counts as expired at no time.
pub complete_absorbs :
    (cs : List Call) (a : StepAttempt) (at : DateTime)
    → is_complete a ≡ true
    → at.is_aware ≡ true
    → (run_all call cs a ≡ a) × (lease_expired (run_all call cs a) at ≡ ok false)
unfolding run_all lease_expired
complete_absorbs [] a at h aware = ground arith
complete_absorbs (c ∷ cs) a at h aware =
    let same = call_complete c a h in
    let (rest, expired) = complete_absorbs cs (call c a).1 at (ground arith) aware in (cc, expired)
