-- ===== src/Execution/System/Exclusion/Moves.antt =====
-- Every move keeps at most one attempt of a step open.
use sana_v.Base.{
  ℕ, ◌+◌, ◌≤◌, ◌≡◌, refl, sym, ap, ◌∙◌, subst, arith, Bool, Option-cases, true, false, ==_iff, some,
  [], ◌∷◌, ◌++◌, inl, inr,
}
use sana_v.Shared.Time.{DateTime}
use sana_v.Orchestration.Status.{StepStatus}
use sana_v.Orchestration.Step.{SearchStep}
use sana_v.Orchestration.Attempt.{StepAttempt, is_complete}
use sana_v.Orchestration.Lease.{is_ready, is_running}
use sana_v.Execution.Tables.{
  Tables, find_step, has_step_id, update_where, count_where, is_open_row, completed_values,
  is_renewable, has_attempt_id, find_attempt,
}
use sana_v.Execution.Tables.Laws.{
  first_where-holds, first_where-append, count_where-append, count_where-update_le,
  count_where-update_lt,
}
use sana_v.Execution.Recovery.{
  is_open_of, is_expired_row, expired_values, latest_lease, is_retry_wait,
}
use sana_v.Execution.Moves.{
  Saved, Move, quiet, created, refused, granted, finished, renewed, retried, recovered, is_let_go,
}
use sana_v.Execution.System.Exclusion.{open_attempts, allowed_in, allowed, IsExclusive}
use sana_v.Execution.System.Exclusion.Rows.{
  Saved-IsExclusive, own-before, IsOver, expire_all, completed-closed, expired-closed,
}

-- Where the attempts stay as they are, and the steps that were there, too.
steady-IsExclusive :
    (t t' : Tables)
    → ((k : ℕ) → open_attempts k t' ≤ open_attempts k t)
    → ((k : ℕ) (r : SearchStep) → find_step k t.steps ≡ some r → find_step k t'.steps ≡ some r)
    → IsExclusive t
    → IsExclusive t'
steady-IsExclusive t t' attempts steps inv k = elim (Option-cases (find_step k t.steps)) [
  | inl absent ↦
      let before : open_attempts k t ≤ 0 =
        subst (λ o. open_attempts k t ≤ allowed o) absent (inv k) in
      omega (arith, attempts k, before)
  | inr (r, here) ↦
      let before : open_attempts k t ≤ allowed_in r.status =
        subst (λ o. open_attempts k t ≤ allowed o) here (inv k) in
      subst (λ o. open_attempts k t' ≤ allowed o) (sym (steps k r here))
        (omega (arith, attempts k, before))
]

same-open :
    (t t' : Tables) → t'.attempts ≡ t.attempts → (k : ℕ) → open_attempts k t' ≤ open_attempts k t
same-open t t' attempts k =
    let same : open_attempts k t' ≡ open_attempts k t = ap (count_where (is_open_of k)) attempts in
    omega (arith, same)

-- A step that may have no open attempt has none.
none-open : (s : StepStatus) (n : ℕ) → n ≤ allowed_in s → allowed_in s ≡ 0 → n ≡ 0
none-open s n h e = omega (arith, h, e)

ready-none : (s : StepStatus) → is_ready s ≡ true → allowed_in s ≡ 0
ready-none s h = ground arith

retry_wait-none : (s : StepStatus) → is_retry_wait s ≡ true → allowed_in s ≡ 0
retry_wait-none s h = ground arith

running-one : (s : StepStatus) → is_running s ≡ true → allowed_in s ≡ 1
running-one s h = ground arith

-- A step without open attempts is saved, and the attempts stay as they are.
idle-IsExclusive :
    {t t' : Tables} {step : SearchStep} {From To : StepStatus → Bool} (s : Saved t t' step From To)
    → allowed_in s.row.status ≡ 0
    → t'.attempts ≡ t.attempts
    → IsExclusive t
    → IsExclusive t'
idle-IsExclusive {t} {t'} {step} s idle attempts inv =
    let before = none-open s.row.status (open_attempts step.id t) (own-before s inv) idle in
    let same = same-open t t' attempts in
    Saved-IsExclusive s (λ k _. same k) (omega (arith, same step.id, before)) inv

granted-IsExclusive :
    {t t' : Tables} {step : SearchStep} (s : Saved t t' step is_ready is_running) (a : StepAttempt)
    → a.step_id ≡ step.id
    → t'.attempts ≡ t.attempts ++ (a ∷ [])
    → IsExclusive t
    → IsExclusive t'
granted-IsExclusive {t} {t'} {step} s a of_step attempts inv =
    let count : (k : ℕ)
        → open_attempts k t' ≡ open_attempts k t + count_where (is_open_of k) (a ∷ []) =
      λ k.
        ap (count_where (is_open_of k)) attempts
        ∙ count_where-append (is_open_of k) t.attempts (a ∷ []) in
    let before =
      none-open s.row.status (open_attempts step.id t) (own-before s inv)
        (ready-none s.row.status s.was) in
    Saved-IsExclusive s (λ k other. let e = count k in ground arith)
      (let e = count step.id in let one = running-one step.status s.becomes in ground arith) inv

finished-IsExclusive :
    {t t' : Tables} {step : SearchStep} (s : Saved t t' step is_running is_let_go)
    (a row : StepAttempt)
    → is_complete a ≡ true
    → find_attempt a.id t.attempts ≡ some row
    → row.step_id ≡ step.id
    → is_complete row ≡ false
    → t'.attempts ≡ update_where (is_open_row a.id) (completed_values a) t.attempts
    → IsExclusive t
    → IsExclusive t'
finished-IsExclusive {t} {t'} {step} s a row complete here of_step open_row attempts inv =
    let one = running-one s.row.status s.was in
    let before = own-before s inv in
    let hit : is_open_row a.id row ≡ true =
      rw (first_where-holds (has_attempt_id a.id) row t.attempts here, open_row) refl in
    let was : is_open_of step.id row ≡ true = rw ((==_iff _ _).1 of_step, open_row) refl in
    let out : is_open_of step.id (completed_values a row) ≡ false = ground arith in
    let after : open_attempts step.id t' + 1 ≤ open_attempts step.id t =
      subst (λ x. count_where (is_open_of step.id) x + 1 ≤ open_attempts step.id t) (sym attempts)
        (count_where-update_lt (is_open_of step.id) (has_attempt_id a.id) (is_open_row a.id)
          (completed_values a) row t.attempts (λ x. completed-closed step.id a x complete) here hit
          was out) in
    Saved-IsExclusive s
      (λ k _.
        subst (λ x. count_where (is_open_of k) x ≤ open_attempts k t) (sym attempts)
          (count_where-update_le (is_open_of k) (is_open_row a.id) (completed_values a) t.attempts
            (λ x. completed-closed k a x complete)))
      (omega (arith, one, before, after)) inv

recovered-IsExclusive :
    {t t' : Tables} {step : SearchStep} (s : Saved t t' step is_running is_ready)
    (now lease : DateTime)
    → latest_lease step.id t.attempts ≡ some lease
    → lease.instant ≤ now.instant
    → t'.attempts ≡ update_where (is_expired_row step.id now) (expired_values now) t.attempts
    → IsExclusive t
    → IsExclusive t'
recovered-IsExclusive {t} {t'} {step} s now lease latest past attempts inv =
    let none_left : open_attempts step.id t' ≡ 0 =
      ap (count_where (is_open_of step.id)) attempts
      ∙ expire_all step.id now t.attempts (subst (IsOver now) (sym latest) past) in
    Saved-IsExclusive s
      (λ k _.
        subst (λ x. count_where (is_open_of k) x ≤ open_attempts k t) (sym attempts)
          (count_where-update_le (is_open_of k) (is_expired_row step.id now) (expired_values now)
            t.attempts (expired-closed k now)))
      (omega (arith, none_left)) inv

-- Every move keeps the invariant.
pub Move-IsExclusive : {t t' : Tables} → Move t t' → IsExclusive t → IsExclusive t'
Move-IsExclusive {t} {t'} (quiet steps attempts) inv =
    steady-IsExclusive t t' (same-open t t' attempts) (λ k r h. ap (find_step k) steps ∙ h) inv
Move-IsExclusive {t} {t'} (created added fresh steps attempts) inv =
    steady-IsExclusive t t' (same-open t t' attempts)
      (λ k r h. ap (find_step k) steps ∙ first_where-append (has_step_id k) r t.steps added h) inv
Move-IsExclusive {t} {t'} (refused step s attempts) inv =
    idle-IsExclusive s (ready-none s.row.status s.was) attempts inv
Move-IsExclusive {t} {t'} (granted step s a of_step new attempts) inv =
    granted-IsExclusive s a of_step attempts inv
Move-IsExclusive {t} {t'} (finished step s a row complete here of_step open_row attempts) inv =
    finished-IsExclusive s a row complete here of_step open_row attempts inv
Move-IsExclusive {t} {t'} (renewed a steps attempts) inv =
    steady-IsExclusive t t'
      (λ k.
        subst (λ x. count_where (is_open_of k) x ≤ open_attempts k t) (sym attempts)
          (count_where-update_le (is_open_of k) (is_renewable a)
            (λ row. record row { leased_until = a.leased_until }) t.attempts (λ x e. e)))
      (λ k r h. ap (find_step k) steps ∙ h) inv
Move-IsExclusive {t} {t'} (retried step s attempts) inv =
    idle-IsExclusive s (retry_wait-none s.row.status s.was) attempts inv
Move-IsExclusive {t} {t'} (recovered step s now lease latest past attempts) inv =
    recovered-IsExclusive s now lease latest past attempts inv
