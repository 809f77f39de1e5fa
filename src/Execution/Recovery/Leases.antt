-- ===== src/Execution/Recovery/Leases.antt =====
-- A step is not taken from a worker, or out of its wait, before its time.
use sana_v.Base.{
  ◌≡◌, ◌<◌, refl, sym, ap, ◌∙◌, subst, arith, Bool, Bool-cases, true, false, Option, none, some,
  or_else, inl, inr, ◌⊎◌,
}
use sana_v.Shared.Errors.{Error, Result, ok, err, ok-elim, ok-injective}
use sana_v.Shared.Time.{DateTime}
use sana_v.Orchestration.Status.{StepStatus}
use sana_v.Orchestration.Step.{SearchStep}
use sana_v.Orchestration.Lease.{is_running, is_ready}
use sana_v.Execution.Tables.{Tables, get_step, find_step}
use sana_v.Execution.Recovery.{
  ReconcileCandidate, is_retry_wait, is_due, latest_lease, retry_ready, lease_ready,
  make_step_ready, make_ready,
}
use sana_v.Execution.Moves.Parts.{get_step-Loaded}

-- There is no such time, or it has not come.
abbrev pub IsLater : Option DateTime → DateTime → Type 0
IsLater none now = Unit {0}
IsLater (some at) now = now.instant < at.instant

-- The row of a step has not come to its time: the time of its retry, or the end of the latest lease
-- of its open attempts.
abbrev pub IsEarly : StepStatus → Option DateTime → Option DateTime → DateTime → Type 0
IsEarly StepStatus.retry_wait retry_at lease now = IsLater retry_at now
IsEarly StepStatus.running retry_at lease now = IsLater lease now
IsEarly _ retry_at lease now = ⊥

later-due :
    (at : Option DateTime) (now : DateTime) {due : Bool}
    → IsLater at now
    → is_due at now ≡ ok due
    → due ≡ false
later-due none now later h = sym (ok-injective h)
later-due (some at) now later h = ground arith

early-cases :
    (s : StepStatus) (retry_at lease : Option DateTime) (now : DateTime)
    → IsEarly s retry_at lease now
    → ((is_retry_wait s ≡ true) × IsLater retry_at now)
      ⊎ ((is_running s ≡ true) × IsLater lease now)
early-cases StepStatus.retry_wait retry_at lease now h = inl (refl, h)
early-cases StepStatus.running retry_at lease now h = inr (refl, h)
early-cases StepStatus.ready retry_at lease now h = absurd h
early-cases StepStatus.succeeded retry_at lease now h = absurd h
early-cases StepStatus.failed retry_at lease now h = absurd h
early-cases StepStatus.skipped retry_at lease now h = absurd h
early-cases StepStatus.cancelled retry_at lease now h = absurd h

module _ (c : ReconcileCandidate) (now : DateTime) (t : Tables) (step : SearchStep)
    {out : Tables × Bool} (h : make_step_ready c now t (some step) ≡ ok out) where
  waiting-kept : is_retry_wait step.status ≡ true → IsLater step.retry_at now → out ≡ (t, false)
  unfolding retry_ready
  waiting-kept waits later =
      let not_running : is_running step.status ≡ false = ground arith in
      let not_ready : is_ready step.status ≡ false = ground arith in
      elim (Bool-cases (is_retry_wait c.status)) [
        | inl asked ↦
            ok-elim (is_due step.retry_at now) _ (rw (asked, waits) at h)
              λ due dues h. sym (ok-injective (rw (later-due step.retry_at now later dues) at h))
        | inr other ↦ elim (Bool-cases (is_running c.status)) [
          | inl asked ↦ sym (ok-injective (rw (other, asked, not_running, not_ready) at h))
          | inr neither ↦ sym (ok-injective (rw (other, neither, not_ready) at h))
        ]
      ]

  running-kept :
      is_running step.status ≡ true
      → IsLater (latest_lease step.id t.attempts) now
      → out ≡ (t, false)
  unfolding lease_ready
  running-kept runs later =
      let not_waiting : is_retry_wait step.status ≡ false = ground arith in
      let not_ready : is_ready step.status ≡ false = ground arith in
      elim (Bool-cases (is_running c.status)) [
        | inl asked ↦
            let released : lease_ready step now t ≡ ok out = ground arith in
            ok-elim (is_due (latest_lease step.id t.attempts) now) _ released λ due dues h.
              sym (
                ok-injective (rw (later-due (latest_lease step.id t.attempts) now later dues) at h))
        | inr other ↦ ground arith
      ]

early-kept :
    (c : ReconcileCandidate) (now : DateTime) (t : Tables) (step : Option SearchStep)
    (row : SearchStep) {out : Tables × Bool}
    → find_step c.step_id t.steps ≡ some row
    → IsEarly row.status row.retry_at (latest_lease c.step_id t.attempts) now
    → get_step c.step_id t ≡ ok step
    → make_step_ready c now t step ≡ ok out
    → out ≡ (t, false)
early-kept c now t none row here early found h = sym (ok-injective h)
early-kept c now t (some step) row here early found h =
    let l = get_step-Loaded c.step_id t found in
    let same : l.row ≡ row = ap (λ o. or_else o row) (sym l.here ∙ here) in
    let status : row.status ≡ step.status =
      sym (l.same_status ∙ ap (λ (s : SearchStep). s.status) same) in
    let retry : row.retry_at ≡ step.retry_at =
      sym (l.same_retry ∙ ap (λ (s : SearchStep). s.retry_at) same) in
    elim (early-cases row.status row.retry_at (latest_lease c.step_id t.attempts) now early) [
      | inl (waits, later) ↦
          waiting-kept c now t step h (ap is_retry_wait (sym status) ∙ waits)
            (subst (λ o. IsLater o now) retry later)
      | inr (runs, later) ↦
          running-kept c now t step h (ap is_running (sym status) ∙ runs)
            (subst (λ k. IsLater (latest_lease k t.attempts) now) (sym l.same_id) later)
    ]

made-kept :
    (c : ReconcileCandidate) (now : DateTime) (t : Tables) (row : SearchStep) {out : Tables × Bool}
    → find_step c.step_id t.steps ≡ some row
    → IsEarly row.status row.retry_at (latest_lease c.step_id t.attempts) now
    → make_ready c now t ≡ ok out
    → out ≡ (t, false)
unfolding make_ready
made-kept c now t row here early h =
    ok-elim (get_step c.step_id t) _ h
      λ step found h. early-kept c now t step row here early found h

-- The reconciliation releases a step only when its time has come: while the row of the step waits for
-- a later retry, or is RUNNING and an open attempt has a lease that lasts (or there is none),
-- `make_ready`, whatever the candidate it was given says, raises, or answers False and leaves the
-- tables as they are.
pub early-make_ready :
    (c : ReconcileCandidate) (now : DateTime) (t : Tables) (row : SearchStep)
    → find_step c.step_id t.steps ≡ some row
    → IsEarly row.status row.retry_at (latest_lease c.step_id t.attempts) now
    → (make_ready c now t ≡ ok (t, false)) ⊎ ((e : Error) × (make_ready c now t ≡ err e))
early-make_ready c now t row here early =
    go (make_ready c now t) (λ out h. made-kept c now t row here early h)
  where
    go :
        (r : Result (Tables × Bool))
        → ((out : Tables × Bool) → r ≡ ok out → out ≡ (t, false))
        → (r ≡ ok (t, false)) ⊎ ((e : Error) × (r ≡ err e))
    go (ok out) kept = inl (ap ok (kept out refl))
    go (err e) kept = inr (e, refl)
