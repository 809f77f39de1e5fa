-- ===== src/Execution/Moves/Recovering.antt =====
-- `make_ready` is one move.
use sana_v.Base.{
  ℕ, ◌≡◌, ◌≤◌, refl, sym, ap, ◌∙◌, arith, Bool, Bool-cases, true, ◌&&◌, Option, none, some, [], inl,
  inr, subst,
}
use mathlib.Core.List.{append-nil}
use sana_v.Shared.Errors.{ok, ok-elim, ok-injective}
use sana_v.Shared.Time.{DateTime}
use sana_v.Orchestration.Step
use sana_v.Orchestration.Step.{SearchStep}
use sana_v.Orchestration.Lease.{is_ready, is_running}
use sana_v.Execution.Tables.{Tables, get_step, save_step, update_where}
use sana_v.Execution.Store.{after}
use sana_v.Execution.Recovery.{
  ReconcileCandidate, is_retry_wait, is_due, latest_lease, expire_attempts, is_expired_row,
  expired_values, retry_ready, lease_ready, make_step_ready, make_ready,
}
use sana_v.Execution.Moves.{Move, quiet, retried, recovered}
use sana_v.Execution.Moves.Parts.{save_step-written, Loaded, get_step-Loaded, Loaded-Saved, Keeps}

-- The move of a recovery that returns.
abbrev MoveTo : Tables → Tables × Bool → Type 0
MoveTo t out = Move t out.0

due-some :
    (at : Option DateTime) (now : DateTime)
    → is_due at now ≡ ok true
    → (lease : DateTime) × (at ≡ some lease) × (lease.instant ≤ now.instant)
due-some none now h = cc
due-some (some at) now h = (at, refl, ground arith)

readied :
    (s : SearchStep) {s' : SearchStep}
    → after Step.make_ready s ≡ ok s'
    → Keeps s s' × (is_ready s'.status ≡ true)
unfolding Step.make_ready
readied s h = ground arith

released-step :
    (s : SearchStep) {s' : SearchStep}
    → after Step.release_expired_lease s ≡ ok s'
    → Keeps s s' × (is_ready s'.status ≡ true)
unfolding Step.release_expired_lease
released-step s h = ground arith

module _ {id : ℕ} {t : Tables} {step : SearchStep} (found : Loaded id t step) (now : DateTime)
    {out : Tables × Bool} where
  retry_ready-Move :
      is_retry_wait step.status ≡ true → retry_ready step now t ≡ ok out → MoveTo t out
  unfolding retry_ready
  retry_ready-Move waits h = ok-elim (is_due step.retry_at now) _ h λ due _ h.
      elim (Bool-cases due) [
        | inr early ↦ subst (MoveTo t) (ok-injective (rw early at h)) (quiet refl refl)
        | inl late ↦ ok-elim (after Step.make_ready step) _ (rw late at h) λ ready readies h.
            ok-elim (save_step ready t) _ h λ saved saves h.
              let (kept, is) = readied step readies in
              subst (MoveTo t) (ok-injective h) (
                retried ready
                  (Loaded-Saved id t t saved saved step ready found kept waits is [] tt
                    (sym (append-nil t.steps)) saves refl)
                  (save_step-written ready t saves).1)
      ]

  lease_ready-Move : is_running step.status ≡ true → lease_ready step now t ≡ ok out → MoveTo t out
  unfolding lease_ready expire_attempts
  lease_ready-Move runs h = ok-elim (is_due (latest_lease step.id t.attempts) now) _ h λ due dues h.
      elim (Bool-cases due) [
        | inr early ↦ subst (MoveTo t) (ok-injective (rw early at h)) (quiet refl refl)
        | inl late ↦
            ok-elim (after Step.release_expired_lease step) _ (rw late at h) λ ready readies h.
              let expired = expire_attempts step.id now t in
              ok-elim (save_step ready expired) _ h λ saved saves h.
                let (kept, is) = released-step step readies in
                let (lease, latest, past) =
                  due-some (latest_lease step.id t.attempts) now (rw late at dues) in
                let wrote = (save_step-written ready expired saves).1 in
                subst (MoveTo t) (ok-injective h) (
                  recovered ready
                    (Loaded-Saved id t expired saved saved step ready found kept runs is [] tt
                      (sym (append-nil t.steps)) saves refl)
                    now lease (ap (λ k. latest_lease k t.attempts) kept.0 ∙ latest) past
                    (wrote
                      ∙ ap
                          (λ k. update_where (is_expired_row k now) (expired_values now) t.attempts)
                          (sym kept.0)))
      ]

step-Move :
    (c : ReconcileCandidate) (now : DateTime) (t : Tables) (step : Option SearchStep)
    {out : Tables × Bool}
    → get_step c.step_id t ≡ ok step
    → make_step_ready c now t step ≡ ok out
    → MoveTo t out
step-Move c now t none found h = subst (MoveTo t) (ok-injective h) (quiet refl refl)
step-Move c now t (some step) found h =
    elim (Bool-cases (is_retry_wait c.status && is_retry_wait step.status)) [
      | inl waits ↦
          retry_ready-Move (get_step-Loaded c.step_id t found) now (ground arith) (rw waits at h)
      | inr other ↦
          let h = rw other at h in
          elim (Bool-cases (is_running c.status && is_running step.status)) [
            | inl runs ↦
                lease_ready-Move (get_step-Loaded c.step_id t found) now (ground arith)
                  (rw runs at h)
            | inr neither ↦ subst (MoveTo t) (ok-injective (rw neither at h)) (quiet refl refl)
          ]
    ]

-- A recovery that returns makes one move.
pub make_ready-Move :
    (c : ReconcileCandidate) (now : DateTime) (t : Tables) {out : Tables × Bool}
    → make_ready c now t ≡ ok out
    → Move t out.0
unfolding make_ready
make_ready-Move c now t h =
    ok-elim (get_step c.step_id t) _ h λ step found h. step-Move c now t step found h
