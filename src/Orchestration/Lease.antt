-- ===== src/Orchestration/Lease.antt =====
-- `LeaseService` of orchestration/lease.py: how a worker takes a step, and how a step is taken back
-- from a worker whose lease has run out. How a UUID and a number are printed is a parameter.
pub mod Safety
use sana_v.Base.{
  ℕ, String, Bool, true, false, not, none, str_append, ℤ, pos, leb_ℤ, ◌==◌, if◌then◌else◌,
}
use sana_v.Shared.Errors.{Result, ok, err, value_error, invariant_violation, raise_if}
use sana_v.Shared.Time.{DateTime, is_at_most, le_or_raise, shift}
use sana_v.Shared.Method.{Method, ◌>>=◌, ◌>>◌, pure, lift, self, refuse_if}
use sana_v.Orchestration.Status.{StepStatus}
use sana_v.Orchestration.Step
use sana_v.Orchestration.Step.{SearchStep}
use sana_v.Orchestration.Attempt.{StepAttempt, new_attempt, lease_expired}

-- `str(uuid)` and `str(number)`
pub record Printing : Type 0 where
  pub uuid : ℕ → String
  pub number : ℕ → String

pub record LeaseService : Type 0 where
  pub lease : ℤ

-- `LeaseService.__init__`
unfoldable pub new_lease_service : ℤ → Result LeaseService
new_lease_service lease =
    if leb_ℤ lease (pos 0)
    then err (value_error "lease_seconds must be positive")
    else ok (record { lease = lease })

abbrev pub is_ready : StepStatus → Bool
is_ready StepStatus.ready = true
is_ready _ = false

abbrev pub is_running : StepStatus → Bool
is_running StepStatus.running = true
is_running _ = false

-- `min(a, b)`, which keeps the first of two equal times
abbrev pub earlier : DateTime → DateTime → DateTime
earlier a b = if is_at_most a b then a else b

-- The request of a worker; `new_id` is what the identifier factory returns.
pub record Claim : Type 0 where
  pub attempt_no : ℕ
  pub worker_id : String
  pub now : DateTime
  pub deadline_at : DateTime
  pub new_id : ℕ

-- The attempt that `claim` builds for a step.
abbrev pub attempt_for : Printing → Claim → DateTime → SearchStep → StepAttempt
attempt_for print c leased_until step = record {
  id = c.new_id;
  tenant_id = step.tenant_id;
  run_id = step.run_id;
  step_id = step.id;
  attempt_no = c.attempt_no;
  idempotency_key = str_append (print.uuid step.id) (str_append ":" (print.number c.attempt_no));
  lease_owner = c.worker_id;
  leased_until = leased_until;
  deadline_at = c.deadline_at;
  started_at = c.now;
  input_ref = step.input_ref;
  completed_at = none;
  output_ref = none;
  error = none;
}

unfoldable pub claim : Printing → LeaseService → Claim → Method SearchStep StepAttempt
unfolding new_attempt shift Step.start
claim print service c = do
  step ← self
  refuse_if (not (is_ready step.status)) (invariant_violation "Only a READY step can be leased")
  late ← lift (le_or_raise c.deadline_at c.now)
  refuse_if late (invariant_violation "Cannot lease a step past its deadline")
  limit ← lift (shift c.now service.lease)
  Step.start
  step ← self
  lift (new_attempt (attempt_for print c (earlier c.deadline_at limit) step))

unfoldable pub recover_expired : StepAttempt → DateTime → Method SearchStep Bool
unfolding lease_expired Step.release_expired_lease
recover_expired attempt now = do
  step ← self
  refuse_if (not (step.id == attempt.step_id))
      (invariant_violation "Attempt belongs to a different step")
  expired ← lift (if is_running step.status then lease_expired attempt now else ok false)
  (if expired then (do Step.release_expired_lease; pure true) else pure false)
