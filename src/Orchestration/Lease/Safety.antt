-- ===== src/Orchestration/Lease/Safety.antt =====
-- What a lease grants, and when a step can be taken back.
use sana_v.Base.{
  String, ◌+◌, ◌≤◌, ◌<◌, ◌≡◌, ℤ, true, none, arith, has_mark, is_blank-eq, has_mark-append,
  str_append, if◌then◌else◌,
}
use sana_v.Shared.Errors.{ok}
use sana_v.Shared.Time.{DateTime, shift, is_at_most}
use sana_v.Orchestration.Status.{StepStatus}
use sana_v.Orchestration.Step.{SearchStep}
use sana_v.Orchestration.Attempt.{StepAttempt}
use sana_v.Orchestration.Lease.{
  Printing, LeaseService, Claim, new_lease_service, claim, recover_expired, attempt_for, earlier,
}

-- What a granted claim says of the step and of the attempt.
pub record Grants (c : Claim) (s s' : SearchStep) (a : StepAttempt) : Type 0 where
  pub was_ready : s.status ≡ StepStatus.ready
  pub started :
      s' ≡ record s { status = StepStatus.running; retry_at = none; version = s.version + 1 }
  pub owner : a.lease_owner ≡ c.worker_id
  pub of_step : a.step_id ≡ s.id
  pub begun : a.started_at ≡ c.now
  pub open_ended : a.completed_at ≡ none
  pub positive : c.now.instant < a.leased_until.instant
  pub bounded : a.leased_until.instant ≤ c.deadline_at.instant

-- A claim that is granted takes a READY step to RUNNING, and its attempt belongs to the worker and
-- the step, begins now and is leased for some time, but not past the deadline.
pub claim-Grants :
    (print : Printing) (service : LeaseService) (c : Claim) (s : SearchStep) {a : StepAttempt}
    → (claim print service c s).0 ≡ ok a
    → Grants c s (claim print service c s).1 a
unfolding claim
claim-Grants print service c s h = ground arith

-- A worker that asks with a name, an attempt number and aware times, for a READY step whose
-- deadline has not passed and at a time that leaves room for the lease, is granted the step.
pub claim_granted :
    (print : Printing) (lease : ℤ) (c : Claim) (s : SearchStep) {service : LeaseService}
    {limit : DateTime}
    → new_lease_service lease ≡ ok service
    → s.status ≡ StepStatus.ready
    → c.now.is_aware ≡ true
    → c.deadline_at.is_aware ≡ true
    → c.now.instant < c.deadline_at.instant
    → shift c.now lease ≡ ok limit
    → 0 < c.attempt_no
    → has_mark c.worker_id ≡ true
    → (a : StepAttempt) × ((claim print service c s).0 ≡ ok a)
unfolding claim new_lease_service
claim_granted print lease c s {service = service} {limit = limit} hs ready now deadline early room
      number named =
    let key : String = str_append (print.uuid s.id) (str_append ":" (print.number c.attempt_no)) in
    (
      attempt_for print c (earlier c.deadline_at limit) s,
      ground (
        arith,
        is_blank-eq c.worker_id,
        is_blank-eq key,
        has_mark-append (print.uuid s.id) (str_append ":" (print.number c.attempt_no)),
        has_mark-append ":" (print.number c.attempt_no),
      ),
    )

-- `recover_expired` on the step and the attempt of a granted claim answers exactly whether the
-- lease has run out, and it makes the step READY again if it has.
pub claim-recover :
    (print : Printing) (service : LeaseService) (c : Claim) (s : SearchStep) (at : DateTime)
    {a : StepAttempt}
    → (claim print service c s).0 ≡ ok a
    → at.is_aware ≡ true
    → let s' = (claim print service c s).1 in
      ((recover_expired a at s').0 ≡ ok (is_at_most a.leased_until at))
      × ((recover_expired a at s').1 ≡ (
          if is_at_most a.leased_until at
          then record s' { status = StepStatus.ready; version = s'.version + 1 }
          else s'))
unfolding recover_expired
claim-recover print service c s at h aware =
    let g = claim-Grants print service c s h in ground arith
