-- ===== src/Orchestration/Attempt/Calls.antt =====
-- The calls that a client can make on an attempt.
use sana_v.Shared.Errors.{TypedError}
use sana_v.Shared.Time.{DateTime}
use sana_v.Shared.Method.{Method, Done}
use sana_v.Orchestration.Values.{ArtifactRef}
use sana_v.Orchestration.Attempt
use sana_v.Orchestration.Attempt.{StepAttempt}

pub data Call : Type 0 where
  renew_lease : DateTime → Call
  succeed : ArtifactRef → DateTime → Call
  fail : TypedError → DateTime → Call

unfoldable pub call : Call → Method StepAttempt Done
unfolding Attempt.renew_lease Attempt.succeed Attempt.fail
call (renew_lease until) = Attempt.renew_lease until
call (succeed output at) = Attempt.succeed output at
call (fail error at) = Attempt.fail error at
