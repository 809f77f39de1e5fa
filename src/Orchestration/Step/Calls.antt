-- ===== src/Orchestration/Step/Calls.antt =====
-- The calls that a client can make on a step.
use sana_v.Shared.Time.{DateTime}
use sana_v.Shared.Method.{Method, Done}
use sana_v.Orchestration.Values.{ArtifactRef}
use sana_v.Orchestration.Step
use sana_v.Orchestration.Step.{SearchStep}

pub data Call : Type 0 where
  start release_expired_lease make_ready fail skip cancel mark_persisted : Call
  retry_later : DateTime → Call
  succeed : ArtifactRef → Call

unfoldable pub call : Call → Method SearchStep Done
unfolding Step.start Step.release_expired_lease Step.make_ready Step.fail Step.skip Step.cancel
    Step.mark_persisted Step.retry_later Step.succeed
call start = Step.start
call release_expired_lease = Step.release_expired_lease
call make_ready = Step.make_ready
call fail = Step.fail
call skip = Step.skip
call cancel = Step.cancel
call mark_persisted = Step.mark_persisted
call (retry_later retry_at) = Step.retry_later retry_at
call (succeed output_ref) = Step.succeed output_ref
