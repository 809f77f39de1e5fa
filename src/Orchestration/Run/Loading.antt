-- ===== src/Orchestration/Run/Loading.antt =====
-- `SearchRun.rehydrate` and `_validate_loaded_state`: a run read back from its database row. The
-- row is written as a run, whose `persisted_version` is not read.
use sana_v.Base.{Bool, not, ◌||◌, Option, none, some, is_some, str_eq, if◌then◌else◌}
use sana_v.Shared.Errors.{Result, ok, err, value_error, invariant_violation, raise_if, ◌>>◌}
use sana_v.Orchestration.Status.{RunStatus, AnswerQuality, StopReason}
use sana_v.Orchestration.Run.{
  SearchRun, is_quality_none, is_bad_complete, is_bad_partial, is_user_cancelled,
}

-- `self.answer_quality is COMPLETE and self.stop_reason is not FACTS_COVERED`, and the like, once
-- the stop reason is known to be there
abbrev check_success : AnswerQuality → Option StopReason → Result (Unit {0})
check_success quality none =
    err (invariant_violation "Persisted successful run has no answer outcome")
check_success quality (some reason) = do
  raise_if (is_quality_none quality)
      (invariant_violation "Persisted successful run has no answer outcome")
  raise_if (is_bad_complete quality reason)
      (invariant_violation "Persisted complete run has an invalid stop reason")
  raise_if (is_bad_partial quality reason)
      (invariant_violation "Persisted partial run has an invalid stop reason")

-- `self.stop_reason is not USER_CANCELLED`
abbrev is_not_user_cancelled : Option StopReason → Bool
is_not_user_cancelled none = Bool.true
is_not_user_cancelled (some reason) = not (is_user_cancelled reason)

-- `_validate_loaded_state`, one clause for each branch on the status
validate : RunStatus → AnswerQuality → Option StopReason → Result (Unit {0})
validate RunStatus.succeeded quality reason = check_success quality reason
validate RunStatus.cancelled quality reason =
    raise_if (is_not_user_cancelled reason)
      (invariant_violation "Persisted cancelled run has an invalid stop reason")
validate RunStatus.failed quality reason =
    raise_if (not (is_quality_none quality) || not (is_some reason))
      (invariant_violation "Persisted failed run has an invalid answer outcome")
validate _ quality reason =
    raise_if (not (is_quality_none quality) || is_some reason)
      (invariant_violation "Non-terminal run cannot have a final answer outcome")

unfoldable pub rehydrate : SearchRun → Result SearchRun
unfolding validate
rehydrate row =
    if not (str_eq row.routing.policy_version row.budget.policy_version)
    then err (value_error "Routing and budget policy versions must match")
    else do
      validate row.status row.answer_quality row.stop_reason
      ok (record row { persisted_version = row.version })
