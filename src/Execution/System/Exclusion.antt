-- ===== src/Execution/System/Exclusion.antt =====
-- A step is never held by two attempts: how many of its attempts may be open.
pub mod Rows
pub mod Moves
use sana_v.Base.{
  ℕ, suc, ◌+◌, ◌≤◌, ◌≡◌, refl, sym, ap, ◌∙◌, subst, arith, Bool, Bool-cases, Option-cases, true,
  false, not, ◌&&◌, ◌==◌, ==_iff, Option, none, some, or_else, List, [], ◌∷◌, ◌++◌, inl, inr,
  if◌then◌else◌,
}
use sana_v.Shared.Time.{DateTime, is_at_most}
use sana_v.Orchestration.Status.{StepStatus}
use sana_v.Orchestration.Step.{SearchStep}
use sana_v.Orchestration.Attempt.{StepAttempt, is_complete}
use sana_v.Orchestration.Lease.{is_ready, is_running}
use sana_v.Execution.Tables.{
  Tables, find_step, has_step_id, first_where, update_where, count_where, is_saved_step,
  step_values, is_open_row, completed_values, is_renewable, has_attempt_id, find_attempt,
}
use sana_v.Execution.Tables.Laws.{
  first_where-holds, first_where-append, first_where-update, count_where-append,
  count_where-update_le, count_where-update_lt,
}
use sana_v.Execution.Recovery.{
  is_open_of, is_expired_row, expired_values, later_of, latest_lease, is_retry_wait,
}
use sana_v.Execution.Moves.{
  Saved, Move, quiet, created, refused, granted, finished, renewed, retried, recovered, is_let_go,
}

-- The attempts of a step that are open.
abbrev pub open_attempts : ℕ → Tables → ℕ
open_attempts step_id t = count_where (is_open_of step_id) t.attempts

-- How many a step may have: none while it is READY or waits for a retry, and before it is there.
abbrev pub allowed_in : StepStatus → ℕ
allowed_in StepStatus.ready = 0
allowed_in StepStatus.retry_wait = 0
allowed_in _ = 1

abbrev pub allowed : Option SearchStep → ℕ
allowed none = 0
allowed (some s) = allowed_in s.status

abbrev pub IsExclusive : Tables → Type 0
IsExclusive t = (step_id : ℕ) → open_attempts step_id t ≤ allowed (find_step step_id t.steps)
