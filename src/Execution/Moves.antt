-- ===== src/Execution/Moves.antt =====
-- What an operation that is committed does to the steps and the attempts: it is one move, of which
-- there are eight.
pub mod Parts
pub mod Claiming
pub mod Finishing
pub mod Recovering
use sana_v.Base.{
  ℕ, Bool, true, false, not, ◌&&◌, Option, none, some, List, [], ◌∷◌, ◌++◌, ◌≡◌, All, ◌≤◌,
}
use sana_v.Shared.Time.{DateTime}
use sana_v.Orchestration.Status.{StepStatus}
use sana_v.Orchestration.Step.{SearchStep}
use sana_v.Orchestration.Step.Lifecycle.{is_final}
use sana_v.Orchestration.Attempt.{StepAttempt, is_complete}
use sana_v.Orchestration.Lease.{is_ready, is_running}
use sana_v.Execution.Values.{ClaimedStep}
use sana_v.Execution.Tables.{
  Tables, find_step, find_attempt, update_where, is_saved_step, step_values, is_open_row,
  completed_values, is_renewable,
}
use sana_v.Execution.Recovery.{is_expired_row, expired_values, latest_lease, is_retry_wait}

-- Steps that are READY, as new ones are.
abbrev pub AllReady : List SearchStep → Type 0
AllReady = All (λ s. is_ready s.status ≡ true)

-- The row of a step is found in one status and saved in another; READY steps are added.
pub record Saved (t t' : Tables) (step : SearchStep) (From To : StepStatus → Bool) : Type 0 where
  pub row : SearchStep
  pub added : List SearchStep
  pub here : find_step step.id t.steps ≡ some row
  pub lock : step.persisted_version ≡ row.version
  pub was : From row.status ≡ true
  pub becomes : To step.status ≡ true
  pub fresh : AllReady added
  pub written : t'.steps ≡ update_where (is_saved_step step) (step_values step) (t.steps ++ added)

-- The attempt of a claim is complete.
pub record Closed (c : ClaimedStep) (t : Tables) : Type 0 where
  pub row : StepAttempt
  pub here : find_attempt c.attempt.id t.attempts ≡ some row
  pub complete : is_complete row ≡ true

-- The statuses of a step that a worker is done with: it has ended, or waits for another try.
abbrev pub is_let_go : StepStatus → Bool
is_let_go StepStatus.ready = false
is_let_go StepStatus.running = false
is_let_go _ = true

-- A claim that is about an attempt of the step that it names.
pub record Issued (c : ClaimedStep) (t : Tables) : Type 0 where
  pub row : StepAttempt
  pub here : find_attempt c.attempt.id t.attempts ≡ some row
  pub of_step : row.step_id ≡ c.context.step_id

pub data Move (t t' : Tables) : Type 0 where
  -- No step and no attempt is written.
  quiet : t'.steps ≡ t.steps → t'.attempts ≡ t.attempts → Move t t'
  -- READY steps are added.
  created :
      (added : List SearchStep)
      → AllReady added
      → t'.steps ≡ t.steps ++ added
      → t'.attempts ≡ t.attempts
      → Move t t'
  -- A READY step ends without an attempt.
  refused :
      (step : SearchStep) (s : Saved t t' step is_ready is_final)
      → t'.attempts ≡ t.attempts
      → Move t t'
  -- A READY step is taken: an attempt is added.
  granted :
      (step : SearchStep) (s : Saved t t' step is_ready is_running) (a : StepAttempt)
      → a.step_id ≡ step.id
      → is_complete a ≡ false
      → t'.attempts ≡ t.attempts ++ (a ∷ [])
      → Move t t'
  -- A RUNNING step is let go: its open attempt is completed.
  finished :
      (step : SearchStep) (s : Saved t t' step is_running is_let_go) (a row : StepAttempt)
      → is_complete a ≡ true
      → find_attempt a.id t.attempts ≡ some row
      → row.step_id ≡ step.id
      → is_complete row ≡ false
      → t'.attempts ≡ update_where (is_open_row a.id) (completed_values a) t.attempts
      → Move t t'
  -- The lease of an open attempt is extended.
  renewed :
      (a : StepAttempt)
      → t'.steps ≡ t.steps
      → t'.attempts
        ≡ update_where
            (is_renewable a)
            (λ row. record row { leased_until = a.leased_until })
            t.attempts
      → Move t t'
  -- The time of a retry has come, or the lease of the latest attempt has run out.
  retried :
      (step : SearchStep) (s : Saved t t' step is_retry_wait is_ready)
      → t'.attempts ≡ t.attempts
      → Move t t'
  recovered :
      (step : SearchStep) (s : Saved t t' step is_running is_ready) (now lease : DateTime)
      → latest_lease step.id t.attempts ≡ some lease
      → lease.instant ≤ now.instant
      → t'.attempts ≡ update_where (is_expired_row step.id now) (expired_values now) t.attempts
      → Move t t'
