-- ===== src/Execution/System.antt =====
-- Workers, the reconciliation and the rest of the system at work on the tables of a tenant. A worker
-- uses a claim that it was given; that it may be slow, or thought to be dead, shows in that any claim
-- may be used at any time.
pub mod Exclusion
pub mod Protocol
pub mod Safety
pub mod Fencing
pub mod Finality
use sana_v.Base.{ℕ, String, Bool, Option, none, some, List, [], ◌∷◌, ◌≡◌, Among}
use sana_v.Shared.Errors.{TypedError, ok}
use sana_v.Shared.Time.{DateTime}
use sana_v.Orchestration.Run.{SearchRun}
use sana_v.Orchestration.Step.{StepKeys}
use sana_v.Execution.Values.{
  ExecutionDisposition, ClaimedStep, ClaimResult, StepExecutionResult, RunEventData,
}
use sana_v.Execution.Tables.{Tables}
use sana_v.Execution.Store.{Store, Moment, add_successors}
use sana_v.Execution.Store.Claim.{claim}
use sana_v.Execution.Store.Finish.{succeed, fail, renew}
use sana_v.Execution.Recovery.{ReconcileCandidate, make_ready}

-- The tables, and the claims that workers hold or have held.
pub record System : Type 0 where
  pub tables : Tables
  pub claims : List ClaimedStep

-- The claims after an answer.
abbrev pub with_answer : Option ClaimedStep → List ClaimedStep → List ClaimedStep
with_answer none cs = cs
with_answer (some c) cs = c ∷ cs

-- One committed transaction. A transaction that raises changes no table.
pub data Step (store : Store) : System → System → Type 0 where
  claimed :
      (m : Moment) (step_id : ℕ) (worker_id : String) (w : System) (t : Tables) (r : ClaimResult)
      → claim store m step_id worker_id w.tables ≡ ok (t, r)
      → Step store w (record { tables = t; claims = with_answer r.claimed w.claims })
  succeeded :
      (m : Moment) (c c' : ClaimedStep) (result : StepExecutionResult) (w : System) (t : Tables)
      (d : ExecutionDisposition)
      → Among c w.claims
      → succeed store m c result w.tables ≡ ok (t, c', d)
      → Step store w (record { tables = t; claims = c' ∷ w.claims })
  failed :
      (m : Moment) (c c' : ClaimedStep) (error : TypedError) (w : System) (t : Tables)
      (d : ExecutionDisposition)
      → Among c w.claims
      → fail store m c error w.tables ≡ ok (t, c', d)
      → Step store w (record { tables = t; claims = c' ∷ w.claims })
  renewed :
      (m : Moment) (c c' : ClaimedStep) (w : System) (t : Tables) (alive : Bool)
      → Among c w.claims
      → renew store m c w.tables ≡ ok (t, c', alive)
      → Step store w (record { tables = t; claims = c' ∷ w.claims })
  reconciled :
      (candidate : ReconcileCandidate) (now : DateTime) (w : System) (t : Tables) (ready : Bool)
      → make_ready candidate now w.tables ≡ ok (t, ready)
      → Step store w (record w { tables = t })
  created :
      (steps : List StepKeys) (w : System) (t : Tables)
      → add_successors steps w.tables ≡ ok t
      → Step store w (record w { tables = t })
  runs_written :
      (runs : List SearchRun) (events : List RunEventData) (w : System)
      → Step store w (record w { tables = record w.tables { runs = runs; events = events } })

pub data Steps (store : Store) : System → System → Type 0 where
  done : (w : System) → Steps store w w
  more : (u v w : System) → Steps store u v → Step store v w → Steps store u w
