-- ===== src/Orchestration/Run/Lifecycle.antt =====
-- The life of a run over any sequence of calls: what a failed call leaves, what the database row
-- of a run loads back to, and what the version of a run tells.
use sana_v.Base.{◌+◌, ◌≤◌, ◌≡◌, refl, ◌⊎◌, inl, inr, true, List, [], ◌∷◌, arith, ◌↔◌}
use sana_v.Shared.Errors.{Error, ok, err}
use sana_v.Shared.Time.{DateTime}
use sana_v.Shared.Method.{run_all, run_all_induction}
use sana_v.Orchestration.Status.{RunStatus, AnswerQuality, StopReason}
use sana_v.Orchestration.Values.{RoutingDecision, BudgetSnapshot}
use sana_v.Orchestration.Run.{SearchRun, RunKeys, new_run, is_terminal, succeed}
use sana_v.Orchestration.Run.Calls.{Call, call}
use sana_v.Orchestration.Run.Loading.{rehydrate}

-- A call that raises leaves the run as it was.
pub call_atomic : (c : Call) (r : SearchRun) {e : Error} → (call c r).0 ≡ err e → (call c r).1 ≡ r
unfolding call
call_atomic c r h = ground arith

-- The row of the run loads, and back to the same run, with its version as the persisted one.
abbrev pub IsLoadable : SearchRun → Type 0
IsLoadable r = rehydrate r ≡ ok (record r { persisted_version = r.version })

call-IsLoadable : (c : Call) (r : SearchRun) → IsLoadable r → IsLoadable (call c r).1
unfolding call rehydrate
call-IsLoadable c r h = ground arith

new_run-IsLoadable :
    (k : RunKeys) (routing : RoutingDecision) (budget : BudgetSnapshot) {r : SearchRun}
    → new_run k routing budget ≡ ok r
    → IsLoadable r
unfolding new_run rehydrate
new_run-IsLoadable k routing budget h = ground arith

-- Whatever calls are made on a new run, and whichever of them raise, the row of the run that
-- results is accepted by `rehydrate` and loads back to that run.
pub calls-rehydrate :
    (k : RunKeys) (routing : RoutingDecision) (budget : BudgetSnapshot) (cs : List Call)
    {r : SearchRun}
    → new_run k routing budget ≡ ok r
    → let r' = run_all call cs r in rehydrate r' ≡ ok (record r' { persisted_version = r'.version })
calls-rehydrate k routing budget cs {r} h =
    run_all_induction call IsLoadable call-IsLoadable cs r (new_run-IsLoadable k routing budget h)

-- `r'` is `r`, but for the persisted version.
abbrev pub Same : SearchRun → SearchRun → Type 0
Same r r' = r' ≡ record r { persisted_version = r'.persisted_version }

call-terminal : (c : Call) (r : SearchRun) → is_terminal r ≡ true → Same r (call c r).1
unfolding call
call-terminal c r h = ground arith

-- A run that has succeeded, failed or been cancelled is never changed again, by any calls, but
-- for the version that `mark_persisted` notes.
pub terminal_absorbs :
    (cs : List Call) (r : SearchRun)
    → is_terminal r ≡ true
    → let r' = run_all call cs r in r' ≡ record r { persisted_version = r'.persisted_version }
unfolding run_all
terminal_absorbs [] r h = refl
terminal_absorbs (c ∷ cs) r h =
    let step = call-terminal c r h in cc (step, terminal_absorbs cs (call c r).1 (ground arith))

call_version :
    (c : Call) (r : SearchRun) → Same r (call c r).1 ⊎ ((call c r).1.version ≡ r.version + 1)
unfolding call
call_version c r = ground arith

version_grows : (cs : List Call) (r : SearchRun) → r.version ≤ (run_all call cs r).version
unfolding run_all
version_grows [] r = omega arith
version_grows (c ∷ cs) r = elim (call_version c r) [
  | inl same ↦ ground (arith, version_grows cs (call c r).1)
  | inr grown ↦ omega (arith, grown, version_grows cs (call c r).1)
]

-- The version tells whether a run has changed: if it is the same after any calls, then so is the
-- run, but for the version that `mark_persisted` notes.
pub version_detects_change :
    (cs : List Call) (r : SearchRun)
    → (run_all call cs r).version ≡ r.version
    → let r' = run_all call cs r in r' ≡ record r { persisted_version = r'.persisted_version }
unfolding run_all
version_detects_change [] r h = refl
version_detects_change (c ∷ cs) r h = elim (call_version c r) [
  | inl same ↦ cc (same, version_detects_change cs (call c r).1 (ground arith))
  | inr grown ↦ absurd (omega (arith, grown, version_grows cs (call c r).1))
]

-- What a search may end in: a complete answer that covers the facts, or a partial one that does
-- not and that no user cancelled.
abbrev pub IsAnswer : AnswerQuality → StopReason → Type 0
IsAnswer quality reason =
    ((quality ≡ AnswerQuality.complete) × (reason ≡ StopReason.facts_covered))
    ⊎ ((quality ≡ AnswerQuality.partial)
        × ¬ (reason ≡ StopReason.facts_covered)
        × ¬ (reason ≡ StopReason.user_cancelled))

-- `succeed` returns exactly if the time is aware, the run is RUNNING and the outcome is a complete
-- answer for covered facts, or a partial one for another reason than these or a cancellation.
pub succeed_iff :
    (quality : AnswerQuality) (reason : StopReason) (at : DateTime) (r : SearchRun)
    → ((succeed quality reason at r).0 ≡ ok tt)
      ↔ ((at.is_aware ≡ true) × (r.status ≡ RunStatus.running) × IsAnswer quality reason)
unfolding succeed
succeed_iff quality reason at r = ground arith
