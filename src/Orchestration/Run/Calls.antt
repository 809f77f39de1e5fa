-- ===== src/Orchestration/Run/Calls.antt =====
-- The calls that a client can make on a run.
use sana_v.Shared.Time.{DateTime}
use sana_v.Shared.Method.{Method, Done}
use sana_v.Orchestration.Status.{AnswerQuality, StopReason}
use sana_v.Orchestration.Values.{RoutingDecision, BudgetSnapshot, BudgetUsage}
use sana_v.Orchestration.Run
use sana_v.Orchestration.Run.{SearchRun}

pub data Call : Type 0 where
  start cancel : DateTime → Call
  wait resume mark_persisted : Call
  record_usage : BudgetUsage → Call
  upgrade : RoutingDecision → BudgetSnapshot → Call
  succeed : AnswerQuality → StopReason → DateTime → Call
  fail : StopReason → DateTime → Call

unfoldable pub call : Call → Method SearchRun Done
unfolding Run.start Run.cancel Run.wait Run.resume Run.mark_persisted Run.record_usage
    Run.upgrade_to_research Run.succeed Run.fail
call (start at) = Run.start at
call (cancel at) = Run.cancel at
call wait = Run.wait
call resume = Run.resume
call mark_persisted = Run.mark_persisted
call (record_usage u) = Run.record_usage u
call (upgrade routing budget) = Run.upgrade_to_research routing budget
call (succeed quality reason at) = Run.succeed quality reason at
call (fail reason at) = Run.fail reason at
