-- ===== src/Research/Examples.antt =====
-- Each theorem about evidence and research at an input that meets its hypotheses.
use sana_v.Base.{◌≡◌, ◌↔◌, refl, inl, inr, true, false, List, [], ◌∷◌, any, All, ◌+ℤ◌, ◌≤ℤ◌, pos}
use sana_v.Shared.Errors.{ok}
use sana_v.Orchestration.Status.{AnswerQuality}
use sana_v.Orchestration.Values.{new_usage}
use sana_v.Orchestration.Run.{succeed}
use sana_v.Orchestration.Policy.{default_policy}
use sana_v.Evidence.Coverage.{FactCoverage, evaluate, is_empty_list}
use sana_v.Evidence.Soundness.{Grounds, verified-Grounds}
use sana_v.Evidence.Conflict.{Consistent, conflict_partial}
use sana_v.Research.Urgency.{is_urgent, evaluate_upgrades}
use sana_v.Research.Workflow.{upgrade_fast_run, record_expansion, outcome}
use sana_v.Research.Outcome.{
  Upgrades, upgrade-Upgrades, expansion_bounded, outcome-complete_iff, outcome_succeeds,
}
use sana_v.Research.Samples.{
  at, scope, price, first_paper, denial, two_papers, disputed, input, intent, upgrade,
  upgrade_decided, fast_run, research_run,
}

verified-Grounds_example : Grounds scope two_papers
unfolding evaluate
verified-Grounds_example = verified-Grounds scope price two_papers [] refl

disputed-Consistent : Consistent disputed
unfolding Consistent
disputed-Consistent d e (inl same) (inl same') h = cc
disputed-Consistent d e (inl same) (inr (inl same')) h = cc
disputed-Consistent d e (inr (inl same)) (inl same') h = cc
disputed-Consistent d e (inr (inl same)) (inr (inl same')) h = cc
disputed-Consistent d e (inr (inr left)) k h = elim left [ ]
disputed-Consistent d e (inl same) (inr (inr left)) h = elim left [ ]
disputed-Consistent d e (inr (inl same)) (inr (inr left)) h = elim left [ ]

conflict_partial_example : (evaluate scope price disputed []).status ≡ FactCoverage.partial
conflict_partial_example =
    conflict_partial scope price disputed [] first_paper denial disputed-Consistent (inl refl)
      (inr (inl refl)) refl refl refl refl

evaluate_upgrades_example : true ≡ any (is_urgent input false) (price ∷ [])
evaluate_upgrades_example = evaluate_upgrades input intent upgrade_decided

abbrev statuses : List FactCoverage
statuses = FactCoverage.verified ∷ FactCoverage.covered ∷ []

outcome-complete_iff_example :
    ((outcome statuses false true).quality ≡ AnswerQuality.complete)
    ↔ ((is_empty_list statuses ≡ false) × All (λ s. s ≡ FactCoverage.verified) statuses)
outcome-complete_iff_example = outcome-complete_iff statuses false true

outcome_succeeds_example :
    let o = outcome statuses false true in
    (succeed o.quality o.reason (at 9) research_run).0 ≡ ok tt
outcome_succeeds_example = outcome_succeeds statuses false true (at 9) research_run refl refl

upgrade-Upgrades_example :
    Upgrades default_policy fast_run (upgrade_fast_run upgrade default_policy fast_run).1
unfolding upgrade_fast_run
upgrade-Upgrades_example = upgrade-Upgrades upgrade default_policy fast_run refl

expansion_bounded_example :
    let r = (record_expansion research_run).1 in
    (r.usage.expansion_rounds ≡ pos 0 +ℤ pos 1) × (r.usage.expansion_rounds ≤ℤ pos 2)
unfolding record_expansion new_usage ◌+ℤ◌
expansion_bounded_example = expansion_bounded research_run refl
