-- ===== src/Research/Upgrade.antt =====
-- `FastUpgradePolicy.evaluate` of orchestration/research_workflow.py.
use sana_v.Base.{
  ℕ, String, str_append, Bool, true, false, not, ◌&&◌, ◌||◌, Option, none, some, List, [], ◌∷◌,
  ◌++◌, keep, ◌==◌, str_eq, Dict, lookup, if◌then◌else◌,
}
use sana_v.Shared.Errors.{Result, ok, err, value_error, raise_if, ◌>>=◌, ◌>>◌}
use sana_v.Evidence.Values.{FactRequirement, is_stable, is_high}
use sana_v.Evidence.Coverage.{FactCoverage, CoverageAssessment, is_empty_list}

-- Its check, that `should_upgrade` says whether there are reasons, holds of what `evaluate` builds.
pub record FastUpgradeDecision : Type 0 where
  pub should_upgrade : Bool
  pub gap_fact_ids : List ℕ
  pub reason_codes : List String
  pub status_by_fact : List (ℕ × FactCoverage)

-- What the policy reads of an intent.
pub record NormalizedIntent : Type 0 where
  pub facts : List FactRequirement
  pub requires_complete_sources : Bool

-- The run, the ids of its facts by their keys, and the assessments by those ids.
pub record UpgradeInput : Type 0 where
  pub tenant_id : ℕ
  pub run_id : ℕ
  pub fact_ids : Dict ℕ
  pub coverage : List (ℕ × CoverageAssessment)

-- `coverage.get(fact_id)`
abbrev pub assessment_of : ℕ → List (ℕ × CoverageAssessment) → Option CoverageAssessment
assessment_of id [] = none
assessment_of id ((i, a) ∷ rest) = if i == id then some a else assessment_of id rest

-- `statuses[fact_id] = status`
abbrev put_status : ℕ → FactCoverage → List (ℕ × FactCoverage) → List (ℕ × FactCoverage)
put_status id status [] = (id, status) ∷ []
put_status id status ((i, old) ∷ rest) =
    if i == id then (i, status) ∷ rest else (i, old) ∷ put_status id status rest

abbrev pub is_verified_status : FactCoverage → Bool
is_verified_status FactCoverage.verified = true
is_verified_status _ = false

abbrev pub is_partial : FactCoverage → Bool
is_partial FactCoverage.partial = true
is_partial _ = false

abbrev pub is_uncovered : FactCoverage → Bool
is_uncovered FactCoverage.uncovered = true
is_uncovered _ = false

abbrev is_covered : FactCoverage → Bool
is_covered FactCoverage.covered = true
is_covered _ = false

-- `is_gap`
abbrev pub is_gap : Bool → FactRequirement → FactCoverage → Bool
is_gap complete fact status =
    is_uncovered status
    || is_partial status
    || (is_covered status && (is_high fact.consequence || complete))

abbrev when : Bool → String → List String
when true reason = reason ∷ []
when false reason = []

-- The reasons that one gap gives.
abbrev pub gap_reasons : Bool → FactRequirement → FactCoverage → List String
gap_reasons complete fact status =
    when (is_partial status) "evidence_conflict"
    ++ (when (is_uncovered status && not (is_stable fact.freshness)) "strong_freshness_gap"
        ++ (when (is_high fact.consequence && not (is_verified_status status))
              "high_consequence_gap"
            ++ when (complete && not (is_verified_status status)) "complete_coverage_gap"))

-- The locals of the loop: `gaps`, `reasons`, `statuses`.
pub record Progress : Type 0 where
  pub gaps : List ℕ
  pub reasons : List String
  pub statuses : List (ℕ × FactCoverage)

abbrev pub note_fact : Bool → FactRequirement → ℕ → FactCoverage → Progress → Progress
note_fact complete fact id status p =
    let statuses = put_status id status p.statuses in
    if is_gap complete fact status
    then record {
      gaps = p.gaps ++ (id ∷ []);
      reasons = p.reasons ++ gap_reasons complete fact status;
      statuses = statuses;
    }
    else record p { statuses = statuses }

abbrev is_foreign : UpgradeInput → FactRequirement → CoverageAssessment → Bool
is_foreign i fact a =
    not (a.tenant_id == i.tenant_id)
    || not (a.run_id == i.run_id)
    || not (str_eq a.fact_key fact.key)

-- The status of a fact: its assessment, or OPEN where there is none.
unfoldable pub status_of :
    UpgradeInput → FactRequirement → Option CoverageAssessment → Result FactCoverage
status_of i fact none = ok FactCoverage.uncovered
status_of i fact (some a) = do
  raise_if (is_foreign i fact a) (value_error "Coverage assessment tenant/run/fact mismatch")
  ok a.status

abbrev pub persisted_id : UpgradeInput → FactRequirement → Result ℕ
persisted_id i fact = elim (lookup fact.key i.fact_ids) [
  | none ↦ err (value_error (str_append "Missing persisted ID for fact: " fact.key))
  | some id ↦ ok id
]

-- The id and the status of a fact, or what is raised.
unfoldable pub assessed : UpgradeInput → FactRequirement → Result (ℕ × FactCoverage)
unfolding status_of
assessed i fact = persisted_id i fact >>= λ id.
    status_of i fact (assessment_of id i.coverage) >>= λ status. ok (id, status)

-- The loop over the facts of the intent.
unfoldable pub survey : UpgradeInput → Bool → List FactRequirement → Progress → Result Progress
unfolding assessed
survey i complete [] p = ok p
survey i complete (fact ∷ rest) p = elim fact.required [
  | false ↦ survey i complete rest p
  | true ↦ assessed i fact >>= λ (id, status).
      survey i complete rest (note_fact complete fact id status p)
]

-- `tuple(dict.fromkeys(reasons))`
abbrev pub unique : List String → List String
unique [] = []
unique (r ∷ rest) = r ∷ keep (λ s. not (str_eq s r)) (unique rest)

-- `evaluate`
unfoldable pub evaluate_upgrade : UpgradeInput → NormalizedIntent → Result FastUpgradeDecision
unfolding survey
evaluate_upgrade i intent = do
  p ←
      survey i intent.requires_complete_sources intent.facts
        (record { gaps = []; reasons = []; statuses = [] })
  ok (record {
    should_upgrade = not (is_empty_list (unique p.reasons));
    gap_fact_ids = p.gaps;
    reason_codes = unique p.reasons;
    status_by_fact = p.statuses;
  })
