-- ===== src/Evidence/Coverage.antt =====
-- `CoverageEvaluator.evaluate` of evidence/coverage.py: what the evidence of one fact amounts to.
use sana_v.Base.{
  ℕ, String, Bool, true, false, not, ◌&&◌, ◌||◌, Option, none, some, List, [], ◌∷◌, ◌++◌, map, any,
  keep, length, leb, ◌==◌, str_eq, if◌then◌else◌,
}
use sana_v.Evidence.Values.{
  EvidenceLevel, SupportType, SourceAuthority, DiscoveryEvidence, VerifiedEvidence, is_accepted,
  FactRequirement, is_stable, is_high,
}

-- `uncovered` is the member OPEN.
pub data FactCoverage : Type 0 where
  uncovered covered verified partial : FactCoverage

pub record CoverageAssessment : Type 0 where
  pub tenant_id : ℕ
  pub run_id : ℕ
  pub fact_requirement_id : ℕ
  pub fact_key : String
  pub status : FactCoverage
  pub level : Option EvidenceLevel
  pub evidence_ids : List ℕ
  pub supporting_ids : List ℕ
  pub contradicting_ids : List ℕ
  pub reason_codes : List String
  pub discovery_count : ℕ
  pub requires_research_upgrade : Bool

-- The fact that an evaluation is about: `tenant_id`, `run_id`, `fact_requirement_id`.
pub record Scope : Type 0 where
  pub tenant : ℕ
  pub run : ℕ
  pub fact : ℕ

-- An item is of the fact, and accepted.
abbrev pub qualifies : Scope → VerifiedEvidence → Bool
qualifies s e =
    e.candidate.tenant_id == s.tenant
    && e.candidate.run_id == s.run
    && e.candidate.fact_requirement_id == s.fact
    && is_accepted e.verdict

-- `accepted_by_id.setdefault(item.id, item)`
abbrev pub set_default : VerifiedEvidence → List VerifiedEvidence → List VerifiedEvidence
set_default e items = if any (λ i. i.id == e.id) items then items else items ++ (e ∷ [])

-- The loop that fills `accepted_by_id`, whose values these are.
unfoldable pub collect :
    Scope → List VerifiedEvidence → List VerifiedEvidence → List VerifiedEvidence
collect s [] items = items
collect s (e ∷ rest) items = collect s rest (if qualifies s e then set_default e items else items)

abbrev pub is_support : VerifiedEvidence → Bool
is_support e = elim e.candidate.support_type [
  | SupportType.supports ↦ true
  | SupportType.contradicts ↦ false
]

abbrev pub is_official : VerifiedEvidence → Bool
is_official e = elim e.candidate.source.authority [ SourceAuthority.official ↦ true | _ ↦ false ]

abbrev pub is_independent : VerifiedEvidence → Bool
is_independent e = elim e.candidate.source.authority [
  | SourceAuthority.independent ↦ true
  | _ ↦ false
]

abbrev pub is_empty_list {ℓ} : {A : Type ℓ} → List A → Bool
is_empty_list [] = true
is_empty_list (_ ∷ _) = false

-- The set of identities, as the list of its elements.
abbrev pub add_name : String → List String → List String
add_name n names = if any (str_eq n) names then names else n ∷ names

unfoldable pub identities : List VerifiedEvidence → List String
identities [] = []
identities (e ∷ rest) =
    let names = identities rest in
    if is_independent e then add_name e.candidate.source.source_identity names else names

abbrev pub ids : List VerifiedEvidence → List ℕ
ids = map (λ e. e.id)

abbrev of_scope : Scope → DiscoveryEvidence → Bool
of_scope s d = d.fact_requirement_id == s.fact && d.tenant_id == s.tenant && d.run_id == s.run

-- `official or len(independent_sources) >= 2`
unfoldable pub is_verified : List VerifiedEvidence → Bool
unfolding identities
is_verified accepted = any is_official accepted || leb 2 (length (identities accepted))

abbrev source_reason : List VerifiedEvidence → String
unfolding is_verified
source_reason accepted =
    if any is_official accepted
    then "official_source"
    else if is_verified accepted
    then "two_independent_sources"
    else "single_grounded_source"

-- The evaluation of the accepted items.
unfoldable pub assess : Scope → FactRequirement → ℕ → List VerifiedEvidence → CoverageAssessment
unfolding is_verified source_reason
assess s fact discovered accepted =
    let supporting = keep is_support accepted in
    let contradicting = keep (λ e. not (is_support e)) accepted in
    let base : CoverageAssessment = record {
      tenant_id = s.tenant;
      run_id = s.run;
      fact_requirement_id = s.fact;
      fact_key = fact.key;
      status = FactCoverage.uncovered;
      level = none;
      evidence_ids = ids accepted;
      supporting_ids = ids supporting;
      contradicting_ids = ids contradicting;
      reason_codes = "no_grounded_evidence" ∷ [];
      discovery_count = discovered;
      requires_research_upgrade = false;
    } in
    if not (is_empty_list supporting) && not (is_empty_list contradicting)
    then record base {
      status = FactCoverage.partial;
      level = some EvidenceLevel.l1_grounded;
      reason_codes = "support_contradiction" ∷ [];
      requires_research_upgrade = not (is_stable fact.freshness) || is_high fact.consequence;
    }
    else if is_empty_list accepted
    then base
    else record base {
      status = if is_verified accepted then FactCoverage.verified else FactCoverage.covered;
      level =
          some
            (if is_verified accepted then EvidenceLevel.l2_verified else EvidenceLevel.l1_grounded);
      reason_codes = source_reason accepted ∷ [];
    }

-- `evaluate`
unfoldable pub evaluate :
    Scope → FactRequirement → List VerifiedEvidence → List DiscoveryEvidence → CoverageAssessment
unfolding assess collect
evaluate s fact evidence discovery =
    assess s fact (length (keep (of_scope s) discovery)) (collect s evidence [])
