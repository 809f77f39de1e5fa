-- ===== src/Answers/Synthesis.antt =====
-- `ClaimSynthesizer` of answer/synthesizer.py: claims from what a model proposes, with the evidence
-- and the support that the coverage of their facts allows. `fresh n` is what the n-th call of the
-- factory of identifiers gives, from 1.
use sana_v.Base.{
  ℕ, suc, String, Bool, not, ◌||◌, Option, none, some, List, [], ◌∷◌, any, keep, ◌==◌, str_eq,
  if◌then◌else◌,
}
use sana_v.Shared.Errors.{Result, ok, value_error, raise_if, ◌>>◌, ◌>>=◌}
use sana_v.Evidence.Coverage.{FactCoverage, CoverageAssessment, is_empty_list}
use sana_v.Answers.Values.{
  ClaimKind, ClaimSupport, ProposedClaim, AnswerClaim, new_claim, DraftAnswer, is_factual,
}

-- `dict.fromkeys(ids)`: each id where it stands first.
unfoldable pub distinct : List ℕ → List ℕ
distinct [] = []
distinct (id ∷ rest) = id ∷ keep (λ other. not (other == id)) (distinct rest)

abbrev coverage_support : FactCoverage → ClaimSupport
coverage_support FactCoverage.verified = ClaimSupport.verified
coverage_support FactCoverage.partial = ClaimSupport.conflicted
coverage_support FactCoverage.covered = ClaimSupport.grounded
coverage_support FactCoverage.uncovered = ClaimSupport.unsupported

-- `_support`
abbrev pub proposal_support : Option CoverageAssessment → List ℕ → ClaimKind → ClaimSupport
proposal_support none ids kind = ClaimSupport.unsupported
proposal_support (some a) ids kind =
    if not (is_factual kind) || is_empty_list ids
    then ClaimSupport.unsupported
    else coverage_support a.status

-- The assessments by the id of the fact.
abbrev pub Assessments : Type 0
Assessments = ℕ → Option CoverageAssessment

abbrev pub assessment_for : Assessments → ProposedClaim → Option CoverageAssessment
assessment_for coverage proposal = elim proposal.fact_requirement_id [
  | none ↦ none
  | some fact ↦ coverage fact
]

abbrev allowed_ids : Option CoverageAssessment → List ℕ
allowed_ids none = []
allowed_ids (some a) = a.evidence_ids

abbrev pub is_foreign : ℕ → ℕ → Option CoverageAssessment → Bool
is_foreign tenant run none = Bool.false
is_foreign tenant run (some a) = not (a.tenant_id == tenant) || not (a.run_id == run)

-- The ids that a claim keeps.
abbrev pub kept_ids : Option CoverageAssessment → List ℕ → List ℕ
kept_ids assessment given =
    keep (λ id. any (λ allowed. allowed == id) (allowed_ids assessment)) (distinct given)

module _ (fresh : ℕ → ℕ) (tenant run : ℕ) (coverage : Assessments) where
  -- The claim for the proposal, which is the `n`-th.
  abbrev pub claim_for : ℕ → ProposedClaim → AnswerClaim
  claim_for n proposal =
      let assessment = assessment_for coverage proposal in
      let ids = kept_ids assessment proposal.evidence_ids in
      record {
        id = fresh n;
        tenant_id = tenant;
        run_id = run;
        claim_key = proposal.claim_key;
        text = proposal.text;
        fact_requirement_id = proposal.fact_requirement_id;
        kind = proposal.kind;
        support = proposal_support assessment ids proposal.kind;
        evidence_ids = ids;
      }

  -- The loop over the proposals, after `n` of them, with the keys seen so far.
  unfoldable pub synthesize_claims :
      ℕ → List String → List ProposedClaim → Result (List AnswerClaim)
  synthesize_claims n seen [] = ok []
  synthesize_claims n seen (proposal ∷ rest) = do
    raise_if (any (str_eq proposal.claim_key) seen) (value_error "Answer claim keys must be unique")
    raise_if (is_foreign tenant run (assessment_for coverage proposal))
        (value_error "Coverage tenant/run does not match draft answer")
    claim ← new_claim (claim_for (suc n) proposal)
    claims ← synthesize_claims (suc n) (proposal.claim_key ∷ seen) rest
    ok (claim ∷ claims)

  -- `synthesize`
  unfoldable pub synthesize : List ProposedClaim → Result DraftAnswer
  unfolding synthesize_claims
  synthesize proposals = do
    claims ← synthesize_claims 0 [] proposals
    ok (record { tenant_id = tenant; run_id = run; claims = claims })
