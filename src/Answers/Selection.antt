-- ===== src/Answers/Selection.antt =====
-- The evidence that a claim may rest on, and what it makes of the claim: `_valid_evidence` and
-- `_validated_support` of answer/citation_validator.py.
use sana_v.Base.{
  ℕ, Bool, false, not, ◌&&◌, Option, none, some, List, [], ◌∷◌, any, length, leb, ◌==◌,
  if◌then◌else◌,
}
use sana_v.Evidence.Values.{VerifiedEvidence, is_accepted}
use sana_v.Evidence.Coverage.{is_support, is_official, identities}
use sana_v.Answers.Values.{ClaimSupport, AnswerClaim}
use sana_v.Answers.Synthesis.{distinct}

-- What the mapping of evidence holds.
pub data MappedObject : Type 0 where
  evidence : VerifiedEvidence → MappedObject
  another : MappedObject

-- `evidence_by_id.get`
abbrev pub EvidenceById : Type 0
EvidenceById = ℕ → Option MappedObject

abbrev pub is_same_fact : ℕ → Option ℕ → Bool
is_same_fact fact none = false
is_same_fact fact (some other) = fact == other

-- The evidence under the id is what the claim may rest on.
abbrev pub is_valid_for : AnswerClaim → ℕ → VerifiedEvidence → Bool
is_valid_for claim id e =
    e.id == id
    && is_accepted e.verdict
    && e.candidate.tenant_id == claim.tenant_id
    && e.candidate.run_id == claim.run_id
    && is_same_fact e.candidate.fact_requirement_id claim.fact_requirement_id

abbrev pub append_valid :
    AnswerClaim → ℕ → Option MappedObject → List VerifiedEvidence → List VerifiedEvidence
append_valid claim id (some (evidence e)) rest = if is_valid_for claim id e then e ∷ rest else rest
append_valid claim id _ rest = rest

module _ (evidence_by_id : EvidenceById) (claim : AnswerClaim) where
  -- The loop over the ids.
  unfoldable pub valid_among : List ℕ → List VerifiedEvidence
  valid_among [] = []
  valid_among (id ∷ rest) = append_valid claim id (evidence_by_id id) (valid_among rest)

  -- `_valid_evidence`
  abbrev pub valid_evidence : List VerifiedEvidence
  valid_evidence = valid_among (distinct claim.evidence_ids)

-- `_validated_support`, of some evidence
unfoldable pub validated_support : List VerifiedEvidence → ClaimSupport
validated_support es =
    if any is_support es && any (λ e. not (is_support e)) es
    then ClaimSupport.conflicted
    else if any is_official es
    then ClaimSupport.verified
    else if leb 2 (length (identities es))
    then ClaimSupport.verified
    else ClaimSupport.grounded
