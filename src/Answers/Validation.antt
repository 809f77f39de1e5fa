-- ===== src/Answers/Validation.antt =====
-- `CitationValidator` of answer/citation_validator.py, the last gate before an answer is shown.
-- `fresh n` is what the n-th call of the factory of identifiers gives, from 1: each citation makes
-- one call.
pub mod Checks
pub mod Backing
pub mod Foundation
pub mod Cited
pub mod Grounding
pub mod Traces
pub mod Retention
pub mod Totality
pub mod Pipeline
use sana_v.Base.{
  ℕ, suc, ◌+◌, ◌-◌, String, Bool, true, false, not, ◌&&◌, List, [], ◌∷◌, ◌++◌, length, ◌==◌,
  str_append, decimal, if◌then◌else◌,
}
use sana_v.Shared.Errors.{Result, ok, value_error, raise_if, ◌>>◌, ◌>>=◌}
use sana_v.Evidence.Values.{VerifiedEvidence}
use sana_v.Evidence.Coverage.{ids}
use sana_v.Answers.Values.{
  ClaimKind, ClaimSupport, UnsupportedClaimPolicy, AnswerClaim, new_claim, Citation, new_citation,
  DraftAnswer, ValidationIssue, ValidatedAnswer, is_factual, support_value, policy_value,
}
use sana_v.Answers.Selection.{EvidenceById, valid_evidence, validated_support}

abbrev unconfirmed_prefix : UnsupportedClaimPolicy → String
unconfirmed_prefix UnsupportedClaimPolicy.mark_unconfirmed = "尚未确认："
unconfirmed_prefix _ = "现有来源仅提示、尚不能确认："

-- The claim that says that its text is not confirmed.
abbrev pub unconfirmed_claim : UnsupportedClaimPolicy → AnswerClaim → AnswerClaim
unconfirmed_claim policy claim = record claim {
  text = str_append (unconfirmed_prefix policy) claim.text;
  kind = ClaimKind.uncertainty;
  support = ClaimSupport.unconfirmed;
  evidence_ids = [];
}

-- `_handle_unsupported`: the claims that are left
unfoldable pub handle_unsupported : UnsupportedClaimPolicy → AnswerClaim → Result (List AnswerClaim)
handle_unsupported UnsupportedClaimPolicy.drop claim = ok []
handle_unsupported policy claim = do
  replacement ← new_claim (unconfirmed_claim policy claim)
  ok (replacement ∷ [])

abbrev pub unsupported_issue : UnsupportedClaimPolicy → AnswerClaim → ValidationIssue
unsupported_issue policy claim = record {
  claim_key = claim.claim_key;
  code = "unsupported_factual_claim";
  detail = str_append "Applied unsupported claim policy: " (policy_value policy);
}

-- The issue of the ids that are left out, of which there are not more than ids.
abbrev pub mapping_issues : AnswerClaim → List VerifiedEvidence → List ValidationIssue
mapping_issues claim valid =
    let invalid_count = length claim.evidence_ids - length valid in
    if invalid_count == 0
    then []
    else record {
      claim_key = claim.claim_key;
      code = "invalid_evidence_mapping";
      detail =
          str_append "Removed " (str_append (decimal invalid_count) " invalid evidence mapping(s)");
    }
      ∷ []

abbrev is_same_support : ClaimSupport → ClaimSupport → Bool
is_same_support ClaimSupport.unsupported ClaimSupport.unsupported = true
is_same_support ClaimSupport.grounded ClaimSupport.grounded = true
is_same_support ClaimSupport.verified ClaimSupport.verified = true
is_same_support ClaimSupport.conflicted ClaimSupport.conflicted = true
is_same_support ClaimSupport.unconfirmed ClaimSupport.unconfirmed = true
is_same_support _ _ = false

abbrev pub support_issues : AnswerClaim → ClaimSupport → List ValidationIssue
support_issues claim support =
    if is_same_support support claim.support
    then []
    else record {
      claim_key = claim.claim_key;
      code = "support_recalculated";
      detail =
          str_append "Support changed from "
            (str_append (support_value claim.support) (str_append " to " (support_value support)));
    }
      ∷ []

-- The claim with the evidence that it may rest on.
abbrev pub validated_claim : AnswerClaim → List VerifiedEvidence → AnswerClaim
validated_claim claim valid = record claim {
  evidence_ids = ids valid;
  support = validated_support valid;
}

-- What the claims of a part of the draft come to.
pub record Outcome : Type 0 where
  pub claims : List AnswerClaim
  pub citations : List Citation
  pub issues : List ValidationIssue

-- One after the other.
abbrev pub join : Outcome → Outcome → Outcome
join a b = record {
  claims = a.claims ++ b.claims;
  citations = a.citations ++ b.citations;
  issues = a.issues ++ b.issues;
}

module _ (evidence_by_id : EvidenceById) (policy : UnsupportedClaimPolicy) (fresh : ℕ → ℕ)
    (draft : DraftAnswer) where
  abbrev pub citation_of : AnswerClaim → ℕ → ℕ → VerifiedEvidence → Citation
  citation_of claim label ordinal e = record {
    id = fresh label;
    tenant_id = draft.tenant_id;
    run_id = draft.run_id;
    answer_claim_id = claim.id;
    verified_evidence_id = e.id;
    document_version_id = e.candidate.source.document_version_id;
    document_chunk_id = e.candidate.source.document_chunk_id;
    ordinal = ordinal;
    label = str_append "[" (str_append (decimal label) "]");
    rendered_url = e.candidate.source.url;
    quote = e.candidate.quote;
    start_offset = e.candidate.start_offset;
    end_offset = e.candidate.end_offset;
  }

  -- The citations of a claim, after `label` citations, the last of which was its `ordinal`-th.
  unfoldable pub cite : AnswerClaim → ℕ → ℕ → List VerifiedEvidence → Result (List Citation)
  cite claim label ordinal [] = ok []
  cite claim label ordinal (e ∷ es) = do
    citation ← new_citation (citation_of claim (suc label) (suc ordinal) e)
    citations ← cite claim (suc label) (suc ordinal) es
    ok (citation ∷ citations)

  -- A factual claim, by the evidence that it may rest on.
  unfoldable pub validate_factual : AnswerClaim → ℕ → List VerifiedEvidence → Result Outcome
  unfolding validated_support
  validate_factual claim label [] = do
    claims ← handle_unsupported policy claim
    ok (record {
      claims = claims;
      citations = [];
      issues = mapping_issues claim [] ++ (unsupported_issue policy claim ∷ []);
    })
  validate_factual claim label (e ∷ es) = do
    validated ← new_claim (validated_claim claim (e ∷ es))
    citations ← cite claim label 0 (e ∷ es)
    ok (record {
      claims = validated ∷ [];
      citations = citations;
      issues = mapping_issues claim (e ∷ es) ++ support_issues claim validated.support;
    })

  abbrev pub validate_kind : ClaimKind → AnswerClaim → ℕ → Result Outcome
  validate_kind ClaimKind.factual claim label =
      validate_factual claim label (valid_evidence evidence_by_id claim)
  validate_kind _ claim label = ok (record { claims = claim ∷ []; citations = []; issues = [] })

  -- One claim, after `label` citations.
  unfoldable pub validate_claim : AnswerClaim → ℕ → Result Outcome
  validate_claim claim label = do
    raise_if (not (claim.tenant_id == draft.tenant_id && claim.run_id == draft.run_id))
        (value_error "Claim tenant/run does not match draft answer")
    validate_kind claim.kind claim label

  -- The loop over the claims, after `label` citations.
  unfoldable pub validate_claims : List AnswerClaim → ℕ → Result Outcome
  validate_claims [] label = ok (record { claims = []; citations = []; issues = [] })
  validate_claims (claim ∷ rest) label = do
    first ← validate_claim claim label
    later ← validate_claims rest (label + length first.citations)
    ok (join first later)

  -- `validate`
  unfoldable pub validate : Result ValidatedAnswer
  validate = do
    outcome ← validate_claims draft.claims 0
    ok (record {
      tenant_id = draft.tenant_id;
      run_id = draft.run_id;
      claims = outcome.claims;
      citations = outcome.citations;
      issues = outcome.issues;
    })
