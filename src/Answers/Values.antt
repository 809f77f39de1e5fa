-- ===== src/Answers/Values.antt =====
-- answer/domain.py. A validated answer's share of traceable claims, a float in the code, is a
-- numerator and a denominator.
use sana_v.Base.{
  ℕ, String, Bool, true, false, not, ◌&&◌, ◌||◌, Option, List, [], ◌∷◌, ℤ, is_blank, is_empty,
  is_some, any, keep, length, ◌==◌,
}
use sana_v.Shared.Errors.{Result, ok, value_error, raise_if, ◌>>◌}
use sana_v.Evidence.Values.{bad_offsets, is_off_quote}
use sana_v.Evidence.Coverage.{is_empty_list}

pub data ClaimKind : Type 0 where
  factual uncertainty commentary : ClaimKind

pub data ClaimSupport : Type 0 where
  unsupported grounded verified conflicted unconfirmed : ClaimSupport

pub data UnsupportedClaimPolicy : Type 0 where
  drop weaken mark_unconfirmed : UnsupportedClaimPolicy

abbrev pub is_factual : ClaimKind → Bool
is_factual ClaimKind.factual = true
is_factual _ = false

-- A support that needs evidence.
abbrev pub is_supported : ClaimSupport → Bool
is_supported ClaimSupport.grounded = true
is_supported ClaimSupport.verified = true
is_supported ClaimSupport.conflicted = true
is_supported _ = false

-- `support.value`
abbrev pub support_value : ClaimSupport → String
support_value ClaimSupport.unsupported = "UNSUPPORTED"
support_value ClaimSupport.grounded = "GROUNDED"
support_value ClaimSupport.verified = "VERIFIED"
support_value ClaimSupport.conflicted = "CONFLICTED"
support_value ClaimSupport.unconfirmed = "UNCONFIRMED"

-- `policy.value`
abbrev pub policy_value : UnsupportedClaimPolicy → String
policy_value UnsupportedClaimPolicy.drop = "DROP"
policy_value UnsupportedClaimPolicy.weaken = "WEAKEN"
policy_value UnsupportedClaimPolicy.mark_unconfirmed = "MARK_UNCONFIRMED"

pub record ProposedClaim : Type 0 where
  pub claim_key : String
  pub text : String
  pub fact_requirement_id : Option ℕ
  pub evidence_ids : List ℕ
  pub kind : ClaimKind

-- `ProposedClaim.__post_init__`
unfoldable pub new_proposed : ProposedClaim → Result ProposedClaim
new_proposed c = do
  raise_if (is_blank c.claim_key || is_blank c.text)
      (value_error "Proposed claim key and text cannot be empty")
  raise_if (is_factual c.kind && not (is_some c.fact_requirement_id))
      (value_error "Factual claims require a fact requirement")
  ok c

pub record AnswerClaim : Type 0 where
  pub id : ℕ
  pub tenant_id : ℕ
  pub run_id : ℕ
  pub claim_key : String
  pub text : String
  pub fact_requirement_id : Option ℕ
  pub kind : ClaimKind
  pub support : ClaimSupport
  pub evidence_ids : List ℕ

-- `AnswerClaim.__post_init__`
unfoldable pub new_claim : AnswerClaim → Result AnswerClaim
new_claim c = do
  raise_if (is_blank c.claim_key || is_blank c.text)
      (value_error "Answer claim key and text cannot be empty")
  raise_if (is_factual c.kind && not (is_some c.fact_requirement_id))
      (value_error "Factual claims require a fact requirement")
  raise_if (is_supported c.support && is_empty_list c.evidence_ids)
      (value_error "Supported claims require evidence identifiers")
  ok c

pub record Citation : Type 0 where
  pub id : ℕ
  pub tenant_id : ℕ
  pub run_id : ℕ
  pub answer_claim_id : ℕ
  pub verified_evidence_id : ℕ
  pub document_version_id : ℕ
  pub document_chunk_id : ℕ
  pub ordinal : ℕ
  pub label : String
  pub rendered_url : String
  pub quote : String
  pub start_offset : ℤ
  pub end_offset : ℤ

-- `Citation.__post_init__`
unfoldable pub new_citation : Citation → Result Citation
new_citation c = do
  raise_if (c.ordinal == 0 || is_blank c.label || is_blank c.rendered_url)
      (value_error "Citation ordinal, label and URL are required")
  raise_if (is_empty c.quote || bad_offsets c.start_offset c.end_offset)
      (value_error "Citation quote offsets are invalid")
  raise_if (is_off_quote c.start_offset c.end_offset c.quote)
      (value_error "Citation quote offsets do not match quote")
  ok c

pub record DraftAnswer : Type 0 where
  pub tenant_id : ℕ
  pub run_id : ℕ
  pub claims : List AnswerClaim

pub record ValidationIssue : Type 0 where
  pub claim_key : String
  pub code : String
  pub detail : String

pub record ValidatedAnswer : Type 0 where
  pub tenant_id : ℕ
  pub run_id : ℕ
  pub claims : List AnswerClaim
  pub citations : List Citation
  pub issues : List ValidationIssue

-- `claim.id in cited_claims`
abbrev pub is_cited : List Citation → AnswerClaim → Bool
is_cited citations claim = any (λ x. x.answer_claim_id == claim.id) citations

-- A share: so many out of so many.
pub record Rate : Type 0 where
  pub part : ℕ
  pub whole : ℕ

-- The share of the factual claims that are cited, which is all of none.
abbrev pub cited_share : List Citation → List AnswerClaim → Rate
cited_share citations [] = record { part = 1; whole = 1 }
cited_share citations (c ∷ claims) = record {
  part = length (keep (is_cited citations) (c ∷ claims));
  whole = length (c ∷ claims);
}

-- `factual_traceability_rate`
unfoldable pub factual_traceability_rate : ValidatedAnswer → Rate
factual_traceability_rate answer =
    cited_share answer.citations (keep (λ c. is_factual c.kind) answer.claims)
