-- ===== src/Answers/Samples.antt =====
-- Sample data: what a model proposes to say of a price, of a size that nothing was found of, and
-- besides.
use sana_v.Base.{
  ℕ, ◌+◌, ◌≡◌, refl, String, true, none, some, List, [], ◌∷◌, map, pos, strip, decimal, ◌+ℤ◌, ◌==◌,
  if◌then◌else◌,
}
use sana_v.Shared.Errors.{Result, ok, err}
use sana_v.Evidence.Values.{
  SupportType, SourceAuthority, EvidenceLevel, EvidenceVerdict, VerifiedEvidence, FactRequirement,
  Freshness, Consequence, new_candidate, is_off_quote,
}
use sana_v.Evidence.Coverage.{evaluate, identities}
use sana_v.Answers.Values.{
  ClaimKind, ClaimSupport, UnsupportedClaimPolicy, ProposedClaim, DraftAnswer, ValidatedAnswer,
  new_claim, new_citation,
}
use sana_v.Answers.Synthesis.{Assessments, synthesize, distinct}
use sana_v.Answers.Selection.{EvidenceById, MappedObject, valid_among, validated_support}
use sana_v.Answers.Validation.{
  validate, validate_claims, validate_claim, validate_factual, cite, handle_unsupported,
}

-- A stand-in for the digest.
abbrev pub digest : String → String
digest text = text

-- An accepted item of the fact 9 of the run 1 of the tenant 2.
abbrev pub passage : ℕ → String → VerifiedEvidence
passage id name = record {
  id = id;
  candidate = record {
    id = id;
    tenant_id = 2;
    run_id = 1;
    fact_requirement_id = 9;
    source = record {
      document_id = 3;
      document_version_id = 4;
      document_chunk_id = 5;
      url = "https://a.test";
      source_identity = name;
      authority = SourceAuthority.independent;
    };
    quote = "42 EUR";
    quote_hash = "42 EUR";
    support_type = SupportType.supports;
    candidate_score = pos 800_000;
    start_offset = pos 7;
    end_offset = pos 13;
  };
  verdict = EvidenceVerdict.accepted;
  confidence = pos 900_000;
  reason_codes = [];
  verifier_version = "v1";
  verified_at = record { is_aware = true; instant = 63_871_286_400_000_000 };
  level = EvidenceLevel.l1_grounded;
}

abbrev pub found : EvidenceById
found id =
    if id == 11
    then some (MappedObject.evidence (passage 11 "a.test"))
    else if id == 12
    then some (MappedObject.evidence (passage 12 "b.test"))
    else none

abbrev pub price : FactRequirement
price = record {
  key = "price";
  required = true;
  freshness = Freshness.current;
  consequence = Consequence.high;
}

unfoldable pub coverage : Assessments
unfolding evaluate
coverage fact =
    if fact == 9
    then some (
        evaluate (record { tenant = 2; run = 1; fact = 9 }) price
          (passage 11 "a.test" ∷ passage 12 "b.test" ∷ []) [])
    else none

-- The n-th new identifier.
abbrev pub fresh : ℕ → ℕ
fresh n = 100 + n

abbrev pub proposals : List ProposedClaim
proposals =
    record {
      claim_key = "price";
      text = "It costs 42 EUR.";
      fact_requirement_id = some 9;
      evidence_ids = 12 ∷ 7 ∷ 11 ∷ 12 ∷ [];
      kind = ClaimKind.factual;
    }
    ∷ record {
      claim_key = "size";
      text = "It is 2 m wide.";
      fact_requirement_id = some 8;
      evidence_ids = 11 ∷ [];
      kind = ClaimKind.factual;
    }
    ∷ record {
      claim_key = "end";
      text = "Prices change.";
      fact_requirement_id = none;
      evidence_ids = [];
      kind = ClaimKind.commentary;
    }
    ∷ []

abbrev draft_or : Result DraftAnswer → DraftAnswer
draft_or (ok draft) = draft
draft_or (err _) = record { tenant_id = 0; run_id = 0; claims = [] }

unfoldable pub draft : DraftAnswer
unfolding synthesize coverage distinct new_claim strip
draft = draft_or (synthesize fresh 2 1 coverage proposals)

abbrev answer_or : Result ValidatedAnswer → ValidatedAnswer
answer_or (ok answer) = answer
answer_or (err _) = record { tenant_id = 0; run_id = 0; claims = []; citations = []; issues = [] }

unfoldable pub answer : ValidatedAnswer
unfolding validate draft validate_claims validate_claim validate_factual cite handle_unsupported
    new_claim new_citation is_off_quote valid_among validated_support identities distinct decimal
    strip ◌+ℤ◌
answer = answer_or (validate found UnsupportedClaimPolicy.mark_unconfirmed fresh draft)

pub is_draft : synthesize fresh 2 1 coverage proposals ≡ ok draft
unfolding draft
is_draft = refl

pub is_answer : validate found UnsupportedClaimPolicy.mark_unconfirmed fresh draft ≡ ok answer
unfolding answer
is_answer = refl

answer_supports :
    map (λ c. c.support) answer.claims
    ≡ ClaimSupport.verified ∷ ClaimSupport.unconfirmed ∷ ClaimSupport.unsupported ∷ []
unfolding answer
answer_supports = refl

answer_evidence : map (λ x. x.verified_evidence_id) answer.citations ≡ 12 ∷ 11 ∷ []
unfolding answer
answer_evidence = refl

answer_issues :
    map (λ i. i.detail) answer.issues ≡ "Applied unsupported claim policy: MARK_UNCONFIRMED" ∷ []
unfolding answer
answer_issues = refl

dropped_claims :
    map
      (λ c. c.claim_key)
      (answer_or (validate found UnsupportedClaimPolicy.drop fresh draft)).claims
    ≡ "price" ∷ "end" ∷ []
unfolding answer
dropped_claims = refl

pub passage-candidate :
    (id : ℕ) (name : String)
    → new_candidate digest (passage id name).candidate ≡ ok (passage id name).candidate
unfolding new_candidate is_off_quote ◌+ℤ◌
passage-candidate id name = refl

-- A draft whose claim names evidence that there is none of.
abbrev careless : DraftAnswer
careless = record {
  tenant_id = 2;
  run_id = 1;
  claims =
      record {
        id = 1;
        tenant_id = 2;
        run_id = 1;
        claim_key = "price";
        text = "It costs 42 EUR.";
        fact_requirement_id = some 9;
        kind = ClaimKind.factual;
        support = ClaimSupport.verified;
        evidence_ids = 7 ∷ 11 ∷ [];
      }
      ∷ [];
}

careless_issues :
    map
      (λ i. i.detail)
      (answer_or (validate found UnsupportedClaimPolicy.drop fresh careless)).issues
    ≡ "Removed 1 invalid evidence mapping(s)" ∷ "Support changed from VERIFIED to GROUNDED" ∷ []
unfolding answer
careless_issues = refl
