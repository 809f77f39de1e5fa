-- ===== src/Answers/Validation/Foundation.antt =====
-- What an answer that is grounded is, and how it is put together from grounded parts.
use sana_v.Base.{
  ◌≡◌, sym, ap, ◌∙◌, List, [], ◌∷◌, ◌++◌, inl, inr, Among, Among-++, Among-left, Among-right,
}
use sana_v.Evidence.Values.{VerifiedEvidence}
use sana_v.Answers.Values.{ClaimKind, AnswerClaim, Citation}
use sana_v.Answers.Selection.{EvidenceById}
use sana_v.Answers.Validation.{Outcome}
use sana_v.Answers.Validation.Backing.{AcceptedFor, Backing}

-- A citation shows the passage of the evidence, in the version of the document that it is from.
pub record Shows (x : Citation) (e : VerifiedEvidence) : Type 0 where
  pub of_evidence : x.verified_evidence_id ≡ e.id
  pub of_version : x.document_version_id ≡ e.candidate.source.document_version_id
  pub of_chunk : x.document_chunk_id ≡ e.candidate.source.document_chunk_id
  pub same_url : x.rendered_url ≡ e.candidate.source.url
  pub same_quote : x.quote ≡ e.candidate.quote
  pub same_start : x.start_offset ≡ e.candidate.start_offset
  pub same_end : x.end_offset ≡ e.candidate.end_offset

-- A citation is of a factual claim of the answer, and shows evidence that the claim rests on.
pub record Traced (evidence_by_id : EvidenceById) (claims : List AnswerClaim) (x : Citation)
    : Type 0 where
  pub claim : AnswerClaim
  pub is_claim : Among claim claims
  pub is_factual : claim.kind ≡ ClaimKind.factual
  pub of_claim : x.answer_claim_id ≡ claim.id
  pub of_tenant : x.tenant_id ≡ claim.tenant_id
  pub of_run : x.run_id ≡ claim.run_id
  pub shown : VerifiedEvidence
  pub is_named : Among shown.id claim.evidence_ids
  pub is_accepted : AcceptedFor evidence_by_id claim shown
  pub shows : Shows x shown

-- The factual claims are backed and cited, and the citations are of them.
pub record IsGrounded (evidence_by_id : EvidenceById) (claims : List AnswerClaim)
    (citations : List Citation) : Type 0 where
  pub backed :
      (c : AnswerClaim) → Among c claims → c.kind ≡ ClaimKind.factual → Backing evidence_by_id c
  pub cited :
      (c : AnswerClaim)
      → Among c claims
      → c.kind ≡ ClaimKind.factual
      → (x : Citation) × Among x citations × (x.answer_claim_id ≡ c.id)
  pub traced : (x : Citation) → Among x citations → Traced evidence_by_id claims x

module _ (evidence_by_id : EvidenceById) where
  Traced-within :
      (claims more : List AnswerClaim) (x : Citation)
      → ((c : AnswerClaim) → Among c claims → Among c more)
      → Traced evidence_by_id claims x
      → Traced evidence_by_id more x
  Traced-within claims more x within t = record {
    claim = t.claim;
    is_claim = within t.claim t.is_claim;
    is_factual = t.is_factual;
    of_claim = t.of_claim;
    of_tenant = t.of_tenant;
    of_run = t.of_run;
    shown = t.shown;
    is_named = t.is_named;
    is_accepted = t.is_accepted;
    shows = t.shows;
  }

  -- What is grounded in parts is grounded.
  pub join-IsGrounded :
      (a b : Outcome)
      → IsGrounded evidence_by_id a.claims a.citations
      → IsGrounded evidence_by_id b.claims b.citations
      → IsGrounded evidence_by_id (a.claims ++ b.claims) (a.citations ++ b.citations)
  join-IsGrounded a b first later = record {
    backed = λ c h factual. elim (Among-++ c a.claims b.claims h) [
      | inl left ↦ first.backed c left factual
      | inr right ↦ later.backed c right factual
    ];
    cited = λ c h factual. elim (Among-++ c a.claims b.claims h) [
      | inl left ↦
          let (x, among, same) = first.cited c left factual in
          (x, Among-left x a.citations b.citations among, same)
      | inr right ↦
          let (x, among, same) = later.cited c right factual in
          (x, Among-right x a.citations b.citations among, same)
    ];
    traced = λ x h. elim (Among-++ x a.citations b.citations h) [
      | inl left ↦
          Traced-within a.claims (a.claims ++ b.claims) x (λ c. Among-left c a.claims b.claims)
            (first.traced x left)
      | inr right ↦
          Traced-within b.claims (a.claims ++ b.claims) x (λ c. Among-right c a.claims b.claims)
            (later.traced x right)
    ];
  }

  -- A claim that is not factual needs nothing.
  pub other-IsGrounded :
      (c : AnswerClaim) (kind : ClaimKind)
      → c.kind ≡ kind
      → ¬ (kind ≡ ClaimKind.factual)
      → IsGrounded evidence_by_id (c ∷ []) []
  other-IsGrounded c kind is other = record {
    backed = λ d h factual. absurd (contradiction d h factual);
    cited = λ d h factual. absurd (contradiction d h factual);
    traced = λ x h. elim h [ ];
  }
    where
      contradiction : (d : AnswerClaim) → Among d (c ∷ []) → d.kind ≡ ClaimKind.factual → ⊥
      contradiction d (inl same) factual = other (sym is ∙ (ap (λ k. k.kind) (sym same) ∙ factual))
      contradiction d (inr none) factual = none
