-- ===== src/Answers/Validation/Pipeline.antt =====
-- The validator returns for every draft that is synthesized.
use sana_v.Base.{
  ℕ, suc, ◌≡◌, refl, sym, ap, ◌∙◌, subst, String, some, List, [], ◌∷◌, inl, inr, Among, any, str_eq,
}
use sana_v.Shared.Errors.{ok, ok-elim, check-rest, ok-injective}
use sana_v.Evidence.Values.{VerifiedEvidence}
use sana_v.Answers.Values.{
  UnsupportedClaimPolicy, ProposedClaim, AnswerClaim, new_claim, DraftAnswer,
}
use sana_v.Answers.Synthesis.{
  Assessments, assessment_for, is_foreign, claim_for, synthesize_claims, synthesize,
}
use sana_v.Answers.Selection.{EvidenceById, MappedObject}
use sana_v.Answers.Validation.{validate}
use sana_v.Answers.Validation.Checks.{new_claim-same}
use sana_v.Answers.Validation.Totality.{Returns, IsCitable, IsOwn, validate-Returns}

-- The claims that are synthesized are the draft's own.
synthesized-IsOwn :
    (fresh : ℕ → ℕ) (tenant run : ℕ) (coverage : Assessments) (n : ℕ) (seen : List String)
    (proposals : List ProposedClaim) (claims all : List AnswerClaim) (c : AnswerClaim)
    → synthesize_claims fresh tenant run coverage n seen proposals ≡ ok claims
    → Among c claims
    → IsOwn (record { tenant_id = tenant; run_id = run; claims = all }) c
unfolding synthesize_claims
synthesized-IsOwn fresh tenant run coverage n seen [] claims all c h among =
    elim (subst (Among c) (sym (ok-injective h)) among) [ ]
synthesized-IsOwn fresh tenant run coverage n seen (p ∷ proposals) claims all c h among =
    let (_, is_new) = check-rest (any (str_eq p.claim_key) seen) _ _ h in
    let (_, is_ours) = check-rest (is_foreign tenant run (assessment_for coverage p)) _ _ is_new in
    ok-elim (new_claim (claim_for fresh tenant run coverage (suc n) p)) _ is_ours λ d made h.
      ok-elim (synthesize_claims fresh tenant run coverage (suc n) (p.claim_key ∷ seen) proposals) _
        h
        λ cs rest h.
          let within : Among c (d ∷ cs) = subst (Among c) (sym (ok-injective h)) among in
          elim within [
            | inl same ↦ subst (IsOwn _) (new_claim-same _ d made ∙ sym same) (record {
              is_checked = made ∙ ap ok (sym (new_claim-same _ d made));
              of_tenant = refl;
              of_run = refl;
            })
            | inr later ↦
                synthesized-IsOwn fresh tenant run coverage (suc n) (p.claim_key ∷ seen) proposals
                  cs all c rest later
          ]

-- What the synthesizer returns, the validator returns an answer for, whatever a model has proposed
-- and whatever the policy is: given that the evidence was built by its constructors, no proposal
-- makes the validator raise.
pub synthesized-Returns :
    (sha256 : String → String) (evidence_by_id : EvidenceById) (policy : UnsupportedClaimPolicy)
    (fresh fresh' : ℕ → ℕ) (tenant run : ℕ) (coverage : Assessments)
    (proposals : List ProposedClaim) (draft : DraftAnswer)
    → ((id : ℕ) (e : VerifiedEvidence)
        → evidence_by_id id ≡ some (MappedObject.evidence e)
        → IsCitable sha256 e)
    → synthesize fresh tenant run coverage proposals ≡ ok draft
    → Returns (validate evidence_by_id policy fresh' draft)
unfolding synthesize
synthesized-Returns sha256 evidence_by_id policy fresh fresh' tenant run coverage proposals draft
      citable h =
    ok-elim (synthesize_claims fresh tenant run coverage 0 [] proposals) _ h λ claims is h.
      subst (λ draft. Returns (validate evidence_by_id policy fresh' draft)) (ok-injective h)
        (validate-Returns sha256 evidence_by_id policy fresh' _ citable λ c among.
          synthesized-IsOwn fresh tenant run coverage 0 [] proposals claims claims c is among)
