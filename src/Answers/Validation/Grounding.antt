-- ===== src/Answers/Validation/Grounding.antt =====
-- Nothing unfounded passes the validator: what the factual claims and the citations rest on.
use sana_v.Base.{
  ℕ, ◌≡◌, refl, sym, ap, ◌∙◌, subst, arith, not, ◌&&◌, List, [], ◌∷◌, inl, inr, ◌==◌, Among,
  Among-map,
}
use sana_v.Shared.Errors.{ok, ok-elim, check-rest, ok-injective}
use sana_v.Evidence.Values.{VerifiedEvidence}
use sana_v.Answers.Values.{
  ClaimKind, UnsupportedClaimPolicy, AnswerClaim, new_claim, Citation, DraftAnswer, ValidatedAnswer,
}
use sana_v.Answers.Selection.{EvidenceById, valid_evidence}
use sana_v.Answers.Validation.{
  unconfirmed_claim, handle_unsupported, validated_claim, Outcome, citation_of, cite,
  validate_factual, validate_kind, validate_claim, validate_claims, validate,
}
use sana_v.Answers.Validation.Checks.{new_claim-same}
use sana_v.Answers.Validation.Foundation.{Traced, IsGrounded, join-IsGrounded, other-IsGrounded}
use sana_v.Answers.Validation.Backing.{
  AcceptedFor, Backing, valid_among-Accepted, validated_support-Meaning,
}
use sana_v.Answers.Validation.Cited.{cite-of, cite-first}

-- What the policy leaves of an unsupported claim is not factual.
unsupported-IsGrounded :
    (evidence_by_id : EvidenceById) (p : UnsupportedClaimPolicy) (c : AnswerClaim)
    (claims : List AnswerClaim)
    → handle_unsupported p c ≡ ok claims
    → IsGrounded evidence_by_id claims []
unfolding handle_unsupported
unsupported-IsGrounded evidence_by_id UnsupportedClaimPolicy.drop c claims h =
    subst (λ cs. IsGrounded evidence_by_id cs []) (ok-injective h)
      (record {
        backed = λ d among _. elim among [ ];
        cited = λ d among _. elim among [ ];
        traced = λ x among. elim among [ ];
      })
unsupported-IsGrounded evidence_by_id p c claims h =
    ok-elim (new_claim (unconfirmed_claim p c)) _ h λ d made h.
      subst (λ cs. IsGrounded evidence_by_id cs []) (ok-injective h)
        (other-IsGrounded evidence_by_id d ClaimKind.uncertainty
          (sym (ap (λ c. c.kind) (new_claim-same (unconfirmed_claim p c) d made))) (λ same. cc))

module _ (evidence_by_id : EvidenceById) (policy : UnsupportedClaimPolicy) (fresh : ℕ → ℕ)
    (draft : DraftAnswer) where
  -- A claim with the evidence that it may rest on, cited.
  backed-IsGrounded :
      (c : AnswerClaim) (label : ℕ) (e : VerifiedEvidence) (es : List VerifiedEvidence)
      (xs : List Citation)
      → c.kind ≡ ClaimKind.factual
      → draft.tenant_id ≡ c.tenant_id
      → draft.run_id ≡ c.run_id
      → ((f : VerifiedEvidence) → Among f (e ∷ es) → AcceptedFor evidence_by_id c f)
      → cite evidence_by_id policy fresh draft c label 0 (e ∷ es) ≡ ok xs
      → IsGrounded evidence_by_id (validated_claim c (e ∷ es) ∷ []) xs
  backed-IsGrounded c label e es xs factual tenant run accepted h = record {
    backed = λ d among _. elim among [
      | inl same ↦ subst (Backing evidence_by_id) (sym same) backing
      | inr none ↦ elim none [ ]
    ];
    cited = λ d among _. elim among [
      | inl same ↦
          let (x, is, of_c) = cite-first evidence_by_id policy fresh draft c label 0 e es xs h in
          (x, is, of_c ∙ ap (λ d. d.id) (sym same))
      | inr none ↦ elim none [ ]
    ];
    traced = λ x among.
        let (f, is, l, o, made) =
          cite-of evidence_by_id policy fresh draft c label 0 (e ∷ es) xs x h among in
        subst (Traced evidence_by_id (validated_claim c (e ∷ es) ∷ [])) (sym made)
          (traced f l o is);
  }
    where
      moved :
          (f : VerifiedEvidence)
          → AcceptedFor evidence_by_id c f
          → AcceptedFor evidence_by_id (validated_claim c (e ∷ es)) f
      moved f a = record {
        found = a.found;
        accepted = a.accepted;
        of_tenant = a.of_tenant;
        of_run = a.of_run;
        of_fact = a.of_fact;
      }

      backing : Backing evidence_by_id (validated_claim c (e ∷ es))
      backing = record {
        backing = e ∷ es;
        is_some = λ empty. cc;
        names = refl;
        all_accepted = λ f is. moved f (accepted f is);
        meaning = validated_support-Meaning (e ∷ es) (λ empty. cc);
      }

      traced :
          (f : VerifiedEvidence) (l o : ℕ)
          → Among f (e ∷ es)
          → Traced evidence_by_id
              (validated_claim c (e ∷ es) ∷ [])
              (citation_of evidence_by_id policy fresh draft c l o f)
      traced f l o is = record {
        claim = validated_claim c (e ∷ es);
        is_claim = inl refl;
        is_factual = factual;
        of_claim = refl;
        of_tenant = tenant;
        of_run = run;
        shown = f;
        is_named = Among-map (λ g. g.id) f (e ∷ es) is;
        is_accepted = moved f (accepted f is);
        shows = record {
          of_evidence = refl;
          of_version = refl;
          of_chunk = refl;
          same_url = refl;
          same_quote = refl;
          same_start = refl;
          same_end = refl;
        };
      }

  factual-IsGrounded :
      (c : AnswerClaim) (label : ℕ) (es : List VerifiedEvidence) (o : Outcome)
      → c.kind ≡ ClaimKind.factual
      → draft.tenant_id ≡ c.tenant_id
      → draft.run_id ≡ c.run_id
      → ((f : VerifiedEvidence) → Among f es → AcceptedFor evidence_by_id c f)
      → validate_factual evidence_by_id policy fresh draft c label es ≡ ok o
      → IsGrounded evidence_by_id o.claims o.citations
  unfolding validate_factual
  factual-IsGrounded c label [] o factual tenant run accepted h =
      ok-elim (handle_unsupported policy c) _ h λ claims left h.
        subst (λ o. IsGrounded evidence_by_id o.claims o.citations) (ok-injective h)
          (unsupported-IsGrounded evidence_by_id policy c claims left)
  factual-IsGrounded c label (e ∷ es) o factual tenant run accepted h =
      ok-elim (new_claim (validated_claim c (e ∷ es))) _ h λ d made h.
        ok-elim (cite evidence_by_id policy fresh draft c label 0 (e ∷ es)) _ h λ xs cites h.
          subst (λ o. IsGrounded evidence_by_id o.claims o.citations) (ok-injective h)
            (subst (λ d. IsGrounded evidence_by_id (d ∷ []) xs)
              (new_claim-same (validated_claim c (e ∷ es)) d made)
              (backed-IsGrounded c label e es xs factual tenant run accepted cites))

  kind-IsGrounded :
      (c : AnswerClaim) (kind : ClaimKind) (label : ℕ) (o : Outcome)
      → c.kind ≡ kind
      → draft.tenant_id ≡ c.tenant_id
      → draft.run_id ≡ c.run_id
      → validate_kind evidence_by_id policy fresh draft kind c label ≡ ok o
      → IsGrounded evidence_by_id o.claims o.citations
  kind-IsGrounded c ClaimKind.factual label o is tenant run h =
      factual-IsGrounded c label (valid_evidence evidence_by_id c) o is tenant run
        (λ f among. valid_among-Accepted evidence_by_id c _ f among) h
  kind-IsGrounded c ClaimKind.uncertainty label o is tenant run h =
      subst (λ o. IsGrounded evidence_by_id o.claims o.citations) (ok-injective h)
        (other-IsGrounded evidence_by_id c ClaimKind.uncertainty is (λ same. cc))
  kind-IsGrounded c ClaimKind.commentary label o is tenant run h =
      subst (λ o. IsGrounded evidence_by_id o.claims o.citations) (ok-injective h)
        (other-IsGrounded evidence_by_id c ClaimKind.commentary is (λ same. cc))

  claims-IsGrounded :
      (claims : List AnswerClaim) (label : ℕ) (o : Outcome)
      → validate_claims evidence_by_id policy fresh draft claims label ≡ ok o
      → IsGrounded evidence_by_id o.claims o.citations
  unfolding validate_claims validate_claim
  claims-IsGrounded [] label o h =
      subst (λ o. IsGrounded evidence_by_id o.claims o.citations) (ok-injective h)
        (record {
          backed = λ d among _. elim among [ ];
          cited = λ d among _. elim among [ ];
          traced = λ x among. elim among [ ];
        })
  claims-IsGrounded (c ∷ rest) label o h =
      ok-elim (validate_claim evidence_by_id policy fresh draft c label) _ h λ first is_first h.
        ok-elim (validate_claims evidence_by_id policy fresh draft rest _) _ h λ later is_later h.
          let (own, is_kind) =
            check-rest (not (c.tenant_id == draft.tenant_id && c.run_id == draft.run_id)) _ _
              is_first in
          subst (λ o. IsGrounded evidence_by_id o.claims o.citations) (ok-injective h)
            (join-IsGrounded evidence_by_id first later
              (kind-IsGrounded c c.kind label first refl (ground arith) (ground arith) is_kind)
              (claims-IsGrounded rest _ later is_later))

  -- An answer that passes the validator is grounded, whatever the draft claims. Each factual claim
  -- has a citation and names some evidence, all of it found under its id, accepted, and of the
  -- claim's tenant, run and fact; its support says what the evidence amounts to: CONFLICTED if it
  -- speaks for and against, and otherwise VERIFIED only if a source is official or two are
  -- independent with different identities. Each citation is of a factual claim of the answer, for
  -- evidence that the claim names, whose passage it shows.
  pub validate-IsGrounded :
      (answer : ValidatedAnswer)
      → validate evidence_by_id policy fresh draft ≡ ok answer
      → IsGrounded evidence_by_id answer.claims answer.citations
  unfolding validate
  validate-IsGrounded answer h =
      ok-elim (validate_claims evidence_by_id policy fresh draft draft.claims 0) _ h λ o is h.
        subst (λ a. IsGrounded evidence_by_id a.claims a.citations) (ok-injective h)
          (claims-IsGrounded draft.claims 0 o is)
