-- ===== src/Answers/Validation/Totality.antt =====
-- The validator returns for every draft whose claims are its own.
use sana_v.Base.{
  ℕ, suc, ◌+◌, ◌≡◌, refl, ap, ◌∙◌, arith, String, Bool, true, false, ◌&&◌, ◌||◌, some, List, [],
  ◌∷◌, inl, inr, ◌==◌, length, is_empty, is_blank, is_blank-eq, has_mark-append, bracket-marked,
  str_append, decimal, Among,
}
use sana_v.Shared.Errors.{Result, ok, ◌>>=◌}
use sana_v.Evidence.Values.{VerifiedEvidence, new_candidate}
use sana_v.Answers.Values.{
  ClaimKind, UnsupportedClaimPolicy, AnswerClaim, new_claim, new_citation, DraftAnswer,
}
use sana_v.Answers.Selection.{EvidenceById, MappedObject, valid_evidence}
use sana_v.Answers.Validation.{
  unconfirmed_claim, handle_unsupported, validated_claim, citation_of, cite, validate_factual,
  validate_kind, validate_claim, validate_claims, validate,
}
use sana_v.Answers.Validation.Checks.{
  claim_checked, claim_passes, citation_passes, candidate_checked,
}
use sana_v.Answers.Validation.Backing.{valid_among-Accepted}

-- A part that returns and a rest that returns.
abbrev pub Returns {ℓ} : {A : Type ℓ} → Result A → Type ℓ
Returns {A = A} r = (a : A) × (r ≡ ok a)

Returns-bind :
    {A B : Type 0} (r : Result A) (next : A → Result B)
    → Returns r
    → ((a : A) → r ≡ ok a → Returns (next a))
    → Returns (r >>= next)
Returns-bind r next (a, is) rest = let (b, then) = rest a is in (b, ap (λ r. r >>= next) is ∙ then)

-- Evidence as the code builds it: a candidate that passes its check, with an address.
pub record IsCitable (sha256 : String → String) (e : VerifiedEvidence) : Type 0 where
  pub is_candidate : new_candidate sha256 e.candidate ≡ ok e.candidate
  pub has_url : is_blank e.candidate.source.url ≡ false

-- A claim that passes its check, of the tenant and the run of the draft.
pub record IsOwn (draft : DraftAnswer) (c : AnswerClaim) : Type 0 where
  pub is_checked : new_claim c ≡ ok c
  pub of_tenant : c.tenant_id ≡ draft.tenant_id
  pub of_run : c.run_id ≡ draft.run_id

own_test :
    (c : AnswerClaim) (draft : DraftAnswer)
    → IsOwn draft c
    → (c.tenant_id == draft.tenant_id && c.run_id == draft.run_id) ≡ true
own_test c draft own = let tenant = own.of_tenant in let run = own.of_run in ground arith

prefixed_text :
    (k p t : String)
    → (is_blank k || is_blank t) ≡ false
    → (is_blank k || is_blank (str_append p t)) ≡ false
prefixed_text k p t h =
    let marked = is_blank-eq t in
    let joined = is_blank-eq (str_append p t) in let parts = has_mark-append p t in ground arith

unconfirmed-passes :
    (p : UnsupportedClaimPolicy) (c : AnswerClaim)
    → new_claim c ≡ ok c
    → new_claim (unconfirmed_claim p c) ≡ ok (unconfirmed_claim p c)
unconfirmed-passes p c h =
    claim_passes (unconfirmed_claim p c)
      (prefixed_text c.claim_key _ c.text (claim_checked c c h).0) refl refl

handle_unsupported-Returns :
    (p : UnsupportedClaimPolicy) (c : AnswerClaim)
    → new_claim c ≡ ok c
    → Returns (handle_unsupported p c)
unfolding handle_unsupported
handle_unsupported-Returns UnsupportedClaimPolicy.drop c h = ([], refl)
handle_unsupported-Returns p c h =
    Returns-bind (new_claim (unconfirmed_claim p c)) _ (_, unconfirmed-passes p c h)
      λ d _. (d ∷ [], refl)

and_false : (b : Bool) → (b && false) ≡ false
and_false true = refl
and_false false = refl

validated-passes :
    (c : AnswerClaim) (e : VerifiedEvidence) (es : List VerifiedEvidence)
    → new_claim c ≡ ok c
    → new_claim (validated_claim c (e ∷ es)) ≡ ok (validated_claim c (e ∷ es))
validated-passes c e es h =
    claim_passes (validated_claim c (e ∷ es)) (claim_checked c c h).0 (claim_checked c c h).1
      (and_false _)

module _ (sha256 : String → String) (evidence_by_id : EvidenceById)
    (policy : UnsupportedClaimPolicy) (fresh : ℕ → ℕ) (draft : DraftAnswer) where
  citation-passes :
      (c : AnswerClaim) (label ordinal : ℕ) (e : VerifiedEvidence)
      → IsCitable sha256 e
      → new_citation (citation_of evidence_by_id policy fresh draft c label (suc ordinal) e)
        ≡ ok (citation_of evidence_by_id policy fresh draft c label (suc ordinal) e)
  citation-passes c label ordinal e citable =
      let (quoted, placed, fitting) = candidate_checked sha256 e.candidate citable.is_candidate in
      citation_passes (citation_of evidence_by_id policy fresh draft c label (suc ordinal) e)
        (shown (decimal label) e.candidate.source.url ordinal citable.has_url)
        (both (is_empty e.candidate.quote) _ quoted placed) fitting
    where
      both : (a b : Bool) → a ≡ false → b ≡ false → (a || b) ≡ false
      both a b h k = ground arith

      shown :
          (n url : String) (ordinal : ℕ)
          → is_blank url ≡ false
          → (suc ordinal == 0 || is_blank (str_append "[" (str_append n "]")) || is_blank url)
            ≡ false
      shown n url ordinal h =
          let joined = is_blank-eq (str_append "[" (str_append n "]")) in
          let parts = has_mark-append "[" (str_append n "]") in
          let bracket = bracket-marked in ground arith

  cite-Returns :
      (c : AnswerClaim) (label ordinal : ℕ) (es : List VerifiedEvidence)
      → ((e : VerifiedEvidence) → Among e es → IsCitable sha256 e)
      → Returns (cite evidence_by_id policy fresh draft c label ordinal es)
  unfolding cite
  cite-Returns c label ordinal [] citable = ([], refl)
  cite-Returns c label ordinal (e ∷ es) citable =
      Returns-bind (new_citation _) _
        (_, citation-passes c (suc label) ordinal e (citable e (inl refl)))
        λ x _.
          Returns-bind (cite evidence_by_id policy fresh draft c (suc label) (suc ordinal) es) _
            (cite-Returns c (suc label) (suc ordinal) es (λ f among. citable f (inr among)))
            λ xs _. (x ∷ xs, refl)

  factual-Returns :
      (c : AnswerClaim) (label : ℕ) (es : List VerifiedEvidence)
      → new_claim c ≡ ok c
      → ((e : VerifiedEvidence) → Among e es → IsCitable sha256 e)
      → Returns (validate_factual evidence_by_id policy fresh draft c label es)
  unfolding validate_factual
  factual-Returns c label [] checked citable =
      Returns-bind (handle_unsupported policy c) _ (handle_unsupported-Returns policy c checked)
        λ claims _. (_, refl)
  factual-Returns c label (e ∷ es) checked citable =
      Returns-bind (new_claim (validated_claim c (e ∷ es))) _ (_, validated-passes c e es checked)
        λ d _.
          Returns-bind (cite evidence_by_id policy fresh draft c label 0 (e ∷ es)) _
            (cite-Returns c label 0 (e ∷ es) citable) λ xs _. (_, refl)

  module _
      (citable : (id : ℕ) (e : VerifiedEvidence)
        → evidence_by_id id ≡ some (MappedObject.evidence e)
        → IsCitable sha256 e) where
    kind-Returns :
        (c : AnswerClaim) (kind : ClaimKind) (label : ℕ)
        → new_claim c ≡ ok c
        → Returns (validate_kind evidence_by_id policy fresh draft kind c label)
    kind-Returns c ClaimKind.factual label checked =
        factual-Returns c label (valid_evidence evidence_by_id c) checked
          λ e among. citable e.id e (valid_among-Accepted evidence_by_id c _ e among).found
    kind-Returns c ClaimKind.uncertainty label checked = (_, refl)
    kind-Returns c ClaimKind.commentary label checked = (_, refl)

    claims-Returns :
        (claims : List AnswerClaim) (label : ℕ)
        → ((c : AnswerClaim) → Among c claims → IsOwn draft c)
        → Returns (validate_claims evidence_by_id policy fresh draft claims label)
    unfolding validate_claims validate_claim
    claims-Returns [] label own = (_, refl)
    claims-Returns (c ∷ rest) label own =
        let is_own = own c (inl refl) in
        Returns-bind (validate_claim evidence_by_id policy fresh draft c label) _
          (passes c label is_own (kind-Returns c c.kind label is_own.is_checked))
          λ first _.
            Returns-bind
              (validate_claims evidence_by_id policy fresh draft rest
                (label + length first.citations))
              _
              (claims-Returns rest (label + length first.citations) (λ d among. own d (inr among)))
              λ later _. (_, refl)
      where
        passes :
            (c : AnswerClaim) (label : ℕ)
            → IsOwn draft c
            → Returns (validate_kind evidence_by_id policy fresh draft c.kind c label)
            → Returns (validate_claim evidence_by_id policy fresh draft c label)
        passes c label own (o, is) =
            let same : (c.tenant_id == draft.tenant_id && c.run_id == draft.run_id) ≡ true =
              own_test c draft own in
            (o, rw same is)

    pub validate-Returns :
        ((c : AnswerClaim) → Among c draft.claims → IsOwn draft c)
        → Returns (validate evidence_by_id policy fresh draft)
    unfolding validate
    validate-Returns own =
        Returns-bind (validate_claims evidence_by_id policy fresh draft draft.claims 0) _
          (claims-Returns draft.claims 0 own) λ o _. (_, refl)
