-- ===== src/Answers/Validation/Cited.antt =====
-- What the citations of a claim are of.
use sana_v.Base.{ℕ, suc, ◌≡◌, refl, sym, ap, ◌∙◌, subst, List, [], ◌∷◌, inl, inr, Among}
use sana_v.Shared.Errors.{ok, ok-elim, ok-injective}
use sana_v.Evidence.Values.{VerifiedEvidence}
use sana_v.Answers.Values.{UnsupportedClaimPolicy, AnswerClaim, Citation, new_citation, DraftAnswer}
use sana_v.Answers.Selection.{EvidenceById}
use sana_v.Answers.Validation.{citation_of, cite}
use sana_v.Answers.Validation.Checks.{new_citation-same}

module _ (evidence_by_id : EvidenceById) (policy : UnsupportedClaimPolicy) (fresh : ℕ → ℕ)
    (draft : DraftAnswer) where
  -- Every citation that is made is of one of the items.
  pub cite-of :
      (c : AnswerClaim) (label ordinal : ℕ) (es : List VerifiedEvidence) (xs : List Citation)
      (x : Citation)
      → cite evidence_by_id policy fresh draft c label ordinal es ≡ ok xs
      → Among x xs
      → (e : VerifiedEvidence) × Among e es
        × (l : ℕ) × (o : ℕ) × (x ≡ citation_of evidence_by_id policy fresh draft c l o e)
  unfolding cite
  cite-of c label ordinal [] xs x h among = elim (subst (Among x) (sym (ok-injective h)) among) [ ]
  cite-of c label ordinal (e ∷ es) xs x h among = ok-elim (new_citation _) _ h λ y made h.
      ok-elim (cite evidence_by_id policy fresh draft c (suc label) (suc ordinal) es) _ h
        λ ys rest h. elim (subst (Among x) (sym (ok-injective h)) among) [
          | inl same ↦
              (e, inl refl, suc label, suc ordinal, same ∙ sym (new_citation-same _ y made))
          | inr later ↦
              let (f, is, l, o, made) = cite-of c (suc label) (suc ordinal) es ys x rest later in
              (f, inr is, l, o, made)
        ]

  pub cite-first :
      (c : AnswerClaim) (label ordinal : ℕ) (e : VerifiedEvidence) (es : List VerifiedEvidence)
      (xs : List Citation)
      → cite evidence_by_id policy fresh draft c label ordinal (e ∷ es) ≡ ok xs
      → (x : Citation) × Among x xs × (x.answer_claim_id ≡ c.id)
  unfolding cite
  cite-first c label ordinal e es xs h = ok-elim (new_citation _) _ h λ y made h.
      ok-elim (cite evidence_by_id policy fresh draft c (suc label) (suc ordinal) es) _ h
        λ ys rest h. (
          y,
          subst (Among y) (ok-injective h) (inl refl),
          sym (ap (λ x. x.answer_claim_id) (new_citation-same _ y made)),
        )
