-- ===== src/Answers/Validation/Retention.antt =====
-- What an answer keeps of the claims of the draft.
use sana_v.Base.{◌+◌, ℕ, ◌≡◌, ◌≢◌, refl, subst, not, ◌&&◌, List, [], ◌∷◌, ◌++◌, length, ◌==◌}
use sana_v.Shared.Errors.{ok, ok-elim, check-rest, ok-injective}
use sana_v.Evidence.Values.{VerifiedEvidence}
use sana_v.Answers.Values.{
  ClaimKind, UnsupportedClaimPolicy, AnswerClaim, new_claim, DraftAnswer, ValidatedAnswer,
}
use sana_v.Answers.Selection.{EvidenceById, valid_evidence}
use sana_v.Answers.Validation.{
  unconfirmed_claim, handle_unsupported, validated_claim, Outcome, cite, validate_factual,
  validate_kind, validate_claim, validate_claims, validate,
}
use sana_v.Answers.Validation.Checks.{new_claim-same}

-- What a claim keeps from the draft on: its id, its key and its fact. One that is not factual is
-- kept as it is.
pub record Keeps (c d : AnswerClaim) : Type 0 where
  pub same_id : d.id ≡ c.id
  pub same_key : d.claim_key ≡ c.claim_key
  pub same_fact : d.fact_requirement_id ≡ c.fact_requirement_id
  pub same_claim : c.kind ≢ ClaimKind.factual → d ≡ c

-- One claim for each, in the same order.
unfoldable pub AllKept : List AnswerClaim → List AnswerClaim → Type 0
AllKept [] [] = Unit
AllKept (c ∷ cs) (d ∷ ds) = Keeps c d × AllKept cs ds
AllKept _ _ = ⊥

-- The claim itself, of the kind it had.
kept-Keeps : (c : AnswerClaim) → Keeps c c
kept-Keeps c = record { same_id = refl; same_key = refl; same_fact = refl; same_claim = λ _. refl }

AllKept-join :
    (c : AnswerClaim) (cs own ds : List AnswerClaim)
    → AllKept (c ∷ []) own
    → AllKept cs ds
    → AllKept (c ∷ cs) (own ++ ds)
unfolding AllKept
AllKept-join c cs [] ds one rest = elim one [ ]
AllKept-join c cs (d ∷ []) ds one rest = (one.0, rest)
AllKept-join c cs (d ∷ e ∷ own) ds one rest = elim one.1 [ ]

unsupported-AllKept :
    (p : UnsupportedClaimPolicy) (c : AnswerClaim) (claims : List AnswerClaim)
    → p ≢ UnsupportedClaimPolicy.drop
    → c.kind ≡ ClaimKind.factual
    → handle_unsupported p c ≡ ok claims
    → AllKept (c ∷ []) claims
unfolding handle_unsupported AllKept
unsupported-AllKept UnsupportedClaimPolicy.drop c claims other is h = absurd (other refl)
unsupported-AllKept p c claims other is h =
    ok-elim (new_claim (unconfirmed_claim p c)) _ h λ d made h.
      subst (AllKept (c ∷ [])) (ok-injective h) (
        subst (λ d. AllKept (c ∷ []) (d ∷ [])) (new_claim-same (unconfirmed_claim p c) d made)
          (
            record {
              same_id = refl;
              same_key = refl;
              same_fact = refl;
              same_claim = λ otherwise. absurd (otherwise is);
            },
            tt,
          ))

module _ (evidence_by_id : EvidenceById) (policy : UnsupportedClaimPolicy) (fresh : ℕ → ℕ)
    (draft : DraftAnswer) where
  factual-AllKept :
      (c : AnswerClaim) (label : ℕ) (es : List VerifiedEvidence) (o : Outcome)
      → policy ≢ UnsupportedClaimPolicy.drop
      → c.kind ≡ ClaimKind.factual
      → validate_factual evidence_by_id policy fresh draft c label es ≡ ok o
      → AllKept (c ∷ []) o.claims
  unfolding validate_factual AllKept
  factual-AllKept c label [] o other is h =
      ok-elim (handle_unsupported policy c) _ h λ claims left h.
        subst (λ o. AllKept (c ∷ []) o.claims) (ok-injective h)
          (unsupported-AllKept policy c claims other is left)
  factual-AllKept c label (e ∷ es) o other is h =
      ok-elim (new_claim (validated_claim c (e ∷ es))) _ h λ d made h.
        ok-elim (cite evidence_by_id policy fresh draft c label 0 (e ∷ es)) _ h λ xs cites h.
          subst (λ o. AllKept (c ∷ []) o.claims) (ok-injective h)
            (subst (λ d. AllKept (c ∷ []) (d ∷ []))
              (new_claim-same (validated_claim c (e ∷ es)) d made)
              (
                record {
                  same_id = refl;
                  same_key = refl;
                  same_fact = refl;
                  same_claim = λ otherwise. absurd (otherwise is);
                },
                tt,
              ))

  kind-AllKept :
      (c : AnswerClaim) (kind : ClaimKind) (label : ℕ) (o : Outcome)
      → policy ≢ UnsupportedClaimPolicy.drop
      → c.kind ≡ kind
      → validate_kind evidence_by_id policy fresh draft kind c label ≡ ok o
      → AllKept (c ∷ []) o.claims
  unfolding AllKept
  kind-AllKept c ClaimKind.factual label o other is h =
      factual-AllKept c label (valid_evidence evidence_by_id c) o other is h
  kind-AllKept c ClaimKind.uncertainty label o other is h =
      subst (λ o. AllKept (c ∷ []) o.claims) (ok-injective h) (kept-Keeps c, tt)
  kind-AllKept c ClaimKind.commentary label o other is h =
      subst (λ o. AllKept (c ∷ []) o.claims) (ok-injective h) (kept-Keeps c, tt)

  claims-AllKept :
      (claims : List AnswerClaim) (label : ℕ) (o : Outcome)
      → policy ≢ UnsupportedClaimPolicy.drop
      → validate_claims evidence_by_id policy fresh draft claims label ≡ ok o
      → AllKept claims o.claims
  unfolding validate_claims validate_claim AllKept
  claims-AllKept [] label o other h = subst (λ o. AllKept [] o.claims) (ok-injective h) tt
  claims-AllKept (c ∷ rest) label o other h =
      ok-elim (validate_claim evidence_by_id policy fresh draft c label) _ h λ first is_first h.
        ok-elim (validate_claims evidence_by_id policy fresh draft rest _) _ h λ later is_later h.
          let (own, is_kind) =
            check-rest (not (c.tenant_id == draft.tenant_id && c.run_id == draft.run_id)) _ _
              is_first in
          subst (λ o. AllKept (c ∷ rest) o.claims) (ok-injective h)
            (AllKept-join c rest first.claims later.claims
              (kind-AllKept c c.kind label first other refl is_kind)
              (claims-AllKept rest (label + length first.citations) later other is_later))

  -- Under any policy but DROP, no claim of the draft gets lost: the answer has one claim for each,
  -- in the same order, with its id, key and fact, and those that are not factual are unchanged.
  pub validate-AllKept :
      (answer : ValidatedAnswer)
      → policy ≢ UnsupportedClaimPolicy.drop
      → validate evidence_by_id policy fresh draft ≡ ok answer
      → AllKept draft.claims answer.claims
  unfolding validate
  validate-AllKept answer other h =
      ok-elim (validate_claims evidence_by_id policy fresh draft draft.claims 0) _ h λ o is h.
        subst (λ a. AllKept draft.claims a.claims) (ok-injective h)
          (claims-AllKept draft.claims 0 o other is)
