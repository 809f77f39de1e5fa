-- ===== src/Answers/Validation/Backing.antt =====
-- What a claim that has been validated rests on.
use sana_v.Base.{
  ℕ, ◌≡◌, ◌≢◌, ◌⊎◌, inl, inr, refl, sym, ap, ◌∙◌, subst, arith, Bool, true, false, not, ◌&&◌,
  Option, none, some, List, [], ◌∷◌, any, length, leb, Among, if◌then◌else◌,
}
use sana_v.Evidence.Values.{VerifiedEvidence, EvidenceVerdict, is_accepted}
use sana_v.Evidence.Coverage.{ids, is_support, is_official, identities}
use sana_v.Evidence.Soundness.{
  Witness, any-Witness, TwoIndependent, two_names, identities-HeadIsNew,
}
use sana_v.Answers.Values.{ClaimSupport, AnswerClaim}
use sana_v.Answers.Selection.{
  EvidenceById, MappedObject, is_same_fact, is_valid_for, append_valid, valid_among,
  validated_support,
}

-- Evidence that a claim may rest on: it is found under its id, it was accepted, and it is of the
-- claim's tenant, run and fact.
pub record AcceptedFor (evidence_by_id : EvidenceById) (claim : AnswerClaim) (e : VerifiedEvidence)
    : Type 0 where
  pub found : evidence_by_id e.id ≡ some (MappedObject.evidence e)
  pub accepted : e.verdict ≡ EvidenceVerdict.accepted
  pub of_tenant : e.candidate.tenant_id ≡ claim.tenant_id
  pub of_run : e.candidate.run_id ≡ claim.run_id
  pub of_fact : claim.fact_requirement_id ≡ some e.candidate.fact_requirement_id

-- The evidence does not speak both for and against.
unfoldable pub OneSided : List VerifiedEvidence → Type 0
OneSided es = ¬ (Witness is_support es) ⊎ ¬ (Witness (λ e. not (is_support e)) es)

-- What a support says of the evidence. A claim rests on evidence only with the three that need it.
unfoldable pub Meaning : ClaimSupport → List VerifiedEvidence → Type 0
Meaning ClaimSupport.conflicted es = Witness is_support es × Witness (λ e. not (is_support e)) es
Meaning ClaimSupport.verified es =
    OneSided es × (Witness is_official es ⊎ TwoIndependent (λ e. Among e es))
Meaning ClaimSupport.grounded es = OneSided es × (es ≢ [])
Meaning _ es = ⊥

-- What stands behind a claim.
pub record Backing (evidence_by_id : EvidenceById) (claim : AnswerClaim) : Type 0 where
  pub backing : List VerifiedEvidence
  pub is_some : backing ≢ []
  pub names : claim.evidence_ids ≡ ids backing
  pub all_accepted : (e : VerifiedEvidence) → Among e backing → AcceptedFor evidence_by_id claim e
  pub meaning : Meaning claim.support backing

module _ (evidence_by_id : EvidenceById) (claim : AnswerClaim) where
  same_fact : (f : ℕ) (o : Option ℕ) → is_same_fact f o ≡ true → o ≡ some f
  same_fact f none h = cc
  same_fact f (some g) h = ap some (ground arith)

  accepted_verdict : (v : EvidenceVerdict) → is_accepted v ≡ true → v ≡ EvidenceVerdict.accepted
  accepted_verdict EvidenceVerdict.accepted h = refl
  accepted_verdict EvidenceVerdict.rejected h = cc

  valid-Accepted :
      (id : ℕ) (e : VerifiedEvidence)
      → evidence_by_id id ≡ some (MappedObject.evidence e)
      → is_valid_for claim id e ≡ true
      → AcceptedFor evidence_by_id claim e
  valid-Accepted id e found valid = record {
    found = subst (λ k. evidence_by_id k ≡ some (MappedObject.evidence e)) (ground arith) found;
    accepted = accepted_verdict e.verdict (ground arith);
    of_tenant = ground arith;
    of_run = ground arith;
    of_fact = same_fact e.candidate.fact_requirement_id claim.fact_requirement_id (ground arith);
  }

  -- With one more id: what it adds may be rested on, if that holds of the others.
  append_valid-Accepted :
      (id : ℕ) (o : Option MappedObject) (rest : List VerifiedEvidence) (e : VerifiedEvidence)
      → evidence_by_id id ≡ o
      → (Among e rest → AcceptedFor evidence_by_id claim e)
      → Among e (append_valid claim id o rest)
      → AcceptedFor evidence_by_id claim e
  append_valid-Accepted id none rest e found others among = others among
  append_valid-Accepted id (some MappedObject.another) rest e found others among = others among
  append_valid-Accepted id (some (MappedObject.evidence x)) rest e found others among =
      pick (is_valid_for claim id x) refl among
    where
      pick :
          (b : Bool)
          → is_valid_for claim id x ≡ b
          → Among e (if b then x ∷ rest else rest)
          → AcceptedFor evidence_by_id claim e
      pick false valid among = others among
      pick true valid (inr later) = others later
      pick true valid (inl same) =
          valid-Accepted id e (found ∙ ap (λ y. some (MappedObject.evidence y)) (sym same))
            (ap (is_valid_for claim id) same ∙ valid)

  pub valid_among-Accepted :
      (given : List ℕ) (e : VerifiedEvidence)
      → Among e (valid_among evidence_by_id claim given)
      → AcceptedFor evidence_by_id claim e
  unfolding valid_among
  valid_among-Accepted [] e h = elim h [ ]
  valid_among-Accepted (id ∷ rest) e h =
      append_valid-Accepted id (evidence_by_id id) (valid_among evidence_by_id claim rest) e refl
        (valid_among-Accepted rest e) h

no-Witness :
    (p : VerifiedEvidence → Bool) (es : List VerifiedEvidence) → any p es ≡ false → ¬ (Witness p es)
unfolding Witness
no-Witness p [] h (e, among, holds) = among
no-Witness p (x ∷ es) h (e, inl same, holds) =
    let at : p x ≡ true = sym (ap p same) ∙ holds in ground arith
no-Witness p (x ∷ es) h (e, inr later, holds) = no-Witness p es (ground arith) (e, later, holds)

-- The support is what the evidence amounts to.
pub validated_support-Meaning :
    (es : List VerifiedEvidence) → es ≢ [] → Meaning (validated_support es) es
unfolding validated_support Meaning OneSided
validated_support-Meaning es filled =
    decide (any is_support es) (any (λ e. not (is_support e)) es) (any is_official es)
      (leb 2 (length (identities es))) refl refl refl refl
  where
    settled :
        (c d : Bool)
        → OneSided es
        → any is_official es ≡ c
        → leb 2 (length (identities es)) ≡ d
        → Meaning
            (if c
              then ClaimSupport.verified
              else if d
              then ClaimSupport.verified
              else ClaimSupport.grounded)
            es
    settled true d one hc hd = (one, inl (any-Witness is_official es hc))
    settled false true one hc hd =
        (one, inr (two_names es (identities es) refl hd (identities-HeadIsNew es)))
    settled false false one hc hd = (one, filled)

    decide :
        (a b c d : Bool)
        → any is_support es ≡ a
        → any (λ e. not (is_support e)) es ≡ b
        → any is_official es ≡ c
        → leb 2 (length (identities es)) ≡ d
        → Meaning
            (if a && b
              then ClaimSupport.conflicted
              else if c
              then ClaimSupport.verified
              else if d
              then ClaimSupport.verified
              else ClaimSupport.grounded)
            es
    decide true true c d ha hb hc hd =
        (any-Witness is_support es ha, any-Witness (λ e. not (is_support e)) es hb)
    decide true false c d ha hb hc hd =
        settled c d (inr (no-Witness (λ e. not (is_support e)) es hb)) hc hd
    decide false b c d ha hb hc hd = settled c d (inl (no-Witness is_support es ha)) hc hd
