-- ===== src/Answers/Validation/Traces.antt =====
-- How an answer can be traced: the share of its traceable claims, the labels of its citations, and
-- the claims of the draft that it keeps.
use sana_v.Base.{
  ℕ, zero, suc, ◌+◌, ◌≡◌, refl, sym, ap, ap₂, ◌∙◌, subst, arith, String, Bool, true, false, not,
  ◌&&◌, List, [], ◌∷◌, ◌++◌, map, inl, inr, ◌==◌, keep, length, length-append, Among, str_append,
  decimal, if◌then◌else◌,
}
use sana_v.Shared.Errors.{ok, ok-elim, check-rest, ok-injective}
use sana_v.Evidence.Values.{VerifiedEvidence}
use sana_v.Answers.Values.{
  ClaimKind, UnsupportedClaimPolicy, AnswerClaim, new_claim, Citation, new_citation, DraftAnswer,
  ValidatedAnswer, is_factual, is_cited, cited_share, factual_traceability_rate,
}
use sana_v.Answers.Selection.{EvidenceById, valid_evidence}
use sana_v.Answers.Validation.{
  handle_unsupported, validated_claim, Outcome, cite, validate_factual, validate_kind,
  validate_claim, validate_claims, validate,
}
use sana_v.Answers.Validation.Checks.{new_citation-same}
use sana_v.Answers.Validation.Grounding.{validate-IsGrounded}

Among-keep :
    {A : Type 0} (p : A → Bool) (x : A) (xs : List A)
    → Among x (keep p xs)
    → Among x xs × (p x ≡ true)
Among-keep p x [] h = elim h [ ]
Among-keep {A = A} p x (y ∷ ys) h = go (p y) refl (Among-keep p x ys) h
  where
    go :
        (b : Bool)
        → p y ≡ b
        → (Among x (keep p ys) → Among x ys × (p x ≡ true))
        → Among x (if b then y ∷ keep p ys else keep p ys)
        → Among x (y ∷ ys) × (p x ≡ true)
    go false is rest h = (inr (rest h).0, (rest h).1)
    go true is rest (inl same) = (inl same, ap p same ∙ is)
    go true is rest (inr later) = (inr (rest later).0, (rest later).1)

keep-all :
    {A : Type 0} (p : A → Bool) (xs : List A) → ((x : A) → Among x xs → p x ≡ true) → keep p xs ≡ xs
keep-all p [] h = refl
keep-all p (x ∷ xs) h =
    rw (h x (inl refl)) (ap (λ ys. x ∷ ys) (keep-all p xs (λ y among. h y (inr among))))

cited-is_cited :
    (c : AnswerClaim) (x : Citation) (xs : List Citation)
    → Among x xs
    → x.answer_claim_id ≡ c.id
    → is_cited xs c ≡ true
cited-is_cited c x [] among same = elim among [ ]
cited-is_cited c x (y ∷ xs) (inl is) same =
    let of_y : y.answer_claim_id ≡ c.id = ap (λ x. x.answer_claim_id) (sym is) ∙ same in
    ground arith
cited-is_cited c x (y ∷ xs) (inr later) same =
    let rest = cited-is_cited c x xs later same in ground arith

factual-kind : (k : ClaimKind) → is_factual k ≡ true → k ≡ ClaimKind.factual
factual-kind ClaimKind.factual h = refl
factual-kind ClaimKind.uncertainty h = cc
factual-kind ClaimKind.commentary h = cc

full_share :
    (citations : List Citation) (factual : List AnswerClaim)
    → ((c : AnswerClaim) → Among c factual → is_cited citations c ≡ true)
    → (cited_share citations factual).part ≡ (cited_share citations factual).whole
full_share citations [] all = refl
full_share citations (c ∷ factual) all = ap length (keep-all (is_cited citations) (c ∷ factual) all)

-- The labels of `n` citations, after the `k`-th.
unfoldable pub labels : ℕ → ℕ → List String
labels k zero = []
labels k (suc n) = str_append "[" (str_append (decimal (suc k)) "]") ∷ labels (suc k) n

labels-append : (k a b : ℕ) → labels k (a + b) ≡ labels k a ++ labels (k + a) b
unfolding labels
labels-append k zero b = ap₂ labels (omega arith) (omega arith)
labels-append k (suc a) b =
    let step : suc a + b ≡ suc (a + b) = omega arith in
    ap (labels k) step
    ∙ ap (λ ls. str_append "[" (str_append (decimal (suc k)) "]") ∷ ls)
        (labels-append (suc k) a b ∙ ap (λ n. labels (suc k) a ++ labels n b) (omega arith))

map-append : {A B : Type 0} (f : A → B) (xs ys : List A) → map f (xs ++ ys) ≡ map f xs ++ map f ys
map-append f [] ys = refl
map-append f (x ∷ xs) ys = ap (λ zs. f x ∷ zs) (map-append f xs ys)

module _ (evidence_by_id : EvidenceById) (policy : UnsupportedClaimPolicy) (fresh : ℕ → ℕ)
    (draft : DraftAnswer) where
  cite-labels :
      (c : AnswerClaim) (label ordinal : ℕ) (es : List VerifiedEvidence) (xs : List Citation)
      → cite evidence_by_id policy fresh draft c label ordinal es ≡ ok xs
      → map (λ x. x.label) xs ≡ labels label (length xs)
  unfolding cite labels
  cite-labels c label ordinal [] xs h =
      subst (λ xs. map (λ x. x.label) xs ≡ labels label (length xs)) (ok-injective h) refl
  cite-labels c label ordinal (e ∷ es) xs h = ok-elim (new_citation _) _ h λ y made h.
      ok-elim (cite evidence_by_id policy fresh draft c (suc label) (suc ordinal) es) _ h
        λ ys rest h.
          subst (λ xs. map (λ x. x.label) xs ≡ labels label (length xs)) (ok-injective h)
            (ap₂ (λ l ls. l ∷ ls) (sym (ap (λ x. x.label) (new_citation-same _ y made)))
              (cite-labels c (suc label) (suc ordinal) es ys rest))

  factual-labels :
      (c : AnswerClaim) (label : ℕ) (es : List VerifiedEvidence) (o : Outcome)
      → validate_factual evidence_by_id policy fresh draft c label es ≡ ok o
      → map (λ x. x.label) o.citations ≡ labels label (length o.citations)
  unfolding validate_factual labels
  factual-labels c label [] o h = ok-elim (handle_unsupported policy c) _ h λ claims left h.
      subst (λ o. map (λ x. x.label) o.citations ≡ labels label (length o.citations))
        (ok-injective h) refl
  factual-labels c label (e ∷ es) o h =
      ok-elim (new_claim (validated_claim c (e ∷ es))) _ h λ d made h.
        ok-elim (cite evidence_by_id policy fresh draft c label 0 (e ∷ es)) _ h λ xs cites h.
          subst (λ o. map (λ x. x.label) o.citations ≡ labels label (length o.citations))
            (ok-injective h) (cite-labels c label 0 (e ∷ es) xs cites)

  kind-labels :
      (c : AnswerClaim) (kind : ClaimKind) (label : ℕ) (o : Outcome)
      → validate_kind evidence_by_id policy fresh draft kind c label ≡ ok o
      → map (λ x. x.label) o.citations ≡ labels label (length o.citations)
  unfolding labels
  kind-labels c ClaimKind.factual label o h =
      factual-labels c label (valid_evidence evidence_by_id c) o h
  kind-labels c ClaimKind.uncertainty label o h =
      subst (λ o. map (λ x. x.label) o.citations ≡ labels label (length o.citations))
        (ok-injective h) refl
  kind-labels c ClaimKind.commentary label o h =
      subst (λ o. map (λ x. x.label) o.citations ≡ labels label (length o.citations))
        (ok-injective h) refl

  claims-labels :
      (claims : List AnswerClaim) (label : ℕ) (o : Outcome)
      → validate_claims evidence_by_id policy fresh draft claims label ≡ ok o
      → map (λ x. x.label) o.citations ≡ labels label (length o.citations)
  unfolding validate_claims validate_claim labels
  claims-labels [] label o h =
      subst (λ o. map (λ x. x.label) o.citations ≡ labels label (length o.citations))
        (ok-injective h) refl
  claims-labels (c ∷ rest) label o h =
      ok-elim (validate_claim evidence_by_id policy fresh draft c label) _ h λ first is_first h.
        ok-elim (validate_claims evidence_by_id policy fresh draft rest _) _ h λ later is_later h.
          let (own, is_kind) =
            check-rest (not (c.tenant_id == draft.tenant_id && c.run_id == draft.run_id)) _ _
              is_first in
          subst (λ o. map (λ x. x.label) o.citations ≡ labels label (length o.citations))
            (ok-injective h)
            (map-append (λ x. x.label) first.citations later.citations
              ∙ (ap₂ (λ a b. a ++ b) (kind-labels c c.kind label first is_kind)
                    (claims-labels rest (label + length first.citations) later is_later)
                  ∙ (sym (labels-append label (length first.citations) (length later.citations))
                      ∙ ap (labels label) (sym (length-append first.citations later.citations)))))

  -- The citations of an answer are labelled [1], [2], [3] and so on, across its claims.
  pub validate-labels :
      (answer : ValidatedAnswer)
      → validate evidence_by_id policy fresh draft ≡ ok answer
      → map (λ x. x.label) answer.citations ≡ labels 0 (length answer.citations)
  unfolding validate
  validate-labels answer h =
      ok-elim (validate_claims evidence_by_id policy fresh draft draft.claims 0) _ h λ o is h.
        subst (λ a. map (λ x. x.label) a.citations ≡ labels 0 (length a.citations)) (ok-injective h)
          (claims-labels draft.claims 0 o is)

  -- Every factual claim of an answer that passes the validator can be traced: the share is all.
  pub traceability_complete :
      (answer : ValidatedAnswer)
      → validate evidence_by_id policy fresh draft ≡ ok answer
      → (factual_traceability_rate answer).part ≡ (factual_traceability_rate answer).whole
  unfolding factual_traceability_rate
  traceability_complete answer h =
      full_share answer.citations (keep (λ c. is_factual c.kind) answer.claims) λ c among.
        let (is, factual) = Among-keep (λ c. is_factual c.kind) c answer.claims among in
        let grounded = validate-IsGrounded evidence_by_id policy fresh draft answer h in
        let (x, cited, same) = grounded.cited c is (factual-kind c.kind factual) in
        cited-is_cited c x answer.citations cited same
