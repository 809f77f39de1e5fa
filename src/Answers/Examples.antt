-- ===== src/Answers/Examples.antt =====
-- The theorems on answers, on the answer of two claims and a remark.
use sana_v.Base.{
  ℕ, ◌≡◌, ◌≢◌, refl, String, true, false, some, map, length, ◌==◌, if◌then◌else◌, strip, subst,
  Option, none, Bool,
}
use sana_v.Evidence.Values.{VerifiedEvidence}
use sana_v.Answers.Values.{UnsupportedClaimPolicy, factual_traceability_rate}
use sana_v.Answers.Selection.{MappedObject}
use sana_v.Answers.Validation.{validate}
use sana_v.Answers.Validation.Foundation.{IsGrounded}
use sana_v.Answers.Validation.Grounding.{validate-IsGrounded}
use sana_v.Answers.Validation.Traces.{labels, validate-labels, traceability_complete}
use sana_v.Answers.Validation.Retention.{AllKept, validate-AllKept}
use sana_v.Answers.Validation.Totality.{IsCitable, Returns}
use sana_v.Answers.Validation.Pipeline.{synthesized-Returns}
use sana_v.Answers.Samples.{
  digest, passage, passage-candidate, found, fresh, coverage, proposals, draft, answer, is_draft,
  is_answer,
}

passage-IsCitable : (id : ℕ) (name : String) → IsCitable digest (passage id name)
unfolding strip
passage-IsCitable id name = record { is_candidate = passage-candidate id name; has_url = refl }

found-IsCitable :
    (id : ℕ) (e : VerifiedEvidence) → found id ≡ some (MappedObject.evidence e) → IsCitable digest e
found-IsCitable id e h = go (id == 11) (id == 12) h
  where
    evidence_or : VerifiedEvidence → Option MappedObject → VerifiedEvidence
    evidence_or d (some (MappedObject.evidence e)) = e
    evidence_or d _ = d

    go :
        (a b : Bool)
        → (if a
            then some (MappedObject.evidence (passage 11 "a.test"))
            else if b
            then some (MappedObject.evidence (passage 12 "b.test"))
            else none)
          ≡ some (MappedObject.evidence e)
        → IsCitable digest e
    go true b h = subst (λ o. IsCitable digest (evidence_or e o)) h (passage-IsCitable 11 "a.test")
    go false true h =
        subst (λ o. IsCitable digest (evidence_or e o)) h (passage-IsCitable 12 "b.test")
    go false false h = cc

validate-IsGrounded_example : IsGrounded found answer.claims answer.citations
validate-IsGrounded_example =
    validate-IsGrounded found UnsupportedClaimPolicy.mark_unconfirmed fresh draft answer is_answer

validate-labels_example : map (λ x. x.label) answer.citations ≡ labels 0 (length answer.citations)
validate-labels_example =
    validate-labels found UnsupportedClaimPolicy.mark_unconfirmed fresh draft answer is_answer

traceability_complete_example :
    (factual_traceability_rate answer).part ≡ (factual_traceability_rate answer).whole
traceability_complete_example =
    traceability_complete found UnsupportedClaimPolicy.mark_unconfirmed fresh draft answer is_answer

not_drop : UnsupportedClaimPolicy.mark_unconfirmed ≢ UnsupportedClaimPolicy.drop
not_drop same = cc

validate-AllKept_example : AllKept draft.claims answer.claims
validate-AllKept_example =
    validate-AllKept found UnsupportedClaimPolicy.mark_unconfirmed fresh draft answer not_drop
      is_answer

synthesized-Returns_example : Returns (validate found UnsupportedClaimPolicy.weaken fresh draft)
synthesized-Returns_example =
    synthesized-Returns digest found UnsupportedClaimPolicy.weaken fresh fresh 2 1 coverage
      proposals draft found-IsCitable is_draft
