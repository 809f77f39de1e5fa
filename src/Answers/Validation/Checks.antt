-- ===== src/Answers/Validation/Checks.antt =====
-- The checks of answer/domain.py and evidence/domain.py: what they pass, and that they give back
-- what they are given.
use sana_v.Base.{
  String, ◌≡◌, refl, false, not, ◌&&◌, ◌||◌, is_some, is_empty, is_blank, ◌==◌, str_eq,
}
use sana_v.Shared.Errors.{ok, check-rest, ok-injective}
use sana_v.Evidence.Values.{EvidenceCandidate, new_candidate, bad_offsets, is_off_quote}
use sana_v.Evidence.Coverage.{is_empty_list}
use sana_v.Answers.Values.{AnswerClaim, new_claim, Citation, new_citation, is_factual, is_supported}

-- Checks that a value passes.
pub claim_checked :
    (c d : AnswerClaim)
    → new_claim c ≡ ok d
    → ((is_blank c.claim_key || is_blank c.text) ≡ false)
      × ((is_factual c.kind && not (is_some c.fact_requirement_id)) ≡ false)
      × (c ≡ d)
unfolding new_claim
claim_checked c d h =
    let (named, keyed) = check-rest (is_blank c.claim_key || is_blank c.text) _ _ h in
    let (linked, of_fact) =
      check-rest (is_factual c.kind && not (is_some c.fact_requirement_id)) _ _ keyed in
    let (_, supported) =
      check-rest (is_supported c.support && is_empty_list c.evidence_ids) _ _ of_fact in
    (named, linked, ok-injective supported)

pub new_claim-same : (c d : AnswerClaim) → new_claim c ≡ ok d → c ≡ d
new_claim-same c d h = let (_, _, same) = claim_checked c d h in same

pub claim_passes :
    (c : AnswerClaim)
    → (is_blank c.claim_key || is_blank c.text) ≡ false
    → (is_factual c.kind && not (is_some c.fact_requirement_id)) ≡ false
    → (is_supported c.support && is_empty_list c.evidence_ids) ≡ false
    → new_claim c ≡ ok c
unfolding new_claim
claim_passes c named linked supported = rw (named, linked, supported) refl

pub citation_passes :
    (x : Citation)
    → (x.ordinal == 0 || is_blank x.label || is_blank x.rendered_url) ≡ false
    → (is_empty x.quote || bad_offsets x.start_offset x.end_offset) ≡ false
    → is_off_quote x.start_offset x.end_offset x.quote ≡ false
    → new_citation x ≡ ok x
unfolding new_citation
citation_passes x labelled placed fitting = rw (labelled, placed, fitting) refl

pub candidate_checked :
    (sha256 : String → String) (c : EvidenceCandidate)
    → new_candidate sha256 c ≡ ok c
    → (is_empty c.quote ≡ false)
      × (bad_offsets c.start_offset c.end_offset ≡ false)
      × (is_off_quote c.start_offset c.end_offset c.quote ≡ false)
unfolding new_candidate
candidate_checked sha256 c h =
    let (filled, quoted) = check-rest (is_empty c.quote) _ _ h in
    let (_, hashed) = check-rest (not (str_eq c.quote_hash (sha256 c.quote))) _ _ quoted in
    let (placed, located) = check-rest (bad_offsets c.start_offset c.end_offset) _ _ hashed in
    let (fits, _) = check-rest (is_off_quote c.start_offset c.end_offset c.quote) _ _ located in
    (filled, placed, fits)

pub new_citation-same : (c d : Citation) → new_citation c ≡ ok d → c ≡ d
unfolding new_citation
new_citation-same c d h =
    let (_, labelled) =
      check-rest (c.ordinal == 0 || is_blank c.label || is_blank c.rendered_url) _ _ h in
    let (_, placed) =
      check-rest (is_empty c.quote || bad_offsets c.start_offset c.end_offset) _ _ labelled in
    let (_, fitting) = check-rest (is_off_quote c.start_offset c.end_offset c.quote) _ _ placed in
    ok-injective fitting
