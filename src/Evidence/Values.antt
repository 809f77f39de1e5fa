-- ===== src/Evidence/Values.antt =====
-- evidence/domain.py and the facts of search_planning/domain.py. What `urllib` makes of the URL of a
-- source is not modelled; what `hashlib` makes of a quote is a parameter of the check of it.
use sana_v.Base.{
  ℕ, String, Bool, true, false, not, ◌&&◌, ◌||◌, List, ℤ, pos, leb_ℤ, eqb_ℤ, ◌+ℤ◌, neg_ℤ,
  is_negative, is_blank, is_empty, str_eq, str_length,
}
use sana_v.Shared.Errors.{Result, ok, value_error, raise_if, ◌>>◌}
use sana_v.Shared.Time.{DateTime}

pub data EvidenceLevel : Type 0 where
  l0_discovery l1_grounded l2_verified : EvidenceLevel

pub data SupportType : Type 0 where
  supports contradicts : SupportType

pub data SourceAuthority : Type 0 where
  official independent unknown : SourceAuthority

pub data EvidenceVerdict : Type 0 where
  accepted rejected : EvidenceVerdict

pub data Freshness : Type 0 where
  stable recent current : Freshness

pub data Consequence : Type 0 where
  low medium high : Consequence

pub record DiscoveryEvidence : Type 0 where
  pub tenant_id : ℕ
  pub run_id : ℕ
  pub search_hit_id : ℕ
  pub fact_requirement_id : ℕ
  pub url : String

-- `source_identity` is the name that the code has stripped and lowered.
pub record EvidenceSource : Type 0 where
  pub document_id : ℕ
  pub document_version_id : ℕ
  pub document_chunk_id : ℕ
  pub url : String
  pub source_identity : String
  pub authority : SourceAuthority

-- The level, which is L1_GROUNDED for all, is left out. The score is in millionths.
pub record EvidenceCandidate : Type 0 where
  pub id : ℕ
  pub tenant_id : ℕ
  pub run_id : ℕ
  pub fact_requirement_id : ℕ
  pub source : EvidenceSource
  pub quote : String
  pub quote_hash : String
  pub support_type : SupportType
  pub candidate_score : ℤ
  pub start_offset : ℤ
  pub end_offset : ℤ

pub record VerifiedEvidence : Type 0 where
  pub id : ℕ
  pub candidate : EvidenceCandidate
  pub verdict : EvidenceVerdict
  pub confidence : ℤ
  pub reason_codes : List String
  pub verifier_version : String
  pub verified_at : DateTime
  pub level : EvidenceLevel

abbrev pub is_accepted : EvidenceVerdict → Bool
is_accepted EvidenceVerdict.accepted = true
is_accepted EvidenceVerdict.rejected = false

abbrev is_discovery : EvidenceLevel → Bool
is_discovery EvidenceLevel.l0_discovery = true
is_discovery _ = false

abbrev is_l2 : EvidenceLevel → Bool
is_l2 EvidenceLevel.l2_verified = true
is_l2 _ = false

-- `start < 0 or end <= start`
abbrev pub bad_offsets : ℤ → ℤ → Bool
bad_offsets from to = is_negative from || leb_ℤ to from

-- `end - start != len(quote)`
unfoldable pub is_off_quote : ℤ → ℤ → String → Bool
is_off_quote from to quote = not (eqb_ℤ (to +ℤ neg_ℤ from) (pos (str_length quote)))

-- `EvidenceCandidate.__post_init__`, where `sha256` is the hexadecimal digest of a text in UTF-8
unfoldable pub new_candidate : (String → String) → EvidenceCandidate → Result EvidenceCandidate
new_candidate sha256 c = do
  raise_if (is_empty c.quote) (value_error "Evidence quote cannot be empty")
  raise_if (not (str_eq c.quote_hash (sha256 c.quote)))
      (value_error "Evidence quote hash does not match quote")
  raise_if (bad_offsets c.start_offset c.end_offset)
      (value_error "Evidence quote offsets are invalid")
  raise_if (is_off_quote c.start_offset c.end_offset c.quote)
      (value_error "Evidence quote offsets do not match quote length")
  raise_if (not (leb_ℤ (pos 0) c.candidate_score && leb_ℤ c.candidate_score (pos 1_000_000)))
      (value_error "Evidence candidate score must be between zero and one")
  ok c

-- `VerifiedEvidence.__post_init__`, with the confidence in millionths
unfoldable pub new_verified : VerifiedEvidence → Result VerifiedEvidence
new_verified e = do
  raise_if (not (leb_ℤ (pos 0) e.confidence && leb_ℤ e.confidence (pos 1_000_000)))
      (value_error "Evidence confidence must be between zero and one")
  raise_if (is_blank e.verifier_version) (value_error "Evidence verifier version cannot be empty")
  raise_if (not e.verified_at.is_aware)
      (value_error "Evidence verification time must be timezone-aware")
  raise_if (is_discovery e.level) (value_error "Discovery evidence cannot be verified")
  raise_if (is_l2 e.level && not (is_accepted e.verdict))
      (value_error "Rejected evidence cannot have L2 status")
  ok e

-- The fields of a fact that the policies read.
pub record FactRequirement : Type 0 where
  pub key : String
  pub required : Bool
  pub freshness : Freshness
  pub consequence : Consequence

abbrev pub is_stable : Freshness → Bool
is_stable Freshness.stable = true
is_stable _ = false

abbrev pub is_high : Consequence → Bool
is_high Consequence.high = true
is_high _ = false
