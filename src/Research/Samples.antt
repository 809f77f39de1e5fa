-- ===== src/Research/Samples.antt =====
-- Sample data: one fact with its evidence, and a run that is searched for it; and tests on them.
use sana_v.Base.{ℕ, ◌≡◌, refl, String, true, false, some, List, [], ◌∷◌, pos}
use sana_v.Shared.Errors.{ok}
use sana_v.Shared.Time.{DateTime}
use sana_v.Orchestration.Status.{SearchMode, RunStatus, AnswerQuality}
use sana_v.Orchestration.Values.{no_usage}
use sana_v.Orchestration.Run.{SearchRun}
use sana_v.Orchestration.Policy.Deadlines.{default_snapshot}
use sana_v.Evidence.Values.{
  EvidenceLevel, SupportType, SourceAuthority, EvidenceVerdict, Freshness, Consequence,
  VerifiedEvidence, FactRequirement,
}
use sana_v.Evidence.Coverage.{FactCoverage, Scope, evaluate}
use sana_v.Research.Upgrade.{NormalizedIntent, UpgradeInput, FastUpgradeDecision, evaluate_upgrade}

-- Seconds after the first instant of year 2025.
abbrev pub at : ℕ → DateTime
at n = record {
  is_aware = true;
  instant = Prim.Native.Nat.◌+◌ 63_871_286_400_000_000 (Prim.Native.Nat.◌*◌ n 1_000_000);
}

abbrev pub scope : Scope
scope = record { tenant = 2; run = 1; fact = 9 }

abbrev pub price : FactRequirement
price = record {
  key = "price";
  required = true;
  freshness = Freshness.current;
  consequence = Consequence.high;
}

-- An item of the fact, by its id, its source and what it says.
abbrev pub item : ℕ → String → SourceAuthority → SupportType → VerifiedEvidence
item id name authority support = record {
  id = id;
  candidate = record {
    id = id;
    tenant_id = 2;
    run_id = 1;
    fact_requirement_id = 9;
    source = record {
      document_id = 3;
      document_version_id = 4;
      document_chunk_id = 5;
      url = "https://a.test";
      source_identity = name;
      authority = authority;
    };
    quote = "42 EUR";
    quote_hash = "h";
    support_type = support;
    candidate_score = pos 800_000;
    start_offset = pos 7;
    end_offset = pos 13;
  };
  verdict = EvidenceVerdict.accepted;
  confidence = pos 900_000;
  reason_codes = [];
  verifier_version = "v1";
  verified_at = at 2;
  level = EvidenceLevel.l1_grounded;
}

abbrev pub first_paper : VerifiedEvidence
first_paper = item 11 "a.test" SourceAuthority.independent SupportType.supports

abbrev pub second_paper : VerifiedEvidence
second_paper = item 12 "b.test" SourceAuthority.independent SupportType.supports

abbrev pub denial : VerifiedEvidence
denial = item 13 "c.test" SourceAuthority.official SupportType.contradicts

abbrev pub two_papers : List VerifiedEvidence
two_papers = first_paper ∷ second_paper ∷ []

abbrev pub disputed : List VerifiedEvidence
disputed = first_paper ∷ denial ∷ []

one_name_is_not_enough :
    (evaluate scope price
      (first_paper ∷ record second_paper { candidate = first_paper.candidate } ∷ [])
      []).status
    ≡ FactCoverage.covered
unfolding evaluate
one_name_is_not_enough = refl

abbrev pub input : UpgradeInput
input = record { tenant_id = 2; run_id = 1; fact_ids = ("price", 9) ∷ []; coverage = [] }

abbrev pub intent : NormalizedIntent
intent = record { facts = price ∷ []; requires_complete_sources = false }

abbrev pub upgrade : FastUpgradeDecision
upgrade = record {
  should_upgrade = true;
  gap_fact_ids = 9 ∷ [];
  reason_codes = "strong_freshness_gap" ∷ "high_consequence_gap" ∷ [];
  status_by_fact = (9, FactCoverage.uncovered) ∷ [];
}

pub upgrade_decided : evaluate_upgrade input intent ≡ ok upgrade
unfolding evaluate_upgrade
upgrade_decided = refl

abbrev pub fast_run : SearchRun
fast_run = record {
  id = 1;
  tenant_id = 2;
  conversation_id = 3;
  message_id = 4;
  response_run_id = 5;
  routing = record {
    mode = SearchMode.fast;
    reason_codes = "simple" ∷ [];
    policy_version = "search-v12";
    confidence = pos 900_000;
  };
  budget = default_snapshot SearchMode.fast (at 0);
  status = RunStatus.running;
  answer_quality = AnswerQuality.none;
  stop_reason = sana_v.Base.none;
  usage = no_usage;
  started_at = some (at 1);
  completed_at = sana_v.Base.none;
  version = 1;
  persisted_version = 1;
}

abbrev pub research_run : SearchRun
research_run = record fast_run {
  routing = record fast_run.routing { mode = SearchMode.research };
  budget = default_snapshot SearchMode.research (at 0);
}
