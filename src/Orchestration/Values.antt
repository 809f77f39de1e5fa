-- ===== src/Orchestration/Values.antt =====
-- The frozen values of orchestration/domain.py. `__post_init__` is a function from the given
-- fields to the object or to the error raised. Seconds are whole microseconds, and `confidence` is
-- a whole number of millionths.
use Prim.Native.Char.{Char, code}
use sana_v.Base.{
  String, Bool, false, not, ◌&&◌, ◌||◌, Option, none, some, List, [], ◌∷◌, any, leb, ◌==◌, ℤ, pos,
  ◌+ℤ◌, is_negative, leb_ℤ, is_blank, strip, str_length, Dict, lookup, insert, if◌then◌else◌,
}
use sana_v.Shared.Errors.{Result, ok, err, value_error, raise_if, check_all, ◌>>=◌, ◌>>◌}
use sana_v.Shared.Time.{DateTime, require_aware, is_at_most}
use sana_v.Orchestration.Status.{SearchMode}

pub record RoutingDecision : Type 0 where
  pub mode : SearchMode
  pub reason_codes : List String
  pub policy_version : String
  pub confidence : ℤ

unfoldable pub new_routing : RoutingDecision → Result RoutingDecision
unfolding strip
new_routing r = do
  raise_if (is_blank r.policy_version) (value_error "policy_version cannot be empty")
  raise_if (not (leb_ℤ (pos 0) r.confidence && leb_ℤ r.confidence (pos 1_000_000)))
      (value_error "confidence must be between 0 and 1")
  raise_if (any is_blank r.reason_codes) (value_error "reason_codes cannot contain empty values")
  ok r

pub record BudgetSnapshot : Type 0 where
  pub policy_version : String
  pub created_at : DateTime
  pub soft_deadline_at : DateTime
  pub hard_deadline_at : DateTime
  pub synthesis_reserve : ℤ
  pub max_queries : ℤ
  pub max_providers : ℤ
  pub max_fetches : ℤ
  pub max_llm_calls : ℤ
  pub max_expansion_rounds : ℤ
  pub phase_seconds : Dict ℤ

-- `any(value < 0 for value in phases.values())`
abbrev pub has_negative : Dict ℤ → Bool
has_negative = any (λ e. is_negative e.1)

-- The checks of `BudgetSnapshot.__post_init__`, in their order.
abbrev pub budget_checks : BudgetSnapshot → List (Result (Unit {0}))
budget_checks b =
    require_aware b.created_at "created_at"
    ∷ require_aware b.soft_deadline_at "soft_deadline_at"
    ∷ require_aware b.hard_deadline_at "hard_deadline_at"
    ∷ raise_if
        (not (
          is_at_most b.created_at b.soft_deadline_at
          && is_at_most b.soft_deadline_at b.hard_deadline_at))
        (value_error "Budget deadlines must be ordered from creation to hard stop")
    ∷ raise_if (leb_ℤ b.synthesis_reserve (pos 0))
        (value_error "synthesis_reserve_seconds must be positive")
    ∷ raise_if
        (any is_negative (
          b.max_queries ∷ b.max_providers ∷ b.max_fetches ∷ b.max_llm_calls ∷ b.max_expansion_rounds
          ∷ []))
        (value_error "Budget limits cannot be negative")
    ∷ raise_if (has_negative b.phase_seconds) (value_error "Phase budgets cannot be negative")
    ∷ []

unfoldable pub new_budget : BudgetSnapshot → Result BudgetSnapshot
new_budget b = check_all (budget_checks b) >> ok b

pub record BudgetUsage : Type 0 where
  pub query_count : ℤ
  pub provider_count : ℤ
  pub fetch_count : ℤ
  pub llm_call_count : ℤ
  pub prompt_token_count : ℤ
  pub completion_token_count : ℤ
  pub expansion_rounds : ℤ
  pub phase_seconds : Dict ℤ

-- `BudgetUsage()`
abbrev pub no_usage : BudgetUsage
no_usage = record {
  query_count = pos 0;
  provider_count = pos 0;
  fetch_count = pos 0;
  llm_call_count = pos 0;
  prompt_token_count = pos 0;
  completion_token_count = pos 0;
  expansion_rounds = pos 0;
  phase_seconds = [];
}

-- The seven counters, in the order in which the code lists them.
abbrev pub counters : BudgetUsage → List ℤ
counters u =
    u.query_count ∷ u.provider_count ∷ u.fetch_count ∷ u.llm_call_count ∷ u.prompt_token_count
    ∷ u.completion_token_count ∷ u.expansion_rounds ∷ []

unfoldable pub new_usage : BudgetUsage → Result BudgetUsage
new_usage u = do
  raise_if (any is_negative (counters u)) (value_error "Usage counters cannot be negative")
  raise_if (has_negative u.phase_seconds) (value_error "Phase usage cannot be negative")
  ok u

-- The keyword arguments of `BudgetUsage.add`.
pub record Increments : Type 0 where
  pub queries : ℤ
  pub providers : ℤ
  pub fetches : ℤ
  pub llm_calls : ℤ
  pub prompt_tokens : ℤ
  pub completion_tokens : ℤ
  pub expansion_rounds : ℤ
  pub phase : Option String
  pub elapsed : ℤ

abbrev pub increments : Increments → List ℤ
increments i =
    i.queries ∷ i.providers ∷ i.fetches ∷ i.llm_calls ∷ i.prompt_tokens ∷ i.completion_tokens
    ∷ i.expansion_rounds ∷ []

-- `phase_usage.get(phase, 0.0)`
abbrev pub seconds_of : String → Dict ℤ → ℤ
seconds_of phase d = elim (lookup phase d) [ none ↦ pos 0 | some s ↦ s ]

-- The branch of `add` on `phase`: the usage of the phases after the call.
abbrev pub add_phase : Option String → ℤ → Dict ℤ → Result (Dict ℤ)
add_phase (some phase) elapsed d = ok (insert phase (seconds_of phase d +ℤ elapsed) d)
add_phase none (pos Prim.Native.Nat.zero) d = ok d
add_phase none _ d = err (value_error "phase is required when elapsed_seconds is recorded")

-- The counters added up, with the usage of the phases after the call.
abbrev pub sum_usage : BudgetUsage → Increments → Dict ℤ → BudgetUsage
sum_usage u i phase_usage = record {
  query_count = u.query_count +ℤ i.queries;
  provider_count = u.provider_count +ℤ i.providers;
  fetch_count = u.fetch_count +ℤ i.fetches;
  llm_call_count = u.llm_call_count +ℤ i.llm_calls;
  prompt_token_count = u.prompt_token_count +ℤ i.prompt_tokens;
  completion_token_count = u.completion_token_count +ℤ i.completion_tokens;
  expansion_rounds = u.expansion_rounds +ℤ i.expansion_rounds;
  phase_seconds = phase_usage;
}

-- `any(value < 0 for value in increments) or elapsed_seconds < 0`
abbrev pub has_negative_increment : Increments → Bool
has_negative_increment i = any is_negative (increments i) || is_negative i.elapsed

unfoldable pub add : BudgetUsage → Increments → Result BudgetUsage
add u i = do
  raise_if (has_negative_increment i) (value_error "Usage increments cannot be negative")
  phase_usage ← add_phase i.phase i.elapsed u.phase_seconds
  new_usage (sum_usage u i phase_usage)

pub record ArtifactRef : Type 0 where
  pub uri : String
  pub sha256 : String

-- `character in "0123456789abcdefABCDEF"`
pub is_hex : Char → Bool
is_hex c =
    let n = code c in
    (leb b'0' n && leb n b'9') || (leb b'a' n && leb n b'f') || (leb b'A' n && leb n b'F')

-- `any(character not in … for character in s)`
pub has_non_hex : String → Bool
unfolding is_hex
has_non_hex String.[] = false
has_non_hex (String.◌∷◌ c s) = not (is_hex c) || has_non_hex s

-- `str.lower` on a hexadecimal digit
pub lower_hex : Char → Char
lower_hex c =
    let n = code c in
    if n == b'A'
    then "a"
    else if n == b'B'
    then "b"
    else if n == b'C'
    then "c"
    else if n == b'D'
    then "d"
    else if n == b'E'
    then "e"
    else if n == b'F'
    then "f"
    else c

pub lower : String → String
unfolding lower_hex
lower String.[] = String.[]
lower (String.◌∷◌ c s) = String.◌∷◌ (lower_hex c) (lower s)

unfoldable pub new_artifact : ArtifactRef → Result ArtifactRef
unfolding strip has_non_hex lower
new_artifact a = do
  raise_if (is_blank a.uri) (value_error "Artifact URI cannot be empty")
  raise_if (not (str_length a.sha256 == 64) || has_non_hex a.sha256)
      (value_error "Artifact sha256 must be a 64-character hex digest")
  ok (record a { sha256 = lower a.sha256 })
