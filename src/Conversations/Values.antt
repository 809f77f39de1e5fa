-- ===== src/Conversations/Values.antt =====
-- conversation/domain.py, and the message of orchestration/outbox.py that announces a step. The trace
-- context, which is only passed on, is left out, and so is `created_at` where nothing reads it.
use sana_v.Base.{
  ℕ, String, Bool, false, not, ◌&&◌, ◌||◌, Option, List, [], ◌∷◌, any, is_blank, strip, leb,
  str_length, str_eq,
}
use sana_v.Shared.Errors.{Result, ok, value_error, raise_if, ◌>>◌}
use sana_v.Shared.Time.{DateTime}
use sana_v.Orchestration.Status.{RunStatus}
use sana_v.Orchestration.Values.{RoutingDecision}

pub data MessageRole : Type 0 where
  user assistant system : MessageRole

pub record MessageDraft : Type 0 where
  pub id : ℕ
  pub tenant_id : ℕ
  pub conversation_id : ℕ
  pub author_user_id : ℕ
  pub role : MessageRole
  pub content : String
  pub idempotency_key : String
  pub created_at : DateTime

pub record ResponseRunDraft : Type 0 where
  pub id : ℕ
  pub tenant_id : ℕ
  pub conversation_id : ℕ
  pub message_id : ℕ
  pub status : String
  pub created_at : DateTime

-- The status is the value of a status of the search run.
pub record SubmissionReceipt : Type 0 where
  pub message_id : ℕ
  pub response_run_id : ℕ
  pub search_run_id : ℕ
  pub status : RunStatus
  pub duplicate : Bool
  pub request_hash : Option String

-- `normalized_content_sha256`, where `sha256` is the hexadecimal digest of a text in UTF-8
unfoldable pub normalized_content_sha256 : (String → String) → String → Result String
normalized_content_sha256 sha256 content = do
  raise_if (is_blank content) (value_error "Message content cannot be empty")
  ok (sha256 (strip content))

pub record SubmitMessageCommand : Type 0 where
  pub tenant_id : ℕ
  pub user_id : ℕ
  pub conversation_id : ℕ
  pub content : String
  pub idempotency_key : String
  pub routing : RoutingDecision

-- `SubmitMessageCommand.__post_init__`
unfoldable pub new_command : SubmitMessageCommand → Result SubmitMessageCommand
new_command c = do
  raise_if (is_blank c.content) (value_error "Message content cannot be empty")
  raise_if
      (not (
        leb 1 (str_length (strip c.idempotency_key))
        && leb (str_length (strip c.idempotency_key)) 200))
      (value_error "Idempotency-Key must contain between 1 and 200 characters")
  ok c

pub record OutboxMessage : Type 0 where
  pub id : ℕ
  pub tenant_id : ℕ
  pub aggregate_type : String
  pub aggregate_id : ℕ
  pub event_type : String
  pub payload : List (String × String)
  pub dedupe_key : String
  pub available_at : DateTime
  pub created_at : DateTime

-- `set(payload) == {"step_id"}`
abbrev pub is_step_payload : List (String × String) → Bool
is_step_payload [] = false
is_step_payload (entry ∷ rest) =
    not (any (λ (e : String × String). not (str_eq e.0 "step_id")) (entry ∷ rest))

-- `OutboxMessage.__post_init__`
unfoldable pub new_outbox : OutboxMessage → Result OutboxMessage
new_outbox m = do
  raise_if (not m.available_at.is_aware) (value_error "available_at must be timezone-aware")
  raise_if (not m.created_at.is_aware) (value_error "created_at must be timezone-aware")
  raise_if (is_blank m.aggregate_type || is_blank m.event_type)
      (value_error "Outbox aggregate and event types cannot be empty")
  raise_if (is_blank m.dedupe_key) (value_error "Outbox dedupe_key cannot be empty")
  raise_if (not (is_step_payload m.payload))
      (value_error "Step outbox payload must contain only step_id")
  ok m
