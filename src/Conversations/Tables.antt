-- ===== src/Conversations/Tables.antt =====
-- The rows of one tenant that a submission reads and writes: SqlConversationRepository,
-- SqlResponseRunRepository and SqlOutboxRepository.add of sana/platform/db/repositories.py, with the
-- constraints of models/conversation.py and models/orchestration.py, beside the tables of the
-- execution of steps.
use sana_v.Base.{
  ℕ, String, Bool, false, not, ◌&&◌, ◌||◌, Option, none, some, List, [], ◌∷◌, ◌++◌, map, any, keep,
  ◌==◌, str_eq,
}
use sana_v.Shared.Errors.{Result, ok, err, unexpected, raise_if, ◌>>◌, ◌>>=◌}
use sana_v.Orchestration.Run.{SearchRun}
use sana_v.Execution.Tables as Rows
use sana_v.Execution.Tables.{assert_tenant, first_where}
use sana_v.Conversations.Values.{
  MessageRole, MessageDraft, ResponseRunDraft, SubmissionReceipt, normalized_content_sha256,
  OutboxMessage,
}

pub record ConversationRow : Type 0 where
  pub id : ℕ
  pub user_id : ℕ

-- A message of the assistant has neither an author nor a key.
pub record MessageRow : Type 0 where
  pub id : ℕ
  pub conversation_id : ℕ
  pub author_user_id : Option ℕ
  pub role : MessageRole
  pub content : String
  pub idempotency_key : Option String

pub record ConversationTables : Type 0 where
  pub execution : Rows.Tables
  pub conversations : List ConversationRow
  pub messages : List MessageRow
  pub response_runs : List ResponseRunDraft
  pub outbox : List OutboxMessage

-- `lock_owned_by`
abbrev pub is_owned : ℕ → ℕ → ConversationRow → Bool
is_owned conversation_id user_id row = row.id == conversation_id && row.user_id == user_id

unfoldable pub lock_owned_by : ℕ → ℕ → ℕ → ConversationTables → Result Bool
lock_owned_by tenant_id conversation_id user_id t = do
  assert_tenant t.execution tenant_id
  ok (any (is_owned conversation_id user_id) t.conversations)

abbrev pub is_key : String → Option String → Bool
is_key key none = false
is_key key (some other) = str_eq other key

-- `conversation_id == … AND idempotency_key == …`
abbrev pub has_key : ℕ → String → MessageRow → Bool
has_key conversation_id key row =
    row.conversation_id == conversation_id && is_key key row.idempotency_key

abbrev pub answers : MessageRow → ResponseRunDraft → Bool
answers message row = row.message_id == message.id

abbrev pub searches : ResponseRunDraft → SearchRun → Bool
searches response row = row.response_run_id == response.id

-- The rows of the join.
pub record JoinedRow : Type 0 where
  pub message : MessageRow
  pub response : ResponseRunDraft
  pub run : SearchRun

abbrev pub join_runs : MessageRow → List SearchRun → List ResponseRunDraft → List JoinedRow
join_runs message runs [] = []
join_runs message runs (response ∷ rest) =
    map (λ run. (record { message = message; response = response; run = run }))
      (keep (searches response) runs)
    ++ join_runs message runs rest

abbrev pub join_responses :
    List SearchRun → List ResponseRunDraft → List MessageRow → List JoinedRow
join_responses runs responses [] = []
join_responses runs responses (message ∷ rest) =
    join_runs message runs (keep (answers message) responses) ++ join_responses runs responses rest

-- `one_or_none()`
abbrev pub one_or_none {ℓ} : {A : Type ℓ} → List A → Result (Option A)
one_or_none [] = ok none
one_or_none (row ∷ []) = ok (some row)
one_or_none (_ ∷ _ ∷ _) = err unexpected

-- The receipt of a row.
abbrev pub receipt_of_row : (String → String) → JoinedRow → Result SubmissionReceipt
receipt_of_row sha256 row = do
  hash ← normalized_content_sha256 sha256 row.message.content
  ok (record {
    message_id = row.message.id;
    response_run_id = row.response.id;
    search_run_id = row.run.id;
    status = row.run.status;
    duplicate = false;
    request_hash = some hash;
  })

abbrev pub receipt_of_rows :
    (String → String) → Option JoinedRow → Result (Option SubmissionReceipt)
receipt_of_rows sha256 none = ok none
receipt_of_rows sha256 (some row) = do receipt ← receipt_of_row sha256 row; ok (some receipt)

-- `find_submission`
abbrev pub submissions : ℕ → String → ConversationTables → List JoinedRow
submissions conversation_id key t =
    join_responses t.execution.runs t.response_runs (keep (has_key conversation_id key) t.messages)

unfoldable pub find_submission :
    (String → String) → ℕ → ℕ → String → ConversationTables → Result (Option SubmissionReceipt)
find_submission sha256 tenant_id conversation_id key t = do
  assert_tenant t.execution tenant_id
  found ← one_or_none (submissions conversation_id key t)
  receipt_of_rows sha256 found

-- `add_message`, with the primary key and the unique key of the table
abbrev pub is_same_message : MessageDraft → MessageRow → Bool
is_same_message m row = row.id == m.id || has_key m.conversation_id m.idempotency_key row

abbrev pub message_row : MessageDraft → MessageRow
message_row m = record {
  id = m.id;
  conversation_id = m.conversation_id;
  author_user_id = some m.author_user_id;
  role = m.role;
  content = m.content;
  idempotency_key = some m.idempotency_key;
}

unfoldable pub add_message : MessageDraft → ConversationTables → Result ConversationTables
add_message m t = do
  assert_tenant t.execution m.tenant_id
  raise_if (any (is_same_message m) t.messages) unexpected
  ok (record t { messages = t.messages ++ (message_row m ∷ []) })

-- `SqlResponseRunRepository.add`, with the primary key and the key of the message
unfoldable pub add_response_run : ResponseRunDraft → ConversationTables → Result ConversationTables
add_response_run r t = do
  assert_tenant t.execution r.tenant_id
  raise_if (any (λ (row : ResponseRunDraft). row.id == r.id) t.response_runs) unexpected
  raise_if (not (any (λ (m : MessageRow). m.id == r.message_id) t.messages)) unexpected
  ok (record t { response_runs = t.response_runs ++ (r ∷ []) })

-- `SqlRunRepository.add`, with the primary key, the unique key and the key of the response run
abbrev pub is_same_run : SearchRun → SearchRun → Bool
is_same_run r row = row.id == r.id || row.response_run_id == r.response_run_id

unfoldable pub add_run : SearchRun → ConversationTables → Result ConversationTables
add_run r t = do
  assert_tenant t.execution r.tenant_id
  raise_if (any (is_same_run r) t.execution.runs) unexpected
  raise_if (not (any (λ (a : ResponseRunDraft). a.id == r.response_run_id) t.response_runs))
      unexpected
  ok (record t { execution = record t.execution { runs = t.execution.runs ++ (r ∷ []) } })

-- `SqlOutboxRepository.add`, with the primary key and the unique key of the table
abbrev pub is_same_outbox : OutboxMessage → OutboxMessage → Bool
is_same_outbox m row = row.id == m.id || str_eq row.dedupe_key m.dedupe_key

unfoldable pub add_outbox : OutboxMessage → ConversationTables → Result ConversationTables
add_outbox m t = do
  assert_tenant t.execution m.tenant_id
  raise_if (any (is_same_outbox m) t.outbox) unexpected
  ok (record t { outbox = t.outbox ++ (m ∷ []) })

-- An operation on the tables of the execution.
abbrev pub in_execution :
    (Rows.Tables → Result Rows.Tables) → ConversationTables → Result ConversationTables
in_execution f t = do execution ← f t.execution; ok (record t { execution = execution })
