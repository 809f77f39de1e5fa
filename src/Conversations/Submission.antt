-- ===== src/Conversations/Submission.antt =====
-- `ConversationService.submit_message` of conversation/domain.py, on the tables of the tenant that the
-- command names. The digest of a text and the printing of a UUID are parameters, and what the clock
-- and the factory of identifiers give is an argument. A transaction locks the row of the conversation
-- first, so that the submissions to a conversation are one after the other.
use sana_v.Base.{
  ℕ, String, Bool, true, false, not, Option, none, some, [], ◌∷◌, strip, str_eq, str_append,
}
use sana_v.Shared.Errors.{text, Error, Result, ok, invariant_violation_with, raise_if, ◌>>=◌, ◌>>◌}
use sana_v.Shared.Time.{DateTime}
use sana_v.Orchestration.Status.{SearchMode, StepType}
use sana_v.Orchestration.Values.{BudgetSnapshot, new_artifact}
use sana_v.Orchestration.Run.{SearchRun, new_run}
use sana_v.Orchestration.Step.{SearchStep, new_step}
use sana_v.Orchestration.Policy.{SearchPolicy, snapshot}
use sana_v.Execution.Values.{RunEventData, new_event}
use sana_v.Execution.Tables.{add_step, add_event}
use sana_v.Conversations.Values.{
  MessageRole, MessageDraft, ResponseRunDraft, SubmissionReceipt, normalized_content_sha256,
  SubmitMessageCommand, OutboxMessage, new_outbox,
}
use sana_v.Conversations.Tables.{
  ConversationTables, lock_owned_by, find_submission, add_message, add_response_run, add_run,
  add_outbox, in_execution,
}

-- `ConversationService.__init__`, and what stands for `hashlib` and for the printing of a UUID.
pub record ConversationService : Type 0 where
  pub policy : SearchPolicy
  pub sha256 : String → String
  pub uuid : ℕ → String

-- The time and the new identifiers of one submission.
pub record Moment : Type 0 where
  pub now : DateTime
  pub message_id : ℕ
  pub response_run_id : ℕ
  pub search_run_id : ℕ
  pub step_id : ℕ
  pub outbox_id : ℕ
  pub run_event_id : ℕ

abbrev pub version_mismatch : Error
version_mismatch =
    invariant_violation_with "Routing decision uses a different search policy version"
      "policy_version_mismatch" []

abbrev pub conversation_not_found : Error
conversation_not_found =
    invariant_violation_with "Conversation does not belong to the authenticated user"
      "conversation_not_found" []

abbrev pub idempotency_conflict : Error
idempotency_conflict =
    invariant_violation_with "Idempotency-Key was already used for different content"
      "idempotency_conflict" []

abbrev ready_event : SearchMode → String
ready_event SearchMode.fast = "STEP_READY_FAST"
ready_event SearchMode.research = "STEP_READY_RESEARCH"

-- `mode.value`
abbrev mode_value : SearchMode → String
mode_value SearchMode.fast = "FAST"
mode_value SearchMode.research = "RESEARCH"

abbrev pub message_of : Moment → SubmitMessageCommand → MessageDraft
message_of m c = record {
  id = m.message_id;
  tenant_id = c.tenant_id;
  conversation_id = c.conversation_id;
  author_user_id = c.user_id;
  role = MessageRole.user;
  content = strip c.content;
  idempotency_key = strip c.idempotency_key;
  created_at = m.now;
}

abbrev pub response_of : Moment → SubmitMessageCommand → ResponseRunDraft
response_of m c = record {
  id = m.response_run_id;
  tenant_id = c.tenant_id;
  conversation_id = c.conversation_id;
  message_id = m.message_id;
  status = "QUEUED";
  created_at = m.now;
}

abbrev pub run_of : Moment → SubmitMessageCommand → BudgetSnapshot → Result SearchRun
run_of m c budget =
    new_run
      (record {
        id = m.search_run_id;
        tenant_id = c.tenant_id;
        conversation_id = c.conversation_id;
        message_id = m.message_id;
        response_run_id = m.response_run_id;
      })
      c.routing budget

abbrev pub step_of :
    ConversationService → Moment → SubmitMessageCommand → String → Result SearchStep
step_of service m c hash = do
  input_ref ←
      new_artifact
        (record { uri = str_append "db://messages/" (service.uuid m.message_id); sha256 = hash })
  new_step (record {
    id = m.step_id;
    tenant_id = c.tenant_id;
    run_id = m.search_run_id;
    step_key = "route";
    step_type = StepType.route;
    plan_revision = 1;
    input_ref = input_ref;
  })

abbrev pub outbox_of : ConversationService → Moment → SubmitMessageCommand → Result OutboxMessage
outbox_of service m c = new_outbox (record {
  id = m.outbox_id;
  tenant_id = c.tenant_id;
  aggregate_type = "search_step";
  aggregate_id = m.step_id;
  event_type = ready_event c.routing.mode;
  payload = ("step_id", service.uuid m.step_id) ∷ [];
  dedupe_key = str_append "step-ready:" (service.uuid m.step_id);
  available_at = m.now;
  created_at = m.now;
})

abbrev pub event_of : Moment → SubmitMessageCommand → Result RunEventData
event_of m c = new_event (record {
  id = m.run_event_id;
  tenant_id = c.tenant_id;
  run_id = m.search_run_id;
  sequence = 1;
  event_type = "RUN_QUEUED";
  payload = ("mode", text (mode_value c.routing.mode)) ∷ [];
  created_at = m.now;
})

-- The inserts, and their commit.
unfoldable pub add_all :
    Moment
    → SubmitMessageCommand
    → SearchRun
    → SearchStep
    → OutboxMessage
    → RunEventData
    → ConversationTables
    → Result ConversationTables
add_all m c run step message event t = do
  t ← add_message (message_of m c) t
  t ← add_response_run (response_of m c) t
  t ← add_run run t
  t ← in_execution (add_step step) t
  t ← add_outbox message t
  in_execution (add_event event) t

-- The rest of a submission with a new key.
unfoldable pub create_submission :
    ConversationService
    → Moment
    → SubmitMessageCommand
    → String
    → ConversationTables
    → Result (ConversationTables × SubmissionReceipt)
create_submission service m c hash t = do
  budget ← snapshot service.policy c.routing.mode m.now
  run ← run_of m c budget
  step ← step_of service m c hash
  message ← outbox_of service m c
  event ← event_of m c
  t ← add_all m c run step message event t
  ok (
    t,
    record {
      message_id = m.message_id;
      response_run_id = m.response_run_id;
      search_run_id = m.search_run_id;
      status = run.status;
      duplicate = false;
      request_hash = some hash;
    },
  )

abbrev pub is_hash : String → Option String → Bool
is_hash hash none = false
is_hash hash (some other) = str_eq other hash

abbrev pub repeated_receipt : String → SubmissionReceipt → SubmissionReceipt
repeated_receipt hash existing = record existing { duplicate = true; request_hash = some hash }

-- With the submission that is found under the key.
unfoldable pub answer_submission :
    ConversationService
    → Moment
    → SubmitMessageCommand
    → String
    → Option SubmissionReceipt
    → ConversationTables
    → Result (ConversationTables × SubmissionReceipt)
answer_submission service m c hash none t = create_submission service m c hash t
answer_submission service m c hash (some existing) t = do
  raise_if (not (is_hash hash existing.request_hash)) idempotency_conflict
  ok (t, repeated_receipt hash existing)

-- `submit_message`
unfoldable pub submit_message :
    ConversationService
    → Moment
    → SubmitMessageCommand
    → ConversationTables
    → Result (ConversationTables × SubmissionReceipt)
submit_message service m c t = do
  raise_if (not (str_eq c.routing.policy_version service.policy.version)) version_mismatch
  hash ← normalized_content_sha256 service.sha256 (strip c.content)
  owned ← lock_owned_by c.tenant_id c.conversation_id c.user_id t
  raise_if (not owned) conversation_not_found
  existing ←
      find_submission service.sha256 c.tenant_id c.conversation_id (strip c.idempotency_key) t
  answer_submission service m c hash existing t
