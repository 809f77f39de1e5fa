-- ===== src/Conversations/Samples.antt =====
-- Sample data: a user who asks a question, asks it again under the same key, and then another.
use sana_v.Base.{
  ℕ, ◌+◌, ◌≡◌, refl, String, true, false, some, [], ◌∷◌, map, pos, str_eq, strip, decimal, ◌+ℤ◌,
  if◌then◌else◌,
}
use sana_v.Shared.Errors.{Result, ok, err}
use sana_v.Shared.Time.{shift}
use sana_v.Orchestration.Status.{SearchMode, RunStatus}
use sana_v.Orchestration.Values.{RoutingDecision, new_budget, new_artifact}
use sana_v.Orchestration.Run.{new_run}
use sana_v.Orchestration.Step.{new_step}
use sana_v.Orchestration.Policy.{default_policy, snapshot}
use sana_v.Execution.Values.{new_event}
use sana_v.Execution.Tables.{add_step, add_event}
use sana_v.Conversations.Values.{
  SubmissionReceipt, SubmitMessageCommand, new_command, normalized_content_sha256, new_outbox,
}
use sana_v.Conversations.Tables.{
  ConversationTables, lock_owned_by, find_submission, add_message, add_response_run, add_run,
  add_outbox,
}
use sana_v.Conversations.Submission.{
  ConversationService, Moment, conversation_not_found, add_all, create_submission,
  answer_submission, submit_message,
}

-- A stand-in for the digest, of 64 hexadecimal digits.
abbrev digest : String → String
digest text =
    if str_eq text "What does it cost?"
    then "0123456789abcdef0123456789abcdef0123456789abcdef0123456789abcdef"
    else "fedcba9876543210fedcba9876543210fedcba9876543210fedcba9876543210"

abbrev pub service : ConversationService
service = record { policy = default_policy; sha256 = digest; uuid = decimal }

abbrev routing : RoutingDecision
routing = record {
  mode = SearchMode.fast;
  reason_codes = "simple" ∷ [];
  policy_version = "search-v12";
  confidence = pos 900_000;
}

-- The submission that is made at a time, with new identifiers from a number on.
abbrev pub moment : ℕ → ℕ → Moment
moment seconds first = record {
  now = record {
    is_aware = true;
    instant = Prim.Native.Nat.◌+◌ 63_871_286_400_000_000 (Prim.Native.Nat.◌*◌ seconds 1_000_000);
  };
  message_id = first;
  response_run_id = first + 1;
  search_run_id = first + 2;
  step_id = first + 3;
  outbox_id = first + 4;
  run_event_id = first + 5;
}

abbrev pub question : SubmitMessageCommand
question = record {
  tenant_id = 2;
  user_id = 4;
  conversation_id = 5;
  content = "  What does it cost? ";
  idempotency_key = "k1 ";
  routing = routing;
}

-- The same, spaced otherwise.
abbrev pub question_again : SubmitMessageCommand
question_again = record question { content = "What does it cost?"; idempotency_key = "k1" }

abbrev pub other_question : SubmitMessageCommand
other_question = record question { content = "How wide is it?" }

abbrev pub before : ConversationTables
before = record {
  execution = record { tenant_id = 2; runs = []; steps = []; attempts = []; events = [] };
  conversations = record { id = 5; user_id = 4 } ∷ [];
  messages = [];
  response_runs = [];
  outbox = [];
}

abbrev pub receipt : SubmissionReceipt
receipt = record {
  message_id = 100;
  response_run_id = 101;
  search_run_id = 102;
  status = RunStatus.queued;
  duplicate = false;
  request_hash = some "0123456789abcdef0123456789abcdef0123456789abcdef0123456789abcdef";
}

abbrev tables_or :
    ConversationTables → Result (ConversationTables × SubmissionReceipt) → ConversationTables
tables_or t (ok out) = out.0
tables_or t (err _) = t

unfoldable pub afterwards : ConversationTables
unfolding submit_message answer_submission create_submission add_all lock_owned_by find_submission
    add_message add_response_run add_run add_outbox add_step add_event new_event new_outbox new_step
    new_artifact new_run snapshot new_budget normalized_content_sha256 shift decimal strip ◌+ℤ◌
afterwards = tables_or before (submit_message service (moment 0 100) question before)

pub is_submitted : submit_message service (moment 0 100) question before ≡ ok (afterwards, receipt)
unfolding afterwards
is_submitted = refl

written : map (λ s. s.run_id) afterwards.execution.steps ≡ 102 ∷ []
unfolding afterwards
written = refl

announced : map (λ m. m.dedupe_key) afterwards.outbox ≡ "step-ready:103" ∷ []
unfolding afterwards
announced = refl

stranger_is_refused :
    submit_message service (moment 0 100) (record question { user_id = 3 }) before
    ≡ err conversation_not_found
unfolding afterwards
stranger_is_refused = refl

question_is_command : new_command question ≡ ok question
unfolding new_command strip
question_is_command = refl
