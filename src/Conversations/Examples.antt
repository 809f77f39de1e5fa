-- ===== src/Conversations/Examples.antt =====
-- The theorems on submissions, on a question that is asked again.
use sana_v.Base.{◌≡◌, ◌≢◌, refl, ap, String, Bool, true, false, Option, none, some, strip, str_eq}
use sana_v.Shared.Errors.{ok, err}
use sana_v.Conversations.Values.{normalized_content_sha256}
use sana_v.Conversations.Submission.{submit_message, idempotency_conflict}
use sana_v.Conversations.Links.{IsLinked}
use sana_v.Conversations.Invariant.{submit-IsLinked}
use sana_v.Conversations.Idempotency.{Resubmits, submit_repeats, submit_conflicts}
use sana_v.Conversations.Samples.{
  service, moment, question, question_again, other_question, before, afterwards, receipt,
  is_submitted,
}

before-IsLinked : IsLinked before
before-IsLinked = record { responses = λ a among. elim among [ ]; runs = λ r among. elim among [ ] }

again-Resubmits : Resubmits service question question_again
unfolding strip
again-Resubmits = record {
  same_tenant = refl;
  same_user = refl;
  same_conversation = refl;
  same_key = refl;
  is_current = refl;
}

same_content : strip question_again.content ≡ strip question.content
unfolding strip
same_content = refl

submit_repeats_example :
    submit_message service (moment 9 200) question_again afterwards
    ≡ ok (afterwards, record receipt { duplicate = true })
submit_repeats_example =
    submit_repeats service (moment 0 100) (moment 9 200) question question_again before afterwards
      receipt before-IsLinked is_submitted again-Resubmits same_content

other-Resubmits : Resubmits service question other_question
other-Resubmits = record {
  same_tenant = refl;
  same_user = refl;
  same_conversation = refl;
  same_key = refl;
  is_current = refl;
}

other_digest :
    normalized_content_sha256 service.sha256 (strip other_question.content)
    ≡ ok "fedcba9876543210fedcba9876543210fedcba9876543210fedcba9876543210"
unfolding normalized_content_sha256 strip
other_digest = refl

digests_differ :
    receipt.request_hash ≢ some "fedcba9876543210fedcba9876543210fedcba9876543210fedcba9876543210"
digests_differ same = let apart : true ≡ false = ap (is_first) same in cc
  where
    is_first : Option String → Bool
    is_first none = false
    is_first (some digest) =
        str_eq digest "0123456789abcdef0123456789abcdef0123456789abcdef0123456789abcdef"

submit_conflicts_example :
    submit_message service (moment 9 200) other_question afterwards ≡ err idempotency_conflict
submit_conflicts_example =
    submit_conflicts service (moment 0 100) (moment 9 200) question other_question before afterwards
      receipt "fedcba9876543210fedcba9876543210fedcba9876543210fedcba9876543210" before-IsLinked
      is_submitted other-Resubmits other_digest digests_differ

afterwards-IsLinked : IsLinked afterwards
afterwards-IsLinked =
    submit-IsLinked service (moment 0 100) question before (afterwards, receipt) before-IsLinked
      is_submitted
