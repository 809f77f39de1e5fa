-- ===== src/Conversations/Idempotency.antt =====
-- A submission can be repeated under its key: it is made at most once.
use sana_v.Base.{
  String, ◌≡◌, ◌≢◌, refl, sym, ap, ◌∙◌, subst, arith, true, false, some, str_eq, eq_refl, eq_iff,
  strip,
}
use sana_v.Shared.Errors.{ok, err}
use sana_v.Conversations.Values.{SubmissionReceipt, normalized_content_sha256, SubmitMessageCommand}
use sana_v.Conversations.Tables.{ConversationTables}
use sana_v.Conversations.Submission.{
  ConversationService, Moment, idempotency_conflict, repeated_receipt, answer_submission,
  submit_message,
}
use sana_v.Conversations.Links.{IsLinked}
use sana_v.Conversations.Record.{OnRecord, submit-OnRecord}

-- A command that uses the key of another, in the same conversation.
pub record Resubmits (service : ConversationService) (c d : SubmitMessageCommand) : Type 0 where
  pub same_tenant : d.tenant_id ≡ c.tenant_id
  pub same_user : d.user_id ≡ c.user_id
  pub same_conversation : d.conversation_id ≡ c.conversation_id
  pub same_key : strip d.idempotency_key ≡ strip c.idempotency_key
  pub is_current : d.routing.policy_version ≡ service.policy.version

module _ (service : ConversationService) where
  -- What a command answers that uses the key of one on record.
  answer-OnRecord :
      (m : Moment) (c d : SubmitMessageCommand) (t : ConversationTables) (r : SubmissionReceipt)
      (rec : OnRecord service c t r) (hash : String)
      → Resubmits service c d
      → normalized_content_sha256 service.sha256 (strip d.content) ≡ ok hash
      → submit_message service m d t ≡ answer_submission service m d hash (some rec.existing) t
  unfolding submit_message
  answer-OnRecord m c d t r rec hash again digest =
      let version : str_eq d.routing.policy_version service.policy.version ≡ true =
        subst (λ v. str_eq d.routing.policy_version v ≡ true) again.is_current
          (eq_refl d.routing.policy_version) in
      let owned = rec.is_owned in
      let found = rec.is_found in
      rw
        (
          version, digest, again.same_tenant, again.same_user, again.same_conversation,
          again.same_key, owned, found,
        )
        refl

  -- A submission can be repeated: in linked tables, where every response run is of a message and
  -- every search run of a response run, a second one with the same key and the same content, in the
  -- same conversation of the same user and routed by the current policy, returns the receipt of the
  -- first, marked as a duplicate, and changes no table.
  pub submit_repeats :
      (m m' : Moment) (c d : SubmitMessageCommand) (t t' : ConversationTables)
      (r : SubmissionReceipt)
      → IsLinked t
      → submit_message service m c t ≡ ok (t', r)
      → Resubmits service c d
      → strip d.content ≡ strip c.content
      → submit_message service m' d t' ≡ ok (t', record r { duplicate = true })
  unfolding answer_submission
  submit_repeats m m' c d t t' r linked h again same =
      let rec = submit-OnRecord service m c t (t', r) linked h in
      let digest = ap (normalized_content_sha256 service.sha256) same ∙ rec.is_digest in
      answer-OnRecord m' c d t' r rec rec.hash again digest
      ∙ repeated rec.existing rec.hash rec.same_digest
      ∙ ap (λ receipt. ok (t', receipt)) rec.same_receipt
    where
      repeated :
          (e : SubmissionReceipt) (hash : String)
          → e.request_hash ≡ some hash
          → answer_submission service m' d hash (some e) t' ≡ ok (t', repeated_receipt hash e)
      repeated e hash is = let same = eq_refl hash in rw (is, same) refl

  -- A key is good for one content: after a submission to linked tables has returned, another with
  -- its key, in the same conversation of the same user and routed by the current policy, whose
  -- content has another digest, raises `idempotency_conflict`.
  pub submit_conflicts :
      (m m' : Moment) (c d : SubmitMessageCommand) (t t' : ConversationTables)
      (r : SubmissionReceipt) (hash : String)
      → IsLinked t
      → submit_message service m c t ≡ ok (t', r)
      → Resubmits service c d
      → normalized_content_sha256 service.sha256 (strip d.content) ≡ ok hash
      → r.request_hash ≢ some hash
      → submit_message service m' d t' ≡ err idempotency_conflict
  unfolding answer_submission
  submit_conflicts m m' c d t t' r hash linked h again digest other =
      let rec = submit-OnRecord service m c t (t', r) linked h in
      answer-OnRecord m' c d t' r rec hash again digest
      ∙ refused rec.existing rec.hash rec.same_digest (λ same.
        other
          (sym (ap (λ (x : SubmissionReceipt). x.request_hash) rec.same_receipt) ∙ ap some same))
    where
      refused :
          (e : SubmissionReceipt) (old : String)
          → e.request_hash ≡ some old
          → old ≢ hash
          → answer_submission service m' d hash (some e) t' ≡ err idempotency_conflict
      refused e old is other =
          let apart : str_eq old hash ≡ false = ground (arith, eq_iff old hash) in
          rw (is, apart) refl
