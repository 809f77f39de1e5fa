-- ===== src/Conversations/Record.antt =====
-- What a submission that returns leaves on record, to be found under its key.
use sana_v.Base.{
  ℕ, String, ◌≡◌, refl, ap, ◌∙◌, subst, arith, Bool, true, false, not, Option, none, some, ◌==◌,
  str_eq, eq_iff, strip,
}
use sana_v.Shared.Errors.{ok, ok-elim, check-rest, ok-injective}
use sana_v.Orchestration.Run.{SearchRun}
use sana_v.Orchestration.Policy.{snapshot}
use sana_v.Conversations.Values.{SubmissionReceipt, normalized_content_sha256, SubmitMessageCommand}
use sana_v.Conversations.Tables.{ConversationTables, lock_owned_by, find_submission}
use sana_v.Conversations.Submission.{
  ConversationService, Moment, run_of, step_of, outbox_of, event_of, add_all, create_submission,
  is_hash, repeated_receipt, answer_submission, submit_message,
}
use sana_v.Conversations.Links.{IsLinked, Created, add_all-Created}
use sana_v.Conversations.Join.{new_run-keys, only_submission}

-- What is on record of a submission: it is found under its key, with the digest of its content, and
-- what is found is what its receipt says.
pub record OnRecord (service : ConversationService) (c : SubmitMessageCommand)
    (t : ConversationTables) (r : SubmissionReceipt) : Type 0 where
  pub existing : SubmissionReceipt
  pub hash : String
  pub is_digest : normalized_content_sha256 service.sha256 (strip c.content) ≡ ok hash
  pub is_owned : lock_owned_by c.tenant_id c.conversation_id c.user_id t ≡ ok true
  pub is_found :
      find_submission service.sha256 c.tenant_id c.conversation_id (strip c.idempotency_key) t
      ≡ ok (some existing)
  pub same_digest : existing.request_hash ≡ some hash
  pub same_receipt : repeated_receipt hash existing ≡ record r { duplicate = true }

module _ (service : ConversationService) where
  filed-OnRecord :
      (m : Moment) (c : SubmitMessageCommand) (hash : String) (run : SearchRun)
      (t t' : ConversationTables)
      → IsLinked t
      → Created m c run t t'
      → run.id ≡ m.search_run_id
      → run.response_run_id ≡ m.response_run_id
      → normalized_content_sha256 service.sha256 (strip c.content) ≡ ok hash
      → lock_owned_by c.tenant_id c.conversation_id c.user_id t ≡ ok true
      → OnRecord service c t' (record {
        message_id = m.message_id;
        response_run_id = m.response_run_id;
        search_run_id = m.search_run_id;
        status = run.status;
        duplicate = false;
        request_hash = some hash;
      })
  unfolding lock_owned_by find_submission
  filed-OnRecord m c hash run t t' linked created id of_response digest owned = record {
    existing = receipt run.id;
    hash = hash;
    is_digest = digest;
    is_owned = rw (created.same_tenant, created.same_conversations) owned;
    is_found =
        let (ours, _) = check-rest (not (c.tenant_id == t.execution.tenant_id)) _ _ owned in
        let found = only_submission m c run t t' created linked of_response in
        rw (created.same_tenant, ours, found, digest) refl;
    same_digest = refl;
    same_receipt = ap (λ id. repeated_receipt hash (receipt id)) id;
  }
    where
      receipt : ℕ → SubmissionReceipt
      receipt id = record {
        message_id = m.message_id;
        response_run_id = m.response_run_id;
        search_run_id = id;
        status = run.status;
        duplicate = false;
        request_hash = some hash;
      }

  created-OnRecord :
      (m : Moment) (c : SubmitMessageCommand) (hash : String) (t : ConversationTables)
      (out : ConversationTables × SubmissionReceipt)
      → IsLinked t
      → normalized_content_sha256 service.sha256 (strip c.content) ≡ ok hash
      → lock_owned_by c.tenant_id c.conversation_id c.user_id t ≡ ok true
      → create_submission service m c hash t ≡ ok out
      → OnRecord service c out.0 out.1
  unfolding create_submission
  created-OnRecord m c hash t out linked digest owned h =
      ok-elim (snapshot service.policy c.routing.mode m.now) _ h λ budget _ h.
        ok-elim (run_of m c budget) _ h λ run made h.
          ok-elim (step_of service m c hash) _ h λ step _ h.
            ok-elim (outbox_of service m c) _ h λ message _ h.
              ok-elim (event_of m c) _ h λ event _ h.
                ok-elim (add_all m c run step message event t) _ h λ t1 adds h.
                  let (id, of_response, status) = new_run-keys _ c.routing budget run made in
                  let created = add_all-Created m c run step message event t t1 adds in
                  subst (λ (p : ConversationTables × SubmissionReceipt). OnRecord service c p.0 p.1)
                    (ok-injective h)
                    (filed-OnRecord m c hash run t t1 linked created id of_response digest owned)

  -- What is found was put on record by a receipt with its digest.
  answered-OnRecord :
      (m : Moment) (c : SubmitMessageCommand) (hash : String) (existing : Option SubmissionReceipt)
      (t : ConversationTables) (out : ConversationTables × SubmissionReceipt)
      → IsLinked t
      → normalized_content_sha256 service.sha256 (strip c.content) ≡ ok hash
      → lock_owned_by c.tenant_id c.conversation_id c.user_id t ≡ ok true
      → find_submission service.sha256 c.tenant_id c.conversation_id (strip c.idempotency_key) t
        ≡ ok existing
      → answer_submission service m c hash existing t ≡ ok out
      → OnRecord service c out.0 out.1
  unfolding answer_submission
  answered-OnRecord m c hash none t out linked digest owned found h =
      created-OnRecord m c hash t out linked digest owned h
  answered-OnRecord m c hash (some existing) t out linked digest owned found h =
      let (same, h) = check-rest (not (is_hash hash existing.request_hash)) _ _ h in
      subst (λ (p : ConversationTables × SubmissionReceipt). OnRecord service c p.0 p.1)
        (ok-injective h)
        (record {
          existing = existing;
          hash = hash;
          is_digest = digest;
          is_owned = owned;
          is_found = found;
          same_digest = given existing.request_hash same;
          same_receipt = refl;
        })
    where
      given : (o : Option String) → not (is_hash hash o) ≡ false → o ≡ some hash
      given none h = cc
      given (some other) h = ap some (ground (arith, eq_iff other hash))

  -- A submission that returns is on record.
  pub submit-OnRecord :
      (m : Moment) (c : SubmitMessageCommand) (t : ConversationTables)
      (out : ConversationTables × SubmissionReceipt)
      → IsLinked t
      → submit_message service m c t ≡ ok out
      → OnRecord service c out.0 out.1
  unfolding submit_message
  submit-OnRecord m c t out linked h =
      let (_, h) =
        check-rest (not (str_eq c.routing.policy_version service.policy.version)) _ _ h in
      ok-elim (normalized_content_sha256 service.sha256 (strip c.content)) _ h λ hash digest h.
        ok-elim (lock_owned_by c.tenant_id c.conversation_id c.user_id t) _ h λ owned is_owned h.
          let (owns, h) = check-rest (not owned) _ _ h in
          ok-elim
            (find_submission service.sha256 c.tenant_id c.conversation_id (strip c.idempotency_key)
              t)
            _ h
            λ existing found h.
              answered-OnRecord m c hash existing t out linked digest
                (is_owned ∙ ap ok (yes_owned owned owns)) found h
    where
      yes_owned : (b : Bool) → not b ≡ false → b ≡ true
      yes_owned true h = refl
      yes_owned false h = cc
