-- ===== src/Conversations/Invariant.antt =====
-- Submissions keep the tables linked.
use sana_v.Base.{
  ℕ, ◌≡◌, refl, sym, ap, ◌∙◌, subst, arith, true, some, none, not, Option, String, inl, inr, any,
  ◌==◌, str_eq, strip, Among, Among-++, Among-right,
}
use sana_v.Shared.Errors.{ok, ok-elim, check-rest, ok-injective}
use sana_v.Orchestration.Run.{SearchRun}
use sana_v.Orchestration.Policy.{snapshot}
use sana_v.Conversations.Values.{
  ResponseRunDraft, SubmissionReceipt, normalized_content_sha256, SubmitMessageCommand,
}
use sana_v.Conversations.Tables.{
  ConversationTables, MessageRow, message_row, lock_owned_by, find_submission,
}
use sana_v.Conversations.Submission.{
  ConversationService, Moment, message_of, response_of, run_of, step_of, outbox_of, event_of,
  add_all, create_submission, is_hash, answer_submission, submit_message,
}
use sana_v.Conversations.Links.{Among-any, any-append-left, IsLinked, Created, add_all-Created}
use sana_v.Conversations.Join.{new_run-keys}

module _ (m : Moment) (c : SubmitMessageCommand) (run : SearchRun) (t t' : ConversationTables)
    (created : Created m c run t t') where
  message_there :
      (id : ℕ)
      → any (λ (row : MessageRow). row.id == id) t.messages ≡ true
      → any (λ (row : MessageRow). row.id == id) t'.messages ≡ true
  message_there id h =
      ap (any (λ (row : MessageRow). row.id == id)) created.new_message
      ∙ any-append-left (λ (row : MessageRow). row.id == id) t.messages _ h

  own_message : any (λ (row : MessageRow). row.id == m.message_id) t'.messages ≡ true
  own_message =
      ap (any (λ (row : MessageRow). row.id == m.message_id)) created.new_message
      ∙ Among-any (λ (row : MessageRow). row.id == m.message_id) (message_row (message_of m c)) _
          (Among-right _ t.messages _ (inl refl)) (ground arith)

  response_there :
      (id : ℕ)
      → any (λ (a : ResponseRunDraft). a.id == id) t.response_runs ≡ true
      → any (λ (a : ResponseRunDraft). a.id == id) t'.response_runs ≡ true
  response_there id h =
      ap (any (λ (a : ResponseRunDraft). a.id == id)) created.new_response
      ∙ any-append-left (λ (a : ResponseRunDraft). a.id == id) t.response_runs _ h

  own_response : any (λ (a : ResponseRunDraft). a.id == m.response_run_id) t'.response_runs ≡ true
  own_response =
      ap (any (λ (a : ResponseRunDraft). a.id == m.response_run_id)) created.new_response
      ∙ Among-any (λ (a : ResponseRunDraft). a.id == m.response_run_id) (response_of m c) _
          (Among-right _ t.response_runs _ (inl refl)) (ground arith)

  created-IsLinked : run.response_run_id ≡ m.response_run_id → IsLinked t → IsLinked t'
  created-IsLinked of_response linked = record {
    responses = λ a among.
        elim (Among-++ a t.response_runs _ (subst (Among a) created.new_response among)) [
          | inl old ↦ message_there a.message_id (linked.responses a old)
          | inr (inl same) ↦
              subst (λ id. any (λ (row : MessageRow). row.id == id) t'.messages ≡ true)
                (ap (λ (a : ResponseRunDraft). a.message_id) (sym same)) own_message
          | inr (inr left) ↦ elim left [ ]
        ];
    runs = λ r among. elim (Among-++ r t.execution.runs _ (subst (Among r) created.new_run among)) [
      | inl old ↦ response_there r.response_run_id (linked.runs r old)
      | inr (inl same) ↦
          subst (λ id. any (λ (a : ResponseRunDraft). a.id == id) t'.response_runs ≡ true)
            (sym of_response ∙ ap (λ (r : SearchRun). r.response_run_id) (sym same)) own_response
      | inr (inr left) ↦ elim left [ ]
    ];
  }

module _ (service : ConversationService) where
  answered-IsLinked :
      (m : Moment) (c : SubmitMessageCommand) (hash : String) (existing : Option SubmissionReceipt)
      (t : ConversationTables) (out : ConversationTables × SubmissionReceipt)
      → IsLinked t
      → answer_submission service m c hash existing t ≡ ok out
      → IsLinked out.0
  unfolding answer_submission create_submission
  answered-IsLinked m c hash (some existing) t out linked h =
      let (_, h) = check-rest (not (is_hash hash existing.request_hash)) _ _ h in
      subst (λ (p : ConversationTables × SubmissionReceipt). IsLinked p.0) (ok-injective h) linked
  answered-IsLinked m c hash none t out linked h =
      ok-elim (snapshot service.policy c.routing.mode m.now) _ h λ budget _ h.
        ok-elim (run_of m c budget) _ h λ run made h.
          ok-elim (step_of service m c hash) _ h λ step _ h.
            ok-elim (outbox_of service m c) _ h λ message _ h.
              ok-elim (event_of m c) _ h λ event _ h.
                ok-elim (add_all m c run step message event t) _ h λ t1 adds h.
                  let (id, of_response, status) = new_run-keys _ c.routing budget run made in
                  subst (λ (p : ConversationTables × SubmissionReceipt). IsLinked p.0)
                    (ok-injective h)
                    (created-IsLinked m c run t t1
                      (add_all-Created m c run step message event t t1 adds) of_response linked)

  -- A submission that returns leaves the tables linked.
  pub submit-IsLinked :
      (m : Moment) (c : SubmitMessageCommand) (t : ConversationTables)
      (out : ConversationTables × SubmissionReceipt)
      → IsLinked t
      → submit_message service m c t ≡ ok out
      → IsLinked out.0
  unfolding submit_message
  submit-IsLinked m c t out linked h =
      let (_, h) =
        check-rest (not (str_eq c.routing.policy_version service.policy.version)) _ _ h in
      ok-elim (normalized_content_sha256 service.sha256 (strip c.content)) _ h λ hash _ h.
        ok-elim (lock_owned_by c.tenant_id c.conversation_id c.user_id t) _ h λ owned _ h.
          let (_, h) = check-rest (not owned) _ _ h in
          ok-elim
            (find_submission service.sha256 c.tenant_id c.conversation_id (strip c.idempotency_key)
              t)
            _ h λ existing _ h. answered-IsLinked m c hash existing t out linked h
