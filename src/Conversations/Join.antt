-- ===== src/Conversations/Join.antt =====
-- What a submission finds under a key that has just been used.
use sana_v.Base.{
  ◌≡◌, refl, sym, ap, ◌∙◌, arith, Bool-cases, true, false, [], ◌∷◌, inl, inr, keep, ◌==◌, str_eq,
  eq_refl, strip, Among,
}
use sana_v.Shared.Errors.{ok, ok-injective}
use sana_v.Orchestration.Status.{RunStatus}
use sana_v.Orchestration.Values.{RoutingDecision, BudgetSnapshot}
use sana_v.Orchestration.Run.{SearchRun, RunKeys, new_run}
use sana_v.Conversations.Values.{ResponseRunDraft, SubmitMessageCommand}
use sana_v.Conversations.Tables.{
  ConversationTables, MessageRow, has_key, answers, searches, submissions, is_same_message,
  message_row,
}
use sana_v.Conversations.Submission.{Moment, message_of, response_of}
use sana_v.Conversations.Links.{any-false, any-Among, keep-last, IsLinked, Created}

-- A run that is made has the keys that it was given, and is QUEUED.
pub new_run-keys :
    (k : RunKeys) (routing : RoutingDecision) (budget : BudgetSnapshot) (run : SearchRun)
    → new_run k routing budget ≡ ok run
    → (run.id ≡ k.id) × (run.response_run_id ≡ k.response_run_id) × (run.status ≡ RunStatus.queued)
unfolding new_run
new_run-keys k routing budget run h =
    elim (Bool-cases (str_eq routing.policy_version budget.policy_version)) [
      | inl same ↦
          let made = ok-injective (rw same at h) in
          (
            ap (λ (r : SearchRun). r.id) (sym made),
            ap (λ (r : SearchRun). r.response_run_id) (sym made),
            ap (λ (r : SearchRun). r.status) (sym made),
          )
      | inr other ↦ let raised = rw other at h in cc
    ]

-- The join finds exactly what has been created.
module _ (m : Moment) (c : SubmitMessageCommand) (run : SearchRun) (t t' : ConversationTables)
    (created : Created m c run t t') (linked : IsLinked t) where
  only_message :
      keep (has_key c.conversation_id (strip c.idempotency_key)) t'.messages
      ≡ message_row (message_of m c) ∷ []
  only_message =
      ap (keep (has_key c.conversation_id (strip c.idempotency_key))) created.new_message
      ∙ keep-last (has_key c.conversation_id (strip c.idempotency_key))
          (message_row (message_of m c)) t.messages others own
    where
      others :
          (y : MessageRow)
          → Among y t.messages
          → has_key c.conversation_id (strip c.idempotency_key) y ≡ false
      others y among =
          let free =
            any-false (is_same_message (message_of m c)) y t.messages created.free_message among in
          ground arith

      own :
          has_key c.conversation_id (strip c.idempotency_key) (message_row (message_of m c)) ≡ true
      own = let same = eq_refl (strip c.idempotency_key) in ground arith

  only_response :
      keep (answers (message_row (message_of m c))) t'.response_runs ≡ response_of m c ∷ []
  only_response =
      ap (keep (answers (message_row (message_of m c)))) created.new_response
      ∙ keep-last (answers (message_row (message_of m c))) (response_of m c) t.response_runs others
          (ground arith)
    where
      others :
          (y : ResponseRunDraft)
          → Among y t.response_runs
          → answers (message_row (message_of m c)) y ≡ false
      others y among =
          let (message, is, same) =
            any-Among (λ (row : MessageRow). row.id == y.message_id) t.messages
              (linked.responses y among) in
          let free =
            any-false (is_same_message (message_of m c)) message t.messages created.free_message
              is in
          ground arith

  only_run :
      run.response_run_id ≡ m.response_run_id
      → keep (searches (response_of m c)) t'.execution.runs ≡ run ∷ []
  only_run of_response =
      ap (keep (searches (response_of m c))) created.new_run
      ∙ keep-last (searches (response_of m c)) run t.execution.runs others (ground arith)
    where
      others : (y : SearchRun) → Among y t.execution.runs → searches (response_of m c) y ≡ false
      others y among =
          let (response, is, same) =
            any-Among (λ (a : ResponseRunDraft). a.id == y.response_run_id) t.response_runs
              (linked.runs y among) in
          let free =
            any-false (λ (row : ResponseRunDraft). row.id == m.response_run_id) response
              t.response_runs created.free_response is in
          ground arith

  pub only_submission :
      run.response_run_id ≡ m.response_run_id
      → submissions c.conversation_id (strip c.idempotency_key) t'
        ≡ (record { message = message_row (message_of m c); response = response_of m c; run = run })
          ∷ []
  only_submission of_response = rw (only_message, only_response, only_run of_response) refl
