-- ===== src/Conversations/Links.antt =====
-- The rows that refer to each other, and what a submission that is created adds to them.
use sana_v.Base.{
  ◌≡◌, refl, sym, ap, arith, Bool, Bool-cases, true, false, not, List, [], ◌∷◌, ◌++◌, inl, inr, any,
  keep, ◌==◌, Among,
}
use sana_v.Shared.Errors.{ok, ok-elim, check-rest, ok-injective}
use sana_v.Orchestration.Run.{SearchRun}
use sana_v.Orchestration.Step.{SearchStep}
use sana_v.Execution.Values.{RunEventData}
use sana_v.Execution.Tables as Rows
use sana_v.Execution.Tables.{add_step, add_event, is_same_step, is_same_event}
use sana_v.Conversations.Values.{ResponseRunDraft, SubmitMessageCommand, OutboxMessage}
use sana_v.Conversations.Tables.{
  ConversationTables, MessageRow, is_same_message, message_row, add_message, add_response_run,
  is_same_run, add_run, is_same_outbox, add_outbox, in_execution,
}
use sana_v.Conversations.Submission.{Moment, message_of, response_of, add_all}

module _ {A : Type 0} (p : A → Bool) where
  pub any-false : (x : A) (xs : List A) → any p xs ≡ false → Among x xs → p x ≡ false
  any-false x [] h among = elim among [ ]
  any-false x (y ∷ xs) h (inl same) = let own = ap p same in ground arith
  any-false x (y ∷ xs) h (inr later) = any-false x xs (ground arith) later

  pub any-Among : (xs : List A) → any p xs ≡ true → (x : A) × Among x xs × (p x ≡ true)
  any-Among [] h = cc
  any-Among (x ∷ xs) h = elim (Bool-cases (p x)) [
    | inl holds ↦ (x, inl refl, holds)
    | inr fails ↦ let (y, among, holds) = any-Among xs (ground arith) in (y, inr among, holds)
  ]

  pub Among-any : (x : A) (xs : List A) → Among x xs → p x ≡ true → any p xs ≡ true
  Among-any x [] among holds = elim among [ ]
  Among-any x (y ∷ xs) (inl same) holds = let own = ap p same in ground arith
  Among-any x (y ∷ xs) (inr later) holds = let rest = Among-any x xs later holds in ground arith

  pub any-append-left : (xs ys : List A) → any p xs ≡ true → any p (xs ++ ys) ≡ true
  any-append-left [] ys h = cc
  any-append-left (x ∷ xs) ys h = elim (Bool-cases (p x)) [
    | inl holds ↦ ground arith
    | inr fails ↦ let rest = any-append-left xs ys (ground arith) in ground arith
  ]

  pub keep-last :
      (x : A) (xs : List A)
      → ((y : A) → Among y xs → p y ≡ false)
      → p x ≡ true
      → keep p (xs ++ (x ∷ [])) ≡ x ∷ []
  keep-last x [] others own = rw own refl
  keep-last x (y ∷ xs) others own =
      rw (others y (inl refl)) (keep-last x xs (λ z among. others z (inr among)) own)

-- Every response run is of a message, and every search run of a response run.
pub record IsLinked (t : ConversationTables) : Type 0 where
  pub responses :
      (a : ResponseRunDraft)
      → Among a t.response_runs
      → any (λ (m : MessageRow). m.id == a.message_id) t.messages ≡ true
  pub runs :
      (r : SearchRun)
      → Among r t.execution.runs
      → any (λ (a : ResponseRunDraft). a.id == r.response_run_id) t.response_runs ≡ true

-- What a new submission adds, and what it has found free.
pub record Created (m : Moment) (c : SubmitMessageCommand) (run : SearchRun)
    (t t' : ConversationTables) : Type 0 where
  pub same_tenant : t'.execution.tenant_id ≡ t.execution.tenant_id
  pub same_conversations : t'.conversations ≡ t.conversations
  pub new_message : t'.messages ≡ t.messages ++ (message_row (message_of m c) ∷ [])
  pub new_response : t'.response_runs ≡ t.response_runs ++ (response_of m c ∷ [])
  pub new_run : t'.execution.runs ≡ t.execution.runs ++ (run ∷ [])
  pub free_message : any (is_same_message (message_of m c)) t.messages ≡ false
  pub free_response :
      any (λ (row : ResponseRunDraft). row.id == m.response_run_id) t.response_runs ≡ false

step_keeps :
    (s : SearchStep) (t t' : Rows.Tables)
    → add_step s t ≡ ok t'
    → (t'.runs ≡ t.runs) × (t'.tenant_id ≡ t.tenant_id)
unfolding add_step
step_keeps s t t' h =
    let (_, h) = check-rest (not (s.tenant_id == t.tenant_id)) _ _ h in
    let (_, h) = check-rest (any (is_same_step s) t.steps) _ _ h in
    (
      ap (λ (t : Rows.Tables). t.runs) (sym (ok-injective h)),
      ap (λ (t : Rows.Tables). t.tenant_id) (sym (ok-injective h)),
    )

event_keeps :
    (e : RunEventData) (t t' : Rows.Tables)
    → add_event e t ≡ ok t'
    → (t'.runs ≡ t.runs) × (t'.tenant_id ≡ t.tenant_id)
unfolding add_event
event_keeps e t t' h =
    let (_, h) = check-rest (not (e.tenant_id == t.tenant_id)) _ _ h in
    let (_, h) = check-rest (any (is_same_event e) t.events) _ _ h in
    (
      ap (λ (t : Rows.Tables). t.runs) (sym (ok-injective h)),
      ap (λ (t : Rows.Tables). t.tenant_id) (sym (ok-injective h)),
    )

-- The message of the new response run has just been added.
pub add_all-Created :
    (m : Moment) (c : SubmitMessageCommand) (run : SearchRun) (step : SearchStep)
    (message : OutboxMessage) (event : RunEventData) (t t' : ConversationTables)
    → add_all m c run step message event t ≡ ok t'
    → Created m c run t t'
unfolding add_all add_message add_response_run add_run add_outbox
add_all-Created m c run step message event t t' h =
    ok-elim (add_message (message_of m c) t) _ h λ t1 told h.
      ok-elim (add_response_run (response_of m c) t1) _ h λ t2 answered h.
        ok-elim (add_run run t2) _ h λ t3 ran h.
          ok-elim (in_execution (add_step step) t3) _ h λ t4 stepped h.
            ok-elim (add_outbox message t4) _ h λ t5 announced h.
              ok-elim (add_event event t5.execution) _ h λ e6 noted h.
                ok-elim (add_step step t3.execution) _ stepped λ e4 adds stepped.
                  let (_, told) =
                    check-rest (not (c.tenant_id == t.execution.tenant_id)) _ _ told in
                  let (free_message, told) =
                    check-rest (any (is_same_message (message_of m c)) t.messages) _ _ told in
                  let (_, answered) =
                    check-rest (not (c.tenant_id == t1.execution.tenant_id)) _ _ answered in
                  let (free_response, answered) =
                    check-rest
                      (any (λ (row : ResponseRunDraft). row.id == m.response_run_id)
                        t1.response_runs)
                      _ _ answered in
                  let (_, answered) =
                    check-rest
                      (not (any (λ (row : MessageRow). row.id == m.message_id) t1.messages)) _ _
                      answered in
                  let (_, ran) =
                    check-rest (not (run.tenant_id == t2.execution.tenant_id)) _ _ ran in
                  let (_, ran) = check-rest (any (is_same_run run) t2.execution.runs) _ _ ran in
                  let (_, ran) =
                    check-rest
                      (not (
                        any (λ (a : ResponseRunDraft). a.id == run.response_run_id)
                          t2.response_runs))
                      _ _ ran in
                  let (_, announced) =
                    check-rest (not (message.tenant_id == t4.execution.tenant_id)) _ _ announced in
                  let (_, announced) =
                    check-rest (any (is_same_outbox message) t4.outbox) _ _ announced in
                  let s1 = sym (ok-injective told) in
                  let s2 = sym (ok-injective answered) in
                  let s3 = sym (ok-injective ran) in
                  let s4 = sym (ok-injective stepped) in
                  let s5 = sym (ok-injective announced) in
                  let s6 = sym (ok-injective h) in
                  let (runs4, tenant4) = step_keeps step t3.execution e4 adds in
                  let (runs6, tenant6) = event_keeps event t5.execution e6 noted in
                  record {
                    same_tenant = cc;
                    same_conversations = cc;
                    new_message = cc;
                    new_response = cc;
                    new_run = cc;
                    free_message = free_message;
                    free_response = cc;
                  }
