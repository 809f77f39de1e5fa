-- ===== src/Execution/Tables.antt =====
-- The rows of one tenant, and the repositories that a unit of work of the tenant gives access to:
-- SqlRunRepository, SqlStepRepository, SqlAttemptRepository and SqlRunEventRepository of
-- sana/platform/db/repositories.py, with the constraints of models/orchestration.py. A row is
-- written as the aggregate that it is loaded into, whose `persisted_version` is not read; of the
-- steps, `updated_at` is read by the reconciliation only and left out. An operation is a `Result` of
-- the tables: what raises, the transaction undoes. `mark_persisted`, after a row is saved, concerns
-- the object in memory, which is dropped at the end of the transaction.
pub mod Laws
use sana_v.Base.{
  ℕ, ◌+◌, Bool, not, ◌&&◌, ◌||◌, Option, none, some, List, [], ◌∷◌, ◌++◌, any, ltb, ◌==◌, length,
  keep, str_eq, map, if◌then◌else◌,
}
use sana_v.Shared.Errors.{
  Error, Result, ok, err, invariant_violation_with, unexpected, raise_if, ◌>>=◌, ◌>>◌,
}
use sana_v.Shared.Time.{DateTime, is_before}
use sana_v.Orchestration.Run.{SearchRun}
use sana_v.Orchestration.Run.Loading as RunLoading
use sana_v.Orchestration.Step
use sana_v.Orchestration.Step.{SearchStep}
use sana_v.Orchestration.Attempt.{StepAttempt, is_complete}
use sana_v.Execution.Values.{RunEventData}

pub record Tables : Type 0 where
  pub tenant_id : ℕ
  pub runs : List SearchRun
  pub steps : List SearchStep
  pub attempts : List StepAttempt
  pub events : List RunEventData

-- `SELECT … WHERE p`, `UPDATE … SET f WHERE p`, and the number of rows that an update matches.
module _ {R : Type 0} where
  abbrev pub first_where : (R → Bool) → List R → Option R
  first_where p [] = none
  first_where p (r ∷ rows) = let rest = first_where p rows in if p r then some r else rest

  abbrev pub update_where : (R → Bool) → (R → R) → List R → List R
  update_where p f [] = []
  update_where p f (r ∷ rows) = (if p r then f r else r) ∷ update_where p f rows

  abbrev pub count_where : (R → Bool) → List R → ℕ
  count_where p [] = 0
  count_where p (r ∷ rows) = (if p r then 1 else 0) + count_where p rows

-- `max(…)` over the rows, or 0 if there is none
abbrev pub max_of : List ℕ → ℕ
max_of [] = 0
max_of (n ∷ ns) = let m = max_of ns in if ltb m n then n else m

-- `_assert_tenant`
abbrev pub assert_tenant : Tables → ℕ → Result (Unit {0})
assert_tenant t tenant_id =
    raise_if (not (tenant_id == t.tenant_id)) (
      invariant_violation_with "Repository cannot cross its tenant scope" "tenant_scope_mismatch"
        [])

-- `if result.rowcount != 1: raise`
abbrev pub check_rowcount : ℕ → Error → Result (Unit {0})
check_rowcount n e = raise_if (not (n == 1)) e

abbrev pub has_run_id : ℕ → SearchRun → Bool
has_run_id id r = r.id == id

abbrev pub has_step_id : ℕ → SearchStep → Bool
has_step_id id s = s.id == id

abbrev pub find_step : ℕ → List SearchStep → Option SearchStep
find_step id = first_where (has_step_id id)

-- `get` and `get_for_update` of SqlRunRepository and SqlStepRepository
abbrev pub loaded : {R : Type 0} → (R → Result R) → Option R → Result (Option R)
loaded load none = ok none
loaded load (some row) = load row >>= λ object. ok (some object)

unfoldable pub get_run : ℕ → Tables → Result (Option SearchRun)
unfolding RunLoading.rehydrate
get_run id t = loaded RunLoading.rehydrate (first_where (has_run_id id) t.runs)

unfoldable pub get_step : ℕ → Tables → Result (Option SearchStep)
unfolding Step.rehydrate
get_step id t = loaded Step.rehydrate (find_step id t.steps)

-- `SqlRunRepository.save`. The identifiers of a run are not written.
abbrev pub is_saved_run : SearchRun → SearchRun → Bool
is_saved_run r row = row.id == r.id && row.version == r.persisted_version

abbrev pub save_values : SearchRun → SearchRun → SearchRun
save_values r row = record row {
  routing = r.routing;
  budget = r.budget;
  status = r.status;
  answer_quality = r.answer_quality;
  stop_reason = r.stop_reason;
  usage = r.usage;
  started_at = r.started_at;
  completed_at = r.completed_at;
  version = r.version;
}

abbrev pub lock_failed : Error
lock_failed =
    invariant_violation_with "Search run was modified concurrently" "optimistic_lock_failed" []

unfoldable pub save_run : SearchRun → Tables → Result Tables
save_run r t = do
  assert_tenant t r.tenant_id
  check_rowcount (count_where (is_saved_run r) t.runs) lock_failed
  ok (record t { runs = update_where (is_saved_run r) (save_values r) t.runs })

-- `SqlStepRepository.save`
abbrev pub is_saved_step : SearchStep → SearchStep → Bool
is_saved_step s row = row.id == s.id && row.version == s.persisted_version

abbrev pub step_values : SearchStep → SearchStep → SearchStep
step_values s row = record row {
  status = s.status;
  output_ref = s.output_ref;
  retry_at = s.retry_at;
  version = s.version;
}

abbrev pub step_lock_failed : Error
step_lock_failed =
    invariant_violation_with "Search step was modified concurrently" "optimistic_lock_failed" []

unfoldable pub save_step : SearchStep → Tables → Result Tables
save_step s t = do
  assert_tenant t s.tenant_id
  check_rowcount (count_where (is_saved_step s) t.steps) step_lock_failed
  ok (record t { steps = update_where (is_saved_step s) (step_values s) t.steps })

-- `SqlStepRepository.add`, with the primary key and the unique key of the table
abbrev pub is_same_step : SearchStep → SearchStep → Bool
is_same_step s row =
    row.id == s.id
    || (row.run_id == s.run_id
        && row.plan_revision == s.plan_revision
        && str_eq row.step_key s.step_key)

unfoldable pub add_step : SearchStep → Tables → Result Tables
add_step s t = do
  assert_tenant t s.tenant_id
  raise_if (any (is_same_step s) t.steps) unexpected
  ok (record t { steps = t.steps ++ (s ∷ []) })

-- `SqlAttemptRepository.add`, with the primary key and the unique keys of the table
abbrev pub is_same_attempt : StepAttempt → StepAttempt → Bool
is_same_attempt a row =
    row.id == a.id
    || (row.step_id == a.step_id && row.attempt_no == a.attempt_no)
    || str_eq row.idempotency_key a.idempotency_key

unfoldable pub add_attempt : StepAttempt → Tables → Result Tables
add_attempt a t = do
  assert_tenant t a.tenant_id
  raise_if (any (is_same_attempt a) t.attempts) unexpected
  ok (record t { attempts = t.attempts ++ (a ∷ []) })

abbrev pub is_of_step : ℕ → StepAttempt → Bool
is_of_step step_id a = a.step_id == step_id

-- `select(func.max(attempt_no)).where(step_id == …)`
abbrev pub latest_no : ℕ → List StepAttempt → ℕ
latest_no step_id rows =
    max_of (map (λ (a : StepAttempt). a.attempt_no) (keep (is_of_step step_id) rows))

unfoldable pub next_attempt_no : ℕ → Tables → ℕ
next_attempt_no step_id t = latest_no step_id t.attempts + 1

abbrev pub has_attempt_id : ℕ → StepAttempt → Bool
has_attempt_id id a = a.id == id

abbrev pub find_attempt : ℕ → List StepAttempt → Option StepAttempt
find_attempt id = first_where (has_attempt_id id)

-- `id == … and completed_at IS NULL`
abbrev pub is_open_row : ℕ → StepAttempt → Bool
is_open_row id row = row.id == id && not (is_complete row)

-- `SqlAttemptRepository.complete`
abbrev pub completed_values : StepAttempt → StepAttempt → StepAttempt
completed_values a row = record row {
  leased_until = a.leased_until;
  completed_at = a.completed_at;
  error = a.error;
  output_ref = a.output_ref;
}

unfoldable pub complete_attempt : StepAttempt → Tables → Result Tables
complete_attempt a t = do
  assert_tenant t a.tenant_id
  raise_if (not (is_complete a)) (
      invariant_violation_with "Cannot persist an incomplete attempt as completed"
        "attempt_not_complete" [])
  check_rowcount (count_where (is_open_row a.id) t.attempts) (
      invariant_violation_with "Attempt was already finalized or does not exist"
        "attempt_finalize_conflict" [])
  ok (record t { attempts = update_where (is_open_row a.id) (completed_values a) t.attempts })

-- `SqlAttemptRepository.renew`
abbrev pub is_renewable : StepAttempt → StepAttempt → Bool
is_renewable a row =
    is_open_row a.id row
    && str_eq row.lease_owner a.lease_owner
    && is_before row.leased_until a.leased_until

unfoldable pub renew_attempt : StepAttempt → Tables → Result Tables
renew_attempt a t = do
  assert_tenant t a.tenant_id
  raise_if (is_complete a)
      (invariant_violation_with "Cannot renew a completed attempt" "attempt_already_complete" [])
  check_rowcount (count_where (is_renewable a) t.attempts) (
      invariant_violation_with "Attempt lease could not be renewed" "attempt_lease_renewal_conflict"
        [])
  ok (record t {
    attempts =
        update_where (is_renewable a) (λ row. record row { leased_until = a.leased_until })
          t.attempts;
  })

-- `SqlRunEventRepository`, with the primary key and the unique key of the table
abbrev pub next_sequence : ℕ → Tables → ℕ
next_sequence run_id t =
    max_of (
      map (λ (e : RunEventData). e.sequence)
        (keep (λ (e : RunEventData). e.run_id == run_id) t.events))
    + 1

abbrev pub is_same_event : RunEventData → RunEventData → Bool
is_same_event e row = row.id == e.id || (row.run_id == e.run_id && row.sequence == e.sequence)

unfoldable pub add_event : RunEventData → Tables → Result Tables
add_event e t = do
  assert_tenant t e.tenant_id
  raise_if (any (is_same_event e) t.events) unexpected
  ok (record t { events = t.events ++ (e ∷ []) })
