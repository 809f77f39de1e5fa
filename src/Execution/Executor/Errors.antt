-- ===== src/Execution/Executor/Errors.antt =====
-- Which errors of an operation lead to another try.
use sana_v.Base.{◌≡◌, refl, subst, true}
use sana_v.Shared.Errors.{
  Error, TypedError, ok, err, typed, value_error, type_error, overflow_error, lookup_error,
  unexpected,
}
use sana_v.Execution.Values.{ExecutionDisposition, ClaimedStep}
use sana_v.Execution.Tables.{Tables}
use sana_v.Execution.Store.{Store, Moment}
use sana_v.Execution.Executor.{finalize, reported}
use sana_v.Execution.Retries.{IsPutOff, fail-IsPutOff}

-- Only a typed error can be one to try again.
reported-typed :
    (e : Error)
    → (reported e).retryable ≡ true
    → (error : TypedError) × (e ≡ typed error) × (reported e ≡ error)
reported-typed (typed error) h = (error, refl, refl)
reported-typed (value_error message) h = cc
reported-typed type_error h = cc
reported-typed overflow_error h = cc
reported-typed lookup_error h = cc
reported-typed unexpected h = cc

-- Where an operation has raised and the executor answers RETRY_SCHEDULED, it has raised a typed error
-- that is one to try again, the attempt's number is below the limit for the type of the step, and
-- the row of the step waits, for the delay of this attempt, which is at most the maximum, until a
-- time before the hard deadline of the run.
pub finalize-IsPutOff :
    (store : Store) (m : Moment) (c : ClaimedStep) (e : Error) (t : Tables)
    {out : Tables × ClaimedStep × ExecutionDisposition}
    → finalize store m c (err e) t ≡ ok out
    → out.2 ≡ ExecutionDisposition.retry_scheduled
    → (error : TypedError) × (e ≡ typed error) × IsPutOff store m c error t out.0
unfolding finalize
finalize-IsPutOff store m c e t {out = out} h again =
    let off = fail-IsPutOff store m c (reported e) t h again in
    let (error, is_typed, same) = reported-typed e off.retryable in
    (error, is_typed, subst (λ x. IsPutOff store m c x t out.0) same off)
