-- ===== src/Lib.antt =====
-- The core of sana-v3, a service that answers questions by searching the web: the state machines of
-- its workflow, the budgets that bound them, the evidence that an answer rests on, and the shadow
-- campaigns that replay questions against the system. Paths are from the root of the repository.
--
-- The program. A user submits a question to a conversation (sana/modules/conversation), under an
-- idempotency key. It becomes a search run (sana/modules/orchestration/domain.py, SearchRun), FAST
-- or RESEARCH, with the budget that a policy gives it (policy.py). A run is carried out in steps
-- (SearchStep), which workers claim (lease.py): a claim makes an attempt (StepAttempt) with a
-- lease, and a step whose lease has expired is taken back and tried again. The executor
-- (executor.py) claims a step through its store, calls the handler of its type and has the store
-- note the result, which may add steps, or the error; the reconciliation
-- (sana/app/reconciliation.py) makes steps READY again. What the steps find becomes verified
-- evidence (sana/modules/evidence), from which the coverage of each fact that the question needs
-- is assessed; a FAST run that leaves an urgent gap is upgraded to RESEARCH, a RESEARCH run may
-- expand its search, and both end with an outcome (research_workflow.py). From what a model
-- proposes to say, claims are synthesized, and a validator checks them against the evidence
-- (sana/modules/answer). A shadow campaign (sana/modules/shadow_campaign) schedules runs of its
-- own, whose cost it reserves before and settles after, in a ledger in the database
-- (sana/platform/db/shadow_campaign_repository.py).
--
-- The files. A module whose functions translate code has the name of what it translates. Its
-- children are parts of it, and the proofs, under the name of what they prove.
--   Base           tests, lists, integers, and Python's str (strip, comparison, digits) and dict
--   Shared         sana/modules/shared/errors.py; Time: datetime; Method: methods of an aggregate
--   Orchestration  domain.py: Status (the enumerations and transition tables, with
--                  transitions.py), Values (the frozen values), Run (SearchRun; Run.Loading is
--                  rehydrate), Step (SearchStep), Attempt (StepAttempt); Lease is lease.py and
--                  Policy is policy.py (ModePolicy, SearchPolicy, BudgetGuard)
--   Campaign       Status and Lifecycle are shadow_campaign/domain.py (CampaignLifecycle), Money
--                  and Budget are budget.py, Lease is RunLease of scheduler.py, Ledger is the
--                  ledger: Ledger.Reserve is reserve_run_budget, Ledger.Settle is
--                  settle_run_budget, Ledger.Release is release_run_budget, Ledger.Failure is
--                  mark_failure of sana/platform/db/shadow_runner.py, and Ledger.Steps says what
--                  happens to the tables
--   Evidence       Values is evidence/domain.py with the facts of search_planning/domain.py,
--                  Coverage is coverage.py
--   Execution      Values is the data of orchestration/executor.py and step_handlers/base.py,
--                  Tables the repositories of sana/platform/db/repositories.py, Store
--                  SqlStepExecutionStore of sana/app/sql_step_execution.py (Store.Claim is claim,
--                  Store.Finish is succeed, fail and renew), Recovery reconciler.py and make_ready
--                  of sana/app/reconciliation.py, Executor DurableStepExecutor; System is all of
--                  them at work, as a relation between the tables and the claims handed out, and
--                  Moves is the protocol that they follow
--   Conversations  Values is conversation/domain.py (with OutboxMessage of orchestration/outbox.py),
--                  Tables the repositories that a submission uses, and Submission is submit_message
--   Answers        Values is answer/domain.py, Synthesis answer/synthesizer.py, and Selection and
--                  Validation are answer/citation_validator.py, the gate before an answer is shown
--   Research       Upgrade is FastUpgradePolicy and Workflow is ResearchWorkflow, both of
--                  orchestration/research_workflow.py
-- The modules Samples and Examples hold sample data, tests, and each theorem at a concrete input.
--
-- How the code is read.
--   * A method of a mutable aggregate is a function of the state (Shared.Method) that gives back the
--     result or the error and the state, also beside an error. An object that a class method or a
--     `__post_init__` makes is a Result. A repository operation is a Result of the new tables: what
--     it raises, the transaction undoes.
--   * The tables of the execution are the rows of one tenant. A transaction locks the rows that it
--     writes, so that transactions are one after the other; several workers show as operations on
--     any claim that was handed out, in any order. The clock and the new identifiers of a
--     transaction are an argument (Moment), and the hook that says which steps follow a completed
--     one is an interface (StepCompletionHook).
--   * An exception is a value of Error: a ValueError with its message, a TypedError with its
--     category, code, message and details.
--   * A datetime is whether it is aware, and its instant in microseconds; the arithmetic on it
--     raises outside the years 1 to 9999. Durations are whole microseconds, confidences whole
--     millionths, and an amount of money is a number of units of 10^-10, which is the quantum that
--     the code rounds to. The sums of amounts are exact; the code adds with 28 digits.
--   * A count that the code may be given negative is an integer where the code checks it, and a
--     number otherwise; the counts of the budget of a campaign, which the code checks too, are numbers,
--     since they come from columns that the tables keep from being negative. A UUID is a number.
--     Python's integers have no bound, nor have these; the widths of the columns are left out.
--   * A text is a text of Unicode characters; `strip` removes the characters of `str.isspace`.
--   * A loop over a sequence is a recursion on it. Only the decimal digits of a number (Base.Decimal)
--     are computed on fuel, of which one more than the number is given; digits-fuel there says that
--     more changes nothing.
--   * The mappings that are only read (the evidence by its id, the coverage by fact) are functions,
--     and so is what a factory of identifiers gives at each of its calls.
--   * Where the code prints a UUID into a key or an address (lease.py, the submission of a
--     message), the printing is a parameter, and so is the hash of a text.
--
-- Not modelled: SQL, HTTP, the model providers and the search engines; the URL of a source, which
-- urllib parses; what hashlib computes; the events that aggregates are reported by; the rest of
-- the campaign services, the handlers of steps and what their completion adds, and the publishing
-- of events to Redis; the API, the clients and the older chat agent.
pub mod Base
pub mod Shared
pub mod Orchestration
pub mod Campaign
pub mod Evidence
pub mod Research
pub mod Execution
pub mod Answers
pub mod Conversations
