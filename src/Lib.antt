-- ===== src/Lib.antt =====
-- Vlytics collects volleyball results, freezes what was known before a match, predicts it, and
-- evaluates the prediction afterwards. Its parts are a backend in Python (backend), a web
-- interface (frontend), a desktop shell (desktop) and scripts (infra). The backend has four layers:
-- the mirror takes responses of the source apart into facts; the engine builds features and runs
-- predictors and paid providers; ops plans the work and carries it out; the api reads. They meet
-- in PostgreSQL: every piece of work is a row of a durable queue, leased by a worker for a time, and
-- every paid call is a row of a budget ledger.
--
-- Which file is about which part:
-- * Jobs.antt and Jobs/: `JobRepository` of backend/src/vlytics/ops/repositories/jobs.py. Row.antt
--   has the rows of ops.jobs and ops.job_attempts (backend/migrations/0001_storage.sql, 0012 to
--   0014) and the WHERE clauses; Enqueue.antt and Attempts.antt the INSERT statements with their
--   constraints; Jobs.antt one function for each method, under the method's name. Command.antt makes
--   the methods a data type and runs sequences of them. The other files are proofs: Updates, Rows and
--   ById say what a call does to one row, Tables, Log, Ended, History and Numbered what it keeps of both
--   tables, Lease, Renew, Settle, Quarantine, Verdict, Lifecycle and Idempotent what the methods
--   promise. Batch.antt is a loop of requests, which the planners share.
-- * Scheduler.antt and Scheduler/: backend/src/vlytics/ops/scheduler.py on that queue. Timing.antt is
--   `SchedulerTiming`, Dispatcher.antt `SchedulerDispatcher`, Pool.antt `PredictionJobDispatcher`,
--   Planner.antt `SchedulePlanner` and `DurableScheduler`, Lifecycle.antt `ScheduleEventRepository` and
--   `ScheduleLifecycleCoordinator`. Planned, Replayed, Reconciled, Stopped, Lawful, OnTime, Settled, Renewed
--   and Concluded are proofs.
-- * Predictions.antt and Predictions/: the events of predictions and the projection of their status,
--   of backend/src/vlytics/engine/repositories/predictions.py. Stored has `PredictionRepository`
--   and Constraints the constraints of the events; Slots, Lawful and Ended are proofs.
-- * Budget.antt and Budget/: `PostgresBudgetLedger` of
--   backend/src/vlytics/engine/providers/budget.py, with the amounts in Amount.antt. Charges, Within,
--   Course and Again are proofs.
-- * MatchResult.antt and MatchResult/: `_parse_result` of backend/src/vlytics/mirror/parser.py, with
--   the facts and rules of mirror/models.py and mirror/rules.py in Facts.antt and the reading of one
--   value in Reading.antt. SetScore and Play
--   describe the game independently of the parser: a set rally by rally, a match set by set. Loop,
--   Complete, Legal and Outcome are proofs.
-- * Sync.antt and Sync/: `CurrentSeasonSyncPlanner`, `reconcile_coverage` and `SyncJobDispatcher` of
--   backend/src/vlytics/ops/sync.py. Scope.antt has the scope of a job and its payload, Planner.antt the
--   planner, Ticker.antt its `enqueue` and `DatabaseCurrentSeasonSyncTicker`, Coverage.antt the report,
--   Dispatcher.antt the dispatcher and Handler.antt `BackfillSyncHandler`, which calls the runner of
--   the backfill. Planned has a rule for what all planned jobs have in common; Read, Ticked, Settled
--   and Counted are proofs.
-- * Backfill.antt and Backfill/: backend/src/vlytics/mirror/backfill.py. Backfill.antt has
--   `InMemoryCheckpointStore` and `CollectionGate`, Lease.antt `InMemoryScopeLease`, Runner.antt the
--   state of `BackfillRunner` and `RetryPolicy`, Fetch.antt `RequestRateLimiter` and
--   `_fetch_with_retry`, Pages.antt `sync_once`, Runs.antt `run` and `_run_leased`. Kept, Attempts and
--   Whole are the proof rule of the runner's methods: what every call keeps, a method keeps. The other
--   files are proofs.
-- * Provider.antt and Provider/: `PredictionProvider.predict` of
--   backend/src/vlytics/engine/providers/base.py with the variants, results and the process-local
--   budget of engine/providers/models.py. Call.antt has what a call takes and gives, Predict.antt one
--   function for each stage. The promises of a budget are the record `IsAccount`, which the proofs
--   take and which the process-local budget fills in Ledger.antt. Settles, Billed and Charged are
--   proofs.
-- * Features.antt and Features/: `AsOfFeatureBuilder` of backend/src/vlytics/engine/features/as_of_v2.py,
--   with the facts and values of features/models.py in Features.antt and the definitions of
--   features/definitions.py in Definitions.antt. Selection.antt selects the facts that may be read,
--   Values.antt, Team.antt and Player.antt compute, Builder.antt has `build`. The arithmetic of floats is
--   the record `Float`, which the functions take, and a read that raises KeyError is an error of its
--   own. Known, Past and Recent are proofs on the selection, Sound, Lines, Metrics, Rows, Rates, Answers and
--   Answered on the values.
-- * Prelude.antt and Prelude/: tests on native numbers, lists, tables of rows, texts.
-- Each part has a module Tests with runs of it.
--
-- How the code is rendered. A method of the database is a function from tables to a result and
-- tables; one that raises has no tables, as its transaction leaves them alone. `PredictionJobDispatcher`
-- commits call by call, so its functions return the tables also with an error. Ids and the time are
-- arguments where the database or a clock supplies them. The rows that other transactions have locked
-- are a predicate that `lease_next` and `expire_due` take. A UUID is a number and a text a list of code
-- points. Points of time and durations are natural numbers of microseconds, amounts of money natural
-- numbers of the quantum 10^-8. A subtraction that Python would refuse is written out as its error.
-- JSON payloads are texts in the queue, which does not read them: the functions that print and read
-- them are parameters. Job handlers, the float product in the
-- back-off and what other threads do while a handler runs are parameters.
--
-- The runner of the backfill and the provider's call work on a state in which the outside is a type of
-- its own: the source, the sink, the clocks and the transport are functions on it, and an exception
-- has the state in which it was raised. Delays of the runner that the code computes in floating point
-- are whole microseconds, with the multiplier of the back-off as a fraction; costs of a call are
-- millionths of the unit of its prices, so that nothing is divided.
--
-- All functions are by structural recursion on lists or on a number that the code counts (the sets of
-- a rule, the slots of a pool, the attempts of a policy), but for two loops over pages that the code
-- leaves open: `sync_once`, and `run` without `max_pages`. They run on a number of rounds and raise
-- `unfinished` when it is used up; for `sync_once` one round more than the source has cursors is enough,
-- and with `max_pages` the rounds of `run` are those pages. `decimal` runs on one more than its number,
-- which is more steps than the number has digits.
--
-- What is not modelled: foreign keys and time zones of the tables; times that
-- a datetime cannot hold; an error of
-- `PredictionEventRepository.add` for the constraints of its table, which Predictions/Constraints.antt has;
-- rounding and overflow of floats; the predictors, metrics and
-- market quotes, which compute in floating point; HTTP, the file system, processes and SQL that only reads;
-- the parts of the modules above that the components list names. The frontend, the desktop shell and
-- the infrastructure are not part of the backend's logic.
pub mod Backfill
pub mod Budget
pub mod Features
pub mod Jobs
pub mod MatchResult
pub mod Predictions
pub mod Prelude
pub mod Provider
pub mod Scheduler
pub mod Sync
