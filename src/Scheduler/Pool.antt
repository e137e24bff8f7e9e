-- ===== src/Scheduler/Pool.antt =====
-- `PredictionJobDispatcher` of backend/src/vlytics/ops/scheduler.py: jobs that one worker leases
-- together and executes in threads, each with a thread that renews its lease. Every call of the queue
-- is a transaction of its own, so an error leaves the tables as the calls before it made them.
use vlytics.Scheduler.Timing.{SchedulerTiming, retry_delay}
use vlytics.Scheduler.Dispatcher.{
  Handled, Handler, finalized, answered, retryable, terminal, raised,
}
use vlytics.Jobs
use vlytics.Jobs.{
  Job, JobType, Db, ErrorCode, unknown_job_type, Result, ok, err, runtime_error, handler_error,
  ◌>>=◌,
}
use vlytics.Prelude.{
  ℕ, Bool, true, false, Option, none, some, List, [], ◌∷◌, zero, suc, ◌+◌, ltb, at_most,
  if◌then◌else◌,
}

pub record Pool : Type 0 where
  pub handlers : JobType → Option Handler
  pub lease_owner : ℕ
  pub timing : SchedulerTiming
  pub lease_duration : ℕ
  pub max_concurrency : ℕ

-- A call in a transaction: the tables change only if it returns.
abbrev pub commit {ℓ} : {A : Type ℓ} → Result (A × Db) → Db → Result A × Db
commit (ok (a, db')) db = (ok a, db')
commit (err e) db = (err e, db)

-- What the thread that renews a lease has found when the handler is done.
pub data Renewal : Type 0 where
  kept lost : Renewal
  failed : Jobs.DbError → Renewal

-- _renew_lease: `ticks` are the times at which the wait for the handler runs out.
unfoldable pub renew_loop : Pool → ℕ → Option ℕ → List ℕ → Db → Renewal × Db
renew_loop p i deadline [] db = (kept, db)
renew_loop p i deadline (t ∷ ticks) db =
    if at_most deadline t
    then (kept, db)
    else elim (Jobs.renew_lease i p.lease_owner t p.lease_duration db) [
      | err e ↦ (failed e, db)
      | ok (changed, db') ↦ if changed then renew_loop p i deadline ticks db' else (lost, db')
    ]

-- `if not changed: raise RuntimeError`, after the transaction.
abbrev pub insist : Result Bool × Db → Result Bool × Db
insist (ok true, db) = (ok true, db)
insist (ok false, db) = (err runtime_error, db)
insist (err e, db) = (err e, db)

unfoldable pub retry_or_fail : Pool → Job → ℕ → ErrorCode → Db → Result (Bool × Db)
unfolding retry_delay
retry_or_fail p job clock code db =
    if ltb job.attempt_no p.timing.max_attempts
    then (do
      delay ← retry_delay p.timing job.attempt_no
      Jobs.schedule_retry job.id p.lease_owner (clock + delay) code clock db)
    else Jobs.finish job.id p.lease_owner false (some code) clock db

-- What follows the handler. The findings of the renewal count only if the handler has answered.
unfoldable pub conclude : Pool → Job → ℕ → Handled → Renewal → Db → Result Bool × Db
unfolding retry_or_fail
conclude p job clock (retryable code) renewal db =
    insist (commit (retry_or_fail p job clock code db) db)
conclude p job clock (terminal code) renewal db =
    insist (commit (Jobs.quarantine job.id p.lease_owner code clock db) db)
conclude p job clock (raised e) renewal db = (err (handler_error e), db)
conclude p job clock finalized kept db = (ok true, db)
conclude p job clock finalized lost db = (err runtime_error, db)
conclude p job clock finalized (failed e) db = (err runtime_error, db)
conclude p job clock answered kept db =
    insist (commit (Jobs.finish job.id p.lease_owner true none clock db) db)
conclude p job clock answered lost db = (err runtime_error, db)
conclude p job clock answered (failed e) db = (err runtime_error, db)

-- _execute. The handler and the renewals work on the tables at the same time: `meanwhile` is what the
-- renewals and other workers have done to them when the handler is done.
unfoldable pub execute : Pool → (Db → Renewal × Db) → Job → ℕ → ℕ → Db → Result Bool × Db
unfolding conclude
execute p meanwhile job leased_at clock db = elim (p.handlers job.job_type) [
  | none ↦ commit (Jobs.quarantine job.id p.lease_owner unknown_job_type clock db) db
  | some handle ↦
      (let (handled, db₁) = handle job leased_at db in
        let (renewal, db₂) = meanwhile db₁ in conclude p job clock handled renewal db₂)
]

-- The leases that `run_once` takes: up to `slots` of them, each in its transaction.
unfoldable pub lease_jobs : Pool → (ℕ → Bool) → ℕ → ℕ → Db → Result (List Job) × Db
lease_jobs p locked now zero db = (ok [], db)
lease_jobs p locked now (suc slots) db =
    elim (Jobs.lease_next locked p.lease_owner now p.lease_duration db) [
      | err e ↦ (err e, db)
      | ok (none, db') ↦ (ok [], db')
      | ok (some job, db') ↦
          (let (rest, db″) = lease_jobs p locked now slots db' in (add job rest, db″))
    ]
  where
    add : Job → Result (List Job) → Result (List Job)
    add job (ok jobs) = ok (job ∷ jobs)
    add job (err e) = err e
