-- ===== src/Scheduler/Dispatcher.antt =====
-- `SchedulerDispatcher` of backend/src/vlytics/ops/scheduler.py.
use vlytics.Scheduler.Timing.{SchedulerTiming, retry_delay}
use vlytics.Jobs
use vlytics.Jobs.{
  Job, JobType, Db, ErrorCode, unknown_job_type, Result, ok, err, runtime_error, handler_error,
  ◌>>=◌,
}
use vlytics.Prelude.{ℕ, Bool, true, false, Option, none, some, ◌+◌, ltb, if◌then◌else◌}

-- How a handler ends: by an answer that is True, by another answer, or by an exception.
pub data Handled : Type 0 where
  finalized answered : Handled
  retryable terminal : ErrorCode → Handled
  raised : ℕ → Handled

-- A handler works on the tables; what it does there is its own.
abbrev pub Handler : Type 0
Handler = Job → ℕ → Db → Handled × Db

pub record Dispatcher : Type 0 where
  pub handlers : JobType → Option Handler
  pub lease_owner : ℕ
  pub timing : SchedulerTiming
  pub lease_duration : ℕ

-- What follows the handler, at the time `clock` that self._now() tells.
unfoldable pub settle : Dispatcher → Job → ℕ → Handled → Db → Result (ℕ × Db)
unfolding retry_delay
settle d job clock finalized db = ok (1, db)
settle d job clock answered db = do
  (changed, db') ← Jobs.finish job.id d.lease_owner true none clock db
  if changed then ok (1, db') else err runtime_error
settle d job clock (retryable code) db =
    if ltb job.attempt_no d.timing.max_attempts
    then (do
      delay ← retry_delay d.timing job.attempt_no
      (changed, db') ← Jobs.schedule_retry job.id d.lease_owner (clock + delay) code clock db
      ok (1, db'))
    else (do
      (changed, db') ← Jobs.finish job.id d.lease_owner false (some code) clock db
      ok (1, db'))
settle d job clock (terminal code) db = do
  (changed, db') ← Jobs.quarantine job.id d.lease_owner code clock db
  ok (1, db')
settle d job clock (raised e) db = err (handler_error e)

unfoldable pub dispatch : Dispatcher → Job → ℕ → ℕ → Db → Result (ℕ × Db)
unfolding settle
dispatch d job now clock db = elim (d.handlers job.job_type) [
  | none ↦ do
    (changed, db') ← Jobs.quarantine job.id d.lease_owner unknown_job_type clock db
    ok (1, db')
  | some handle ↦ (let (handled, db') = handle job now db in settle d job clock handled db')
]

-- `locked` marks the rows that other transactions hold.
unfoldable pub run_once : Dispatcher → (ℕ → Bool) → ℕ → ℕ → Db → Result (ℕ × Db)
unfolding dispatch
run_once d locked now clock db = do
  (expired, db₁) ← Jobs.expire_due locked now db
  (found, db₂) ← Jobs.lease_next locked d.lease_owner now d.lease_duration db₁
  elim found [ none ↦ ok (0, db₂) | some job ↦ dispatch d job now clock db₂ ]
