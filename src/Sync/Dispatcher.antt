-- ===== src/Sync/Dispatcher.antt =====
-- `SyncJobDispatcher` of backend/src/vlytics/ops/sync.py on the queue.
use vlytics.Jobs
use vlytics.Jobs.{Job, JobType, Db, ErrorCode, unknown_job_type, Result, ok, ◌>>=◌}
use vlytics.Prelude.{ℕ, Bool, true, false, Option, none, some, ◌+◌, ltb, if◌then◌else◌}

-- A handler returns (none) or raises an exception of a class (some code); what it does to the tables
-- is its own.
abbrev pub SyncHandler : Type 0
SyncHandler = Job → ℕ → Db → Option ErrorCode × Db

pub record SyncDispatcher : Type 0 where
  pub handlers : JobType → Option SyncHandler
  pub lease_owner : ℕ
  pub lease_duration : ℕ
  pub retry_delay : ℕ
  pub max_attempts : ℕ

-- What follows the handler. The time is that of the lease.
unfoldable pub settle_sync : SyncDispatcher → Job → ℕ → Option ErrorCode → Db → Result (ℕ × Db)
settle_sync d job now none db = do
  (changed, db') ← Jobs.finish job.id d.lease_owner true none now db
  ok (1, db')
settle_sync d job now (some code) db =
    if ltb job.attempt_no d.max_attempts
    then (do
      (changed, db') ← Jobs.schedule_retry job.id d.lease_owner (now + d.retry_delay) code now db
      ok (1, db'))
    else (do
      (changed, db') ← Jobs.finish job.id d.lease_owner false (some code) now db
      ok (1, db'))

unfoldable pub sync_once : SyncDispatcher → (ℕ → Bool) → ℕ → Db → Result (ℕ × Db)
unfolding settle_sync
sync_once d locked now db = do
  (found, db₁) ← Jobs.lease_next locked d.lease_owner now d.lease_duration db
  elim found [
    | none ↦ ok (0, db₁)
    | some job ↦ elim (d.handlers job.job_type) [
      | none ↦ (do
        (changed, db') ← Jobs.quarantine job.id d.lease_owner unknown_job_type now db₁
        ok (1, db'))
      | some handle ↦ (let (raised, db₂) = handle job now db₁ in settle_sync d job now raised db₂)
    ]
  ]
