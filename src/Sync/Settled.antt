-- ===== src/Sync/Settled.antt =====
-- What becomes of a job that the dispatcher of the synchronisation has leased.
use vlytics.Sync.Dispatcher.{SyncDispatcher, SyncHandler, settle_sync, sync_once}
use vlytics.Jobs
use vlytics.Jobs.{Job, Db, ErrorCode, ok, find, live, finished, retried, leased, is_attempt}
use vlytics.Jobs.Command.{lease_next, run}
use vlytics.Jobs.Lease.{leased_lem, lease_next_row}
use vlytics.Jobs.Numbered.{IsRecorded, run-IsRecorded, running_unrecorded}
use vlytics.Jobs.Settle.{finish_row, schedule_retry_row}
use vlytics.Prelude.{
  ℕ, Bool, true, false, ◌≡◌, ◌<◌, ◌+◌, Option, none, some, ltb, if◌then◌else◌, arith, Bool-cases,
  inl, inr, refl, first,
}

-- The row after its handler has returned, or raised.
abbrev pub outcome_of : SyncDispatcher → ℕ → Option ErrorCode → Job → Job
outcome_of d now none j = finished true none now j
outcome_of d now (some code) j =
    if ltb j.attempt_no d.max_attempts
    then retried (now + d.retry_delay) code now j
    else finished false (some code) now j

module _ (d : SyncDispatcher) (j : Job) (now : ℕ) (db : Db) (recorded : IsRecorded db)
    (found : find j.id db.jobs ≡ some j) (held : live d.lease_owner now j ≡ true)
    (start : j.lease_started_at ≡ some now) where
  unrecorded : first (is_attempt j.id j.attempt_no) db.attempts ≡ none
  unrecorded = running_unrecorded j.id j db recorded found (ground arith)

  settle_sync_lem :
      (raised : Option ErrorCode)
      → (db' : Db) × (settle_sync d j now raised db ≡ ok (1, db'))
        × (find j.id db'.jobs ≡ some (outcome_of d now raised j))
  unfolding settle_sync
  settle_sync_lem none =
      let (db', e, row, log) =
        finish_row j.id d.lease_owner now db recorded.0 found held start (omega arith) unrecorded
          true none in
      (db', rw e refl, row)
  settle_sync_lem (some code) = elim (Bool-cases (ltb j.attempt_no d.max_attempts)) [
    | inl more ↦
        let (db', e, row, log) =
          schedule_retry_row j.id d.lease_owner now db recorded.0 found held start (omega arith)
            unrecorded (now + d.retry_delay) code in
        (db', rw (more, e) refl, rw more row)
    | inr last ↦
        let (db', e, row, log) =
          finish_row j.id d.lease_owner now db recorded.0 found held start (omega arith) unrecorded
            false (some code) in
        (db', rw (last, e) refl, rw last row)
  ]

-- In recorded tables, if a job is leased for a positive duration and its handler leaves the queue
-- alone, `sync_once` counts one job: it has succeeded if the handler has returned; otherwise it
-- waits for a retry as long as it has attempts left, and has failed then (or has expired, at its
-- deadline).
pub sync_once_settles :
    (d : SyncDispatcher) (locked : ℕ → Bool) (now : ℕ) (db db₁ : Db) (j : Job)
    (handle : SyncHandler) (raised : Option ErrorCode)
    → 0 < d.lease_duration
    → IsRecorded db
    → Jobs.lease_next locked d.lease_owner now d.lease_duration db ≡ ok (some j, db₁)
    → d.handlers j.job_type ≡ some handle
    → handle j now db₁ ≡ (raised, db₁)
    → (db' : Db) × (sync_once d locked now db ≡ ok (1, db'))
      × (find j.id db'.jobs ≡ some (outcome_of d now raised j))
unfolding sync_once run
sync_once_settles d locked now db db₁ j handle raised long recorded granted known answer =
    let recorded₁ =
      run-IsRecorded (lease_next locked d.lease_owner now d.lease_duration) db db₁ recorded
        (rw granted refl) in
    let (c, at, ready, least, as_leased, row) =
      lease_next_row locked d.lease_owner now d.lease_duration db db₁ recorded.0 granted in
    let (same, alive, began, numbered) =
      leased_lem d.lease_owner now d.lease_duration now c j as_leased (omega arith) in
    let (db', e, row') =
      settle_sync_lem d j now db₁ recorded₁ (rw same at row) alive began raised in
    (db', rw (granted, known, answer) e, row')
