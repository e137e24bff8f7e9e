-- ===== src/Jobs.antt =====
-- `JobRepository` of backend/src/vlytics/ops/repositories/jobs.py: one function for each method, on
-- the tables of the database. A method runs in one transaction, so an exception leaves the tables as
-- they were: it returns the error and no state. The statements of a method take effect together.
mod Row
mod Results
mod Enqueue
mod Attempts
pub mod Command
pub mod Updates
pub mod Rows
pub mod Tables
pub mod Lifecycle
pub mod Lease
pub mod Log
pub mod ById
pub mod Settle
pub mod Quarantine
pub mod Verdict
pub mod Renew
pub mod Idempotent
pub mod Batch
pub mod Ended
pub mod History
pub mod Numbered
mod Tests
pub use Row.*
pub use Results.*
unfoldable pub use Enqueue.*
unfoldable pub use Attempts.*
use vlytics.Prelude.{
  ℕ, ◌+◌, Bool, true, false, not, ◌&&◌, ◌||◌, Option, none, some, List, [], ◌∷◌, ltb, leb, ◌==◌,
  holds, at_most, is_some, if◌then◌else◌, first, select, update, count,
}

-- ORDER BY due_at, created_at
abbrev pub before : Job → Job → Bool
before j k = ltb j.due_at k.due_at || (j.due_at == k.due_at && leb j.created_at k.created_at)

unfoldable pub earliest : List Job → Option Job
earliest [] = none
earliest (j ∷ js) = elim (earliest js) [
  | none ↦ some j
  | some k ↦ some (if before j k then j else k)
]

unfoldable pub leased : ℕ → ℕ → ℕ → Job → Job
leased owner now duration j = record j {
  state = State.running;
  lease_owner = some owner;
  lease_started_at = some now;
  lease_until = some (now + duration);
  attempt_no = j.attempt_no + 1;
  error_code = none;
  updated_at = now;
}

-- `locked` marks the rows that another transaction holds (FOR UPDATE SKIP LOCKED).
abbrev pub candidates : (Job → Bool) → (ℕ → Bool) → List Job → List Job
candidates p locked = select (λ j. p j && not (locked j.id))

unfoldable pub lease_next : (ℕ → Bool) → ℕ → ℕ → ℕ → Db → Result (Option Job × Db)
unfolding leased abandon earliest
lease_next locked owner now duration db =
    elim (earliest (candidates (is_ready now) locked db.jobs)) [
      | none ↦ ok (none, db)
      | some c ↦ do
        log ← abandon lease_expired Details.recovered now c db.attempts
        ok (
          some (leased owner now duration c),
          record {
            jobs = update (has_id c.id) (leased owner now duration) db.jobs;
            attempts = log;
          },
        )
    ]

-- The columns that every statement which ends a lease clears.
abbrev pub released : State → Option ErrorCode → ℕ → Job → Job
released state code now j = record j {
  state = state;
  lease_owner = none;
  lease_started_at = none;
  lease_until = none;
  error_code = code;
  updated_at = now;
}

unfoldable pub finished : Bool → Option ErrorCode → ℕ → Job → Job
finished success code now j =
    if at_most j.deadline_at now
    then released State.expired (some deadline_expired) now j
    else released (if success then State.succeeded else State.failed) code now j

unfoldable pub finish : ℕ → ℕ → Bool → Option ErrorCode → ℕ → Db → Result (Bool × Db)
unfolding active_attempt finished record_attempt
finish i owner success code now db = do
  attempt ← active_attempt i owner db
  let target = λ (j : Job). has_id i j && live owner now j
  let changed = count target db.jobs
  log ←
      settle_attempt i owner changed (if success then Outcome.succeeded else Outcome.failed) code
        now attempt db.attempts
  ok (
    changed == 1,
    record { jobs = update target (finished success code now) db.jobs; attempts = log },
  )

abbrev pub renewed : ℕ → ℕ → Job → Job
renewed now duration j = record j { lease_until = some (now + duration); updated_at = now }

-- `lease_duration` is not negative, as the type has it; the method refuses 0.
unfoldable pub renew_lease : ℕ → ℕ → ℕ → ℕ → Db → Result (Bool × Db)
renew_lease i owner now duration db =
    if duration == 0
    then err value_error
    else (let target = λ (j : Job). has_id i j && (live owner now j && in_time now j) in
        ok (
          count target db.jobs == 1,
          record db { jobs = update target (renewed now duration) db.jobs },
        ))

unfoldable pub retried : ℕ → ErrorCode → ℕ → Job → Job
retried retry_at code now j =
    if at_most j.deadline_at retry_at
    then released State.expired (some deadline_expired) now j
    else record (released State.retry_wait (some code) now j) { due_at = retry_at }

abbrev pub retry_outcome : ErrorCode → Outcome
retry_outcome timeout = Outcome.timed_out
retry_outcome _ = Outcome.failed

unfoldable pub schedule_retry : ℕ → ℕ → ℕ → ErrorCode → ℕ → Db → Result (Bool × Db)
unfolding active_attempt retried record_attempt
schedule_retry i owner retry_at code now db = do
  attempt ← active_attempt i owner db
  let target = λ (j : Job). has_id i j && live owner now j
  let changed = count target db.jobs
  log ← settle_attempt i owner changed (retry_outcome code) (some code) now attempt db.attempts
  ok (
    changed == 1,
    record { jobs = update target (retried retry_at code now) db.jobs; attempts = log },
  )

unfoldable pub expire_due : (ℕ → Bool) → ℕ → Db → Result (ℕ × Db)
unfolding abandon_all
expire_due locked now db = do
  let target = λ (j : Job). is_overdue now j && not (locked j.id)
  log ←
      abandon_all deadline_expired Details.expired now (candidates (is_overdue now) locked db.jobs)
        db.attempts
  ok (
    count target db.jobs,
    record {
      jobs = update target (released State.expired (some deadline_expired) now) db.jobs;
      attempts = log;
    },
  )

abbrev pub may_quarantine : ℕ → ℕ → Job → Bool
may_quarantine owner now j = is_waiting j.state || live owner now j

unfoldable pub quarantine : ℕ → ℕ → ErrorCode → ℕ → Db → Result (Bool × Db)
unfolding active_attempt record_attempt
quarantine i owner code now db = do
  attempt ← active_attempt i owner db
  let target = λ (j : Job). has_id i j && may_quarantine owner now j
  let changed = count target db.jobs
  log ← settle_attempt i owner changed Outcome.failed (some code) now attempt db.attempts
  ok (
    changed == 1,
    record {
      jobs = update target (released State.quarantined (some code) now) db.jobs;
      attempts = log;
    },
  )

abbrev pub cancel : (Job → Bool) → ErrorCode → ℕ → Db → ℕ × Db
cancel target code now db = (
  count target db.jobs,
  record db { jobs = update target (released State.cancelled (some code) now) db.jobs },
)

unfoldable pub cancel_schedule_revision : ℕ → ℕ → ErrorCode → Db → ℕ × Db
cancel_schedule_revision revision now code db =
    cancel (λ j. holds j.schedule_revision_id revision && is_unfinished j.state) code now db

-- `schedule_revision_id <> :except`, where a null on either side does not pass
abbrev pub differs : Option ℕ → ℕ → Bool
differs none v = false
differs (some x) v = not (x == v)

abbrev pub is_affected : ℕ → Option ℕ → Job → Bool
is_affected match_id except j =
    holds j.match_id match_id
    && (is_unfinished j.state
        && elim except [ none ↦ true | some r ↦ differs j.schedule_revision_id r ])

unfoldable pub cancel_match_jobs : ℕ → ℕ → ErrorCode → Option ℕ → Db → ℕ × Db
cancel_match_jobs match_id now code except db = cancel (is_affected match_id except) code now db

unfoldable pub owns_active_lease : ℕ → ℕ → ℕ → Db → Bool
owns_active_lease i owner now db = is_some (first (λ j. has_id i j && live owner now j) db.jobs)
