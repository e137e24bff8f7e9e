-- ===== src/Jobs/Row.antt =====
-- The rows of ops.jobs and ops.job_attempts that backend/src/vlytics/ops/repositories/jobs.py reads
-- and writes, and the conditions of its WHERE clauses.
use vlytics.Prelude.{
  ℕ, Bool, true, false, ◌&&◌, ◌||◌, Option, none, some, List, Text, holds, at_most, beyond, leb,
}

pub data State : Type 0 where
  queued running retry_wait succeeded failed cancelled expired quarantined : State

pub data JobType : Type 0 where
  current_schedule final_result correction_recheck freeze_snapshot run_prediction : JobType
  other_type : ℕ → JobType

-- `text code` is a code that a caller supplies.
pub data ErrorCode : Type 0 where
  lease_expired deadline_expired unknown_job_type timeout match_actual_start : ErrorCode
  text : ℕ → ErrorCode

pub data Outcome : Type 0 where
  succeeded failed timed_out abandoned : Outcome

pub data Details : Type 0 where
  plain recovered expired : Details

pub record Job : Type 0 where
  pub id : ℕ
  pub job_key : Text
  pub job_type : JobType
  pub payload : Text
  pub due_at : ℕ
  pub deadline_at : Option ℕ
  pub match_id : Option ℕ
  pub schedule_revision_id : Option ℕ
  pub stage : Option Text
  pub variant_id : Option ℕ
  pub state : State
  pub lease_owner : Option ℕ
  pub lease_started_at : Option ℕ
  pub lease_until : Option ℕ
  pub attempt_no : ℕ
  pub error_code : Option ErrorCode
  pub created_at : ℕ
  pub updated_at : ℕ

-- The arguments of `JobRepository.enqueue`.
pub record Request : Type 0 where
  pub job_key : Text
  pub job_type : JobType
  pub payload : Text
  pub due_at : ℕ
  pub deadline_at : Option ℕ
  pub match_id : Option ℕ
  pub schedule_revision_id : Option ℕ
  pub stage : Option Text
  pub variant_id : Option ℕ

-- The row that the INSERT writes: the id and the time are the database's, and so are the defaults of
-- the other columns.
abbrev pub new_row : ℕ → ℕ → Request → Job
new_row id stamp q = record {
  id = id;
  job_key = q.job_key;
  job_type = q.job_type;
  payload = q.payload;
  due_at = q.due_at;
  deadline_at = q.deadline_at;
  match_id = q.match_id;
  schedule_revision_id = q.schedule_revision_id;
  stage = q.stage;
  variant_id = q.variant_id;
  state = State.queued;
  lease_owner = none;
  lease_started_at = none;
  lease_until = none;
  attempt_no = 0;
  error_code = none;
  created_at = stamp;
  updated_at = stamp;
}

pub record Attempt : Type 0 where
  pub job_id : ℕ
  pub attempt_no : ℕ
  pub lease_owner : ℕ
  pub started_at : ℕ
  pub completed_at : ℕ
  pub outcome : Outcome
  pub error_code : Option ErrorCode
  pub details : Details

pub record Db : Type 0 where
  pub jobs : List Job
  pub attempts : List Attempt

abbrev pub is_running : State → Bool
is_running State.running = true
is_running _ = false

-- state IN ('queued', 'retry_wait')
abbrev pub is_waiting : State → Bool
is_waiting State.queued = true
is_waiting State.retry_wait = true
is_waiting _ = false

-- state IN ('queued', 'running', 'retry_wait')
abbrev pub is_unfinished : State → Bool
is_unfinished State.queued = true
is_unfinished State.running = true
is_unfinished State.retry_wait = true
is_unfinished _ = false

-- state = 'running' AND lease_owner = :lease_owner
abbrev pub owned : ℕ → Job → Bool
owned owner j = is_running j.state && holds j.lease_owner owner

-- state = 'running' AND lease_owner = :lease_owner AND lease_until > :now
abbrev pub live : ℕ → ℕ → Job → Bool
live owner now j = owned owner j && beyond j.lease_until now

-- deadline_at IS NULL OR deadline_at > :now
abbrev pub in_time : ℕ → Job → Bool
in_time now j = elim j.deadline_at [ none ↦ true | some d ↦ beyond (some d) now ]

-- state IN ('queued', 'retry_wait') OR (state = 'running' AND lease_until <= :now)
abbrev pub is_free : ℕ → Job → Bool
is_free now j = is_waiting j.state || (is_running j.state && at_most j.lease_until now)

-- the WHERE clause by which `lease_next` finds its candidates
abbrev pub is_ready : ℕ → Job → Bool
is_ready now j = leb j.due_at now && (in_time now j && is_free now j)

-- the WHERE clause of `expire_due`
abbrev pub is_overdue : ℕ → Job → Bool
is_overdue now j = at_most j.deadline_at now && is_free now j
