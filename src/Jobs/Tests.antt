-- ===== src/Jobs/Tests.antt =====
-- Runs of the queue, and the theorems about it at concrete tables.
use vlytics.Jobs.Lease.{Precedes}
use vlytics.Jobs.Verdict.{
  IsAhead, IsFree, IsLeftBy, IsTried, lease_next_grants, finish_live, schedule_retry_live,
}
use vlytics.Jobs.Numbered.{IsRecorded, replay-IsRecorded}
use vlytics.Jobs.Lifecycle.{run_keeps_final, run_respects_lease, allowed, run_transition}
use vlytics.Jobs.Settle.{attempt_of, stale_lease_is_refused}
use vlytics.Prelude.{
  ◌≤◌, ◌+◌, ℕ, ◌≡◌, refl, true, false, none, some, Bool, ◌++◌, List, [], ◌∷◌, codes, arith, first,
  text_eq, ◌&&◌, select, not, update, count, All,
}
use vlytics.Jobs
use vlytics.Jobs.{
  Job, Db, Request, current_schedule, ok, find, text, leased, first, select, Attempt, update, not,
  count,
}
use vlytics.Jobs.Command.{after, Command, lease_next, finish, run, replay}
use vlytics.Jobs.Tables.{IsSound}

abbrev request : ℕ → Request
request n = record {
  job_key = codes "schedule:" ++ (n ∷ []);
  job_type = current_schedule;
  payload = codes "{}";
  due_at = 10;
  deadline_at = some 500;
  match_id = none;
  schedule_revision_id = none;
  stage = none;
  variant_id = none;
}

abbrev empty : Db
empty = record { jobs = []; attempts = [] }

abbrev nothing_locked : ℕ → Bool
nothing_locked i = false

abbrev idle_row : Job
idle_row = Jobs.new_row 2 5 (request 2)

-- Job 1 is leased to worker 7 until 140.
abbrev busy_row : Job
busy_row = record (Jobs.new_row 1 4 (request 1)) {
  state = Jobs.State.running;
  lease_owner = some 7;
  lease_started_at = some 20;
  lease_until = some 140;
  attempt_no = 1;
  updated_at = 20;
}

abbrev tables : Db
tables = record { jobs = busy_row ∷ idle_row ∷ []; attempts = [] }

script : List Command
script =
    Command.enqueue 1 4 (request 1)
    ∷ Command.enqueue 2 5 (request 2)
    ∷ Command.enqueue 3 6 (request 1)
    ∷ lease_next nothing_locked 7 20 120
    ∷ lease_next nothing_locked 8 20 120
    ∷ finish 1 8 true none 30
    ∷ finish 1 7 true none 30
    ∷ lease_next nothing_locked 9 200 120
    ∷ []

states : List Job → List Jobs.State
states [] = []
states (j ∷ js) = j.state ∷ states js

states-script : states (replay script empty).jobs ≡ Jobs.State.succeeded ∷ Jobs.State.running ∷ []
unfolding script states replay after run Jobs.enqueue Jobs.lease_next Jobs.finish first select
    update count text_eq
states-script = refl

tables-IsSound : IsSound tables
unfolding first text_eq
tables-IsSound = ground arith

abbrev lease_8 : Command
lease_8 = lease_next nothing_locked 8 20 120

-- The tables after worker 8 has leased job 2.
abbrev leased_tables : Db
leased_tables = record tables { jobs = busy_row ∷ leased 8 20 120 idle_row ∷ [] }

run-lease_8 : run lease_8 tables ≡ ok leased_tables
unfolding run Jobs.lease_next first select update leased
run-lease_8 = refl

find-busy : find 1 tables.jobs ≡ some busy_row
unfolding find first
find-busy = refl

find-idle : find 2 tables.jobs ≡ some idle_row
unfolding find first
find-idle = refl

run_transition_example :
    (r : Job) × (find 2 leased_tables.jobs ≡ some r) × (allowed Jobs.State.queued r.state ≡ true)
run_transition_example =
    run_transition lease_8 2 idle_row tables leased_tables tables-IsSound find-idle run-lease_8

run_respects_lease_example : find 1 leased_tables.jobs ≡ some busy_row
run_respects_lease_example =
    run_respects_lease lease_8 1 7 busy_row tables leased_tables tables-IsSound find-busy refl
      (λ e. ground arith) refl run-lease_8

-- A job that has succeeded.
abbrev done_row : Job
done_row = record idle_row { state = Jobs.State.succeeded; attempt_no = 1 }

abbrev done_tables : Db
done_tables = record tables { jobs = busy_row ∷ done_row ∷ [] }

done_tables-IsSound : IsSound done_tables
unfolding first text_eq
done_tables-IsSound = ground arith

abbrev quarantine_2 : Command
quarantine_2 = Command.quarantine 2 8 Jobs.unknown_job_type 30

run-quarantine_2 : run quarantine_2 done_tables ≡ ok done_tables
unfolding run Jobs.quarantine first select update count
run-quarantine_2 = refl

find-done : find 2 done_tables.jobs ≡ some done_row
unfolding find first
find-done = refl

run_keeps_final_example : find 2 done_tables.jobs ≡ some done_row
run_keeps_final_example =
    run_keeps_final quarantine_2 2 done_row done_tables done_tables done_tables-IsSound find-done
      refl run-quarantine_2

granted :
    Jobs.lease_next nothing_locked 8 20 120 tables
    ≡ ok (some (leased 8 20 120 idle_row), leased_tables)
unfolding Jobs.lease_next first select update leased
granted = refl

lease_next_grants_example :
    (c : Job) × (find c.id tables.jobs ≡ some c)
    × ((Jobs.is_ready 20 c && not (nothing_locked c.id)) ≡ true)
    × (c.due_at ≤ 20)
    × IsAhead c.deadline_at 20
    × IsFree 20 c
    × All (Precedes c) (Jobs.candidates (Jobs.is_ready 20) nothing_locked tables.jobs)
    × (leased 8 20 120 idle_row ≡ record c {
      state = Jobs.State.running;
      lease_owner = some 8;
      lease_started_at = some 20;
      lease_until = some 140;
      attempt_no = c.attempt_no + 1;
      error_code = none;
      updated_at = 20;
    })
    × (find c.id leased_tables.jobs ≡ some (leased 8 20 120 idle_row))
lease_next_grants_example =
    lease_next_grants nothing_locked 8 20 120 tables leased_tables tables-IsSound granted

stale_lease_is_refused_example :
    (Jobs.finish 1 7 true none 150 tables ≡ ok (false, tables))
    × (Jobs.schedule_retry 1 7 180 Jobs.timeout 150 tables ≡ ok (false, tables))
    × (Jobs.renew_lease 1 7 150 60 tables ≡ ok (false, tables))
stale_lease_is_refused_example =
    stale_lease_is_refused 1 7 150 tables tables-IsSound find-busy true none 180 Jobs.timeout 59
      refl

no_attempt : first (Jobs.is_attempt 1 1) tables.attempts ≡ none
unfolding first
no_attempt = refl

finish_live_example :
    (db' : Db) × (r' : Job) × (Jobs.finish 1 7 true none 30 tables ≡ ok (true, db'))
    × (find 1 db'.jobs ≡ some r')
    × IsLeftBy 30 Jobs.State.succeeded none busy_row.due_at 30 busy_row r'
    × (db'.attempts
        ≡ attempt_of 1 7 30 tables tables-IsSound find-busy 20 Jobs.Outcome.succeeded none ∷ [])
finish_live_example =
    finish_live 1 7 30 tables tables-IsSound find-busy refl refl (omega arith) no_attempt true none

schedule_retry_live_example :
    (db' : Db) × (r' : Job) × (outcome : Jobs.Outcome) × (Jobs.schedule_retry 1 7 90 Jobs.timeout 30
        tables
      ≡ ok (true, db'))
    × (find 1 db'.jobs ≡ some r')
    × IsLeftBy 90 Jobs.State.retry_wait (some Jobs.timeout) 90 30 busy_row r'
    × IsTried Jobs.timeout outcome
    × (db'.attempts
        ≡ attempt_of 1 7 30 tables tables-IsSound find-busy 20 outcome (some Jobs.timeout) ∷ [])
schedule_retry_live_example =
    schedule_retry_live 1 7 30 tables tables-IsSound find-busy refl refl (omega arith) no_attempt 90
      Jobs.timeout

empty-IsRecorded : IsRecorded empty
empty-IsRecorded = ground arith

replay-IsRecorded_example : IsRecorded (replay script empty)
replay-IsRecorded_example = replay-IsRecorded script empty empty-IsRecorded
