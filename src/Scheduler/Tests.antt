-- ===== src/Scheduler/Tests.antt =====
-- Runs of the scheduler.
use vlytics.Scheduler.OnTime.{attempts_fit, last_end}
use vlytics.Scheduler.Pool.{Pool, kept, renew_loop, conclude}
use vlytics.Scheduler.Renewed.{renew_loop_keeps, lease_end}
use vlytics.Scheduler.Concluded.{conclude_live}
use vlytics.Scheduler.Settled.{run_once_settles, verdict}
use vlytics.Scheduler.Timing.{SchedulerTiming, deadline_at, minutes, cutoff_at, delays}
use vlytics.Scheduler.Dispatcher.{Dispatcher, Handler, retryable, run_once}
use vlytics.Jobs
use vlytics.Jobs.{
  Job, JobType, Db, State, current_schedule, timeout, ok, find, new_row, Request, live,
}
use vlytics.Jobs.Numbered.{IsRecorded}
use vlytics.Jobs.Tables.{IsSound}
use vlytics.Prelude.{
  ℕ, ◌≡◌, ◌≤◌, refl, some, none, [], ◌∷◌, false, codes, Bool, ◌*◌, Option, arith, first, select,
  update, count, ◌^◌, true, ◌<◌,
}

-- The defaults, with the back-off 5 s, 10 s, ...
abbrev op_004 : SchedulerTiming
op_004 = record {
  target_cutoff = minutes 60;
  initial_start_tolerance = 30000000;
  completion_grace = minutes 5;
  request_timeout = minutes 1;
  max_attempts = 3;
  backoff = λ n. 5000000 * 2 ^ n;
  retry_max_delay = 30000000;
  source_sync_interval = 300000000;
}

three_attempts_fit :
    (deadline : ℕ) × (deadline_at op_004 (minutes 100) none ≡ ok deadline)
    × (last_end op_004 0 (minutes 40) (minutes 1 ∷ 2000 ∷ []) ≤ deadline)
unfolding cutoff_at delays
three_attempts_fit =
    attempts_fit op_004 (minutes 100) (minutes 40) (minutes 1) (2000 ∷ []) refl refl (ground arith)
      (ground arith)

abbrev schedule_request : Request
schedule_request = record {
  job_key = codes "schedule";
  job_type = current_schedule;
  payload = codes "{}";
  due_at = 10;
  deadline_at = some 500;
  match_id = none;
  schedule_revision_id = none;
  stage = none;
  variant_id = none;
}

abbrev queued_row : Job
queued_row = new_row 1 4 schedule_request

abbrev queue : Db
queue = record { jobs = queued_row ∷ []; attempts = [] }

abbrev timed_out : JobType → Option Handler
timed_out current_schedule = some (λ job now db. (retryable timeout, db))
timed_out _ = none

abbrev dispatcher : Dispatcher
dispatcher = record { handlers = timed_out; lease_owner = 7; timing = op_004; lease_duration = 120 }

abbrev nothing_locked : ℕ → Bool
nothing_locked i = false

abbrev running_row : Job
running_row = record queued_row {
  state = State.running;
  lease_owner = some 7;
  lease_started_at = some 20;
  lease_until = some 140;
  attempt_no = 1;
  updated_at = 20;
}

abbrev leased_queue : Db
leased_queue = record { jobs = running_row ∷ []; attempts = [] }

swept : Jobs.expire_due nothing_locked 20 queue ≡ ok (0, queue)
unfolding Jobs.expire_due select count update
swept = refl

granted : Jobs.lease_next nothing_locked 7 20 120 queue ≡ ok (some running_row, leased_queue)
unfolding Jobs.lease_next select update
granted = refl

queue-IsRecorded : IsRecorded queue
unfolding first
queue-IsRecorded = ground arith

run_once_settles_example :
    (db : Db) × (run_once dispatcher nothing_locked 20 50 queue ≡ ok (1, db))
    × (find 1 db.jobs ≡ some (verdict op_004 50 (retryable timeout) running_row))
run_once_settles_example =
    run_once_settles dispatcher nothing_locked 20 50 0 queue queue leased_queue running_row
      (retryable timeout) queue-IsRecorded swept granted (ground arith) (ground arith) refl
      (λ e p. ground arith)

leased_queue-IsSound : IsSound leased_queue
unfolding first
leased_queue-IsSound = ground arith

found : find 1 leased_queue.jobs ≡ some running_row
unfolding find first
found = refl

abbrev pool : Pool
pool = record {
  handlers = timed_out;
  lease_owner = 7;
  timing = op_004;
  lease_duration = 120;
  max_concurrency = 4;
}

renew_loop_keeps_example :
    (db : Db) × (r : Job) × (renew_loop pool 1 (some 500) (80 ∷ 140 ∷ []) leased_queue ≡ (kept, db))
    × (find 1 db.jobs ≡ some r)
    × ((t : ℕ) → t < lease_end (some 500) 120 140 (80 ∷ 140 ∷ []) → live 7 t r ≡ true)
renew_loop_keeps_example =
    renew_loop_keeps pool 1 140 (80 ∷ 140 ∷ []) leased_queue running_row (omega arith)
      leased_queue-IsSound found refl refl (omega arith, (omega arith, tt))

leased_queue-IsRecorded : IsRecorded leased_queue
unfolding first
leased_queue-IsRecorded = ground arith

conclude_live_example :
    (db : Db) × (conclude pool running_row 50 (retryable timeout) kept leased_queue ≡ (ok true, db))
    × (find 1 db.jobs ≡ some (verdict op_004 50 (retryable timeout) running_row))
conclude_live_example =
    conclude_live pool running_row running_row 50 leased_queue found (omega arith) refl 20
      leased_queue-IsRecorded refl refl (omega arith) (retryable timeout) (λ e p. ground arith)
