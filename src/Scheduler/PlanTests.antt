-- ===== src/Scheduler/PlanTests.antt =====
-- Plans of the scheduler, and their way into the queue.
use vlytics.Scheduler.Timing.{SchedulerTiming, minutes, cutoff_at, deadline_at}
use vlytics.Scheduler.Planner.{
  ScheduleRevision, PredictionVariantSpec, ScheduledJob, Payload, statistical, provider, plan,
  plan_schedules, plan_schedule, prediction_jobs, has_duplicate, enqueue_planned, enqueue_jobs,
}
use vlytics.Scheduler.Planned.{Passes, plan-Passes}
use vlytics.Scheduler.Replayed.{enqueue_planned_again}
use vlytics.Sync.Planner.{bucket}
use vlytics.Jobs
use vlytics.Jobs.Batch.{enqueue_all}
use vlytics.Jobs.{Db, Result, ok, err, check_violation, oldest}
use vlytics.Prelude.{
  ℕ, ◌≡◌, refl, some, none, [], ◌∷◌, List, codes, Text, ◌*◌, All, text_eq, first, Option, ◌^◌,
}

abbrev op_004 : SchedulerTiming
op_004 = record {
  target_cutoff = minutes 60;
  initial_start_tolerance = 30000000;
  completion_grace = minutes 5;
  request_timeout = minutes 1;
  max_attempts = 3;
  backoff = λ n. 5000000 * 2 ^ n;
  retry_max_delay = 30000000;
  source_sync_interval = minutes 5;
}

-- A match at minute 100, whose sync has a scope.
abbrev schedule : Option ℕ → ScheduleRevision
schedule actual = record {
  match_id = 3;
  id = 5;
  revision = 1;
  scheduled_start_at = minutes 100;
  actual_start_at = actual;
  status = codes "Scheduled";
  observed_at = 0;
  source_scope = some (record {
    source = codes "kovo";
    group_code = codes "1";
    season_code = codes "9";
    competition_code = codes "c";
  });
}

abbrev variants : List PredictionVariantSpec
variants =
    record { id = 1; key = codes "elo"; kind = statistical }
    ∷ record { id = 2; key = codes "ai"; kind = provider }
    ∷ []

-- One character stands for a UUID or a point of time.
abbrev text_of : ℕ → Text
text_of n = n ∷ []

abbrev json : Payload → Text
json _ = codes "{}"

abbrev planned : List ScheduledJob → Result (List ScheduledJob) → List ScheduledJob
planned default (ok jobs) = jobs
planned default (err e) = default

abbrev jobs : List ScheduledJob
unfolding plan plan_schedules plan_schedule cutoff_at deadline_at bucket prediction_jobs
    has_duplicate text_eq first
jobs = planned [] (plan text_of text_of op_004 (schedule none ∷ []) variants (minutes 12))

plan-Passes_example : All (Passes json text_of text_of op_004 4 9) jobs
unfolding plan plan_schedules plan_schedule cutoff_at deadline_at bucket prediction_jobs
    has_duplicate text_eq first jobs
plan-Passes_example =
    plan-Passes json text_of text_of op_004 4 9 (schedule none ∷ []) variants (minutes 12) jobs
      (tt, tt) refl

abbrev empty : Db
empty = record { jobs = []; attempts = [] }

abbrev tables : Result (ℕ × Db) → Db
tables (ok (n, db)) = db
tables (err e) = empty

abbrev filled : Db
unfolding enqueue_planned enqueue_jobs enqueue_all plan plan_schedules plan_schedule cutoff_at
    deadline_at bucket prediction_jobs has_duplicate text_eq first Jobs.enqueue
filled = tables (
    enqueue_planned json text_of text_of op_004 1 7 (schedule none ∷ []) variants (minutes 12)
      empty)

enqueue_planned_again_example :
    enqueue_planned json text_of text_of op_004 9 8
      (schedule none ∷ [])
      variants
      (minutes 12)
      filled
    ≡ ok (4, filled)
unfolding enqueue_planned enqueue_jobs enqueue_all plan plan_schedules plan_schedule cutoff_at
    deadline_at bucket prediction_jobs has_duplicate text_eq first Jobs.enqueue filled
enqueue_planned_again_example =
    enqueue_planned_again json text_of text_of op_004 (schedule none ∷ []) variants (minutes 12) 1 7
      9 8 4 empty filled tt refl

-- A match that has started more than an hour early: the deadline of its jobs is before their due
-- time, and the queue refuses them.
early_start_refused :
    enqueue_planned json text_of text_of op_004 1 7
      (schedule (some (minutes 30)) ∷ [])
      variants
      (minutes 50)
      empty
    ≡ err check_violation
unfolding enqueue_planned enqueue_jobs enqueue_all plan plan_schedules plan_schedule cutoff_at
    deadline_at bucket prediction_jobs has_duplicate text_eq first Jobs.enqueue
early_start_refused = refl
