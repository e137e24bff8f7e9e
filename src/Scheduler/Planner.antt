-- ===== src/Scheduler/Planner.antt =====
-- `SchedulePlanner` and `DurableScheduler` of backend/src/vlytics/ops/scheduler.py.
use vlytics.Jobs.Batch.{enqueue_all}
use vlytics.Jobs.{
  JobType, current_schedule, freeze_snapshot, run_prediction, Request, Db, Result, ok, err,
  value_error, ◌>>=◌,
}
use vlytics.Scheduler.Timing.{SchedulerTiming, cutoff_at, deadline_at}
use vlytics.Sync.Planner.{bucket}
use vlytics.Sync.Scope.{BackfillScope}
use vlytics.Prelude.{
  map, ℕ, Bool, false, ◌||◌, Option, none, some, List, [], ◌∷◌, ◌++◌, Text, text_eq, codes, lower,
  ltb, if◌then◌else◌, is_some, first, length,
}

pub record ScheduleRevision : Type 0 where
  pub match_id : ℕ
  pub id : ℕ
  pub revision : ℕ
  pub scheduled_start_at : ℕ
  pub actual_start_at : Option ℕ
  pub status : Text
  pub observed_at : ℕ
  pub source_scope : Option BackfillScope

pub data PredictionKind : Type 0 where
  statistical provider : PredictionKind

pub record PredictionVariantSpec : Type 0 where
  pub id : ℕ
  pub key : Text
  pub kind : PredictionKind

-- The payload that all jobs of a match have, with what a job adds to it.
pub data Payload : Type 0 where
  sync_payload : BackfillScope → ScheduleRevision → ℕ → Payload
  freeze_payload : ScheduleRevision → ℕ → Payload
  prediction_payload : PredictionVariantSpec → ScheduleRevision → ℕ → Payload

pub record ScheduledJob : Type 0 where
  pub job_key : Text
  pub job_type : JobType
  pub payload : Payload
  pub due_at : ℕ
  pub deadline_at : ℕ
  pub match_id : ℕ
  pub schedule_revision_id : ℕ
  pub stage : Text
  pub variant_id : Option ℕ

-- A key is there twice.
unfoldable pub has_duplicate : List PredictionVariantSpec → Bool
has_duplicate [] = false
has_duplicate (v ∷ vs) = is_some (first (λ w. text_eq v.key w.key) vs) || has_duplicate vs

-- status.lower() in {"cancelled", "postponed"}
abbrev pub is_called_off : ScheduleRevision → Bool
is_called_off s =
    text_eq (lower s.status) (codes "cancelled") || text_eq (lower s.status) (codes "postponed")

-- `text_of` prints a UUID and `isoformat` a point of time.
module _ (text_of isoformat : ℕ → Text) (timing : SchedulerTiming) where
  -- {match_id}:{id}
  abbrev pub revision_key : ScheduleRevision → Text
  revision_key s = text_of s.match_id ++ (codes ":" ++ text_of s.id)

  abbrev pub source_sync_job : ScheduleRevision → BackfillScope → ℕ → ℕ → ℕ → ScheduledJob
  source_sync_job s scope now bucket_at cutoff = record {
    job_key = codes "source-sync:" ++ (revision_key s ++ (codes ":" ++ isoformat bucket_at));
    job_type = current_schedule;
    payload = sync_payload scope s cutoff;
    due_at = now;
    deadline_at = cutoff;
    match_id = s.match_id;
    schedule_revision_id = s.id;
    stage = codes "source_sync";
    variant_id = none;
  }

  abbrev pub freeze_job : ScheduleRevision → ℕ → ℕ → ScheduledJob
  freeze_job s cutoff deadline = record {
    job_key = codes "prediction:" ++ (revision_key s ++ codes ":freeze");
    job_type = freeze_snapshot;
    payload = freeze_payload s cutoff;
    due_at = cutoff;
    deadline_at = deadline;
    match_id = s.match_id;
    schedule_revision_id = s.id;
    stage = codes "freeze";
    variant_id = none;
  }

  abbrev pub prediction_job : ScheduleRevision → ℕ → ℕ → PredictionVariantSpec → ScheduledJob
  prediction_job s cutoff deadline v = record {
    job_key = codes "prediction:" ++ (revision_key s ++ (codes ":pregame:" ++ v.key));
    job_type = run_prediction;
    payload = prediction_payload v s cutoff;
    due_at = cutoff;
    deadline_at = deadline;
    match_id = s.match_id;
    schedule_revision_id = s.id;
    stage = codes "pregame";
    variant_id = some v.id;
  }

  unfoldable pub prediction_jobs :
      ScheduleRevision → ℕ → ℕ → List PredictionVariantSpec → List ScheduledJob
  prediction_jobs s cutoff deadline [] = []
  prediction_jobs s cutoff deadline (v ∷ vs) =
      prediction_job s cutoff deadline v ∷ prediction_jobs s cutoff deadline vs

  abbrev pub source_sync_jobs :
      ScheduleRevision → Option BackfillScope → ℕ → ℕ → Result (List ScheduledJob)
  source_sync_jobs s none now cutoff = ok []
  source_sync_jobs s (some scope) now cutoff =
      if ltb now cutoff
      then (bucket now timing.source_sync_interval >>= λ bucket_at.
          ok (source_sync_job s scope now bucket_at cutoff ∷ []))
      else ok []

  -- What the loop appends for one schedule.
  unfoldable pub plan_schedule :
      List PredictionVariantSpec → ℕ → ScheduleRevision → Result (List ScheduledJob)
  unfolding bucket cutoff_at deadline_at prediction_jobs
  plan_schedule variants now s =
      if is_called_off s
      then ok []
      else (cutoff_at timing s.scheduled_start_at >>= λ cutoff.
          deadline_at timing s.scheduled_start_at s.actual_start_at >>= λ deadline.
          source_sync_jobs s s.source_scope now cutoff >>= λ sync.
          ok (sync ++ freeze_job s cutoff deadline ∷ prediction_jobs s cutoff deadline variants))

  unfoldable pub plan_schedules :
      List PredictionVariantSpec → ℕ → List ScheduleRevision → Result (List ScheduledJob)
  unfolding plan_schedule
  plan_schedules variants now [] = ok []
  plan_schedules variants now (s ∷ schedules) = do
    jobs ← plan_schedule variants now s
    rest ← plan_schedules variants now schedules
    ok (jobs ++ rest)

  -- SchedulePlanner.plan
  unfoldable pub plan :
      List ScheduleRevision → List PredictionVariantSpec → ℕ → Result (List ScheduledJob)
  unfolding plan_schedules has_duplicate
  plan schedules variants now =
      if has_duplicate variants then err value_error else plan_schedules variants now schedules

-- `json` prints a payload.
module _ (json : Payload → Text) where
  abbrev pub request_of : ScheduledJob → Request
  request_of j = record {
    job_key = j.job_key;
    job_type = j.job_type;
    payload = json j.payload;
    due_at = j.due_at;
    deadline_at = some j.deadline_at;
    match_id = some j.match_id;
    schedule_revision_id = some j.schedule_revision_id;
    stage = some j.stage;
    variant_id = j.variant_id;
  }

  -- The loop over the planned jobs.
  unfoldable pub enqueue_jobs : ℕ → ℕ → List ScheduledJob → Db → Result Db
  unfolding enqueue_all
  enqueue_jobs id stamp jobs db = enqueue_all id stamp (map request_of jobs) db

  -- DurableScheduler.enqueue
  unfoldable pub enqueue_planned :
      (ℕ → Text)
      → (ℕ → Text)
      → SchedulerTiming
      → ℕ
      → ℕ
      → List ScheduleRevision
      → List PredictionVariantSpec
      → ℕ
      → Db
      → Result (ℕ × Db)
  unfolding enqueue_jobs plan
  enqueue_planned text_of isoformat timing id stamp schedules variants now db = do
    planned ← plan text_of isoformat timing schedules variants now
    db' ← enqueue_jobs id stamp planned db
    ok (length planned, db')
