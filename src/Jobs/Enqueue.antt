-- ===== src/Jobs/Enqueue.antt =====
-- `JobRepository.enqueue` (backend/src/vlytics/ops/repositories/jobs.py), with the constraints and the
-- unique indexes of ops.jobs that decide whether the INSERT writes.
use vlytics.Prelude.{
  ℕ, Bool, true, false, not, ◌&&◌, ◌||◌, Option, none, some, List, [], ◌∷◌, ◌++◌, Text, text_eq,
  leb, ◌==◌, holds, is_some, is_nonblank, if◌then◌else◌, first, select,
}
use vlytics.Jobs.Row.{
  JobType, current_schedule, final_result, correction_recheck, freeze_snapshot, run_prediction,
  other_type, Job, Db, Request, new_row,
}
use vlytics.Jobs.Results.{Result, ok, err, check_violation, no_result, ◌>>=◌}

abbrev pub has_id : ℕ → Job → Bool
has_id i j = j.id == i

unfoldable pub find : ℕ → List Job → Option Job
find i = first (has_id i)

abbrev pub type_eq : JobType → JobType → Bool
type_eq current_schedule current_schedule = true
type_eq final_result final_result = true
type_eq correction_recheck correction_recheck = true
type_eq freeze_snapshot freeze_snapshot = true
type_eq run_prediction run_prediction = true
type_eq (other_type m) (other_type n) = m == n
type_eq _ _ = false

-- IS NOT DISTINCT FROM
abbrev pub same_number : Option ℕ → Option ℕ → Bool
same_number none none = true
same_number (some a) (some b) = a == b
same_number _ _ = false

abbrev pub same_text : Option Text → Option Text → Bool
same_text none none = true
same_text (some s) (some t) = text_eq s t
same_text _ _ = false

-- job_type IN ('engine.freeze_snapshot', 'engine.run_prediction')
abbrev pub is_engine_type : JobType → Bool
is_engine_type freeze_snapshot = true
is_engine_type run_prediction = true
is_engine_type _ = false

abbrev pub same_work : Job → Job → Bool
same_work new j = elim new.schedule_revision_id [
  | none ↦ false
  | some r ↦
      is_engine_type new.job_type
      && (type_eq j.job_type new.job_type
          && (holds j.schedule_revision_id r
              && (same_text j.stage new.stage && same_number j.variant_id new.variant_id)))
]

abbrev pub same_job : Job → Job → Bool
same_job new j = text_eq j.job_key new.job_key || same_work new j

-- variant_id under the partial unique indexes: one for predictions, one for snapshots
abbrev pub same_slot : JobType → Option ℕ → Option ℕ → Bool
same_slot run_prediction (some a) (some b) = a == b
same_slot freeze_snapshot none none = true
same_slot _ _ _ = false

-- The unique indexes of ops.jobs on scheduled work (0013_provider_budget_reservations.sql).
abbrev pub same_indexed : Job → Job → Bool
same_indexed new j = elim new.schedule_revision_id [
  | none ↦ false
  | some r ↦
      type_eq j.job_type new.job_type
      && (holds j.schedule_revision_id r
          && (is_some new.stage
              && (same_text j.stage new.stage
                  && same_slot new.job_type j.variant_id new.variant_id)))
]

-- A row that INSERT … ON CONFLICT DO NOTHING finds in its way.
abbrev pub conflicts : Job → Job → Bool
conflicts new j = has_id new.id j || (text_eq j.job_key new.job_key || same_indexed new j)

-- The CHECK constraints of ops.jobs on a new row (0001_storage.sql, 0012_schedule_orchestration.sql).
abbrev pub is_scheduled : Job → Bool
is_scheduled j = elim j.schedule_revision_id [
  | none ↦ not (is_some j.match_id) && (not (is_some j.stage) && not (is_some j.variant_id))
  | some _ ↦ is_some j.match_id && elim j.stage [ none ↦ false | some s ↦ is_nonblank s ]
]

abbrev pub passes_checks : Job → Bool
passes_checks j =
    is_nonblank j.job_key
    && (elim j.deadline_at [ none ↦ true | some d ↦ leb j.due_at d ] && is_scheduled j)

-- ORDER BY created_at LIMIT 1
unfoldable pub oldest : List Job → Option Job
oldest [] = none
oldest (j ∷ js) = elim (oldest js) [
  | none ↦ some j
  | some k ↦ some (if leb j.created_at k.created_at then j else k)
]

-- `.one()`
abbrev pub one : Option Job → Result Job
one none = err no_result
one (some j) = ok j

unfoldable pub enqueue : ℕ → ℕ → Request → Db → Result (Job × Db)
unfolding oldest
enqueue id stamp q db =
    let new = new_row id stamp q in
    if passes_checks new
    then (elim (first (conflicts new) db.jobs) [
      | none ↦ ok (new, record db { jobs = db.jobs ++ new ∷ [] })
      | some _ ↦ do j ← one (oldest (select (same_job new) db.jobs)); ok (j, db)
    ])
    else err check_violation
