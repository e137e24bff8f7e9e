-- ===== src/Scheduler/LifecycleTests.antt =====
-- The reconciliation of a match that has started before its cutoff, was known under another revision,
-- and has a prediction that came too late.
use vlytics.Scheduler.Lifecycle.{Lifecycle, reconcile, classify_schedule_change}
use vlytics.Scheduler.Reconciled.{reconcile-status}
use vlytics.Scheduler.Lawful.{reconcile-AreLawful}
use vlytics.Predictions.Constraints.{AreLawful}
use vlytics.Scheduler.Stopped.{reconcile-stops, is_obsolete}
use vlytics.Scheduler.Planner.{ScheduleRevision}
use vlytics.Predictions.{Prediction, late_rejected, voided}
use vlytics.Predictions.Ended.{status_of}
use vlytics.Jobs.{Request, new_row, final_result, is_unfinished}
use vlytics.Prelude.{
  count, ℕ, ◌≡◌, refl, false, ◌&&◌, some, none, [], ◌∷◌, codes, Text, All, arith, first, text_eq,
  holds,
}

abbrev before : ScheduleRevision
before = record {
  match_id = 5;
  id = 7;
  revision = 1;
  scheduled_start_at = 900;
  actual_start_at = none;
  status = codes "scheduled";
  observed_at = 100;
  source_scope = none;
}

abbrev now : ScheduleRevision
now = record before { id = 8; revision = 2; actual_start_at = some 400; observed_at = 500 }

abbrev too_late : Prediction
too_late = record {
  id = 1;
  match_id = 5;
  schedule_revision_id = 7;
  snapshot_id = 3;
  variant_id = 4;
  stage = codes "final";
  input_cutoff_at = 200;
  started_at = 210;
  generated_at = 450;
  resolved_model_id = codes "elo";
  output_json = codes "{}";
  sha256 = codes "d";
}

abbrev in_time : Prediction
in_time = record too_late { id = 2; variant_id = 5; generated_at = 300 }

abbrev result_request : Request
result_request = record {
  job_key = codes "result";
  job_type = final_result;
  payload = codes "{}";
  due_at = 10;
  deadline_at = some 500;
  match_id = some 5;
  schedule_revision_id = some 8;
  stage = some (codes "result");
  variant_id = none;
}

abbrev state : Lifecycle
state = record {
  queue = record { jobs = new_row 1 4 result_request ∷ []; attempts = [] };
  schedule_events = [];
  predictions = record { predictions = too_late ∷ in_time ∷ []; events = []; projection = [] };
}

abbrev print : ℕ → Text
print n = n ∷ []

abbrev number_of : Text → ℕ
number_of t = 0

abbrev after : Lifecycle
after = (reconcile print print number_of 1 1 now (some before) state).1

reconcile-status_example : status_of 1 after.predictions ≡ some late_rejected
unfolding first text_eq
reconcile-status_example =
    reconcile-status print print number_of now 1 1 1 (some before) state too_late (ground arith)
      refl

-- The prediction that came in time is void, with the revision that it was for.
in_time_voided : status_of 2 after.predictions ≡ some voided
unfolding first text_eq classify_schedule_change
in_time_voided =
    reconcile-status print print number_of now 1 1 2 (some before) state in_time (ground arith) refl

reconcile-stops_example :
    All
      (λ j.
        (holds j.match_id 5 && (is_unfinished j.state && is_obsolete now (some before) j)) ≡ false)
      after.queue.jobs
reconcile-stops_example = reconcile-stops print print number_of now 1 1 (some before) state

fresh-AreLawful : AreLawful (λ i. 7) state.predictions
unfolding count
fresh-AreLawful = ((refl, (refl, tt)), (tt, λ i. omega arith, λ i. omega arith))

-- The revision is reconciled again, with the events of the first time there.
reconcile-AreLawful_example :
    AreLawful (λ i. 7) (reconcile print print number_of 2 9 now (some before) after).1.predictions
reconcile-AreLawful_example =
    reconcile-AreLawful (λ i. 7) print print number_of now 2 9 (some before) after
      (reconcile-AreLawful (λ i. 7) print print number_of now 1 1 (some before) state
        fresh-AreLawful)
