-- ===== src/Predictions.antt =====
-- `PredictionEventRepository` and `PredictionProjectionRepository` of
-- backend/src/vlytics/engine/repositories/predictions.py: the events of predictions and the projection
-- of their status.
pub mod Stored
pub mod Slots
pub mod Ended
mod Tests
pub mod Constraints
pub mod Lawful
use vlytics.Jobs.{same_number}
use vlytics.Prelude.{
  ℕ, Bool, true, false, not, ◌&&◌, ◌||◌, Option, none, some, List, [], ◌∷◌, ◌++◌, Text, text_eq,
  codes, length, ◌+◌, leb, ◌==◌, if◌then◌else◌, first, select,
}

-- The types of the events and the statuses have the same words.
pub data Status : Type 0 where
  published voided superseded late_rejected : Status

-- A row of engine.predictions; the output is the canonical JSON.
pub record Prediction : Type 0 where
  pub id : ℕ
  pub match_id : ℕ
  pub schedule_revision_id : ℕ
  pub snapshot_id : ℕ
  pub variant_id : ℕ
  pub stage : Text
  pub input_cutoff_at : ℕ
  pub started_at : ℕ
  pub generated_at : ℕ
  pub resolved_model_id : Text
  pub output_json : Text
  pub sha256 : Text

pub record PredictionEvent : Type 0 where
  pub id : ℕ
  pub prediction_id : ℕ
  pub event_type : Status
  pub reason : Text
  pub occurred_at : ℕ
  pub observed_at : ℕ
  pub superseding_prediction_id : Option ℕ
  pub schedule_revision_id : Option ℕ

pub record StatusRow : Type 0 where
  pub prediction_id : ℕ
  pub latest_event_id : ℕ
  pub current_status : Status
  pub refreshed_at : ℕ

-- Events are listed in the order of their creation.
pub record Tables : Type 0 where
  pub predictions : List Prediction
  pub events : List PredictionEvent
  pub projection : List StatusRow

abbrev pub status_eq : Status → Status → Bool
status_eq published published = true
status_eq voided voided = true
status_eq superseded superseded = true
status_eq late_rejected late_rejected = true
status_eq _ _ = false

-- The identity of an event.
abbrev pub is_same_event : PredictionEvent → PredictionEvent → Bool
is_same_event new e =
    e.prediction_id == new.prediction_id
    && (status_eq e.event_type new.event_type
        && (text_eq e.reason new.reason
            && (same_number e.schedule_revision_id new.schedule_revision_id
                && same_number e.superseding_prediction_id new.superseding_prediction_id)))

-- PredictionEventRepository.add, without the constraints of the table.
abbrev pub add : PredictionEvent → Tables → ℕ × Tables
add new t = (new.id, record t { events = t.events ++ new ∷ [] })

-- PredictionEventRepository.add_once
unfoldable pub add_once : PredictionEvent → Tables → ℕ × Tables
add_once new t = elim (first (is_same_event new) t.events) [
  | none ↦ add new t
  | some existing ↦ (existing.id, t)
]

unfoldable pub put_row : StatusRow → List StatusRow → List StatusRow
put_row new [] = new ∷ []
put_row new (row ∷ rows) =
    let rest = put_row new rows in
    if row.prediction_id == new.prediction_id then new ∷ rows else row ∷ rest

-- PredictionProjectionRepository.apply_event
unfoldable pub apply_event : ℕ → ℕ → Status → ℕ → Tables → Tables
unfolding put_row
apply_event prediction_id event_id status refreshed_at t = record t {
  projection =
      put_row
        (record {
          prediction_id = prediction_id;
          latest_event_id = event_id;
          current_status = status;
          refreshed_at = refreshed_at;
        })
        t.projection;
}

abbrev pub end_event : ℕ → Status → Text → ℕ → ℕ → Prediction → PredictionEvent
end_event id status reason occurred_at observed_at p = record {
  id = id;
  prediction_id = p.id;
  event_type = status;
  reason = reason;
  occurred_at = occurred_at;
  observed_at = observed_at;
  superseding_prediction_id = none;
  schedule_revision_id = some p.schedule_revision_id;
}

-- The loop over the rows that were found; the database numbers new events from `id` on.
unfoldable pub end_predictions : ℕ → Status → Text → ℕ → ℕ → List Prediction → Tables → Tables
unfolding add_once apply_event
end_predictions id status reason occurred_at observed_at [] t = t
end_predictions id status reason occurred_at observed_at (p ∷ ps) t =
    let (event_id, t') = add_once (end_event id status reason occurred_at observed_at p) t in
    end_predictions (id + 1) status reason occurred_at observed_at ps
      (apply_event p.id event_id status observed_at t')

-- match_id = :match_id AND (:except IS NULL OR schedule_revision_id <> :except)
abbrev pub is_voided : ℕ → Option ℕ → Prediction → Bool
is_voided match_id except p =
    p.match_id == match_id
    && elim except [ none ↦ true | some r ↦ not (p.schedule_revision_id == r) ]

unfoldable pub void_match_predictions : ℕ → ℕ → Text → ℕ → ℕ → Option ℕ → Tables → ℕ × Tables
unfolding end_predictions
void_match_predictions id match_id reason occurred_at observed_at except t =
    let rows = select (is_voided match_id except) t.predictions in
    (length rows, end_predictions id voided reason occurred_at observed_at rows t)

-- PredictionEventRepository.void_schedule_revision
unfoldable pub void_schedule_revision : ℕ → ℕ → Text → ℕ → ℕ → Tables → ℕ × Tables
unfolding end_predictions
void_schedule_revision id revision_id reason occurred_at observed_at t =
    let rows = select (λ p. p.schedule_revision_id == revision_id) t.predictions in
    (length rows, end_predictions id voided reason occurred_at observed_at rows t)

-- match_id = :match_id AND generated_at >= :actual_start_at
abbrev pub is_late : ℕ → ℕ → Prediction → Bool
is_late match_id actual_start_at p = p.match_id == match_id && leb actual_start_at p.generated_at

unfoldable pub reject_started_match : ℕ → ℕ → ℕ → ℕ → Tables → ℕ × Tables
unfolding end_predictions
reject_started_match id match_id actual_start_at observed_at t =
    let rows = select (is_late match_id actual_start_at) t.predictions in
    (
      length rows,
      end_predictions id late_rejected (codes "completed_at_or_after_actual_start") actual_start_at
          observed_at rows t,
    )

-- schedule_revision_id = :schedule_revision_id AND generated_at >= :actual_start_at
abbrev pub is_late_of_revision : ℕ → ℕ → Prediction → Bool
is_late_of_revision revision_id actual_start_at p =
    p.schedule_revision_id == revision_id && leb actual_start_at p.generated_at

unfoldable pub reject_started_match_predictions : ℕ → ℕ → ℕ → ℕ → Tables → ℕ × Tables
unfolding end_predictions
reject_started_match_predictions id revision_id actual_start_at observed_at t =
    let rows = select (is_late_of_revision revision_id actual_start_at) t.predictions in
    (
      length rows,
      end_predictions id late_rejected (codes "completed_at_or_after_actual_start") actual_start_at
          observed_at rows t,
    )
