-- ===== src/Predictions/Constraints.antt =====
-- The constraints of engine.prediction_events (backend/migrations/0001_storage.sql and
-- 0012_schedule_orchestration.sql).
use vlytics.Predictions.{
  Status, published, superseded, late_rejected, status_eq, Prediction, PredictionEvent, Tables,
}
use vlytics.Predictions.Stored.{is_blank}
use vlytics.Jobs.{same_number}
use vlytics.Prelude.{
  ℕ, Bool, true, not, ◌&&◌, ◌≡◌, ◌≤◌, ◌==◌, Option, none, some, List, Text, text_eq, codes, is_some,
  count, All, if◌then◌else◌,
}

abbrev is_none_or_other : Option ℕ → ℕ → Bool
is_none_or_other none i = true
is_none_or_other (some j) i = not (i == j)

-- The CHECK constraints.
abbrev pub passes_event_checks : PredictionEvent → Bool
passes_event_checks e =
    not (is_blank e.reason)
    && (is_none_or_other e.superseding_prediction_id e.prediction_id
        && (if status_eq e.event_type superseded
            then is_some e.superseding_prediction_id
            else not (is_some e.superseding_prediction_id)))

-- What the unique indexes are on.
abbrev pub is_of : Status → ℕ → PredictionEvent → Bool
is_of status i e = e.prediction_id == i && status_eq e.event_type status

abbrev pub late_reason : Text
late_reason = codes "completed_at_or_after_actual_start"

-- A rejection is that of the revision of its prediction.
abbrev pub is_own : (ℕ → ℕ) → PredictionEvent → Bool
is_own revision_of e =
    if status_eq e.event_type late_rejected
    then text_eq e.reason late_reason
      && (same_number e.schedule_revision_id (some (revision_of e.prediction_id))
          && same_number e.superseding_prediction_id none)
    else true

module _ (revision_of : ℕ → ℕ) where
  -- The events keep the constraints, and the rejections are their own.
  abbrev pub IsLawful : List PredictionEvent → Type 0
  IsLawful events =
      All (λ e. (passes_event_checks e && is_own revision_of e) ≡ true) events
      × ((i : ℕ) → count (is_of published i) events ≤ 1)
      × ((i : ℕ) → count (is_of late_rejected i) events ≤ 1)

  -- The prediction is of the revision that is known by its id.
  abbrev pub IsKnown : Prediction → Type 0
  IsKnown p = p.schedule_revision_id ≡ revision_of p.id

  -- The constraints hold, and the predictions are known.
  abbrev pub AreLawful : Tables → Type 0
  AreLawful t = All IsKnown t.predictions × IsLawful t.events
