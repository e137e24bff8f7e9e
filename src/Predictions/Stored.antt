-- ===== src/Predictions/Stored.antt =====
-- `PredictionRepository` of backend/src/vlytics/engine/repositories/predictions.py.
use vlytics.Predictions.{Prediction, Tables}
use vlytics.Prelude.{
  ℕ, Bool, true, false, not, ◌&&◌, Option, none, some, [], ◌∷◌, ◌++◌, Text, text_eq, leb, ◌==◌,
  if◌then◌else◌, first,
}

pub record StoredPrediction : Type 0 where
  pub id : ℕ
  pub sha256 : Text
  pub created : Bool

-- PredictionConflictError, and the error of the database for a CHECK constraint.
pub data StoreError : Type 0 where
  prediction_conflict integrity_error : StoreError

pub data Storing : Type 0 where
  refused : StoreError → Storing
  answered : StoredPrediction → Tables → Storing

-- btrim(t) = ''
abbrev pub is_blank : Text → Bool
is_blank [] = true
is_blank (c ∷ t) = c == 32 && is_blank t

-- The CHECK constraints, but for those on the digest and the output, which are as they demand.
abbrev pub passes_prediction_checks : Prediction → Bool
passes_prediction_checks p =
    not (is_blank p.stage)
    && (not (is_blank p.resolved_model_id) && leb p.started_at p.generated_at)

-- UNIQUE (snapshot_id, variant_id, stage)
abbrev pub has_slot : ℕ → ℕ → Text → Prediction → Bool
has_slot snapshot_id variant_id stage p =
    p.snapshot_id == snapshot_id && (p.variant_id == variant_id && text_eq p.stage stage)

abbrev pub as_found : Option Prediction → Option StoredPrediction
as_found none = none
as_found (some p) = some (record { id = p.id; sha256 = p.sha256; created = false })

-- PredictionRepository.find
unfoldable pub find : ℕ → ℕ → Text → Tables → Option StoredPrediction
unfolding first
find snapshot_id variant_id stage t =
    as_found (first (has_slot snapshot_id variant_id stage) t.predictions)

-- The row is inserted if its slot is free; else the prediction in the slot is compared with it.
abbrev pub insert_or_compare : Prediction → Option StoredPrediction → Tables → Storing
insert_or_compare row none t =
    answered (record { id = row.id; sha256 = row.sha256; created = true })
      (record t { predictions = t.predictions ++ row ∷ [] })
insert_or_compare row (some existing) t =
    if text_eq existing.sha256 row.sha256 then answered existing t else refused prediction_conflict

-- PredictionRepository.add; the database numbers a new row, and `digest` is sha256_bytes.
unfoldable pub add : (Text → Text) → Prediction → Tables → Storing
unfolding find
add digest new t =
    let row : Prediction = record new { sha256 = digest new.output_json } in
    if passes_prediction_checks row
    then insert_or_compare row (find row.snapshot_id row.variant_id row.stage t) t
    else refused integrity_error
