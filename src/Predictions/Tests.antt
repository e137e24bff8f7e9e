-- ===== src/Predictions/Tests.antt =====
-- A second prediction for the snapshot of the first one.
use vlytics.Predictions.{Prediction, Tables}
use vlytics.Predictions.Stored.{add}
use vlytics.Predictions.Slots.{IsAnswer, add-IsAnswer}
use vlytics.Prelude.{Text, codes, [], ◌∷◌, refl, first}

abbrev by_elo : Prediction
by_elo = record {
  id = 1;
  match_id = 5;
  schedule_revision_id = 7;
  snapshot_id = 3;
  variant_id = 4;
  stage = codes "final";
  input_cutoff_at = 200;
  started_at = 210;
  generated_at = 220;
  resolved_model_id = codes "elo";
  output_json = codes "{}";
  sha256 = codes "{}";
}

abbrev same_bytes : Text → Text
same_bytes t = t

abbrev one_stored : Tables
one_stored = record { predictions = by_elo ∷ []; events = []; projection = [] }

-- The slot is taken by another output.
abbrev changed : Prediction
changed = record by_elo { id = 2; output_json = codes "[]" }

add-IsAnswer_example : IsAnswer same_bytes changed one_stored (add same_bytes changed one_stored)
unfolding first
add-IsAnswer_example = add-IsAnswer same_bytes changed one_stored (refl, tt)
