-- ===== src/Features/Values.antt =====
-- The values and the lineage that `AsOfFeatureBuilder` makes (as_of_v2.py).
use vlytics.Features.{
  MissingReason, no_prior_matches, insufficient_sample, zero_denominator, available, unknown, Float,
  RosterRevision, FeatureLineage, FeatureKey, FeatureValue, StatLine, Built, failed, built,
  key_error, get, ◌>>=◌,
}
use vlytics.Features.Definitions.{min_samples}
use vlytics.Features.Selection.{SelectedMatch}
use vlytics.Prelude.{
  Option, ℕ, none, some, List, [], ◌∷◌, ◌++◌, map, Text, unique, ltb, ◌==◌, if◌then◌else◌,
}

module _ {W : Type 0} where
  -- _lineage
  unfoldable pub lineage_of :
      List (SelectedMatch W) → List RosterRevision → List (StatLine W) → FeatureLineage
  unfolding unique
  lineage_of items rosters lines = record {
    included_match_ids = map (λ i. i.match_id) items;
    schedule_revision_ids = map (λ i. i.schedule.id) items;
    result_revision_ids = map (λ i. i.result.id) items;
    raw_snapshot_sha256 = unique (
        map (λ i. i.schedule.raw_snapshot_sha256) items
        ++ (map (λ i. i.result.raw_snapshot_sha256) items
            ++ map (λ r. r.raw_snapshot_sha256) rosters));
    roster_revision_ids = map (λ r. r.id) rosters;
    metric_schema_versions = unique (map (λ l. l.metric_schema_version) lines);
  }

  -- _unknown
  abbrev pub unknown_value : FeatureKey → MissingReason → ℕ → FeatureLineage → FeatureValue W
  unknown_value key reason sample_size lineage = record {
    definition = key;
    status = unknown;
    value = none;
    numerator = none;
    denominator = none;
    sample_size = sample_size;
    missing_reason = some reason;
    lineage = lineage;
  }

  abbrev pub available_value : FeatureKey → W → W → W → ℕ → FeatureLineage → FeatureValue W
  available_value key value numerator denominator sample_size lineage = record {
    definition = key;
    status = available;
    value = some value;
    numerator = some numerator;
    denominator = some denominator;
    sample_size = sample_size;
    missing_reason = none;
    lineage = lineage;
  }

  -- line.values[key], for what `get` returns
  abbrev pub required : Option W → Built W
  required none = failed key_error
  required (some v) = built v

  abbrev pub value_at : Text → StatLine W → Built W
  value_at key line = required (get key line.values)

module _ {W : Type 0} (num : Float W) where
  -- _ratio_feature
  unfoldable pub ratio_feature : FeatureKey → W → W → ℕ → FeatureLineage → FeatureValue W
  ratio_feature key numerator denominator sample_size lineage =
      if sample_size == 0
      then unknown_value key no_prior_matches sample_size lineage
      else if ltb sample_size (min_samples key)
      then unknown_value key insufficient_sample sample_size lineage
      else if num.is_zero denominator
      then unknown_value key zero_denominator sample_size lineage
      else available_value key (num.div numerator denominator) numerator denominator sample_size
          lineage

  -- sum(f(line) for line in lines), from the left
  unfoldable pub sum_from : (StatLine W → Built W) → W → List (StatLine W) → Built W
  sum_from f total [] = built total
  sum_from f total (line ∷ lines) = do v ← f line; sum_from f (num.add total v) lines

  abbrev pub sum_of : (StatLine W → Built W) → List (StatLine W) → Built W
  sum_of f = sum_from f num.zero
