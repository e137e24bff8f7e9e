-- ===== src/Features/Definitions.antt =====
-- FEATURE_DEFINITIONS of backend/src/vlytics/engine/features/definitions.py.
use vlytics.Features.{
  MissingReason, no_prior_matches, insufficient_sample, missing_input, source_metric_unverified,
  cumulative_value_rejected, zero_denominator, lineup_unavailable, FeatureKey,
  recent_5_match_win_rate, recent_10_match_win_rate, recent_10_set_win_rate, season_win_rate,
  venue_split_win_rate, head_to_head_home_win_rate, attack_efficiency, serve_ace_rate,
  block_points_per_set, receive_efficiency, errors_per_set, attack_share_recent_5,
  attack_share_trend_3v3,
}
use vlytics.Prelude.{ℕ, List, [], ◌∷◌, ◌++◌, Text, text_eq, codes, select}

-- FeatureDefinition, without its key
pub record FeatureDefinition : Type 0 where
  pub scope : Text
  pub formula : Text
  pub numerator : Text
  pub denominator : Text
  pub window : Text
  pub min_samples : ℕ
  pub unit : Text
  pub missing_reasons : List MissingReason

abbrev match_reasons : List MissingReason
match_reasons = no_prior_matches ∷ insufficient_sample ∷ missing_input ∷ []

abbrev pub metric_reasons : List MissingReason
metric_reasons =
    no_prior_matches ∷ insufficient_sample ∷ missing_input ∷ source_metric_unverified
    ∷ cumulative_value_rejected ∷ zero_denominator ∷ []

abbrev pub player_reasons : List MissingReason
player_reasons = metric_reasons ++ lineup_unavailable ∷ []

abbrev pub feature_keys : List FeatureKey
feature_keys =
    recent_5_match_win_rate ∷ recent_10_match_win_rate ∷ recent_10_set_win_rate ∷ season_win_rate
    ∷ venue_split_win_rate ∷ head_to_head_home_win_rate ∷ attack_efficiency ∷ serve_ace_rate
    ∷ block_points_per_set ∷ receive_efficiency ∷ errors_per_set ∷ attack_share_recent_5
    ∷ attack_share_trend_3v3 ∷ []

-- DEFINITIONS_BY_KEY[key]
abbrev pub definition_of : FeatureKey → FeatureDefinition
definition_of recent_5_match_win_rate = record {
  scope = codes "team";
  formula = codes "wins / completed_matches";
  numerator = codes "wins";
  denominator = codes "completed_matches";
  window =
      codes "most recent 5 completed matches in the target season and competition before cutoff";
  min_samples = 3;
  unit = codes "ratio";
  missing_reasons = match_reasons;
}
definition_of recent_10_match_win_rate = record {
  scope = codes "team";
  formula = codes "wins / completed_matches";
  numerator = codes "wins";
  denominator = codes "completed_matches";
  window =
      codes "most recent 10 completed matches in the target season and competition before cutoff";
  min_samples = 5;
  unit = codes "ratio";
  missing_reasons = match_reasons;
}
definition_of recent_10_set_win_rate = record {
  scope = codes "team";
  formula = codes "sets_won / completed_sets";
  numerator = codes "sets_won";
  denominator = codes "completed_sets";
  window = codes "most recent 10 completed sets in the target season and competition before cutoff";
  min_samples = 5;
  unit = codes "ratio";
  missing_reasons = match_reasons;
}
definition_of season_win_rate = record {
  scope = codes "team";
  formula = codes "wins / completed_matches";
  numerator = codes "wins";
  denominator = codes "completed_matches";
  window = codes "all completed matches in the target season and competition before cutoff";
  min_samples = 1;
  unit = codes "ratio";
  missing_reasons = match_reasons;
}
definition_of venue_split_win_rate = record {
  scope = codes "team";
  formula = codes "wins / completed_matches_at_target_side";
  numerator = codes "wins";
  denominator = codes "completed_matches_at_target_side";
  window = codes "season-to-cutoff; home rows for target home and away rows for target away";
  min_samples = 2;
  unit = codes "ratio";
  missing_reasons = match_reasons;
}
definition_of head_to_head_home_win_rate = record {
  scope = codes "matchup";
  formula = codes "target_home_team_wins / completed_head_to_head_matches";
  numerator = codes "target_home_team_wins";
  denominator = codes "completed_head_to_head_matches";
  window = codes "most recent 5 same-season and competition head-to-head matches before cutoff";
  min_samples = 2;
  unit = codes "ratio";
  missing_reasons = match_reasons;
}
definition_of attack_efficiency = record {
  scope = codes "team";
  formula = codes "(attack_kills - attack_errors) / attack_attempts";
  numerator = codes "attack_kills - attack_errors";
  denominator = codes "attack_attempts";
  window = codes "all complete verified match-scoped team stat rows in season before cutoff";
  min_samples = 1;
  unit = codes "ratio";
  missing_reasons = metric_reasons;
}
definition_of serve_ace_rate = record {
  scope = codes "team";
  formula = codes "serve_aces / serve_attempts";
  numerator = codes "serve_aces";
  denominator = codes "serve_attempts";
  window = codes "all complete verified match-scoped team stat rows in season before cutoff";
  min_samples = 1;
  unit = codes "ratio";
  missing_reasons = metric_reasons;
}
definition_of block_points_per_set = record {
  scope = codes "team";
  formula = codes "block_points / completed_sets";
  numerator = codes "block_points";
  denominator = codes "completed_sets";
  window = codes "all complete verified match-scoped team stat rows in season before cutoff";
  min_samples = 1;
  unit = codes "points_per_set";
  missing_reasons = metric_reasons;
}
definition_of receive_efficiency = record {
  scope = codes "team";
  formula = codes "receive_successes / receive_attempts";
  numerator = codes "receive_successes";
  denominator = codes "receive_attempts";
  window = codes "all complete verified match-scoped team stat rows in season before cutoff";
  min_samples = 1;
  unit = codes "ratio";
  missing_reasons = metric_reasons;
}
definition_of errors_per_set = record {
  scope = codes "team";
  formula = codes "errors / completed_sets";
  numerator = codes "errors";
  denominator = codes "completed_sets";
  window = codes "all complete verified match-scoped team stat rows in season before cutoff";
  min_samples = 1;
  unit = codes "errors_per_set";
  missing_reasons = metric_reasons;
}
definition_of attack_share_recent_5 = record {
  scope = codes "player";
  formula = codes "player_attack_attempts / team_attack_attempts";
  numerator = codes "player_attack_attempts";
  denominator = codes "team_attack_attempts";
  window = codes "most recent 5 roster-confirmed historical appearances before metric validation";
  min_samples = 2;
  unit = codes "ratio";
  missing_reasons = player_reasons;
}
definition_of attack_share_trend_3v3 = record {
  scope = codes "player";
  formula = codes "recent_3_attack_share - previous_3_attack_share";
  numerator = codes "difference of window shares";
  denominator = codes "one";
  window = codes "latest 3 versus previous 3 roster-confirmed appearances before metric validation";
  min_samples = 6;
  unit = codes "ratio_points";
  missing_reasons = player_reasons;
}

abbrev pub min_samples : FeatureKey → ℕ
min_samples key = (definition_of key).min_samples

-- TEAM_FEATURE_KEYS, MATCHUP_FEATURE_KEYS and PLAYER_FEATURE_KEYS, by the scope
unfoldable pub keys_of_scope : Text → List FeatureKey
unfolding text_eq select
keys_of_scope scope = select (λ key. text_eq (definition_of key).scope scope) feature_keys
