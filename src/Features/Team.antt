-- ===== src/Features/Team.antt =====
-- The features of teams and of the matchup (as_of_v2.py).
use vlytics.Features.{
  match_scope, cumulative, MissingReason, no_prior_matches, missing_input, source_metric_unverified,
  cumulative_value_rejected, Float, SetScore, TargetMatch, FeatureKey, recent_5_match_win_rate,
  recent_10_match_win_rate, recent_10_set_win_rate, season_win_rate, venue_split_win_rate,
  head_to_head_home_win_rate, attack_efficiency, serve_ace_rate, block_points_per_set,
  receive_efficiency, errors_per_set, FeatureValue, StatLine, Built, failed, built, value_error,
  get, ◌>>=◌,
}
use vlytics.Features.Selection.{SelectedMatch}
use vlytics.Features.Values.{lineage_of, unknown_value, value_at, ratio_feature, sum_from, sum_of}
use mathlib.Core.List.{reverse}
use vlytics.Prelude.{
  ℕ, zero, suc, Bool, true, false, not, ◌&&◌, ◌||◌, Option, none, some, List, [], ◌∷◌, ◌++◌, map,
  length, Text, text_eq, codes, is_some, ltb, ◌+◌, ◌-◌, if◌then◌else◌, select, count,
}

abbrev pub take : {A : Type 0} → ℕ → List A → List A
take zero xs = []
take (suc n) [] = []
take (suc n) (x ∷ xs) = x ∷ take n xs

abbrev pub set_won : Bool → SetScore → Bool
set_won true s = ltb s.away_points s.home_points
set_won false s = ltb s.home_points s.away_points

module _ {W : Type 0} where
  abbrev pub plays : Text → SelectedMatch W → Bool
  plays team_id i =
      text_eq team_id i.schedule.home_team_id || text_eq team_id i.schedule.away_team_id

  -- _team_history
  abbrev pub team_history : List (SelectedMatch W) → Text → List (SelectedMatch W)
  team_history selected team_id = select (plays team_id) selected

  abbrev pub team_won : Text → SelectedMatch W → Bool
  team_won team_id i =
      if text_eq i.schedule.home_team_id team_id
      then ltb i.result.away_sets i.result.home_sets
      else ltb i.result.home_sets i.result.away_sets

  -- The outcomes of the last sets of a match, the last one first.
  abbrev pub last_sets : Text → ℕ → SelectedMatch W → List Bool
  last_sets team_id room i =
      take room (map (set_won (text_eq i.schedule.home_team_id team_id)) (reverse i.result.sets))

  -- set_results and used_matches; `room` is what is left of the window.
  unfoldable pub recent_sets :
      Text → ℕ → List (SelectedMatch W) → List Bool × List (SelectedMatch W)
  recent_sets team_id room [] = ([], [])
  recent_sets team_id room (i ∷ history) =
      let outcomes = last_sets team_id room i in
      let (more, used) = recent_sets team_id (room - length outcomes) history in
      (outcomes ++ more, elim outcomes [ [] ↦ used | _ ∷ _ ↦ i ∷ used ])

  -- _metric_line_reason
  abbrev pub has_keys : List Text → StatLine W → Bool
  has_keys [] line = true
  has_keys (key ∷ keys) line = is_some (get key line.values) && has_keys keys line

  unfoldable pub metric_line_reason : StatLine W → List Text → Option MissingReason
  metric_line_reason line required_keys =
      if not (text_eq line.metric_schema_version (codes "volleyball-boxscore-v1"))
      then some source_metric_unverified
      else elim line.scope [
        | cumulative ↦ some cumulative_value_rejected
        | match_scope ↦ if has_keys required_keys line then none else some missing_input
      ]

-- How the loop over the history ends: at a match with no line or an unusable one, after so many
-- lines, or with all lines.
pub data Scanned (W : Type 0) : Type 0 where
  no_line : ℕ → Scanned W
  unusable : MissingReason → ℕ → StatLine W → Scanned W
  all_lines : List (StatLine W) → Scanned W

module _ {W : Type 0} where
  -- The next line is usable.
  abbrev pub scanned_on : StatLine W → Scanned W → Scanned W
  scanned_on line (no_line n) = no_line (suc n)
  scanned_on line (unusable reason n bad) = unusable reason (suc n) bad
  scanned_on line (all_lines lines) = all_lines (line ∷ lines)

  abbrev pub scan_checked : Option MissingReason → StatLine W → Scanned W → Scanned W
  scan_checked none line rest = scanned_on line rest
  scan_checked (some reason) line rest = unusable reason 0 line

  abbrev pub scan_line : List Text → Option (StatLine W) → Scanned W → Scanned W
  scan_line keys none rest = no_line 0
  scan_line keys (some line) rest = scan_checked (metric_line_reason line keys) line rest

  unfoldable pub scan_lines : Text → List Text → List (SelectedMatch W) → Scanned W
  unfolding metric_line_reason
  scan_lines team_id keys [] = all_lines []
  scan_lines team_id keys (i ∷ history) =
      scan_line keys (get team_id i.result.team_stats) (scan_lines team_id keys history)

  abbrev pub is_head_to_head : TargetMatch → SelectedMatch W → Bool
  is_head_to_head target i =
      (text_eq i.schedule.home_team_id target.home_team_id
        && text_eq i.schedule.away_team_id target.away_team_id)
      || (text_eq i.schedule.home_team_id target.away_team_id
          && text_eq i.schedule.away_team_id target.home_team_id)

  -- sum(len(item.result.sets) for item, _ in lines), where every item has a line
  unfoldable pub set_count : List (SelectedMatch W) → ℕ
  set_count [] = 0
  set_count (i ∷ history) = length i.result.sets + set_count history

module _ {W : Type 0} (num : Float W) where
  -- _match_win_rate
  unfoldable pub match_win_rate : FeatureKey → Text → List (SelectedMatch W) → FeatureValue W
  unfolding ratio_feature
  match_win_rate key team_id history =
      ratio_feature num key (num.of_count (count (team_won team_id) history))
        (num.of_count (length history)) (length history) (lineage_of history [] [])

  -- _recent_set_win_rate, with its window
  unfoldable pub recent_set_win_rate : Text → List (SelectedMatch W) → FeatureValue W
  unfolding ratio_feature recent_sets
  recent_set_win_rate team_id history =
      let (outcomes, used) = recent_sets team_id 10 history in
      ratio_feature num recent_10_set_win_rate (num.of_count (count (λ b. b) outcomes))
        (num.of_count (length outcomes)) (length outcomes) (lineage_of used [] [])

  -- _venue_split_win_rate
  unfoldable pub venue_split : Text → Bool → List (SelectedMatch W) → FeatureValue W
  unfolding match_win_rate
  venue_split team_id at_home history = match_win_rate venue_split_win_rate team_id (
      select
        (λ i.
          text_eq (if at_home then i.schedule.home_team_id else i.schedule.away_team_id) team_id)
        history)

  -- _matchup_features
  unfoldable pub matchup_features : TargetMatch → List (SelectedMatch W) → List (FeatureValue W)
  unfolding match_win_rate
  matchup_features target selected =
      match_win_rate head_to_head_home_win_rate target.home_team_id
        (take 5 (select (is_head_to_head target) selected))
      ∷ []

  -- The numerator and the denominator of a metric.
  abbrev pub metric_parts : FeatureKey → List (SelectedMatch W) → List (StatLine W) → Built (W × W)
  metric_parts attack_efficiency history lines = do
    n ←
        sum_of num
          (λ line. value_at (codes "attack_kills") line >>= λ kills.
            value_at (codes "attack_errors") line >>= λ errors. built (num.sub kills errors))
          lines
    d ← sum_of num (value_at (codes "attack_attempts")) lines
    built (n, d)
  metric_parts serve_ace_rate history lines = do
    n ← sum_of num (value_at (codes "serve_aces")) lines
    d ← sum_of num (value_at (codes "serve_attempts")) lines
    built (n, d)
  metric_parts receive_efficiency history lines = do
    n ← sum_of num (value_at (codes "receive_successes")) lines
    d ← sum_of num (value_at (codes "receive_attempts")) lines
    built (n, d)
  metric_parts block_points_per_set history lines = do
    n ← sum_of num (value_at (codes "block_points")) lines
    built (n, num.of_count (set_count history))
  metric_parts errors_per_set history lines = do
    n ← sum_of num (value_at (codes "errors")) lines
    built (n, num.of_count (set_count history))
  metric_parts _ history lines = failed value_error

  abbrev pub measure : FeatureKey → List (SelectedMatch W) → Scanned W → Built (FeatureValue W)
  measure key history (no_line n) =
      built (unknown_value key missing_input n (lineage_of history [] []))
  measure key history (unusable reason n line) =
      built (unknown_value key reason n (lineage_of history [] (line ∷ [])))
  measure key history (all_lines lines) = do
    (n, d) ← metric_parts key history lines
    built (ratio_feature num key n d (length lines) (lineage_of history [] lines))

  -- _team_metric
  unfoldable pub team_metric :
      FeatureKey → Text → List (SelectedMatch W) → List Text → Built (FeatureValue W)
  unfolding scan_lines sum_from set_count
  team_metric key team_id [] required_keys =
      built (unknown_value key no_prior_matches 0 (lineage_of {W = W} [] [] []))
  team_metric key team_id (i ∷ history) required_keys =
      measure key (i ∷ history) (scan_lines team_id required_keys (i ∷ history))

  -- _team_features
  unfoldable pub team_features :
      Text → Bool → List (SelectedMatch W) → Built (List (FeatureValue W))
  unfolding team_metric
  team_features team_id at_home history = do
    attack ←
        team_metric attack_efficiency team_id history
          (codes "attack_kills" ∷ codes "attack_errors" ∷ codes "attack_attempts" ∷ [])
    serve ←
        team_metric serve_ace_rate team_id history
          (codes "serve_aces" ∷ codes "serve_attempts" ∷ [])
    block ← team_metric block_points_per_set team_id history (codes "block_points" ∷ [])
    receive ←
        team_metric receive_efficiency team_id history
          (codes "receive_successes" ∷ codes "receive_attempts" ∷ [])
    errors ← team_metric errors_per_set team_id history (codes "errors" ∷ [])
    built (
        match_win_rate recent_5_match_win_rate team_id (take 5 history)
        ∷ match_win_rate recent_10_match_win_rate team_id (take 10 history)
        ∷ recent_set_win_rate team_id history
        ∷ match_win_rate season_win_rate team_id history
        ∷ venue_split team_id at_home history
        ∷ attack
        ∷ serve
        ∷ block
        ∷ receive
        ∷ errors
        ∷ [])
