-- ===== src/Features/Player.antt =====
-- The features of the players of the target match (as_of_v2.py).
use vlytics.Features.{
  MissingReason, missing_input, insufficient_sample, zero_denominator, Float, TargetMatch,
  RosterRevision, FeatureLineage, attack_share_recent_5, attack_share_trend_3v3, FeatureValue,
  PlayerFeatures, StatLine, PlayerStatLine, Built, failed, built, value_error, get, ◌>>=◌,
}
use vlytics.Features.Definitions.{min_samples}
use vlytics.Features.Selection.{SelectedMatch}
use vlytics.Features.Values.{
  lineage_of, unknown_value, available_value, value_at, ratio_feature, sum_from, sum_of,
}
use vlytics.Features.Team.{take, team_history, metric_line_reason}
use vlytics.Prelude.{
  ℕ, zero, suc, Bool, false, ◌||◌, Option, none, some, List, [], ◌∷◌, ◌++◌, map, length, Text,
  text_eq, codes, unique, member, is_some, ltb, if◌then◌else◌, select,
}

abbrev pub drop : {A : Type 0} → ℕ → List A → List A
drop zero xs = xs
drop (suc n) [] = []
drop (suc n) (x ∷ xs) = drop n xs

-- _PlayerMetricRow, without the match, which is not read.
pub record PlayerMetricRow (W : Type 0) : Type 0 where
  pub player : PlayerStatLine W
  pub team : StatLine W

module _ {W : Type 0} where
  -- player_id in roster_player_ids.get(team_id, ())
  abbrev pub appears : Text → Text → SelectedMatch W → Bool
  appears player_id team_id i = elim (get team_id i.result.roster_player_ids) [
    | none ↦ false
    | some ids ↦ member player_id ids
  ]

  -- The reason that the rows of a match cannot be used.
  abbrev pub row_reason : PlayerStatLine W → StatLine W → Text → Option MissingReason
  row_reason player team team_id =
      if text_eq player.team_id team_id
      then elim (metric_line_reason player.stats (codes "attack_attempts" ∷ [])) [
        | some reason ↦ some reason
        | none ↦ metric_line_reason team (codes "attack_attempts" ∷ [])
      ]
      else some missing_input

  abbrev pub row_on :
      PlayerMetricRow W
      → List (PlayerMetricRow W) × Option MissingReason
      → List (PlayerMetricRow W) × Option MissingReason
  row_on row (rows, reason) = (row ∷ rows, reason)

  abbrev pub row_checked :
      Option MissingReason
      → PlayerMetricRow W
      → List (PlayerMetricRow W) × Option MissingReason
      → List (PlayerMetricRow W) × Option MissingReason
  row_checked none row rest = row_on row rest
  row_checked (some reason) row rest = ([], some reason)

  abbrev pub scan_row :
      Text
      → Option (PlayerStatLine W)
      → Option (StatLine W)
      → List (PlayerMetricRow W) × Option MissingReason
      → List (PlayerMetricRow W) × Option MissingReason
  scan_row team_id none team rest = ([], some missing_input)
  scan_row team_id (some player) none rest = ([], some missing_input)
  scan_row team_id (some player) (some team) rest =
      row_checked (row_reason player team team_id) (record { player = player; team = team }) rest

  -- The loop of _player_metric_rows.
  unfoldable pub scan_rows :
      Text → Text → List (SelectedMatch W) → List (PlayerMetricRow W) × Option MissingReason
  unfolding metric_line_reason
  scan_rows player_id team_id [] = ([], none)
  scan_rows player_id team_id (i ∷ items) =
      scan_row team_id (get player_id i.result.player_stats) (get team_id i.result.team_stats)
        (scan_rows player_id team_id items)

  unfoldable pub player_metric_rows :
      Text → Text → List (SelectedMatch W) → List (PlayerMetricRow W) × Option MissingReason
  unfolding scan_rows
  player_metric_rows player_id team_id [] = ([], some missing_input)
  player_metric_rows player_id team_id (i ∷ items) = scan_rows player_id team_id (i ∷ items)

  abbrev pub lines_of : List (PlayerMetricRow W) → List (StatLine W)
  lines_of [] = []
  lines_of (row ∷ rows) = row.player.stats ∷ row.team ∷ lines_of rows

  -- _player_lineage
  unfoldable pub player_lineage :
      List (SelectedMatch W) → List (PlayerMetricRow W) → FeatureLineage → FeatureLineage
  unfolding lineage_of unique
  player_lineage appearances rows roster_lineage =
      let base = lineage_of appearances [] (lines_of rows) in
      record base {
        raw_snapshot_sha256 =
            unique (base.raw_snapshot_sha256 ++ roster_lineage.raw_snapshot_sha256);
        roster_revision_ids = roster_lineage.roster_revision_ids;
      }

  abbrev pub player_line : PlayerMetricRow W → StatLine W
  player_line row = row.player.stats

  abbrev pub team_line : PlayerMetricRow W → StatLine W
  team_line row = row.team

module _ {W : Type 0} (num : Float W) where
  -- The attempts of the lines.
  abbrev pub attempts : List (StatLine W) → Built W
  attempts = sum_of num (value_at (codes "attack_attempts"))

  abbrev pub share_of_rows :
      ℕ → List (PlayerMetricRow W) × Option MissingReason → FeatureLineage → Built (FeatureValue W)
  share_of_rows n (rows, some reason) lineage =
      built (unknown_value attack_share_recent_5 reason n lineage)
  share_of_rows n (rows, none) lineage = do
    numerator ← attempts (map player_line rows)
    denominator ← attempts (map team_line rows)
    built (ratio_feature num attack_share_recent_5 numerator denominator n lineage)

  -- _player_attack_share
  unfoldable pub player_attack_share :
      List (SelectedMatch W) → Text → Text → FeatureLineage → Built (FeatureValue W)
  unfolding player_metric_rows player_lineage sum_from ratio_feature
  player_attack_share appearances player_id team_id roster_lineage =
      let rows = player_metric_rows player_id team_id appearances in
      share_of_rows (length appearances) rows (player_lineage appearances rows.0 roster_lineage)

  abbrev pub trend_of_sums : ℕ → W → W → W → W → FeatureLineage → FeatureValue W
  trend_of_sums n player team earlier_player earlier_team lineage =
      if num.is_zero team || num.is_zero earlier_team
      then unknown_value attack_share_trend_3v3 zero_denominator n lineage
      else (let difference = num.sub (num.div player team) (num.div earlier_player earlier_team) in
          available_value attack_share_trend_3v3 difference difference (num.of_count 1) n lineage)

  abbrev pub trend_of_rows :
      ℕ → List (PlayerMetricRow W) × Option MissingReason → FeatureLineage → Built (FeatureValue W)
  trend_of_rows n (rows, some reason) lineage =
      built (unknown_value attack_share_trend_3v3 reason n lineage)
  trend_of_rows n (rows, none) lineage =
      if ltb n (min_samples attack_share_trend_3v3)
      then built (unknown_value attack_share_trend_3v3 insufficient_sample n lineage)
      else (attempts (map team_line (take 3 rows)) >>= λ team.
          attempts (map team_line (take 3 (drop 3 rows))) >>= λ earlier_team.
          attempts (map player_line (take 3 rows)) >>= λ player.
          attempts (map player_line (take 3 (drop 3 rows))) >>= λ earlier_player.
          built (trend_of_sums n player team earlier_player earlier_team lineage))

  -- _player_attack_trend
  unfoldable pub player_attack_trend :
      List (SelectedMatch W) → Text → Text → FeatureLineage → Built (FeatureValue W)
  unfolding player_metric_rows player_lineage sum_from
  player_attack_trend appearances player_id team_id roster_lineage =
      let rows = player_metric_rows player_id team_id appearances in
      trend_of_rows (length appearances) rows (player_lineage appearances rows.0 roster_lineage)

  -- What the loop over the players makes for one.
  unfoldable pub features_of_player :
      TargetMatch → List (SelectedMatch W) → RosterRevision → Text → Built (PlayerFeatures W)
  unfolding player_attack_share player_attack_trend lineage_of
  features_of_player target selected roster player_id =
      let appearances =
        select (appears player_id roster.team_id) (team_history selected roster.team_id) in
      let lineage = lineage_of {W = W} [] (roster ∷ []) [] in
      player_attack_share (take 5 appearances) player_id roster.team_id lineage >>= λ share.
      player_attack_trend (take 6 appearances) player_id roster.team_id lineage >>= λ trend.
      built (record {
        team_id = roster.team_id;
        side = if text_eq roster.team_id target.home_team_id then codes "home" else codes "away";
        features = share ∷ trend ∷ [];
      })

  unfoldable pub add_players :
      TargetMatch
      → List (SelectedMatch W)
      → RosterRevision
      → List Text
      → List (Text × PlayerFeatures W)
      → Built (List (Text × PlayerFeatures W))
  unfolding features_of_player
  add_players target selected roster [] players = built players
  add_players target selected roster (p ∷ ids) players =
      let rest =
        (features_of_player target selected roster p >>= λ f.
        add_players target selected roster ids (players ++ (p, f) ∷ [])) in
      if is_some (get p players) then failed value_error else rest

  -- _player_features, from the players of earlier rosters on
  unfoldable pub player_features :
      TargetMatch
      → List (SelectedMatch W)
      → List RosterRevision
      → List (Text × PlayerFeatures W)
      → Built (List (Text × PlayerFeatures W))
  unfolding add_players
  player_features target selected [] players = built players
  player_features target selected (roster ∷ rosters) players = do
    more ← add_players target selected roster roster.player_ids players
    player_features target selected rosters more
