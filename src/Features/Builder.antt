-- ===== src/Features/Builder.antt =====
-- `AsOfFeatureBuilder.build` (as_of_v2.py).
use vlytics.Features.{
  DateTime, naive, aware, compute_snapshot_sha256, AvailabilityPolicy, HistoricalMatch, TargetMatch,
  RosterRevision, FeatureSnapshot, Float, Built, failed, built, value_error, ◌>>=◌,
}
use vlytics.Features.Selection.{
  is_strict, SelectedMatch, select_history, select_rosters, lineup_status,
}
use vlytics.Features.Values.{lineage_of}
use vlytics.Features.Team.{team_history, team_features, matchup_features}
use vlytics.Features.Player.{player_features}
use vlytics.Prelude.{
  Bool, Option, ℕ, true, false, not, ◌&&◌, List, [], Text, ◌==◌, ◌+◌, ltb, if◌then◌else◌,
}

-- _require_aware
abbrev pub is_aware : DateTime → Bool
is_aware (naive t) = false
is_aware (aware t) = true

abbrev pub instant_of : DateTime → ℕ
instant_of (naive t) = t
instant_of (aware t) = t

module _ {W : Type 0} (num : Float W) where
  -- The snapshot of what was selected, before its digest.
  unfoldable pub snapshot_of :
      TargetMatch
      → ℕ
      → ℕ
      → AvailabilityPolicy
      → List (SelectedMatch W)
      → List RosterRevision
      → Built (FeatureSnapshot W)
  unfolding team_features matchup_features player_features lineage_of
  snapshot_of target cutoff_at captured_at policy selected rosters = do
    home ← team_features num target.home_team_id true (team_history selected target.home_team_id)
    away ← team_features num target.away_team_id false (team_history selected target.away_team_id)
    players ← player_features num target selected rosters []
    built (record {
      availability_policy = policy;
      target_match_id = target.id;
      schedule_revision_id = target.schedule_revision_id;
      cutoff_at = cutoff_at;
      captured_at = captured_at;
      lineup_status = lineup_status target rosters;
      home_features = home;
      away_features = away;
      matchup_features = matchup_features num target selected;
      players = players;
      lineage = lineage_of selected rosters [];
      sha256 = [];
    })

module _ {W : Type 0} (num : Float W) (document : FeatureSnapshot W → Option Text)
    (sha256 : Text → Text) where
  -- replace(snapshot, sha256=compute_snapshot_sha256(snapshot))
  unfoldable pub with_digest : FeatureSnapshot W → Built (FeatureSnapshot W)
  unfolding compute_snapshot_sha256
  with_digest snapshot = do
    digest ← compute_snapshot_sha256 num document sha256 snapshot
    built (record snapshot { sha256 = digest })

  -- The cutoff is 60 minutes before the start, which has a time zone, so one without is refused too.
  unfoldable pub build :
      TargetMatch
      → ℕ
      → DateTime
      → AvailabilityPolicy
      → List (HistoricalMatch W)
      → List RosterRevision
      → Built (FeatureSnapshot W)
  unfolding snapshot_of with_digest select_history select_rosters
  build target cutoff_at captured_at policy matches roster_revisions =
      if not (cutoff_at + 3_600_000_000 == target.scheduled_start_at)
      then failed value_error
      else if not (is_aware captured_at)
      then failed value_error
      else if is_strict policy && ltb cutoff_at target.schedule_observed_at
      then failed value_error
      else (snapshot_of num target cutoff_at (instant_of captured_at) policy
            (select_history target cutoff_at policy matches)
            (select_rosters target cutoff_at roster_revisions)
          >>= with_digest)
