-- ===== src/Features/Tests.antt =====
-- A target match, a match played before it, and the rosters of two teams; a float is a natural
-- number here.
use vlytics.Features.{
  aware, historical_point_in_time, match_scope, Float, StatLine, ResultRevision,
  MatchScheduleRevision, HistoricalMatch, TargetMatch, RosterRevision, FeatureSnapshot,
}
use vlytics.Features.Selection.{
  select_history, select_rosters, keep_all, keep_newest, sort_rosters, insert_roster,
}
use vlytics.Features.Builder.{build}
use vlytics.Features.Known.{build_reads_no_future}
use vlytics.Features.Answers.{Refuses}
use vlytics.Features.Recent.{select_history_lem, IsRecentFirst, is_selected}
use vlytics.Features.Past.{IsPastOf}
use vlytics.Features.Answered.{build-Answers, IsBuilt, has_shared, listed_ids}
use vlytics.Prelude.{
  Option, arith, first, ℕ, ◌+◌, ◌-◌, ◌/◌, ◌==◌, Text, codes, some, List, [], ◌∷◌, ◌≡◌, refl, true,
  All, text_eq, count, ◌&&◌, select, text_before, false,
}

abbrev whole : Float ℕ
whole = record {
  zero = 0;
  add = λ x y. x + y;
  sub = λ x y. x - y;
  div = λ x y. x / y;
  of_count = λ n. n;
  is_zero = λ n. n == 0;
  is_finite = λ n. true;
}

abbrev document : FeatureSnapshot ℕ → Option Text
document s = some s.target_match_id

abbrev sha256 : Text → Text
sha256 t = t

abbrev target : TargetMatch
target = record {
  id = codes "t";
  schedule_revision_id = codes "ts";
  season_id = codes "s";
  competition_id = codes "c";
  scheduled_start_at = 5_000_000_000;
  schedule_observed_at = 1;
  home_team_id = codes "h";
  away_team_id = codes "a";
}

abbrev line : StatLine ℕ
line = record {
  metric_schema_version = codes "volleyball-boxscore-v1";
  values = (codes "attack_attempts", 40) ∷ (codes "errors", 9) ∷ [];
  scope = match_scope;
}

abbrev first_result : ResultRevision ℕ
first_result = record {
  id = codes "r1";
  revision = 1;
  observed_at = 20;
  raw_snapshot_sha256 = codes "x";
  home_sets = 3;
  away_sets = 0;
  sets = record { home_points = 25; away_points = 20 } ∷ [];
  finality = codes "final";
  team_stats = (codes "h", line) ∷ (codes "a", line) ∷ [];
  player_stats = (codes "p", record { team_id = codes "h"; stats = line }) ∷ [];
  roster_player_ids = (codes "h", codes "p" ∷ []) ∷ [];
}

-- It was observed after the cutoff.
abbrev late_result : ResultRevision ℕ
late_result = record first_result {
  id = codes "r2";
  revision = 2;
  observed_at = 1_400_000_001;
  home_sets = 0;
  away_sets = 3;
}

abbrev schedule : MatchScheduleRevision
schedule = record {
  id = codes "m1";
  revision = 1;
  observed_at = 10;
  raw_snapshot_sha256 = codes "y";
  scheduled_start_at = 500;
  ended_at = some 1000;
  home_team_id = codes "h";
  away_team_id = codes "a";
}

abbrev played : List (ResultRevision ℕ) → List (HistoricalMatch ℕ)
played results =
    record {
      id = codes "m";
      season_id = codes "s";
      competition_id = codes "c";
      schedule_revisions = schedule ∷ [];
      result_revisions = results;
    }
    ∷ []

abbrev roster : Text → Text → RosterRevision
roster team_id player_id = record {
  id = codes "l";
  target_match_id = codes "t";
  team_id = team_id;
  revision = 1;
  observed_at = 30;
  raw_snapshot_sha256 = codes "z";
  player_ids = player_id ∷ [];
  complete = true;
}

abbrev rosters : List RosterRevision
rosters = roster (codes "h") (codes "p") ∷ roster (codes "a") (codes "q") ∷ []

build_reads_no_future_example :
    build whole document sha256 target 1_400_000_000
      (aware 1_500_000_000)
      historical_point_in_time
      (played (first_result ∷ late_result ∷ []))
      rosters
    ≡ build whole document sha256 target 1_400_000_000
        (aware 1_500_000_000)
        historical_point_in_time
        (played (first_result ∷ []))
        rosters
unfolding select
build_reads_no_future_example =
    build_reads_no_future target 1_400_000_000 historical_point_in_time refl whole document sha256
      (aware 1_500_000_000) (played (first_result ∷ late_result ∷ [])) (played (first_result ∷ []))
      rosters rosters refl refl

select_history_example :
    All
      (IsPastOf target 1_400_000_000 historical_point_in_time (played (first_result ∷ [])))
      (select_history target 1_400_000_000 historical_point_in_time (played (first_result ∷ [])))
    × IsRecentFirst
        (select_history target 1_400_000_000 historical_point_in_time (played (first_result ∷ [])))
    × ((id : Text)
        → count
            (λ i. text_eq id i.match_id)
            (select_history target 1_400_000_000 historical_point_in_time
              (played (first_result ∷ [])))
          ≡ count
              (λ m. text_eq id m.id && is_selected target 1_400_000_000 historical_point_in_time m)
              (played (first_result ∷ [])))
select_history_example =
    select_history_lem target 1_400_000_000 historical_point_in_time (played (first_result ∷ []))

build-Answers_example : Refuses false (IsBuilt whole document sha256 (codes "q" ∷ codes "p" ∷ [])) (
    build whole document sha256 target 1_400_000_000
      (aware 1_500_000_000)
      historical_point_in_time
      (played (first_result ∷ late_result ∷ []))
      rosters)
unfolding select_rosters has_shared listed_ids select keep_all keep_newest sort_rosters
    insert_roster text_before text_eq first
build-Answers_example =
    build-Answers whole (λ n. ground arith) document sha256 target 1_400_000_000
      (aware 1_500_000_000) historical_point_in_time (played (first_result ∷ late_result ∷ []))
      rosters
