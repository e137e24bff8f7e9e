-- ===== src/Features.antt =====
-- The facts and the feature values of backend/src/vlytics/engine/features/models.py, and the windows
-- and samples of engine/features/definitions.py. A dictionary is the list of its entries.
pub mod Definitions
pub mod Selection
pub mod Values
pub mod Team
pub mod Player
pub mod Builder
mod Known
mod Past
mod Recent
mod Sound
mod Lines
mod Metrics
mod Rows
mod Rates
mod Answers
mod Answered
mod Tests
use vlytics.Prelude.{
  true, ℕ, Bool, ◌&&◌, not, Option, none, some, List, [], ◌∷◌, Text, text_eq, is_some,
  if◌then◌else◌,
}

-- A point of time, without a time zone or with one.
pub data DateTime : Type 0 where
  naive aware : ℕ → DateTime

pub data AvailabilityPolicy : Type 0 where
  historical_reconstruction historical_point_in_time live_prospective : AvailabilityPolicy

pub data MetricScope : Type 0 where
  match_scope cumulative : MetricScope

pub data MissingReason : Type 0 where
  no_prior_matches insufficient_sample missing_input source_metric_unverified : MissingReason
  cumulative_value_rejected zero_denominator lineup_unavailable : MissingReason

pub data FeatureStatus : Type 0 where
  available unknown : FeatureStatus

pub data LineupStatus : Type 0 where
  known_lineup partial_lineup unknown_lineup : LineupStatus

-- What the code does with a float.
pub record Float (W : Type 0) : Type 0 where
  pub zero : W
  pub add : W → W → W
  pub sub : W → W → W
  pub div : W → W → W
  pub of_count : ℕ → W
  pub is_zero : W → Bool
  pub is_finite : W → Bool

pub record SetScore : Type 0 where
  pub home_points : ℕ
  pub away_points : ℕ

module _ (W : Type 0) where
  pub record StatLine : Type 0 where
    pub metric_schema_version : Text
    pub values : List (Text × W)
    pub scope : MetricScope

  pub record PlayerStatLine : Type 0 where
    pub team_id : Text
    pub stats : StatLine

  pub record ResultRevision : Type 0 where
    pub id : Text
    pub revision : ℕ
    pub observed_at : ℕ
    pub raw_snapshot_sha256 : Text
    pub home_sets : ℕ
    pub away_sets : ℕ
    pub sets : List SetScore
    pub finality : Text
    pub team_stats : List (Text × StatLine)
    pub player_stats : List (Text × PlayerStatLine)
    pub roster_player_ids : List (Text × List Text)

pub record MatchScheduleRevision : Type 0 where
  pub id : Text
  pub revision : ℕ
  pub observed_at : ℕ
  pub raw_snapshot_sha256 : Text
  pub scheduled_start_at : ℕ
  pub ended_at : Option ℕ
  pub home_team_id : Text
  pub away_team_id : Text

pub record HistoricalMatch (W : Type 0) : Type 0 where
  pub id : Text
  pub season_id : Text
  pub competition_id : Text
  pub schedule_revisions : List MatchScheduleRevision
  pub result_revisions : List (ResultRevision W)

pub record TargetMatch : Type 0 where
  pub id : Text
  pub schedule_revision_id : Text
  pub season_id : Text
  pub competition_id : Text
  pub scheduled_start_at : ℕ
  pub schedule_observed_at : ℕ
  pub home_team_id : Text
  pub away_team_id : Text

pub record RosterRevision : Type 0 where
  pub id : Text
  pub target_match_id : Text
  pub team_id : Text
  pub revision : ℕ
  pub observed_at : ℕ
  pub raw_snapshot_sha256 : Text
  pub player_ids : List Text
  pub complete : Bool

pub record FeatureLineage : Type 0 where
  pub included_match_ids : List Text
  pub schedule_revision_ids : List Text
  pub result_revision_ids : List Text
  pub raw_snapshot_sha256 : List Text
  pub roster_revision_ids : List Text
  pub metric_schema_versions : List Text

-- The keys of FEATURE_DEFINITIONS.
pub data FeatureKey : Type 0 where
  recent_5_match_win_rate recent_10_match_win_rate recent_10_set_win_rate season_win_rate :
      FeatureKey
  venue_split_win_rate head_to_head_home_win_rate attack_efficiency serve_ace_rate : FeatureKey
  block_points_per_set receive_efficiency errors_per_set attack_share_recent_5 : FeatureKey
  attack_share_trend_3v3 : FeatureKey

pub record FeatureValue (W : Type 0) : Type 0 where
  pub definition : FeatureKey
  pub status : FeatureStatus
  pub value : Option W
  pub numerator : Option W
  pub denominator : Option W
  pub sample_size : ℕ
  pub missing_reason : Option MissingReason
  pub lineage : FeatureLineage

-- What FeatureValue.__post_init__ demands.
abbrev pub is_consistent : {W : Type 0} → FeatureValue W → Bool
is_consistent v = elim v.status [
  | available ↦ is_some v.value && not (is_some v.missing_reason)
  | unknown ↦ not (is_some v.value) && is_some v.missing_reason
]

pub record PlayerFeatures (W : Type 0) : Type 0 where
  pub team_id : Text
  pub side : Text
  pub features : List (FeatureValue W)

-- The values stand under the keys of their definitions.
pub record FeatureSnapshot (W : Type 0) : Type 0 where
  pub availability_policy : AvailabilityPolicy
  pub target_match_id : Text
  pub schedule_revision_id : Text
  pub cutoff_at : ℕ
  pub captured_at : ℕ
  pub lineup_status : LineupStatus
  pub home_features : List (FeatureValue W)
  pub away_features : List (FeatureValue W)
  pub matchup_features : List (FeatureValue W)
  pub players : List (Text × PlayerFeatures W)
  pub lineage : FeatureLineage
  pub sha256 : Text

-- The numbers that FeatureValue.to_dict writes.
abbrev is_finite_or_none : {W : Type 0} → Float W → Option W → Bool
is_finite_or_none num none = true
is_finite_or_none num (some x) = num.is_finite x

abbrev is_finite_value : {W : Type 0} → Float W → FeatureValue W → Bool
is_finite_value num v =
    is_finite_or_none num v.value
    && (is_finite_or_none num v.numerator && is_finite_or_none num v.denominator)

abbrev are_finite : {W : Type 0} → Float W → List (FeatureValue W) → Bool
are_finite num [] = true
are_finite num (v ∷ values) = is_finite_value num v && are_finite num values

abbrev are_finite_players : {W : Type 0} → Float W → List (Text × PlayerFeatures W) → Bool
are_finite_players num [] = true
are_finite_players num ((p, f) ∷ players) =
    are_finite num f.features && are_finite_players num players

abbrev pub is_finite_snapshot : {W : Type 0} → Float W → FeatureSnapshot W → Bool
is_finite_snapshot num s =
    are_finite num s.home_features
    && (are_finite num s.away_features
        && (are_finite num s.matchup_features && are_finite_players num s.players))

-- d.get(key)
unfoldable pub get : {A : Type 0} → Text → List (Text × A) → Option A
get key [] = none
get key ((k, a) ∷ entries) = if text_eq key k then some a else get key entries

pub data BuildError : Type 0 where
  value_error key_error : BuildError

-- A value, or the exception that was raised.
pub data Built (A : Type 0) : Type 0 where
  failed : BuildError → Built A
  built : A → Built A

infixl 5 ◌>>=◌
abbrev pub ◌>>=◌ : {A B : Type 0} → Built A → (A → Built B) → Built B
◌>>=◌ (failed e) next = failed e
◌>>=◌ (built a) next = next a

-- `document` is the JSON of a snapshot in UTF-8, or none where a text has no such encoding, and
-- `sha256` the digest of a text. A number that is not finite has no JSON (allow_nan=False).
unfoldable pub compute_snapshot_sha256 :
    {W : Type 0}
    → Float W
    → (FeatureSnapshot W → Option Text)
    → (Text → Text)
    → FeatureSnapshot W
    → Built Text
compute_snapshot_sha256 num document sha256 s =
    if is_finite_snapshot num s
    then elim (document s) [ none ↦ failed value_error | some bytes ↦ built (sha256 bytes) ]
    else failed value_error
