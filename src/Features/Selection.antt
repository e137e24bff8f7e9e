-- ===== src/Features/Selection.antt =====
-- Which facts `AsOfFeatureBuilder` of backend/src/vlytics/engine/features/as_of_v2.py reads.
use vlytics.Features.{
  AvailabilityPolicy, historical_reconstruction, historical_point_in_time, live_prospective,
  LineupStatus, known_lineup, partial_lineup, unknown_lineup, ResultRevision, MatchScheduleRevision,
  HistoricalMatch, TargetMatch, RosterRevision,
}
use vlytics.Prelude.{
  ℕ, Bool, true, false, not, ◌&&◌, ◌||◌, Option, none, some, List, [], ◌∷◌, Text, text_eq,
  text_before, codes, ltb, leb, ◌==◌, if◌then◌else◌, first, select,
}

-- The policies other than the reconstruction are strict.
abbrev pub is_strict : AvailabilityPolicy → Bool
is_strict historical_reconstruction = false
is_strict historical_point_in_time = true
is_strict live_prospective = true

abbrev pub may_read : AvailabilityPolicy → ℕ → ℕ → Bool
may_read policy cutoff_at observed_at = not (is_strict policy) || leb observed_at cutoff_at

-- max(…): the first of the greatest
module _ {A : Type 0} (is_newer : A → A → Bool) where
  unfoldable pub latest_from : A → List A → A
  latest_from best [] = best
  latest_from best (x ∷ xs) = latest_from (if is_newer x best then x else best) xs

  abbrev pub latest : List A → Option A
  latest [] = none
  latest (x ∷ xs) = some (latest_from x xs)

-- The order of pairs (revision, observed_at).
abbrev pub is_later : ℕ → ℕ → ℕ → ℕ → Bool
is_later revision observed_at revision' observed_at' =
    ltb revision' revision || (revision == revision' && ltb observed_at' observed_at)

abbrev pub is_newer_schedule : MatchScheduleRevision → MatchScheduleRevision → Bool
is_newer_schedule a b = is_later a.revision a.observed_at b.revision b.observed_at

unfoldable pub select_schedule :
    AvailabilityPolicy → ℕ → List MatchScheduleRevision → Option MatchScheduleRevision
unfolding latest_from
select_schedule policy cutoff_at revisions =
    latest is_newer_schedule (select (λ r. may_read policy cutoff_at r.observed_at) revisions)

abbrev pub is_newer_roster : RosterRevision → RosterRevision → Bool
is_newer_roster a b = is_later a.revision a.observed_at b.revision b.observed_at

-- latest[revision.team_id] = revision, unless there is one that is as new
unfoldable pub keep_newest : RosterRevision → List RosterRevision → List RosterRevision
keep_newest r [] = r ∷ []
keep_newest r (s ∷ rosters) =
    let rest = keep_newest r rosters in
    if text_eq r.team_id s.team_id
    then (if is_newer_roster r s then r else s) ∷ rosters
    else s ∷ rest

unfoldable pub keep_all : List RosterRevision → List RosterRevision → List RosterRevision
unfolding keep_newest
keep_all [] kept = kept
keep_all (r ∷ revisions) kept = keep_all revisions (keep_newest r kept)

-- sorted(…, key=team_id)
unfoldable pub insert_roster : RosterRevision → List RosterRevision → List RosterRevision
insert_roster r [] = r ∷ []
insert_roster r (s ∷ rosters) =
    let rest = insert_roster r rosters in
    if text_before r.team_id s.team_id then r ∷ s ∷ rosters else s ∷ rest

unfoldable pub sort_rosters : List RosterRevision → List RosterRevision
unfolding insert_roster
sort_rosters [] = []
sort_rosters (r ∷ rosters) = insert_roster r (sort_rosters rosters)

abbrev pub is_of_target : TargetMatch → ℕ → RosterRevision → Bool
is_of_target target cutoff_at r =
    text_eq r.target_match_id target.id
    && (leb r.observed_at cutoff_at
        && (text_eq r.team_id target.home_team_id || text_eq r.team_id target.away_team_id))

unfoldable pub select_rosters : TargetMatch → ℕ → List RosterRevision → List RosterRevision
unfolding keep_all sort_rosters
select_rosters target cutoff_at revisions =
    sort_rosters (keep_all (select (is_of_target target cutoff_at) revisions) [])

abbrev pub batch_of : Text → List RosterRevision → Option RosterRevision
batch_of team_id = first (λ r. text_eq r.team_id team_id)

abbrev pub is_complete_batch : Option RosterRevision → Bool
is_complete_batch none = false
is_complete_batch (some r) = r.complete

abbrev pub lineup_status : TargetMatch → List RosterRevision → LineupStatus
lineup_status target rosters =
    if is_complete_batch (batch_of target.home_team_id rosters)
      && is_complete_batch (batch_of target.away_team_id rosters)
    then known_lineup
    else elim rosters [ [] ↦ unknown_lineup | _ ∷ _ ↦ partial_lineup ]

module _ {W : Type 0} where
  abbrev pub is_newer_result : ResultRevision W → ResultRevision W → Bool
  is_newer_result a b = is_later a.revision a.observed_at b.revision b.observed_at

  unfoldable pub select_result :
      AvailabilityPolicy → ℕ → List (ResultRevision W) → Option (ResultRevision W)
  unfolding latest_from
  select_result policy cutoff_at revisions =
      latest is_newer_result (select (λ r. may_read policy cutoff_at r.observed_at) revisions)

-- schedule.ended_at is not None and schedule.ended_at < cutoff_at
abbrev pub has_ended : ℕ → MatchScheduleRevision → Bool
has_ended cutoff_at s = elim s.ended_at [ none ↦ false | some t ↦ ltb t cutoff_at ]

-- _SelectedMatch. Of the match, only the id is read.
pub record SelectedMatch (W : Type 0) : Type 0 where
  pub match_id : Text
  pub schedule : MatchScheduleRevision
  pub result : ResultRevision W

module _ {W : Type 0} where
  abbrev pub is_comparable : TargetMatch → HistoricalMatch W → Bool
  is_comparable target m =
      not (text_eq m.id target.id)
      && (text_eq m.season_id target.season_id && text_eq m.competition_id target.competition_id)

  -- What the loop does with a match once its revisions are selected.
  abbrev pub take_match :
      ℕ
      → Text
      → Option MatchScheduleRevision
      → Option (ResultRevision W)
      → List (SelectedMatch W)
      → List (SelectedMatch W)
  take_match cutoff_at id none result rest = rest
  take_match cutoff_at id (some s) none rest = rest
  take_match cutoff_at id (some s) (some r) rest =
      if has_ended cutoff_at s && not (text_eq r.finality (codes "void"))
      then record { match_id = id; schedule = s; result = r } ∷ rest
      else rest

  unfoldable pub collect :
      TargetMatch → ℕ → AvailabilityPolicy → List (HistoricalMatch W) → List (SelectedMatch W)
  unfolding select_schedule select_result
  collect target cutoff_at policy [] = []
  collect target cutoff_at policy (m ∷ matches) =
      let rest = collect target cutoff_at policy matches in
      if is_comparable target m
      then take_match cutoff_at m.id (select_schedule policy cutoff_at m.schedule_revisions)
          (select_result policy cutoff_at m.result_revisions) rest
      else rest

  -- The end of a selected match is known.
  abbrev pub end_of : SelectedMatch W → ℕ
  end_of item = elim item.schedule.ended_at [ none ↦ 0 | some t ↦ t ]

  -- (ended_at, match.id) is as great
  abbrev pub is_as_recent : SelectedMatch W → SelectedMatch W → Bool
  is_as_recent a b =
      ltb (end_of b) (end_of a) || (end_of a == end_of b && text_before b.match_id a.match_id)

  -- sorted(…, reverse=True), which keeps the order of equal items
  unfoldable pub insert_match : SelectedMatch W → List (SelectedMatch W) → List (SelectedMatch W)
  insert_match item [] = item ∷ []
  insert_match item (other ∷ items) =
      let rest = insert_match item items in
      if is_as_recent item other then item ∷ other ∷ items else other ∷ rest

  unfoldable pub sort_matches : List (SelectedMatch W) → List (SelectedMatch W)
  unfolding insert_match
  sort_matches [] = []
  sort_matches (item ∷ items) = insert_match item (sort_matches items)

  unfoldable pub select_history :
      TargetMatch → ℕ → AvailabilityPolicy → List (HistoricalMatch W) → List (SelectedMatch W)
  unfolding collect sort_matches
  select_history target cutoff_at policy matches =
      sort_matches (collect target cutoff_at policy matches)
