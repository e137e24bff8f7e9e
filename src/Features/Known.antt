-- ===== src/Features/Known.antt =====
-- What a snapshot depends on.
use vlytics.Features.{
  DateTime, AvailabilityPolicy, ResultRevision, MatchScheduleRevision, HistoricalMatch, TargetMatch,
  RosterRevision, FeatureSnapshot, Float,
}
use vlytics.Features.Selection.{
  is_strict, may_read, SelectedMatch, select_schedule, select_result, select_history,
  select_rosters, collect, take_match, is_comparable, is_of_target, latest, is_newer_schedule,
  is_newer_result,
}
use vlytics.Features.Builder.{build}
use vlytics.Prelude.{
  Option, Bool-cases, inl, inr, ℕ, Bool, true, ◌≡◌, refl, sym, ap, ◌∙◌, List, [], ◌∷◌, Text, arith,
  leb, select, if◌then◌else◌,
}

-- The facts that were observed by the cutoff. A match with no such schedule is not known.
module _ (cutoff_at : ℕ) where
  abbrev pub known_rosters : List RosterRevision → List RosterRevision
  known_rosters = select (λ r. leb r.observed_at cutoff_at)

  abbrev pub known_schedules : List MatchScheduleRevision → List MatchScheduleRevision
  known_schedules = select (λ r. leb r.observed_at cutoff_at)

  module _ {W : Type 0} where
    abbrev pub known_match : HistoricalMatch W → HistoricalMatch W
    known_match m = record m {
      schedule_revisions = known_schedules m.schedule_revisions;
      result_revisions = select (λ r. leb r.observed_at cutoff_at) m.result_revisions;
    }

    abbrev pub keep_known :
        List MatchScheduleRevision
        → HistoricalMatch W
        → List (HistoricalMatch W)
        → List (HistoricalMatch W)
    keep_known [] m rest = rest
    keep_known (_ ∷ _) m rest = m ∷ rest

    abbrev pub known_matches : List (HistoricalMatch W) → List (HistoricalMatch W)
    known_matches [] = []
    known_matches (m ∷ ms) =
        keep_known (known_schedules m.schedule_revisions) (known_match m) (known_matches ms)

select_again :
    {A : Type 0} (p q : A → Bool) (xs : List A)
    → ((x : A) → p x ≡ true → q x ≡ true)
    → select p (select q xs) ≡ select p xs
unfolding select
select_again p q [] h = refl
select_again p q (x ∷ xs) h = ground (arith, h x, select_again p q xs h)

may_read-known :
    (policy : AvailabilityPolicy) (cutoff_at t : ℕ)
    → is_strict policy ≡ true
    → may_read policy cutoff_at t ≡ true
    → leb t cutoff_at ≡ true
may_read-known policy cutoff_at t strict h = ground arith

module _ (target : TargetMatch) (cutoff_at : ℕ) (policy : AvailabilityPolicy)
    (strict : is_strict policy ≡ true) where
  select_schedule-known :
      (rs : List MatchScheduleRevision)
      → select_schedule policy cutoff_at (known_schedules cutoff_at rs)
        ≡ select_schedule policy cutoff_at rs
  unfolding select_schedule
  select_schedule-known rs = ap (latest is_newer_schedule) (
      select_again (λ r. may_read policy cutoff_at r.observed_at) (λ r. leb r.observed_at cutoff_at)
        rs (λ r. may_read-known policy cutoff_at r.observed_at strict))

  select_rosters-known :
      (rs : List RosterRevision)
      → select_rosters target cutoff_at (known_rosters cutoff_at rs)
        ≡ select_rosters target cutoff_at rs
  unfolding select_rosters
  select_rosters-known rs =
      let same =
        select_again (is_of_target target cutoff_at) (λ r. leb r.observed_at cutoff_at) rs
          (λ r h. ground arith) in
      rw same refl

module _ {W : Type 0} (target : TargetMatch) (cutoff_at : ℕ) (policy : AvailabilityPolicy)
    (strict : is_strict policy ≡ true) where
  select_result-known :
      (rs : List (ResultRevision W))
      → select_result policy cutoff_at (select (λ r. leb r.observed_at cutoff_at) rs)
        ≡ select_result policy cutoff_at rs
  unfolding select_result
  select_result-known rs = ap (latest is_newer_result) (
      select_again (λ r. may_read policy cutoff_at r.observed_at) (λ r. leb r.observed_at cutoff_at)
        rs (λ r. may_read-known policy cutoff_at r.observed_at strict))

  abbrev step :
      HistoricalMatch W
      → Option MatchScheduleRevision
      → List (SelectedMatch W)
      → List (SelectedMatch W)
  step m schedule rest =
      if is_comparable target m
      then take_match cutoff_at m.id schedule (select_result policy cutoff_at m.result_revisions)
          rest
      else rest

  -- A match with no known schedule adds nothing.
  collect-keep_known :
      (m : HistoricalMatch W) (ms : List (HistoricalMatch W))
      (revisions : List MatchScheduleRevision)
      → known_schedules cutoff_at m.schedule_revisions ≡ revisions
      → collect target cutoff_at policy
          (keep_known cutoff_at revisions (known_match cutoff_at m) ms)
        ≡ step m (select_schedule policy cutoff_at revisions) (collect target cutoff_at policy ms)
  unfolding collect select
  collect-keep_known m ms [] e = elim (Bool-cases (is_comparable target m)) [
    | inl alike ↦ rw alike refl
    | inr other ↦ rw other refl
  ]
  collect-keep_known m ms (s ∷ revisions) e = rw (e, select_result-known m.result_revisions) refl

  collect-known :
      (ms : List (HistoricalMatch W))
      → collect target cutoff_at policy (known_matches cutoff_at ms)
        ≡ collect target cutoff_at policy ms
  unfolding collect
  collect-known [] = refl
  collect-known (m ∷ ms) =
      collect-keep_known m (known_matches cutoff_at ms)
        (known_schedules cutoff_at m.schedule_revisions) refl
      ∙ rw
          (
            select_schedule-known target cutoff_at policy strict m.schedule_revisions,
            collect-known ms,
          )
          refl

  module _ (num : Float W) (document : FeatureSnapshot W → Option Text) (sha256 : Text → Text)
      (captured_at : DateTime) where
    build-known :
        (ms : List (HistoricalMatch W)) (rs : List RosterRevision)
        → build num document sha256 target cutoff_at captured_at policy
            (known_matches cutoff_at ms)
            (known_rosters cutoff_at rs)
          ≡ build num document sha256 target cutoff_at captured_at policy ms rs
    unfolding build select_history
    build-known ms rs =
        rw (collect-known ms, select_rosters-known target cutoff_at policy strict rs) refl

    -- Under a strict policy, two sets of facts that agree on what was observed by the cutoff give
    -- the same snapshot, or the same error.
    pub build_reads_no_future :
        (ms ms' : List (HistoricalMatch W)) (rs rs' : List RosterRevision)
        → known_matches cutoff_at ms ≡ known_matches cutoff_at ms'
        → known_rosters cutoff_at rs ≡ known_rosters cutoff_at rs'
        → build num document sha256 target cutoff_at captured_at policy ms rs
          ≡ build num document sha256 target cutoff_at captured_at policy ms' rs'
    build_reads_no_future ms ms' rs rs' e f =
        sym (build-known ms rs)
        ∙ ap
            (λ known.
              build num document sha256 target cutoff_at captured_at policy known
                (known_rosters cutoff_at rs))
            e
        ∙ ap
            (build num document sha256 target cutoff_at captured_at policy
              (known_matches cutoff_at ms'))
            f
        ∙ build-known ms' rs'
