-- ===== src/Features/Answered.antt =====
-- When a snapshot is built, and its values.
use vlytics.Features.Rates.{team_features-Returns, matchup_features-AreValues}
use vlytics.Features.Team.{team_features, team_history}
use vlytics.Features.Builder.{is_aware, instant_of, with_digest, build, snapshot_of}
use vlytics.Features.{
  DateTime, is_finite_snapshot, built, Float, TargetMatch, RosterRevision, PlayerFeatures, failed,
  value_error, get, ◌>>=◌, FeatureSnapshot, ℕ, AvailabilityPolicy, HistoricalMatch, not, Built,
}
use vlytics.Features.Selection.{SelectedMatch, is_strict, select_rosters, select_history}
use vlytics.Features.Player.{features_of_player, add_players, player_features}
use vlytics.Features.Sound.{AreValues}
use vlytics.Features.Rows.{features_of_player-Returns}
use vlytics.Features.Answers.{
  Refuses, Refuses-if, Answers-Refuses, Answers, Answers-bind, Answers-mono, Answers-if,
}
use mathlib.Core.Path.{subst}
use mathlib.Core.List.{append-nil, append_assoc}
use vlytics.Features.Definitions.{keys_of_scope}
use vlytics.Prelude.{
  ◌⊎◌, inl, inr, Option, none, some, Option-cases, Bool-cases, suc, codes, if◌then◌else◌, Text,
  member, Bool, true, false, ◌||◌, All, All-append, List, [], ◌∷◌, ◌++◌, map, refl, ◌≡◌, ◌∙◌, ap,
  sym, is_some, arith, first, ℕ, not, ◌+◌, ◌==◌, ◌&&◌, ltb,
}

-- A player is twice among the ids, or already seen.
unfoldable pub has_shared : List Text → List Text → Bool
has_shared seen [] = false
has_shared seen (p ∷ ids) = let later = has_shared (seen ++ p ∷ []) ids in member p seen || later

has_shared-append :
    (seen ids more : List Text)
    → has_shared seen (ids ++ more) ≡ (has_shared seen ids || has_shared (seen ++ ids) more)
unfolding has_shared
has_shared-append seen [] more = ap (λ s. has_shared s more) (sym (append-nil seen))
has_shared-append seen (p ∷ ids) more =
    let same = ap (λ s. has_shared s more) (append_assoc seen (p ∷ []) ids) in
    ground (arith, has_shared-append (seen ++ p ∷ []) ids more, same)

-- The player ids of the rosters.
unfoldable pub listed_ids : List RosterRevision → List Text
listed_ids [] = []
listed_ids (r ∷ rosters) = r.player_ids ++ listed_ids rosters

module _ {W : Type 0} where
  abbrev ids_of : List (Text × PlayerFeatures W) → List Text
  ids_of = map (λ p. p.0)

  abbrev AreSound : List (Text × PlayerFeatures W) → Type 0
  AreSound = All (λ p. AreValues (keys_of_scope (codes "player")) p.1.features)

  get-member :
      (p : Text) (players : List (Text × PlayerFeatures W))
      → is_some (get p players) ≡ member p (ids_of players)
  unfolding get first
  get-member p [] = refl
  get-member p ((q, f) ∷ players) = ground (arith, get-member p players)

  ids_of-append :
      (players : List (Text × PlayerFeatures W)) (p : Text) (f : PlayerFeatures W)
      → ids_of (players ++ (p, f) ∷ []) ≡ ids_of players ++ p ∷ []
  ids_of-append [] p f = refl
  ids_of-append (x ∷ players) p f = ap (λ ids. x.0 ∷ ids) (ids_of-append players p f)

  -- The players are sound, and they are those of the ids after the earlier ones.
  abbrev Listed : List Text → List (Text × PlayerFeatures W) → Type 0
  Listed ids players = AreSound players × ids_of players ≡ ids

  -- The snapshot has a sound value for each definition of a scope, and its players are those of the
  -- ids.
  abbrev pub IsSoundFor : List Text → FeatureSnapshot W → Type 0
  IsSoundFor ids s =
      AreValues (keys_of_scope (codes "team")) s.home_features
      × AreValues (keys_of_scope (codes "team")) s.away_features
      × AreValues (keys_of_scope (codes "matchup")) s.matchup_features
      × Listed ids s.players

module _ {W : Type 0} (num : Float W) (target : TargetMatch)
    (selected : List (SelectedMatch W)) where
  add_players-Answers :
      (roster : RosterRevision) (ids : List Text) (players : List (Text × PlayerFeatures W))
      → AreSound players
      → Answers
          (has_shared (ids_of players) ids)
          (Listed (ids_of players ++ ids))
          (add_players num target selected roster ids players)
  unfolding has_shared add_players
  add_players-Answers roster [] players h = (h, sym (append-nil (ids_of players)))
  add_players-Answers roster (p ∷ ids) players h =
      let seen = ids_of players in
      let later = has_shared (seen ++ p ∷ []) ids in
      let Q = Listed (seen ++ p ∷ ids) in
      let f_first = features_of_player num target selected roster p in
      let go = (λ (f : PlayerFeatures W).
        add_players num target selected roster ids (players ++ (p, f) ∷ [])) in
      let rest : Answers later Q (f_first >>= go) =
        Answers-bind false later (λ f. AreValues (keys_of_scope (codes "player")) f.features) Q
          f_first go (features_of_player-Returns num target selected roster p)
          (λ f s.
            let e = ids_of-append players p f in
            Answers-mono (has_shared (ids_of (players ++ (p, f) ∷ [])) ids) later
              (Listed (ids_of (players ++ (p, f) ∷ []) ++ ids)) Q (go f)
              (ap (λ x. has_shared x ids) e)
              (λ ps l. (l.0, l.1 ∙ ap (λ x. x ++ ids) e ∙ append_assoc seen (p ∷ []) ids))
              (add_players-Answers roster ids (players ++ (p, f) ∷ []) (
                All-append (λ x. AreValues (keys_of_scope (codes "player")) x.1.features) players
                  ((p, f) ∷ []) h (s, tt)))) in
      subst
        (λ b.
          Answers (b || later) Q
            (if is_some (get p players) then failed value_error else (f_first >>= go)))
        (get-member p players) (Answers-if (is_some (get p players)) later Q (f_first >>= go) rest)

  player_features-Answers :
      (rosters : List RosterRevision) (players : List (Text × PlayerFeatures W))
      → AreSound players
      → Answers
          (has_shared (ids_of players) (listed_ids rosters))
          (Listed (ids_of players ++ listed_ids rosters))
          (player_features num target selected rosters players)
  unfolding has_shared player_features listed_ids
  player_features-Answers [] players h = (h, sym (append-nil (ids_of players)))
  player_features-Answers (r ∷ rosters) players h =
      let seen = ids_of players in
      let ids = r.player_ids in
      let shared = has_shared seen ids in
      let later = has_shared (seen ++ ids) (listed_ids rosters) in
      let P = Listed (seen ++ ids) in
      let Q = Listed (seen ++ (ids ++ listed_ids rosters)) in
      let m = add_players num target selected r ids players in
      let go = player_features num target selected rosters in
      let all : Answers (shared || later) Q (m >>= go) =
        Answers-bind shared later P Q m go (add_players-Answers r ids players h) (λ more l.
          Answers-mono (has_shared (ids_of more) (listed_ids rosters)) later
            (Listed (ids_of more ++ listed_ids rosters)) Q (go more)
            (ap (λ x. has_shared x (listed_ids rosters)) l.1)
            (λ ps k. (
              k.0,
              k.1
                  ∙ ap (λ x. x ++ listed_ids rosters) l.1
                  ∙ append_assoc seen ids (listed_ids rosters),
            ))
            (player_features-Answers rosters more l.0)) in
      Answers-mono (shared || later) (has_shared seen (ids ++ listed_ids rosters)) Q Q (m >>= go)
        (sym (has_shared-append seen ids (listed_ids rosters))) (λ ps q. q) all

module _ {W : Type 0} (num : Float W) (document : FeatureSnapshot W → Option Text)
    (sha256 : Text → Text) where
  -- A snapshot is returned with its digest, or ValueError is raised because it has none.
  abbrev pub IsBuilt : List Text → Built (FeatureSnapshot W) → Type 0
  IsBuilt ids answer =
      (s : FeatureSnapshot W) × IsSoundFor ids s
      × (((bytes : Text) × (is_finite_snapshot num s ≡ true)
            × (document s ≡ some bytes)
            × (answer ≡ built (record s { sha256 = sha256 bytes })))
          ⊎ (((is_finite_snapshot num s ≡ false) ⊎ (document s ≡ none))
              × (answer ≡ failed value_error)))

  with_digest-IsBuilt :
      (ids : List Text) (s : FeatureSnapshot W)
      → IsSoundFor ids s
      → IsBuilt ids (with_digest num document sha256 s)
  unfolding with_digest
  with_digest-IsBuilt ids s sound = elim (Bool-cases (is_finite_snapshot num s)) [
    | inr infinite ↦ (s, sound, inr (inl infinite, rw infinite refl))
    | inl finite ↦ elim (Option-cases (document s)) [
      | inl unwritten ↦ (s, sound, inr (inr unwritten, rw (finite, unwritten) refl))
      | inr (bytes, written) ↦ (s, sound, inl (bytes, finite, written, rw (finite, written) refl))
    ]
  ]

module _ {W : Type 0} (num : Float W)
    (counts : (n : ℕ) → num.is_zero (num.of_count (suc n)) ≡ false) where
  snapshot_of-Answers :
      (target : TargetMatch) (cutoff_at captured_at : ℕ) (policy : AvailabilityPolicy)
      (selected : List (SelectedMatch W)) (rosters : List RosterRevision)
      → Answers
          (has_shared [] (listed_ids rosters))
          (IsSoundFor (listed_ids rosters))
          (snapshot_of num target cutoff_at captured_at policy selected rosters)
  unfolding snapshot_of
  snapshot_of-Answers target cutoff_at captured_at policy selected rosters =
      let shared = has_shared [] (listed_ids rosters) in
      let Q = IsSoundFor (listed_ids rosters) in
      Answers-bind false shared (AreValues (keys_of_scope (codes "team"))) Q
        (team_features num target.home_team_id true (team_history selected target.home_team_id)) _
        (team_features-Returns num counts target.home_team_id true
          (team_history selected target.home_team_id))
        (λ home h.
          Answers-bind false shared (AreValues (keys_of_scope (codes "team"))) Q
            (team_features num target.away_team_id false
              (team_history selected target.away_team_id))
            _
            (team_features-Returns num counts target.away_team_id false
              (team_history selected target.away_team_id))
            (λ away a.
              Answers-mono (shared || false) shared Q Q _ (ground arith) (λ s q. q)
                (Answers-bind shared false (Listed (listed_ids rosters)) Q
                  (player_features num target selected rosters []) _
                  (player_features-Answers num target selected rosters [] tt)
                  (λ players l. (h, a, matchup_features-AreValues num counts target selected, l)))))

  module _ (document : FeatureSnapshot W → Option Text) (sha256 : Text → Text) where
    -- If a float made from a positive number is not zero, `build` raises a ValueError if the cutoff
    -- is not an hour before the start, the time of capture has no time zone, a strict policy knows
    -- no schedule by the cutoff, or a player is listed twice. Otherwise a snapshot is computed that
    -- has one value for each definition of a scope and for each player of the selected rosters, in
    -- their order; each has either a reason that its definition lists and no number, or a number,
    -- no reason and as many samples as its definition demands. It is returned with its digest if
    -- its numbers are finite and its texts can be written, and if not, a ValueError is raised.
    -- Nothing else is raised.
    pub build-Answers :
        (target : TargetMatch) (cutoff_at : ℕ) (captured_at : DateTime)
        (policy : AvailabilityPolicy) (matches : List (HistoricalMatch W))
        (revisions : List RosterRevision)
        → Refuses
            (not (cutoff_at + 3_600_000_000 == target.scheduled_start_at)
              || (not (is_aware captured_at)
                  || ((is_strict policy && ltb cutoff_at target.schedule_observed_at)
                      || has_shared [] (listed_ids (select_rosters target cutoff_at revisions)))))
            (IsBuilt num document sha256 (listed_ids (select_rosters target cutoff_at revisions)))
            (build num document sha256 target cutoff_at captured_at policy matches revisions)
    unfolding build
    build-Answers target cutoff_at captured_at policy matches revisions =
        let rosters = select_rosters target cutoff_at revisions in
        let ids = listed_ids rosters in
        let shared = has_shared [] ids in
        let late = is_strict policy && ltb cutoff_at target.schedule_observed_at in
        let draft =
          snapshot_of num target cutoff_at (instant_of captured_at) policy
            (select_history target cutoff_at policy matches) rosters in
        Refuses-if (not (cutoff_at + 3_600_000_000 == target.scheduled_start_at))
          (not (is_aware captured_at) || (late || shared)) (IsBuilt num document sha256 ids) _
          (Refuses-if (not (is_aware captured_at)) (late || shared)
            (IsBuilt num document sha256 ids) _
            (Refuses-if late shared (IsBuilt num document sha256 ids) _ (
              Answers-Refuses shared (IsSoundFor ids) (IsBuilt num document sha256 ids) draft
                (with_digest num document sha256)
                (snapshot_of-Answers target cutoff_at (instant_of captured_at) policy
                  (select_history target cutoff_at policy matches) rosters)
                (with_digest-IsBuilt num document sha256 ids))))
