-- ===== src/Features/Rates.antt =====
-- Proofs on the rates of a team and of the matchup.
use vlytics.Features.{
  FeatureLineage, FeatureValue, Float, TargetMatch, attack_efficiency, serve_ace_rate,
  block_points_per_set, receive_efficiency, errors_per_set, recent_10_set_win_rate,
  venue_split_win_rate, FeatureKey, recent_5_match_win_rate, recent_10_match_win_rate,
  season_win_rate, head_to_head_home_win_rate, ℕ,
}
use vlytics.Features.Selection.{SelectedMatch}
use vlytics.Features.Values.{lineage_of, ratio_feature}
use vlytics.Features.Team.{
  match_win_rate, recent_set_win_rate, recent_sets, venue_split, matchup_features, team_metric,
  team_features, team_won, take, is_head_to_head,
}
use vlytics.Features.Sound.{Returns, Returns-bind, IsValue, AreValues, ratio_feature-IsValue}
use vlytics.Features.Metrics.{team_metric-Returns}
use vlytics.Features.Definitions.{keys_of_scope}
use vlytics.Prelude.{
  zero, suc, false, true, not, ◌||◌, ◌==◌, codes, arith, Text, Bool, List, [], refl, length, count,
  select, text_eq, if◌then◌else◌, ℕ, ◌≡◌,
}

module _ {W : Type 0} (num : Float W)
    (counts : (n : ℕ) → num.is_zero (num.of_count (suc n)) ≡ false) where
  zero_count : (n : ℕ) → (n == 0 || not (num.is_zero (num.of_count n))) ≡ true
  zero_count zero = refl
  zero_count (suc n) = let c = counts n in ground arith

  -- A share of a count is a value, whether or not a zero is a reason.
  rate-IsValue :
      (key : FeatureKey) (n : W) (samples : ℕ) (lineage : FeatureLineage)
      → IsValue key (ratio_feature num key n (num.of_count samples) samples lineage)
  rate-IsValue key n samples lineage =
      let nonzero = zero_count samples in
      ratio_feature-IsValue num key n (num.of_count samples) samples lineage (ground arith)

  match_win_rate-IsValue :
      (key : FeatureKey) (team_id : Text) (history : List (SelectedMatch W))
      → IsValue key (match_win_rate num key team_id history)
  unfolding match_win_rate
  match_win_rate-IsValue key team_id history =
      rate-IsValue key (num.of_count (count (team_won team_id) history)) (length history)
        (lineage_of history [] [])

  recent_set_win_rate-IsValue :
      (team_id : Text) (history : List (SelectedMatch W))
      → IsValue recent_10_set_win_rate (recent_set_win_rate num team_id history)
  unfolding recent_set_win_rate
  recent_set_win_rate-IsValue team_id history =
      let (outcomes, used) = recent_sets team_id 10 history in
      rate-IsValue recent_10_set_win_rate (num.of_count (count (λ b. b) outcomes)) (length outcomes)
        (lineage_of used [] [])

  venue_split-IsValue :
      (team_id : Text) (at_home : Bool) (history : List (SelectedMatch W))
      → IsValue venue_split_win_rate (venue_split num team_id at_home history)
  unfolding venue_split
  venue_split-IsValue team_id at_home history =
      match_win_rate-IsValue venue_split_win_rate team_id (
        select
          (λ i.
            text_eq (if at_home then i.schedule.home_team_id else i.schedule.away_team_id) team_id)
          history)

  pub team_features-Returns :
      (team_id : Text) (at_home : Bool) (history : List (SelectedMatch W))
      → Returns
          (AreValues (keys_of_scope (codes "team")))
          (team_features num team_id at_home history)
  unfolding team_features keys_of_scope
  team_features-Returns team_id at_home history =
      let Q : List (FeatureValue W) → Type 0 = AreValues (keys_of_scope (codes "team")) in
      Returns-bind (IsValue attack_efficiency) Q
        (team_metric num attack_efficiency team_id history _) _
        (team_metric-Returns num attack_efficiency team_id history refl)
        (λ attack a.
          Returns-bind (IsValue serve_ace_rate) Q (team_metric num serve_ace_rate team_id history _)
            _ (team_metric-Returns num serve_ace_rate team_id history refl)
            (λ serve s.
              Returns-bind (IsValue block_points_per_set) Q
                (team_metric num block_points_per_set team_id history _) _
                (team_metric-Returns num block_points_per_set team_id history refl)
                (λ block b.
                  Returns-bind (IsValue receive_efficiency) Q
                    (team_metric num receive_efficiency team_id history _) _
                    (team_metric-Returns num receive_efficiency team_id history refl)
                    (λ receive r.
                      Returns-bind (IsValue errors_per_set) Q
                        (team_metric num errors_per_set team_id history _) _
                        (team_metric-Returns num errors_per_set team_id history refl)
                        (λ errors e. (
                          match_win_rate-IsValue recent_5_match_win_rate team_id (take 5 history),
                          (
                            match_win_rate-IsValue recent_10_match_win_rate team_id
                                (take 10 history),
                            (
                              recent_set_win_rate-IsValue team_id history,
                              (
                                match_win_rate-IsValue season_win_rate team_id history,
                                (
                                  venue_split-IsValue team_id at_home history,
                                  (a, (s, (b, (r, (e, tt))))),
                                ),
                              ),
                            ),
                          ),
                        ))))))

  pub matchup_features-AreValues :
      (target : TargetMatch) (selected : List (SelectedMatch W))
      → AreValues (keys_of_scope (codes "matchup")) (matchup_features num target selected)
  unfolding matchup_features keys_of_scope
  matchup_features-AreValues target selected = (
    match_win_rate-IsValue head_to_head_home_win_rate target.home_team_id
        (take 5 (select (is_head_to_head target) selected)),
    tt,
  )
