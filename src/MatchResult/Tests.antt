-- ===== src/MatchResult/Tests.antt =====
-- Runs of the parser of match results.
use vlytics.MatchResult.Facts.{get, digits}
use vlytics.MatchResult.Outcome.{parse_result_iff}
use vlytics.MatchResult.SetScore.{valid_set_score_iff, Ends}
use vlytics.MatchResult.Legal.{IsResult}
use vlytics.MatchResult.{
  VolleyballSetRule, SeasonRuleKey, Row, SetFact, ResultFact, parse_result, returned, integer, pos,
  Json, provisional, resolve, read_result, read_sets, read_set, nullable_integer, get,
  settle_result, digits,
}
use vlytics.Prelude.{ℕ, ◌≡◌, refl, [], ◌∷◌, codes, some, arith, text_eq}

abbrev indoor : VolleyballSetRule
indoor = record {
  mapping_version = codes "v1";
  evidence = codes "rules";
  regular_set_target = 25;
  deciding_set_target = 15;
  winning_margin = 2;
  sets_to_win = 3;
  maximum_sets = 5;
}

abbrev season : SeasonRuleKey
season = record {
  source = codes "kovo";
  source_group_code = codes "1";
  source_season_code = codes "9";
}

abbrev points : ℕ → Json
points n = integer (pos n)

-- 25:20, 23:25, 27:25, 25:10 and a blank fifth set.
abbrev four_sets : Row
four_sets =
    (codes "hs1point", points 25)
    ∷ (codes "as1point", points 20)
    ∷ (codes "hs2point", points 23)
    ∷ (codes "as2point", points 25)
    ∷ (codes "hs3point", points 27)
    ∷ (codes "as3point", points 25)
    ∷ (codes "hs4point", points 25)
    ∷ (codes "as4point", points 10)
    ∷ (codes "hs5point", points 0)
    ∷ (codes "as5point", points 0)
    ∷ (codes "hspoint", points 100)
    ∷ (codes "aspoint", points 80)
    ∷ []

abbrev set_at : ℕ → ℕ → ℕ → SetFact
set_at n h a = record { set_number = n; home_points = h; away_points = a }

abbrev home_win : ResultFact
home_win = record {
  source_match_code = codes "m1";
  home_sets = 3;
  away_sets = 1;
  home_total = 100;
  away_total = 80;
  finality = provisional;
  rule_version = codes "v1";
  sets = set_at 1 25 20 ∷ set_at 2 23 25 ∷ set_at 3 27 25 ∷ set_at 4 25 10 ∷ [];
}

known : resolve ((season, indoor) ∷ []) season ≡ some indoor
unfolding resolve text_eq
known = refl

four_sets-home_win :
    parse_result ((season, indoor) ∷ []) season (codes "m1") four_sets []
    ≡ returned (some home_win) []
unfolding parse_result resolve text_eq read_result read_sets read_set nullable_integer get
    settle_result digits
four_sets-home_win = refl

parse_result_iff_example : IsResult indoor (codes "m1") four_sets home_win
parse_result_iff_example =
    (parse_result_iff ((season, indoor) ∷ []) season indoor known (codes "m1") four_sets [] refl
        (omega arith) home_win).0
      four_sets-home_win

valid_set_score_iff_example : Ends 25 2 27 25
valid_set_score_iff_example =
    (valid_set_score_iff indoor 3 27 25 (omega arith) (omega arith)).0 refl
