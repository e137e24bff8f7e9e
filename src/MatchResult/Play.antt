-- ===== src/MatchResult/Play.antt =====
-- Courses of a match set by set, and how a source row shows one.
use vlytics.MatchResult.SetScore.{Ends}
use vlytics.MatchResult.{
  VolleyballSetRule, SetFact, target_of, Row, Side, home, away, nullable_integer, score_key,
  game_path, reads,
}
use vlytics.Prelude.{ℕ, ◌≡◌, ◌≢◌, ◌<◌, ◌⊎◌, List, [], ◌∷◌, Option, none, some, suc, zero}

abbrev pub set_of : ℕ → ℕ → ℕ → SetFact
set_of number h a = record { set_number = number; home_points = h; away_points = a }

-- The sets from `number` on, from one score in sets to another: each set is played while no side has
-- the sets to win, ends as a set can end, and goes to the side with more points.
pub data Play (rule : VolleyballSetRule) : ℕ → ℕ → ℕ → List SetFact → ℕ → ℕ → Type 0 where
  over : {n h a : ℕ} → Play rule n h a [] h a
  home_takes :
      {n h a h' a' : ℕ} {sets : List SetFact} (x y : ℕ)
      → h ≢ rule.sets_to_win
      → a ≢ rule.sets_to_win
      → Ends (target_of rule n) rule.winning_margin x y
      → y < x
      → Play rule (suc n) (suc h) a sets h' a'
      → Play rule n h a (set_of n x y ∷ sets) h' a'
  away_takes :
      {n h a h' a' : ℕ} {sets : List SetFact} (x y : ℕ)
      → h ≢ rule.sets_to_win
      → a ≢ rule.sets_to_win
      → Ends (target_of rule n) rule.winning_margin x y
      → x < y
      → Play rule (suc n) h (suc a) sets h' a'
      → Play rule n h a (set_of n x y ∷ sets) h' a'

-- The score of a side in a set reads as `value`.
abbrev pub Scores : Row → Side → ℕ → Option ℕ → Type 0
Scores row side number value = nullable_integer row (score_key side number) game_path ≡ reads value

-- A set is left blank by two missing scores, or by two zeros.
abbrev pub IsBlank : Row → ℕ → Type 0
IsBlank row number =
    (Scores row home number none × Scores row away number none)
    ⊎ (Scores row home number (some 0) × Scores row away number (some 0))

-- The `left` columns of a row from `number` on show the sets, and are blank after them.
abbrev pub Shows : Row → ℕ → ℕ → List SetFact → Type 0
Shows row number zero [] = Unit
Shows row number zero (_ ∷ _) = ⊥
Shows row number (suc left) [] = IsBlank row number × Shows row (suc number) left []
Shows row number (suc left) (s ∷ sets) =
    Scores row home number (some s.home_points)
    × Scores row away number (some s.away_points)
    × Shows row (suc number) left sets
