-- ===== src/MatchResult/Legal.antt =====
-- The results that `_parse_result` accepts.
use mathlib.Core.Path.{subst, sym, ap}
use vlytics.MatchResult.Play.{Play, Shows}
use vlytics.MatchResult.Loop.{read_sets-Adds, >>=-reads}
use vlytics.MatchResult.Complete.{read_sets-Shows}
use vlytics.MatchResult.{
  VolleyballSetRule, SetFact, ResultFact, Row, Side, home, away, nullable_integer, total_key,
  game_path, reads, is_rule, read_result, settle_result, provisional, sum, empty_tally, target_of,
  Tally, is_empty, false, is_final_score, read_sets,
}
use vlytics.Prelude.{
  ℕ, ◌≡◌, ◌≤◌, ◌<◌, ◌↔◌, true, List, [], ◌∷◌, Option, none, some, Text, max, min, arith, refl,
  Bool-cases, ◌≢◌, false, inl, ◌==◌, inr, ◌&&◌, sym, ◌∙◌, ap,
}

-- The match total of a side reads as the points of its sets.
abbrev pub Totals : Row → Side → ℕ → ℕ → Type 0
Totals row side total points =
    (nullable_integer row (total_key side) game_path ≡ reads (some total)) × (total ≡ points)

-- One side has the sets to win and the other at most two.
abbrev pub IsWon : VolleyballSetRule → ResultFact → Type 0
IsWon rule fact =
    (max fact.home_sets fact.away_sets ≡ rule.sets_to_win) × (min fact.home_sets fact.away_sets ≤ 2)

-- The fact carries the match's code and the rule's version, and is provisional.
abbrev pub IsLabelled : VolleyballSetRule → Text → ResultFact → Type 0
IsLabelled rule match fact =
    (fact.source_match_code ≡ match)
    × (fact.finality ≡ provisional)
    × (fact.rule_version ≡ rule.mapping_version)

-- The row shows the sets of a match that was played from 0:0 until it was won, and their totals.
abbrev pub IsResult : VolleyballSetRule → Text → Row → ResultFact → Type 0
IsResult rule match row fact =
    IsLabelled rule match fact
    × Shows row 1 rule.maximum_sets fact.sets
    × Play rule 1 0 0 fact.sets fact.home_sets fact.away_sets
    × IsWon rule fact
    × Totals row home fact.home_total (sum (λ s. s.home_points) fact.sets)
    × Totals row away fact.away_total (sum (λ s. s.away_points) fact.sets)

abbrev fact_of : VolleyballSetRule → Text → Tally → ℕ → ℕ → ResultFact
fact_of rule match t h a = record {
  source_match_code = match;
  home_sets = t.home_wins;
  away_sets = t.away_wins;
  home_total = h;
  away_total = a;
  finality = provisional;
  rule_version = rule.mapping_version;
  sets = t.sets;
}

abbrev Settles : VolleyballSetRule → Text → Tally → Option ℕ → Option ℕ → ResultFact → Type 0
Settles rule match t h a fact =
    (x : ℕ) × (y : ℕ) × (h ≡ some x)
    × (a ≡ some y)
    × (x ≡ sum (λ s. s.home_points) t.sets)
    × (y ≡ sum (λ s. s.away_points) t.sets)
    × (max t.home_wins t.away_wins ≡ rule.sets_to_win)
    × (min t.home_wins t.away_wins ≤ 2)
    × (fact ≡ fact_of rule match t x y)

settle_result-Settles :
    (rule : VolleyballSetRule) (match : Text) (t : Tally) (h a : Option ℕ) (fact : ResultFact)
    → settle_result rule match t h a ≡ reads (some fact)
    → Settles rule match t h a fact
unfolding settle_result
settle_result-Settles rule match t none none fact e = absurd (ground arith)
settle_result-Settles rule match t none (some _) fact e = absurd (ground arith)
settle_result-Settles rule match t (some _) none fact e = absurd (ground arith)
settle_result-Settles rule match t (some x) (some y) fact e = elim (Bool-cases (is_empty t.sets)) [
  | inl z ↦ absurd (ground arith)
  | inr z ↦
      elim (Bool-cases
        (sum (λ s. s.home_points) t.sets == x && sum (λ s. s.away_points) t.sets == y)) [
          | inl p ↦ elim (Bool-cases (is_final_score rule.sets_to_win t.home_wins t.away_wins)) [
            | inl w ↦ (
              x,
              y,
              refl,
              refl,
              ground arith,
              ground arith,
              ground arith,
              ground arith,
              ground arith,
            )
            | inr w ↦ absurd (ground arith)
          ]
          | inr p ↦ absurd (ground arith)
        ]
]

has_sets : (sets : List SetFact) → sets ≢ [] → is_empty sets ≡ false
has_sets [] n = absurd (n refl)
has_sets (_ ∷ _) n = refl

settle_result-reads :
    (rule : VolleyballSetRule) (match : Text) (t : Tally) (x y : ℕ)
    → t.sets ≢ []
    → x ≡ sum (λ s. s.home_points) t.sets
    → y ≡ sum (λ s. s.away_points) t.sets
    → max t.home_wins t.away_wins ≡ rule.sets_to_win
    → min t.home_wins t.away_wins ≤ 2
    → settle_result rule match t (some x) (some y) ≡ reads (some (fact_of rule match t x y))
unfolding settle_result
settle_result-reads rule match t x y n p q w l =
    let e : is_empty t.sets ≡ false = has_sets t.sets n in
    let s : (sum (λ s. s.home_points) t.sets == x && sum (λ s. s.away_points) t.sets == y) ≡ true =
      ground arith in
    let f : is_final_score rule.sets_to_win t.home_wins t.away_wins ≡ true = ground arith in
    rw (e, s, f) refl

pub positive : (rule : VolleyballSetRule) → is_rule rule ≡ true → (n : ℕ) → 0 < target_of rule n
positive rule ok n = elim (Bool-cases (n == rule.maximum_sets)) [
  | inl e ↦ rw e (ground arith)
  | inr e ↦ rw e (ground arith)
]

wins_positive : (rule : VolleyballSetRule) → is_rule rule ≡ true → 0 < rule.sets_to_win
wins_positive rule ok = ground arith

fact_of_same :
    (rule : VolleyballSetRule) (match : Text) (t : Tally) (fact : ResultFact)
    → IsLabelled rule match fact
    → t.sets ≡ fact.sets
    → t.home_wins ≡ fact.home_sets
    → t.away_wins ≡ fact.away_sets
    → fact_of rule match t fact.home_total fact.away_total ≡ fact
fact_of_same rule match t fact (code, finality, version) s p q =
    rw (s, p, q, sym code, sym finality, sym version) refl

Play-unplayed :
    {rule : VolleyballSetRule} (n h a h' a' : ℕ) (sets : List SetFact)
    → Play rule n h a sets h' a'
    → sets ≡ []
    → (h ≡ h') × (a ≡ a')
Play-unplayed n h a h' a' [] Play.over e = (refl, refl)
Play-unplayed n h a h' a' (s ∷ sets) play e = absurd (ground arith)

module _ (rule : VolleyballSetRule) (ok : is_rule rule ≡ true) (two : 2 ≤ rule.winning_margin) where
  read_result-IsResult :
      (match : Text) (row : Row) (fact : ResultFact)
      → read_result rule match row ≡ reads (some fact)
      → IsResult rule match row fact
  unfolding read_result
  read_result-IsResult match row fact e =
      let (t, loop, e) =
        >>=-reads (read_sets rule row rule.maximum_sets 1 empty_tally) _ (some fact) e in
      let (h, hs, e) =
        >>=-reads (nullable_integer row (total_key home) game_path) _ (some fact) e in
      let (a, os, e) =
        >>=-reads (nullable_integer row (total_key away) game_path) _ (some fact) e in
      let (back, adds) =
        read_sets-Adds rule two (positive rule ok) row rule.maximum_sets 1 empty_tally t loop in
      let (x, y, p, q, total_h, total_a, won, lost, same) =
        settle_result-Settles rule match t h a fact e in
      subst (λ f. IsResult rule match row f) (sym same)
        (
          (refl, refl, refl),
          subst (λ b. Shows row 1 rule.maximum_sets b) (sym adds.0) adds.1,
          subst (λ b. Play rule 1 0 0 b t.home_wins t.away_wins) (sym adds.0) adds.2,
          (won, lost),
          (hs ∙ ap reads p, total_h),
          (os ∙ ap reads q, total_a),
        )

  IsResult-read_result :
      (match : Text) (row : Row) (fact : ResultFact)
      → IsResult rule match row fact
      → read_result rule match row ≡ reads (some fact)
  unfolding read_result
  IsResult-read_result match row fact (labels, shows, play, won, totals_h, totals_a) =
      let (t, loop, s, p, q) =
        read_sets-Shows rule two (positive rule ok) row rule.maximum_sets 1 fact.home_sets
          fact.away_sets empty_tally fact.sets shows play (inl refl) in
      let settled =
        settle_result-reads rule match t fact.home_total fact.away_total (λ e. unplayed (sym s ∙ e))
          (rw s totals_h.1) (rw s totals_a.1) (rw (p, q) won.0) (rw (p, q) won.1) in
      rw (loop, totals_h.0, totals_a.0, settled)
        (ap (λ f. reads (some f)) (fact_of_same rule match t fact labels s p q))
    where
      unplayed : fact.sets ≢ []
      unplayed e =
          let (h, a) = Play-unplayed 1 0 0 fact.home_sets fact.away_sets fact.sets play e in
          let least = wins_positive rule ok in omega (arith, won.0)

  -- Under a rule with a margin of two or more, `read_result` reads a row as a
  -- result exactly if the row shows the sets of a match that was played from 0:0 until it was won,
  -- and their totals.
  pub read_result_iff :
      (match : Text) (row : Row) (fact : ResultFact)
      → read_result rule match row ≡ reads (some fact) ↔ IsResult rule match row fact
  read_result_iff match row fact =
      (read_result-IsResult match row fact, IsResult-read_result match row fact)
