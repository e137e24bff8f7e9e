-- ===== src/MatchResult/Outcome.antt =====
-- What `_parse_result` returns once the season has a reviewed rule.
use vlytics.MatchResult.Legal.{IsResult, read_result_iff, positive}
use vlytics.MatchResult.Loop.{>>=-reads, read_sets-Adds}
use mathlib.Core.Path.{subst, sym, ap}
use vlytics.MatchResult.Complete.{read_sets-Shows}
use vlytics.MatchResult.Play.{Shows, Play}
use vlytics.MatchResult.{
  VolleyballSetRule, ResultFact, SeasonRuleKey, Row, reads, is_rule, read_result, parse_result,
  returned, resolve, with_issues, Checked, ContractIssue, reports, fails, settle_result, Tally,
  nullable_integer, empty_tally, read_sets, total_key, home, game_path, away, is_empty, sum,
  is_final_score,
}
use vlytics.Prelude.{
  refl, ℕ, ◌≡◌, ◌≤◌, ◌↔◌, true, List, [], ◌∷◌, Option, none, some, Text, arith, ◌++◌, sym, inl, ◌∙◌,
  ◌≢◌, length-append, ap, length, Bool-cases, inr, ◌==◌, ◌&&◌,
}

longer : (issues : List ContractIssue) (i : ContractIssue) → issues ++ (i ∷ []) ≢ issues
longer issues i e =
    let more = length-append issues (i ∷ []) in let same = ap length e in omega (arith, more, same)

-- Every set is blank and both totals are missing.
abbrev pub IsEmpty : VolleyballSetRule → Row → Type 0
IsEmpty rule row =
    Shows row 1 rule.maximum_sets []
    × (nullable_integer row (total_key home) game_path ≡ reads none)
    × (nullable_integer row (total_key away) game_path ≡ reads none)

settle_result-none :
    (rule : VolleyballSetRule) (match : Text) (t : Tally) (h a : Option ℕ)
    → settle_result rule match t h a ≡ reads none
    → (t.sets ≡ []) × (h ≡ none) × (a ≡ none)
unfolding settle_result
settle_result-none rule match t none none e = (ground arith, refl, refl)
settle_result-none rule match t none (some _) e = absurd (ground arith)
settle_result-none rule match t (some _) none e = absurd (ground arith)
settle_result-none rule match t (some x) (some y) e = elim (Bool-cases (is_empty t.sets)) [
  | inl z ↦ absurd (ground arith)
  | inr z ↦
      elim (Bool-cases
        (sum (λ s. s.home_points) t.sets == x && sum (λ s. s.away_points) t.sets == y)) [
          | inl p ↦ elim (Bool-cases (is_final_score rule.sets_to_win t.home_wins t.away_wins)) [
            | inl w ↦ absurd (ground arith)
            | inr w ↦ absurd (ground arith)
          ]
          | inr p ↦ absurd (ground arith)
        ]
]

settle_result-blank :
    (rule : VolleyballSetRule) (match : Text) (t : Tally)
    → t.sets ≡ []
    → settle_result rule match t none none ≡ reads none
unfolding settle_result
settle_result-blank rule match t s = rw s refl

module _ (rule : VolleyballSetRule) (ok : is_rule rule ≡ true) (two : 2 ≤ rule.winning_margin) where
  read_result-IsEmpty :
      (match : Text) (row : Row) → read_result rule match row ≡ reads none → IsEmpty rule row
  unfolding read_result
  read_result-IsEmpty match row e =
      let (t, loop, e) = >>=-reads (read_sets rule row rule.maximum_sets 1 empty_tally) _ none e in
      let (h, hs, e) = >>=-reads (nullable_integer row (total_key home) game_path) _ none e in
      let (a, os, e) = >>=-reads (nullable_integer row (total_key away) game_path) _ none e in
      let (back, adds) =
        read_sets-Adds rule two (positive rule ok) row rule.maximum_sets 1 empty_tally t loop in
      let (s, p, q) = settle_result-none rule match t h a e in
      (
        subst (λ b. Shows row 1 rule.maximum_sets b) (sym adds.0 ∙ s) adds.1,
        hs ∙ ap reads p,
        os ∙ ap reads q,
      )

  IsEmpty-read_result :
      (match : Text) (row : Row) → IsEmpty rule row → read_result rule match row ≡ reads none
  unfolding read_result
  IsEmpty-read_result match row (shows, hs, os) =
      let (t, loop, s, p, q) =
        read_sets-Shows rule two (positive rule ok) row rule.maximum_sets 1 0 0 empty_tally [] shows
          Play.over (inl refl) in
      rw (loop, hs, os) (settle_result-blank rule match t s)

module _ (rules : List (SeasonRuleKey × VolleyballSetRule)) (key : SeasonRuleKey)
    (rule : VolleyballSetRule) (resolved : resolve rules key ≡ some rule) (match : Text) (row : Row)
    (issues : List ContractIssue) where
  parsed : parse_result rules key match row issues ≡ with_issues issues (read_result rule match row)
  unfolding parse_result
  parsed = rw resolved refl

  returned-reads :
      (c : Checked (Option ResultFact)) (o : Option ResultFact)
      → with_issues issues c ≡ returned o issues ↔ c ≡ reads o
  returned-reads (reads p) o = (λ e. ground arith, λ e. ground arith)
  returned-reads (fails i) o = (λ e. absurd (ground arith), λ e. absurd (ground arith))
  returned-reads (reports i) o =
      (λ e. absurd (longer issues i (ground arith)), λ e. absurd (ground arith))

  returned_iff :
      (o : Option ResultFact)
      → parse_result rules key match row issues ≡ returned o issues
        ↔ read_result rule match row ≡ reads o
  returned_iff o = (
    λ e. (returned-reads (read_result rule match row) o).0 (sym parsed ∙ e),
    λ e. parsed ∙ (returned-reads (read_result rule match row) o).1 e,
  )

  module _ (ok : is_rule rule ≡ true) (two : 2 ≤ rule.winning_margin) where
    -- Under a reviewed rule whose winning margin is at least two, `parse_result` reads a row as a
    -- result, with no issue, exactly if it shows the sets of a match that was played from 0:0 until
    -- it was won, and their totals.
    pub parse_result_iff :
        (fact : ResultFact)
        → parse_result rules key match row issues ≡ returned (some fact) issues
          ↔ IsResult rule match row fact
    parse_result_iff fact =
        let (sound, complete) = read_result_iff rule ok two match row fact in
        (
          λ e. sound ((returned_iff (some fact)).0 e),
          λ r. (returned_iff (some fact)).1 (complete r),
        )

    -- Under a reviewed rule whose winning margin is at least two, a row gives neither a result nor
    -- an issue exactly if all its sets are blank and both its totals are missing.
    parse_result_silent :
        parse_result rules key match row issues ≡ returned none issues ↔ IsEmpty rule row
    parse_result_silent = (
      λ e. read_result-IsEmpty rule ok two match row ((returned_iff none).0 e),
      λ r. (returned_iff none).1 (IsEmpty-read_result rule ok two match row r),
    )
