-- ===== src/MatchResult/Complete.antt =====
-- The loop of `_parse_result` on a row that shows a course of sets.
use mathlib.Core.List.{append_assoc, append-nil}
use vlytics.MatchResult.SetScore.{valid_set_score_iff}
use vlytics.MatchResult.Play.{Play, set_of, Shows, home_takes, away_takes}
use vlytics.MatchResult.Loop.{leads, blank_next, won}
use vlytics.MatchResult.{
  VolleyballSetRule, SetFact, Row, Tally, read_set, read_sets, reads, none, some, target_of,
  valid_set_score,
}
use vlytics.Prelude.{
  ℕ, ◌≡◌, ◌≢◌, ◌⊎◌, inl, inr, refl, true, false, List, [], ◌∷◌, arith, zero, suc, none, ◌≤◌, ◌<◌,
  some, ◌++◌, Bool-cases, sym, ◌==◌, ◌&&◌, ◌||◌, ◌∙◌,
}

read_set-blank :
    (rule : VolleyballSetRule) (number : ℕ) (t : Tally)
    → (read_set rule number none none t ≡ reads (blank_next t))
      × (read_set rule number (some 0) (some 0) t ≡ reads (blank_next t))
unfolding read_set
read_set-blank rule number t = (refl, refl)

read_set-won :
    (rule : VolleyballSetRule) (number x y : ℕ) (t : Tally)
    → 0 < target_of rule number
    → t.gap_seen ≡ false
    → t.home_wins ≢ rule.sets_to_win
    → t.away_wins ≢ rule.sets_to_win
    → valid_set_score number x y rule ≡ true
    → read_set rule number (some x) (some y) t ≡ reads (won number x y t)
unfolding read_set
read_set-won rule number x y t pos g h a v = elim (Bool-cases (x == 0 && y == 0)) [
  | inl z ↦ absurd (zero_set (ground arith) (ground arith))
  | inr z ↦
      let w : (t.home_wins == rule.sets_to_win || t.away_wins == rule.sets_to_win) ≡ false =
        ground arith in
      rw (z, g, w, v) refl
]
  where
    zero_set : x ≡ 0 → y ≡ 0 → ⊥
    zero_set p q = ground arith

open_yet :
    (t : Tally) (s : SetFact) (back : List SetFact)
    → (t.gap_seen ≡ false) ⊎ (s ∷ back ≡ [])
    → t.gap_seen ≡ false
open_yet t s back (inl g) = g
open_yet t s back (inr e) = absurd (ground arith)

module _ (rule : VolleyballSetRule) (two : 2 ≤ rule.winning_margin) where
  module _ (positive : (n : ℕ) → 0 < target_of rule n) (row : Row) where
    pub read_sets-Shows :
        (left number h' a' : ℕ) (t : Tally) (back : List SetFact)
        → Shows row number left back
        → Play rule number t.home_wins t.away_wins back h' a'
        → (t.gap_seen ≡ false) ⊎ (back ≡ [])
        → (t' : Tally) × (read_sets rule row left number t ≡ reads t')
          × (t'.sets ≡ t.sets ++ back)
          × (t'.home_wins ≡ h')
          × (t'.away_wins ≡ a')
    unfolding read_sets
    read_sets-Shows zero number h' a' t [] shows Play.over g =
        (t, refl, sym (append-nil t.sets), refl, refl)
    read_sets-Shows zero number h' a' t (s ∷ back) shows _ g = elim shows [ ]
    read_sets-Shows (suc left) number h' a' t [] (blank, shows) Play.over g =
        let (t', e, sets, hw, aw) =
          read_sets-Shows left (suc number) h' a' (blank_next t) [] shows Play.over (inr refl) in
        (
          t',
          elim blank [
            | inl (hn, an) ↦ rw (hn, an, (read_set-blank rule number t).0) e
            | inr (hn, an) ↦ rw (hn, an, (read_set-blank rule number t).1) e
          ],
          sets,
          hw,
          aw,
        )
    read_sets-Shows (suc left) number h' a' t (s ∷ back) (hs, os, shows)
          (home_takes x y h a ends l play) g =
        let v = (valid_set_score_iff rule number x y two (positive number)).1 ends in
        let (p, q) = leads x y t.home_wins t.away_wins l in
        let body = read_set-won rule number x y t (positive number) (open_yet t s back g) h a v in
        let (t', e, sets, hw, aw) =
          read_sets-Shows left (suc number) h' a' (won number x y t) back shows (rw (p, q) play)
            (inl (open_yet t s back g)) in
        (t', rw (hs, os, body) e, sets ∙ append_assoc t.sets (set_of number x y ∷ []) back, hw, aw)
    read_sets-Shows (suc left) number h' a' t (s ∷ back) (hs, os, shows)
          (away_takes x y h a ends l play) g =
        let v = (valid_set_score_iff rule number x y two (positive number)).1 ends in
        let (p, q) = leads y x t.away_wins t.home_wins l in
        let body = read_set-won rule number x y t (positive number) (open_yet t s back g) h a v in
        let (t', e, sets, hw, aw) =
          read_sets-Shows left (suc number) h' a' (won number x y t) back shows (rw (p, q) play)
            (inl (open_yet t s back g)) in
        (t', rw (hs, os, body) e, sets ∙ append_assoc t.sets (set_of number x y ∷ []) back, hw, aw)
