-- ===== src/MatchResult/Loop.antt =====
-- The loop of `_parse_result` over the sets.
use vlytics.MatchResult.SetScore.{Ends, valid_set_score_iff}
use vlytics.MatchResult.Facts.{Row, SetFact}
use mathlib.Core.Path.{subst, sym, ap}
use mathlib.Core.List.{append_assoc, append-nil}
use vlytics.MatchResult.Play.{set_of, Play, Scores, IsBlank, Shows, away_takes, home_takes}
use vlytics.MatchResult.{
  VolleyballSetRule, Tally, read_set, reads, Checked, valid_set_score, ContractIssue, reports,
  fails, int, ltb, Row, ◌>>=◌, List, target_of, SetFact, read_sets, suc, home, away,
  nullable_integer, score_key, game_path,
}
use vlytics.Prelude.{
  ℕ, zero, ◌≡◌, ◌≢◌, ◌⊎◌, inl, inr, refl, true, false, [], ◌∷◌, ◌++◌, Option, none, some, arith,
  ◌+◌, ltb, Bool-cases, ◌==◌, ◌&&◌, ◌||◌, ◌≤◌, List, ◌<◌, suc, ◌∙◌, sym, ap,
}

pub Checked-cases {ℓ} :
    {A : Type ℓ} (c : Checked A)
    → ((a : A) × (c ≡ reads a)) ⊎ ((b : ContractIssue) × ((c ≡ reports b) ⊎ (c ≡ fails b)))
Checked-cases (reads a) = inl (a, refl)
Checked-cases (reports i) = inr (i, inl refl)
Checked-cases (fails i) = inr (i, inr refl)

abbrev pub blank_next : Tally → Tally
blank_next t = record t { gap_seen = true }

abbrev pub won : ℕ → ℕ → ℕ → Tally → Tally
won number h a t = record {
  sets = t.sets ++ (set_of number h a ∷ []);
  gap_seen = t.gap_seen;
  home_wins = t.home_wins + int (ltb a h);
  away_wins = t.away_wins + int (ltb h a);
}

-- The two ways in which the body of the loop goes on.
abbrev Skips : Option ℕ → Option ℕ → Tally → Tally → Type 0
Skips h a t next =
    (((h ≡ none) × (a ≡ none)) ⊎ ((h ≡ some 0) × (a ≡ some 0))) × (next ≡ blank_next t)

abbrev Counts : VolleyballSetRule → ℕ → Option ℕ → Option ℕ → Tally → Tally → Type 0
Counts rule number h a t next =
    (x : ℕ) × (y : ℕ) × (h ≡ some x)
    × (a ≡ some y)
    × (t.gap_seen ≡ false)
    × (t.home_wins ≢ rule.sets_to_win)
    × (t.away_wins ≢ rule.sets_to_win)
    × (valid_set_score number x y rule ≡ true)
    × (next ≡ won number x y t)

read_set_reads :
    (rule : VolleyballSetRule) (number : ℕ) (h a : Option ℕ) (t next : Tally)
    → read_set rule number h a t ≡ reads next
    → Skips h a t next ⊎ Counts rule number h a t next
unfolding read_set
read_set_reads rule number none none t next e = inl (inl (refl, refl), cc)
read_set_reads rule number none (some a) t next e = absurd (cc)
read_set_reads rule number (some h) none t next e = absurd (cc)
read_set_reads rule number (some h) (some a) t next e = elim (Bool-cases (h == 0 && a == 0)) [
  | inl z ↦ inl (inr (ground arith, ground arith), (ground arith))
  | inr z ↦ elim (Bool-cases t.gap_seen) [
    | inl g ↦ absurd (ground arith)
    | inr g ↦
        elim (Bool-cases (t.home_wins == rule.sets_to_win || t.away_wins == rule.sets_to_win)) [
          | inl w ↦ absurd (ground arith)
          | inr w ↦ elim (Bool-cases (valid_set_score number h a rule)) [
            | inl v ↦ inr (h, a, refl, refl, g, ground arith, ground arith, v, (ground arith))
            | inr v ↦ absurd (ground arith)
          ]
        ]
  ]
]

pub >>=-reads {ℓ κ} :
    {A : Type ℓ} {B : Type κ} (c : Checked A) (next : A → Checked B) (b : B)
    → (c >>= next) ≡ reads b
    → (a : A) × (c ≡ reads a) × (next a ≡ reads b)
>>=-reads (reads a) next b e = (a, refl, e)
>>=-reads (reports i) next b e = absurd (ground arith)
>>=-reads (fails i) next b e = absurd (ground arith)

Play-empty :
    {rule : VolleyballSetRule} (m n h a h' a' : ℕ)
    → Play rule m h a [] h' a'
    → Play rule n h a [] h' a'
Play-empty m n h a h' a' Play.over = Play.over

-- The sets that the loop adds.
abbrev pub Adds : VolleyballSetRule → Row → ℕ → ℕ → Tally → Tally → List SetFact → Type 0
Adds rule row left number t t' back =
    (t'.sets ≡ t.sets ++ back)
    × Shows row number left back
    × Play rule number t.home_wins t.away_wins back t'.home_wins t'.away_wins
    × (t.gap_seen ≡ true → back ≡ [])

pub leads : (x y h a : ℕ) → y < x → (h + int (ltb y x) ≡ suc h) × (a + int (ltb x y) ≡ a)
leads x y h a l = ground arith

valid_set_score-differ :
    (rule : VolleyballSetRule) (number x y : ℕ)
    → valid_set_score number x y rule ≡ true
    → (x < y) ⊎ (y < x)
valid_set_score-differ rule number x y v = ground arith

module _ (rule : VolleyballSetRule) (two : 2 ≤ rule.winning_margin) where
  module _ (positive : (n : ℕ) → 0 < target_of rule n) (row : Row) where
    Adds-blank :
        (left number : ℕ) (t t' : Tally)
        → IsBlank row number
        → ((back : List SetFact) × Adds rule row left (suc number) (blank_next t) t' back)
        → (back : List SetFact) × Adds rule row (suc left) number t t' back
    Adds-blank left number t t' blank (back, (s, shows, play, g)) =
        let (s, shows, play) =
          subst
            (λ b.
              (t'.sets ≡ t.sets ++ b)
              × Shows row (suc number) left b
              × Play rule (suc number) t.home_wins t.away_wins b t'.home_wins t'.away_wins)
            (g refl) (s, shows, play) in
        (
          [],
          (
            s,
            (blank, shows),
            Play-empty (suc number) number t.home_wins t.away_wins t'.home_wins t'.away_wins play,
            λ _. refl,
          ),
        )

    Adds-set :
        (left number : ℕ) (t t' : Tally) (x y : ℕ)
        → Scores row home number (some x)
        → Scores row away number (some y)
        → t.gap_seen ≡ false
        → t.home_wins ≢ rule.sets_to_win
        → t.away_wins ≢ rule.sets_to_win
        → valid_set_score number x y rule ≡ true
        → ((back : List SetFact) × Adds rule row left (suc number) (won number x y t) t' back)
        → (back : List SetFact) × Adds rule row (suc left) number t t' back
    Adds-set left number t t' x y hs os g h a v (back, (s, shows, play, _)) = (
      set_of number x y ∷ back,
      (
        s ∙ append_assoc t.sets (set_of number x y ∷ []) back,
        (hs, os, shows),
        play_set (valid_set_score-differ rule number x y v),
        λ gap. absurd (cc),
      ),
    )
      where
        ends : Ends (target_of rule number) rule.winning_margin x y
        ends = (valid_set_score_iff rule number x y two (positive number)).0 v

        play_set :
            (x < y) ⊎ (y < x)
            → Play rule number t.home_wins t.away_wins
                (set_of number x y ∷ back)
                t'.home_wins
                t'.away_wins
        play_set (inl l) =
            let (p, q) = leads y x t.away_wins t.home_wins l in
            away_takes x y h a ends l (rw (p, q) at play)
        play_set (inr l) =
            let (p, q) = leads x y t.home_wins t.away_wins l in
            home_takes x y h a ends l (rw (p, q) at play)

    pub read_sets-Adds :
        (left number : ℕ) (t t' : Tally)
        → read_sets rule row left number t ≡ reads t'
        → (back : List SetFact) × Adds rule row left number t t' back
    unfolding read_sets
    read_sets-Adds zero number t t' e =
        let same : t ≡ t' = ground arith in
        subst (λ u. (back : List SetFact) × Adds rule row zero number t u back) same
          ([], (sym (append-nil t.sets), tt, Play.over, λ g. refl))
    read_sets-Adds (suc left) number t t' e =
        let (h, hs, e) =
          >>=-reads (nullable_integer row (score_key home number) game_path) _ t' e in
        let (a, os, e) =
          >>=-reads (nullable_integer row (score_key away number) game_path) _ t' e in
        let (next, body, e) = >>=-reads (read_set rule number h a t) _ t' e in
        elim (read_set_reads rule number h a t next body) [
          | inl (b, n) ↦
              Adds-blank left number t t'
                (elim b [
                  | inl (p, q) ↦ inl (hs ∙ ap reads p, os ∙ ap reads q)
                  | inr (p, q) ↦ inr (hs ∙ ap reads p, os ∙ ap reads q)
                ])
                (subst (λ u. (back : List SetFact) × Adds rule row left (suc number) u t' back) n
                  (read_sets-Adds left (suc number) next t' e))
          | inr (x, y, p, q, g, hw, aw, v, n) ↦
              Adds-set left number t t' x y (hs ∙ ap reads p) (os ∙ ap reads q) g hw aw v (
                subst (λ u. (back : List SetFact) × Adds rule row left (suc number) u t' back) n
                  (read_sets-Adds left (suc number) next t' e))
        ]
