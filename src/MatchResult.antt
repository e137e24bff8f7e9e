-- ===== src/MatchResult.antt =====
-- The reading of a match result from a source row: `_parse_result` and its helpers in
-- backend/src/vlytics/mirror/parser.py.
mod Facts
mod Reading
mod SetScore
mod Play
mod Loop
mod Complete
mod Legal
mod Outcome
mod Tests
unfoldable pub use Facts.*
unfoldable pub use Reading.*
use vlytics.Prelude.{
  ℕ, Bool, true, false, not, ◌&&◌, ◌||◌, List, [], ◌∷◌, ◌++◌, Option, none, some, Text, ◌==◌,
  if◌then◌else◌, zero, suc, ◌+◌, leb, ltb, min, max, codes, has_text,
}

abbrev pub target_of : VolleyballSetRule → ℕ → ℕ
target_of rule number =
    if number == rule.maximum_sets then rule.deciding_set_target else rule.regular_set_target

-- _valid_set_score, where `loser <= target - winning_margin` is over the integers.
abbrev pub valid_set_score : ℕ → ℕ → ℕ → VolleyballSetRule → Bool
valid_set_score number h a rule =
    let winner = max h a in
    let loser = min h a in
    let target = target_of rule number in
    if h == a || ltb winner target
    then false
    else if leb (loser + rule.winning_margin) target
    then winner == target
    else winner == loser + rule.winning_margin

-- The local variables of the loop over the sets.
pub record Tally : Type 0 where
  pub sets : List SetFact
  pub gap_seen : Bool
  pub home_wins : ℕ
  pub away_wins : ℕ

abbrev set_issue : Text → ℕ → Text → Availability → ContractIssue
set_issue code number message availability =
    issue code (codes "set " ++ decimal number ++ message)
      (codes "$.payload.game.*s" ++ decimal number ++ codes "point") availability

abbrev incomplete_set : ℕ → ContractIssue
incomplete_set number =
    set_issue (codes "incomplete_set") number (codes " has only one team score") missing

-- int(b)
abbrev pub int : Bool → ℕ
int b = if b then 1 else 0

-- The body of the loop, for the scores of one set.
pub read_set : VolleyballSetRule → ℕ → Option ℕ → Option ℕ → Tally → Checked Tally
read_set rule number none none t = reads (record t { gap_seen = true })
read_set rule number none (some _) t = reports (incomplete_set number)
read_set rule number (some _) none t = reports (incomplete_set number)
read_set rule number (some h) (some a) t =
    if h == 0 && a == 0
    then reads (record t { gap_seen = true })
    else if t.gap_seen
    then reports (
        set_issue (codes "non_contiguous_sets") number (codes " appears after an empty set")
          unverified)
    else if t.home_wins == rule.sets_to_win || t.away_wins == rule.sets_to_win
    then reports (
        set_issue (codes "set_after_match_end") number (codes " appears after the third set win")
          unverified)
    else if not (valid_set_score number h a rule)
    then reports (
        set_issue (codes "invalid_set_score") number (codes " violates " ++ rule.mapping_version)
          unverified)
    else reads (record {
      sets = t.sets ++ (record { set_number = number; home_points = h; away_points = a } ∷ []);
      gap_seen = t.gap_seen;
      home_wins = t.home_wins + int (ltb a h);
      away_wins = t.away_wins + int (ltb h a);
    })

-- The loop: the `left` sets from `number` on.
pub read_sets : VolleyballSetRule → Row → ℕ → ℕ → Tally → Checked Tally
read_sets rule row zero number t = reads t
read_sets rule row (suc left) number t = do
  h ← nullable_integer row (score_key home number) game_path
  a ← nullable_integer row (score_key away number) game_path
  next ← read_set rule number h a t
  read_sets rule row left (suc number) next

abbrev pub sum : (SetFact → ℕ) → List SetFact → ℕ
sum points [] = 0
sum points (s ∷ sets) = points s + sum points sets

abbrev incomplete_result : ContractIssue
incomplete_result =
    issue (codes "incomplete_result")
      (codes "set scores and both match totals are required together") game_path missing

abbrev is_empty : List SetFact → Bool
is_empty [] = true
is_empty (_ ∷ _) = false

-- sorted((home_wins, away_wins)) in ([0, n], [1, n], [2, n])
abbrev pub is_final_score : ℕ → ℕ → ℕ → Bool
is_final_score n h a = max h a == n && leb (min h a) 2

-- The checks after the loop.
pub settle_result :
    VolleyballSetRule → Text → Tally → Option ℕ → Option ℕ → Checked (Option ResultFact)
settle_result rule match t none none =
    if is_empty t.sets then reads none else reports incomplete_result
settle_result rule match t none (some _) = reports incomplete_result
settle_result rule match t (some _) none = reports incomplete_result
settle_result rule match t (some h) (some a) =
    if is_empty t.sets
    then reports incomplete_result
    else if not (sum (λ s. s.home_points) t.sets == h && sum (λ s. s.away_points) t.sets == a)
    then reports (
        issue (codes "total_score_mismatch")
          (codes "match totals do not equal the observed set scores") game_path unverified)
    else if not (is_final_score rule.sets_to_win t.home_wins t.away_wins)
    then reports (
        issue (codes "invalid_set_result") (codes "observed sets do not end at the third set win")
          game_path unverified)
    else reads (
        some (record {
          source_match_code = match;
          home_sets = t.home_wins;
          away_sets = t.away_wins;
          home_total = h;
          away_total = a;
          finality = provisional;
          rule_version = rule.mapping_version;
          sets = t.sets;
        }))

abbrev pub empty_tally : Tally
empty_tally = record { sets = []; gap_seen = false; home_wins = 0; away_wins = 0 }

abbrev scores_positive : VolleyballSetRule → Bool
scores_positive rule =
    ltb 0 rule.regular_set_target
    && ltb 0 rule.deciding_set_target
    && ltb 0 rule.winning_margin
    && ltb 0 rule.sets_to_win
    && ltb 0 rule.maximum_sets

-- VolleyballSetRule.__post_init__
abbrev pub is_rule : VolleyballSetRule → Bool
is_rule rule = has_text rule.mapping_version && has_text rule.evidence && scores_positive rule

-- _parse_result once the season's rule is known.
pub read_result : VolleyballSetRule → Text → Row → Checked (Option ResultFact)
read_result rule match row = do
  t ← read_sets rule row rule.maximum_sets 1 empty_tally
  h ← nullable_integer row (total_key home) game_path
  a ← nullable_integer row (total_key away) game_path
  settle_result rule match t h a

-- What `_parse_result` comes to: the ContractError, or a fact and the list of issues.
pub data Parsed : Type 0 where
  raised : ContractIssue → Parsed
  returned : Option ResultFact → List ContractIssue → Parsed

-- A reported issue is appended to the list.
abbrev pub with_issues : List ContractIssue → Checked (Option ResultFact) → Parsed
with_issues issues (reads fact) = returned fact issues
with_issues issues (reports i) = returned none (issues ++ (i ∷ []))
with_issues issues (fails i) = raised i

pub parse_result :
    List (SeasonRuleKey × VolleyballSetRule)
    → SeasonRuleKey
    → Text
    → Row
    → List ContractIssue
    → Parsed
parse_result rules key match row issues = under (resolve rules key)
  where
    under : Option VolleyballSetRule → Parsed
    under none = returned none (
        issues
        ++ (issue (codes "op006_season_rule_unverified")
              (codes "no reviewed volleyball set rule for this source season") game_path unverified
            ∷ []))
    under (some rule) = with_issues issues (read_result rule match row)
