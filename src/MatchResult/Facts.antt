-- ===== src/MatchResult/Facts.antt =====
-- The set rules of backend/src/vlytics/mirror/rules.py, the facts of
-- backend/src/vlytics/mirror/models.py that a match result consists of, and the values of a source
-- row.
use vlytics.Prelude.{
  ℕ, Bool, List, [], ◌∷◌, ◌++◌, Option, none, some, Text, ◌==◌, if◌then◌else◌, text_eq, ◌&&◌, suc,
  ◌/◌, ◌%◌, ◌+◌, zero,
}

pub data ℤ : Type 0 where
  pos : ℕ → ℤ
  negsuc : ℕ → ℤ

mutual
  pub data Json : Type 0 where
    null : Json
    bool : Bool → Json
    integer : ℤ → Json
    real : Text → Json
    string : Text → Json
    array : Items → Json
    object : Fields → Json

  pub data Items : Type 0 where
    empty : Items
    item : Json → Items → Items

  pub data Fields : Type 0 where
    no_fields : Fields
    field : Text → Json → Fields → Fields

abbrev pub Row : Type 0
Row = List (Text × Json)

-- row.get(key): a missing key reads as null.
unfoldable pub get : Row → Text → Json
get [] key = null
get ((k, v) ∷ row) key = if text_eq k key then v else get row key

unfoldable pub digits : ℕ → ℕ → Text
digits zero n = []
digits (suc fuel) n =
    let front = digits fuel (n / 10) in
    if n / 10 == 0 then (48 + n) ∷ [] else front ++ ((48 + n % 10) ∷ [])

-- str(n)
abbrev pub decimal : ℕ → Text
unfolding digits
decimal n = digits (suc n) n

pub data Availability : Type 0 where
  available missing not_supported unverified : Availability

pub record ContractIssue : Type 0 where
  pub code : Text
  pub message : Text
  pub path : Text
  pub availability : Availability

pub record SetFact : Type 0 where
  pub set_number : ℕ
  pub home_points : ℕ
  pub away_points : ℕ

pub data Finality : Type 0 where
  provisional final : Finality

pub record ResultFact : Type 0 where
  pub source_match_code : Text
  pub home_sets : ℕ
  pub away_sets : ℕ
  pub home_total : ℕ
  pub away_total : ℕ
  pub finality : Finality
  pub rule_version : Text
  pub sets : List SetFact

pub record SeasonRuleKey : Type 0 where
  pub source : Text
  pub source_group_code : Text
  pub source_season_code : Text

pub record VolleyballSetRule : Type 0 where
  pub mapping_version : Text
  pub evidence : Text
  pub regular_set_target : ℕ
  pub deciding_set_target : ℕ
  pub winning_margin : ℕ
  pub sets_to_win : ℕ
  pub maximum_sets : ℕ

abbrev same_key : SeasonRuleKey → SeasonRuleKey → Bool
same_key k l =
    text_eq k.source l.source
    && text_eq k.source_group_code l.source_group_code
    && text_eq k.source_season_code l.source_season_code

-- SeasonRules.resolve
unfoldable pub resolve :
    List (SeasonRuleKey × VolleyballSetRule) → SeasonRuleKey → Option VolleyballSetRule
resolve [] key = none
resolve ((k, rule) ∷ rules) key = if same_key k key then some rule else resolve rules key
