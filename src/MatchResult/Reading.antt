-- ===== src/MatchResult/Reading.antt =====
-- The reading of one value of a source row: `_nullable_integer` and `_fail` in
-- backend/src/vlytics/mirror/parser.py.
use vlytics.MatchResult.Facts.{
  ContractIssue, Availability, unverified, Row, Json, null, integer, pos, negsuc, bool, real,
  string, array, object, get, decimal,
}
use vlytics.Prelude.{ℕ, ◌++◌, Option, none, some, Text, codes}

-- What a step of the parser comes to: a value, an issue that is reported and ends the result, or the
-- ContractError of `_fail`.
pub data Checked {ℓ} (A : Type ℓ) : Type ℓ where
  reads : A → Checked A
  reports : ContractIssue → Checked A
  fails : ContractIssue → Checked A

infixl 5 ◌>>=◌
abbrev pub ◌>>=◌ {ℓ κ} : {A : Type ℓ} {B : Type κ} → Checked A → (A → Checked B) → Checked B
◌>>=◌ (reads a) next = next a
◌>>=◌ (reports i) next = reports i
◌>>=◌ (fails i) next = fails i

abbrev pub game_path : Text
game_path = codes "$.payload.game"

abbrev pub issue : Text → Text → Text → Availability → ContractIssue
issue code message path availability = record {
  code = code;
  message = message;
  path = path;
  availability = availability;
}

-- _nullable_integer
unfoldable pub nullable_integer : Row → Text → Text → Checked (Option ℕ)
nullable_integer row key path = integer_of (get row key)
  where
    type_change : ContractIssue
    type_change =
        issue (codes "type_change") (codes "expected integer or null") (path ++ codes "." ++ key)
          unverified

    integer_of : Json → Checked (Option ℕ)
    integer_of null = reads none
    integer_of (integer (pos n)) = reads (some n)
    integer_of (integer (negsuc _)) = fails (
        issue (codes "invalid_negative_value") (codes "score/stat cannot be negative")
          (path ++ codes "." ++ key) unverified)
    integer_of (bool _) = fails type_change
    integer_of (real _) = fails type_change
    integer_of (string _) = fails type_change
    integer_of (array _) = fails type_change
    integer_of (object _) = fails type_change

pub data Side : Type 0 where
  home away : Side

-- f"hs{number}point" and f"as{number}point"
abbrev pub score_key : Side → ℕ → Text
score_key home number = codes "hs" ++ decimal number ++ codes "point"
score_key away number = codes "as" ++ decimal number ++ codes "point"

abbrev pub total_key : Side → Text
total_key home = codes "hspoint"
total_key away = codes "aspoint"
