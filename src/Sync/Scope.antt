-- ===== src/Sync/Scope.antt =====
-- `BackfillScope` of backend/src/vlytics/mirror/backfill.py, and how the payload of a job carries one
-- in backend/src/vlytics/ops/sync.py.
use vlytics.Jobs.{Result, ok, err, value_error, ◌>>=◌}
use vlytics.Prelude.{Option, none, some, List, [], ◌∷◌, ◌++◌, Text, text_eq, codes, if◌then◌else◌}

pub record BackfillScope : Type 0 where
  pub source : Text
  pub group_code : Text
  pub season_code : Text
  pub competition_code : Text

-- BackfillScope.key
abbrev pub scope_key : BackfillScope → Text
scope_key s =
    s.source
    ++ (codes ":"
        ++ (s.group_code ++ (codes ":" ++ (s.season_code ++ (codes ":" ++ s.competition_code)))))

-- A value of a payload; all that is not a string is alike here.
pub data Value : Type 0 where
  string : Text → Value
  other_value : Value

-- A Mapping[str, object] by its entries, of which the first with a key counts.
abbrev pub Mapping : Type 0
Mapping = List (Text × Value)

-- payload.get(name)
unfoldable pub get : Text → Mapping → Option Value
get name [] = none
get name ((key, value) ∷ entries) = if text_eq name key then some value else get name entries

-- _scope_payload
unfoldable pub scope_payload : BackfillScope → Mapping
scope_payload s =
    (codes "source", string s.source)
    ∷ (codes "group_code", string s.group_code)
    ∷ (codes "season_code", string s.season_code)
    ∷ (codes "competition_code", string s.competition_code)
    ∷ []

-- isinstance(value, str) and value, for what `get` returns
unfoldable pub read_code : Option Value → Result Text
read_code (some (string (c ∷ code))) = ok (c ∷ code)
read_code _ = err value_error

unfoldable pub scope_from_payload : Mapping → Result BackfillScope
unfolding get read_code
scope_from_payload payload = do
  source ← read_code (get (codes "source") payload)
  group_code ← read_code (get (codes "group_code") payload)
  season_code ← read_code (get (codes "season_code") payload)
  competition_code ← read_code (get (codes "competition_code") payload)
  ok (record {
    source = source;
    group_code = group_code;
    season_code = season_code;
    competition_code = competition_code;
  })
