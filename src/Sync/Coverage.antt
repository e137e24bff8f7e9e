-- ===== src/Sync/Coverage.antt =====
-- `reconcile_coverage` of backend/src/vlytics/ops/sync.py.
use vlytics.Prelude.{
  not, Option, none, some, List, [], ◌∷◌, ◌++◌, map, Text, text_eq, codes, select, if◌then◌else◌,
  member, unique, text_before,
}

pub data CoverageStatus : Type 0 where
  loaded missing not_supported unexpected : CoverageStatus

pub record CoverageItem : Type 0 where
  pub source_match_code : Text
  pub status : CoverageStatus
  pub reason : Text

unfoldable pub insert : Text → List Text → List Text
unfolding text_before
insert c [] = c ∷ []
insert c (d ∷ ds) = let rest = insert c ds in if text_before c d then c ∷ d ∷ ds else d ∷ rest

unfoldable pub sorted : List Text → List Text
unfolding insert
sorted [] = []
sorted (c ∷ cs) = insert c (sorted cs)

-- A dict of reasons by match code.
abbrev pub Reasons : Type 0
Reasons = List (Text × Text)

unfoldable pub reason_of : Reasons → Text → Option Text
reason_of [] c = none
reason_of ((d, reason) ∷ reasons) c = if text_eq c d then some reason else reason_of reasons c

abbrev pub item : Text → CoverageStatus → Text → CoverageItem
item code status reason = record { source_match_code = code; status = status; reason = reason }

unfoldable pub expected_item : List Text → Reasons → Reasons → Text → CoverageItem
expected_item loaded_codes unsupported missing_reasons code =
    if member code loaded_codes
    then item code loaded (codes "source match loaded")
    else elim (reason_of unsupported code) [
      | some reason ↦ item code not_supported reason
      | none ↦ item code missing (elim (reason_of missing_reasons code) [
        | some reason ↦ reason
        | none ↦ codes "no accepted mirror match"
      ])
    ]

abbrev pub unexpected_item : Text → CoverageItem
unexpected_item code =
    item code unexpected (codes "loaded match is absent from the source schedule")

-- The items of the report.
unfoldable pub reconcile_coverage : List Text → List Text → Reasons → Reasons → List CoverageItem
unfolding unique sorted expected_item
reconcile_coverage expected_codes loaded_codes unsupported missing_reasons =
    map (expected_item loaded_codes unsupported missing_reasons) (unique expected_codes)
    ++ map unexpected_item
        (sorted (select (λ c. not (member c expected_codes)) (unique loaded_codes)))
