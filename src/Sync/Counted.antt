-- ===== src/Sync/Counted.antt =====
-- The report on the coverage has one item for each match code, with the right status.
use vlytics.Sync.Coverage.{
  CoverageStatus, CoverageItem, loaded, missing, not_supported, unexpected, insert, sorted, Reasons,
  reason_of, expected_item, unexpected_item, reconcile_coverage,
}
use vlytics.Prelude.{
  member, unique, ℕ, Bool, true, false, not, ◌&&◌, ◌||◌, ◌≡◌, refl, ◌+◌, List, [], ◌∷◌, map, Text,
  text_eq, eq_of_text_eq, is_some, first, select, count, count-append, if◌then◌else◌, arith,
  Bool-cases, inl, inr, ap, ◌∙◌, sym, Option-cases,
}

abbrev pub int : Bool → ℕ
int b = if b then 1 else 0

count-insert :
    (p : Text → Bool) (c : Text) (xs : List Text) → count p (insert c xs) ≡ count p (c ∷ xs)
unfolding count insert
count-insert p c [] = refl
count-insert p c (x ∷ xs) = ground (arith, count-insert p c xs)

count-sorted : (p : Text → Bool) (xs : List Text) → count p (sorted xs) ≡ count p xs
unfolding count sorted
count-sorted p [] = refl
count-sorted p (x ∷ xs) = ground (arith, count-insert p x (sorted xs), count-sorted p xs)

text_eq_sym : (c d : Text) → text_eq c d ≡ text_eq d c
text_eq_sym c d = elim (Bool-cases (text_eq c d)) [
  | inl same ↦ let e = eq_of_text_eq c d same in rw e refl
  | inr other ↦ elim (Bool-cases (text_eq d c)) [
    | inl same ↦ let e = eq_of_text_eq d c same in rw e refl
    | inr also ↦ other ∙ sym also
  ]
]

count-select :
    (q : Text → Bool) (c : Text) (xs : List Text)
    → count (text_eq c) (select q xs) ≡ (if q c then count (text_eq c) xs else 0)
unfolding count select
count-select q c [] = ground arith
count-select q c (x ∷ xs) = elim (Bool-cases (text_eq c x)) [
  | inl same ↦ ground (arith, ap q (eq_of_text_eq c x same), count-select q c xs)
  | inr other ↦ ground (arith, count-select q c xs)
]

count-unique : (c : Text) (xs : List Text) → count (text_eq c) (unique xs) ≡ int (member c xs)
unfolding count unique first
count-unique c [] = refl
count-unique c (d ∷ xs) =
    ground (
      arith,
      text_eq_sym c d,
      count-select (λ e. not (text_eq d e)) c (unique xs),
      count-unique c xs,
    )

abbrev pub same_status : CoverageStatus → CoverageStatus → Bool
same_status loaded loaded = true
same_status missing missing = true
same_status not_supported not_supported = true
same_status unexpected unexpected = true
same_status _ _ = false

-- The item is for the code and has the status.
abbrev pub is_for : Text → CoverageStatus → CoverageItem → Bool
is_for c s i = text_eq c i.source_match_code && same_status s i.status

count-map :
    (f : Text → CoverageItem) (c : Text) (s : CoverageStatus) (xs : List Text)
    → ((x : Text) → (f x).source_match_code ≡ x)
    → count (is_for c s) (map f xs)
      ≡ (if same_status s (f c).status then count (text_eq c) xs else 0)
unfolding count
count-map f c s [] keeps = ground arith
count-map f c s (x ∷ xs) keeps = elim (Bool-cases (text_eq c x)) [
  | inl same ↦
      let here : is_for c s (f x) ≡ (text_eq c x && same_status s (f x).status) =
        ap (λ y. text_eq c y && same_status s (f x).status) (keeps x) in
      let alike = ap (λ y. same_status s (f y).status) (eq_of_text_eq c x same) in
      ground (arith, here, alike, count-map f c s xs keeps)
  | inr other ↦
      let here : is_for c s (f x) ≡ (text_eq c x && same_status s (f x).status) =
        ap (λ y. text_eq c y && same_status s (f x).status) (keeps x) in
      ground (arith, here, count-map f c s xs keeps)
]

-- The status that a code has by the schedule of the source and the matches that were loaded.
abbrev pub status_of : List Text → List Text → Reasons → Text → CoverageStatus
status_of expected_codes loaded_codes unsupported c =
    if member c expected_codes
    then (if member c loaded_codes
        then loaded
        else if is_some (reason_of unsupported c)
        then not_supported
        else missing)
    else unexpected

expected_item_lem :
    (loaded_codes : List Text) (unsupported missing_reasons : Reasons) (c : Text)
    → ((expected_item loaded_codes unsupported missing_reasons c).source_match_code ≡ c)
      × ((expected_item loaded_codes unsupported missing_reasons c).status ≡ (
          if member c loaded_codes
          then loaded
          else if is_some (reason_of unsupported c)
          then not_supported
          else missing))
unfolding expected_item
expected_item_lem loaded_codes unsupported missing_reasons c =
    elim (Bool-cases (member c loaded_codes)) [
      | inl there ↦ rw there (refl, refl)
      | inr gone ↦ elim (Option-cases (reason_of unsupported c)) [
        | inl plain ↦ rw (gone, plain) (refl, refl)
        | inr (reason, known) ↦ rw (gone, known) (refl, refl)
      ]
    ]

one_of_two :
    (wanted there : Bool) (s inner : CoverageStatus)
    → (if same_status s inner then int wanted else 0)
        + (if same_status s unexpected then (if not wanted then int there else 0) else 0)
      ≡ int ((wanted || there) && same_status s (if wanted then inner else unexpected))
one_of_two true there s inner = ground arith
one_of_two false true s inner = ground arith
one_of_two false false s inner = ground arith

-- The report has, for each match code and each status, one item if the code is in the schedule of
-- the source or was loaded and has that status, and none otherwise.
pub reconcile_coverage-count :
    (expected_codes loaded_codes : List Text) (unsupported missing_reasons : Reasons) (c : Text)
    (s : CoverageStatus)
    → count
        (is_for c s)
        (reconcile_coverage expected_codes loaded_codes unsupported missing_reasons)
      ≡ int (
          (member c expected_codes || member c loaded_codes)
          && same_status s (status_of expected_codes loaded_codes unsupported c))
unfolding reconcile_coverage
reconcile_coverage-count expected_codes loaded_codes unsupported missing_reasons c s =
    let f = expected_item loaded_codes unsupported missing_reasons in
    let others = select (λ d. not (member d expected_codes)) (unique loaded_codes) in
    let both =
      count-append (is_for c s) (map f (unique expected_codes))
        (map unexpected_item (sorted others)) in
    let front =
      count-map f c s (unique expected_codes)
        (λ x. (expected_item_lem loaded_codes unsupported missing_reasons x).0) in
    let back = count-map unexpected_item c s (sorted others) (λ x. refl) in
    let status =
      ap (same_status s) (expected_item_lem loaded_codes unsupported missing_reasons c).1 in
    let listed = count-unique c expected_codes in
    let kept =
      count-sorted (text_eq c) others
      ∙ count-select (λ d. not (member d expected_codes)) c (unique loaded_codes) in
    let found = count-unique c loaded_codes in
    let total : count (is_for c s)
          (reconcile_coverage expected_codes loaded_codes unsupported missing_reasons)
        ≡ (if same_status s (f c).status then int (member c expected_codes) else 0)
          + (if same_status s unexpected
              then (if not (member c expected_codes) then int (member c loaded_codes) else 0)
              else 0) =
      both ∙ rw (front, back, listed, kept, found) refl in
    total
    ∙ rw status (
        one_of_two (member c expected_codes) (member c loaded_codes) s (
          if member c loaded_codes
          then loaded
          else if is_some (reason_of unsupported c)
          then not_supported
          else missing))
