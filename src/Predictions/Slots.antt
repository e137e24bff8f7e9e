-- ===== src/Predictions/Slots.antt =====
-- The predictions that the repository stores.
use vlytics.Predictions.{Prediction, Tables}
use vlytics.Predictions.Stored.{
  StoredPrediction, prediction_conflict, integrity_error, Storing, refused, answered,
  passes_prediction_checks, has_slot, as_found, find, insert_or_compare, add,
}
use vlytics.Prelude.{
  ℕ, Bool, true, false, ◌≡◌, refl, Option, none, some, List, [], ◌∷◌, ◌++◌, Text, text_eq,
  text_eq_refl, eq_of_text_eq, first, Distinct, Distinct-append, arith, if◌then◌else◌, ap, All-mono,
  first-none-All, Bool-cases, inl, inr,
}

abbrev pub same_slot : Prediction → Prediction → Bool
same_slot p = has_slot p.snapshot_id p.variant_id p.stage

slot_sym : (p q : Prediction) → same_slot p q ≡ false → same_slot q p ≡ false
slot_sym p q h = elim (Bool-cases (same_slot q p)) [
  | inl same ↦
      let e = eq_of_text_eq p.stage q.stage (ground arith) in
      let r = text_eq_refl q.stage in absurd (ground (arith, h, same, e, r))
  | inr other ↦ other
]

module _ (digest : Text → Text) where
  -- The slot of the prediction.
  abbrev pub find_slot : Prediction → Tables → Option StoredPrediction
  find_slot p = find p.snapshot_id p.variant_id p.stage

  -- What an answer says, and what it leaves.
  abbrev pub IsAnswer : Prediction → Tables → Storing → Type 0
  IsAnswer new t (refused integrity_error) = passes_prediction_checks new ≡ false
  IsAnswer new t (refused prediction_conflict) =
      (e : StoredPrediction) × (find_slot new t ≡ some e)
      × (text_eq e.sha256 (digest new.output_json) ≡ false)
  IsAnswer new t (answered r t') =
      (r.sha256 ≡ digest new.output_json)
      × Distinct same_slot t'.predictions
      × (t'.predictions ≡ (
          if r.created
          then t.predictions ++ record new { sha256 = r.sha256 } ∷ []
          else t.predictions))
      × (find_slot new t' ≡ some (record r { created = false }))
      × ((id : ℕ)
          → add digest (record new { id = id }) t' ≡ answered (record r { created = false }) t')

  add_again :
      (new : Prediction) (t : Tables) (r : StoredPrediction)
      → passes_prediction_checks new ≡ true
      → find_slot new t ≡ some r
      → text_eq r.sha256 (digest new.output_json) ≡ true
      → add digest new t ≡ answered r t
  unfolding add
  add_again new t r good found same = rw (good, found, same) refl

  first-fresh :
      (row : Prediction) (ps : List Prediction)
      → first (same_slot row) ps ≡ none
      → first (same_slot row) (ps ++ row ∷ []) ≡ some row
  unfolding first
  first-fresh row [] h = let same = text_eq_refl row.stage in ground (arith, same)
  first-fresh row (p ∷ ps) h = ground (arith, h, first-fresh row ps)

  insert_or_compare-IsAnswer :
      (new : Prediction) (t : Tables) (found : Option Prediction)
      → Distinct same_slot t.predictions
      → passes_prediction_checks new ≡ true
      → first (same_slot new) t.predictions ≡ found
      → IsAnswer new t
          (insert_or_compare (record new { sha256 = digest new.output_json }) (as_found found) t)
  unfolding find
  insert_or_compare-IsAnswer new t none distinct good e =
      let row : Prediction = record new { sha256 = digest new.output_json } in
      let t' = record t { predictions = t.predictions ++ row ∷ [] } in
      let found : find_slot new t'
          ≡ some (record { id = new.id; sha256 = row.sha256; created = false }) =
        ap as_found (first-fresh row t.predictions e) in
      (
        refl,
        Distinct-append same_slot t.predictions row
            (All-mono t.predictions (λ p other. slot_sym new p other)
              (first-none-All (same_slot new) t.predictions e))
            distinct,
        refl,
        found,
        λ id.
            add_again (record new { id = id }) t'
              (record { id = new.id; sha256 = row.sha256; created = false }) good found
              (text_eq_refl row.sha256),
      )
  insert_or_compare-IsAnswer new t (some p) distinct good e =
      let r : StoredPrediction = record { id = p.id; sha256 = p.sha256; created = false } in
      let found : find_slot new t ≡ some r = ap as_found e in
      elim (Bool-cases (text_eq p.sha256 (digest new.output_json))) [
        | inl same ↦ rw same (
          eq_of_text_eq p.sha256 (digest new.output_json) same,
          distinct,
          refl,
          found,
          λ id. add_again (record new { id = id }) t r good found same,
        )
        | inr other ↦ rw other (r, found, other)
      ]

  -- In predictions that have different slots of snapshot, variant and stage,
  -- `PredictionRepository.add` refuses a prediction exactly if it breaks a constraint or its slot
  -- holds another digest; otherwise it appends it or finds it there, all predictions still have
  -- different slots, `find` gives what `add` answered, and the same output added again gives that
  -- answer and changes nothing.
  pub add-IsAnswer :
      (new : Prediction) (t : Tables)
      → Distinct same_slot t.predictions
      → IsAnswer new t (add digest new t)
  unfolding add
  add-IsAnswer new t distinct = elim (Bool-cases (passes_prediction_checks new)) [
    | inl good ↦
        rw good (
          insert_or_compare-IsAnswer new t (first (same_slot new) t.predictions) distinct good refl)
    | inr bad ↦ rw bad bad
  ]
