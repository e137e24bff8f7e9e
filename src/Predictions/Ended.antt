-- ===== src/Predictions/Ended.antt =====
-- The status that a prediction has after the operations on the predictions of a match.
use vlytics.Predictions.{
  Status, voided, late_rejected, Prediction, PredictionEvent, StatusRow, Tables, is_same_event,
  end_event, add_once, put_row, apply_event, end_predictions, is_voided, is_late,
  void_match_predictions, reject_started_match,
}
use vlytics.Prelude.{
  codes, ℕ, Bool, true, false, Option, none, some, List, [], ◌∷◌, Text, ◌+◌, ◌≡◌, ◌==◌, refl, arith,
  is_some, first, select, Bool-cases, inl, inr, Distinct, if◌then◌else◌, ◌∙◌, ap, Option-cases,
  some_inj, sym,
}

abbrev pub is_row_of : ℕ → StatusRow → Bool
is_row_of i row = row.prediction_id == i

abbrev pub row_status : Option StatusRow → Option Status
row_status none = none
row_status (some row) = some row.current_status

abbrev pub status_of : ℕ → Tables → Option Status
status_of i t = row_status (first (is_row_of i) t.projection)

abbrev pub has_prediction_id : ℕ → Prediction → Bool
has_prediction_id i p = p.id == i

first-put_row :
    (i : ℕ) (new : StatusRow) (rows : List StatusRow)
    → first (is_row_of i) (put_row new rows)
      ≡ (if new.prediction_id == i then some new else first (is_row_of i) rows)
unfolding put_row first
first-put_row i new [] = refl
first-put_row i new (row ∷ rows) = ground (arith, first-put_row i new rows)

module _ (new : PredictionEvent) (t : Tables) where
  add_once-predictions : (add_once new t).1.predictions ≡ t.predictions
  unfolding add_once
  add_once-predictions = elim (Option-cases (first (is_same_event new) t.events)) [
    | inl e ↦ rw (e, add_once)
    | inr (x, e) ↦ rw (e, add_once)
  ]

  add_once-projection : (add_once new t).1.projection ≡ t.projection
  unfolding add_once
  add_once-projection = elim (Option-cases (first (is_same_event new) t.events)) [
    | inl e ↦ rw (e, add_once)
    | inr (x, e) ↦ rw (e, add_once)
  ]

apply_event-status :
    (i p event_id : ℕ) (status : Status) (at : ℕ) (t : Tables)
    → status_of i (apply_event p event_id status at t)
      ≡ (if p == i then some status else status_of i t)
unfolding apply_event
apply_event-status i p event_id status at t = elim (Bool-cases (p == i)) [
  | inl e ↦ ap row_status (first-put_row i _ t.projection) ∙ rw e
  | inr e ↦ ap row_status (first-put_row i _ t.projection) ∙ rw e
]

either :
    (b : Bool) (p : Prediction) (r : Option Prediction) (s x : Option Status)
    → (if is_some r then s else if b then s else x)
      ≡ (if is_some (if b then some p else r) then s else x)
either true p none s x = refl
either true p (some q) s x = refl
either false p r s x = refl

-- Ending the predictions of some rows ends those and no others.
end_predictions-status :
    (i id : ℕ) (status : Status) (reason : Text) (occurred_at observed_at : ℕ)
    (ps : List Prediction) (t : Tables)
    → status_of i (end_predictions id status reason occurred_at observed_at ps t)
      ≡ (if is_some (first (has_prediction_id i) ps) then some status else status_of i t)
unfolding end_predictions apply_event first
end_predictions-status i id status reason occurred_at observed_at [] t = refl
end_predictions-status i id status reason occurred_at observed_at (p ∷ ps) t =
    let new = end_event id status reason occurred_at observed_at p in
    let (event_id, t') = add_once new t in
    let rest =
      end_predictions-status i (id + 1) status reason occurred_at observed_at ps
        (apply_event p.id event_id status observed_at t') in
    let here = apply_event-status i p.id event_id status observed_at t' in
    rest
    ∙ ap (λ x. if is_some (first (has_prediction_id i) ps) then some status else x)
        (here
          ∙ ap (λ rows. if p.id == i then some status else row_status (first (is_row_of i) rows))
              (add_once-projection new t))
    ∙ either (p.id == i) p (first (has_prediction_id i) ps) (some status) (status_of i t)

pub end_predictions-predictions :
    (id : ℕ) (status : Status) (reason : Text) (occurred_at observed_at : ℕ) (ps : List Prediction)
    (t : Tables)
    → (end_predictions id status reason occurred_at observed_at ps t).predictions ≡ t.predictions
unfolding end_predictions apply_event
end_predictions-predictions id status reason occurred_at observed_at [] t = refl
end_predictions-predictions id status reason occurred_at observed_at (p ∷ ps) t =
    let new = end_event id status reason occurred_at observed_at p in
    let (event_id, t') = add_once new t in
    end_predictions-predictions (id + 1) status reason occurred_at observed_at ps
      (apply_event p.id event_id status observed_at t')
    ∙ add_once-predictions new t

first-select-none :
    (i : ℕ) (c : Prediction → Bool) (ps : List Prediction)
    → first (has_prediction_id i) ps ≡ none
    → first (has_prediction_id i) (select c ps) ≡ none
unfolding first select
first-select-none i c [] e = refl
first-select-none i c (q ∷ ps) e = ground (arith, first-select-none i c ps)

first-same :
    (i j : ℕ) (ps : List Prediction)
    → (j == i) ≡ true
    → first (λ r. j == r.id) ps ≡ none
    → first (has_prediction_id i) ps ≡ none
unfolding first
first-same i j [] e h = refl
first-same i j (q ∷ ps) e h = ground (arith, first-same i j ps)

first-select :
    (i : ℕ) (c : Prediction → Bool) (ps : List Prediction) (p : Prediction)
    → Distinct (λ q r. q.id == r.id) ps
    → first (has_prediction_id i) ps ≡ some p
    → is_some (first (has_prediction_id i) (select c ps)) ≡ c p
unfolding first select
first-select i c [] p d e = ground arith
first-select i c (q ∷ ps) p d e = elim (Bool-cases (has_prediction_id i q)) [
  | inl here ↦
      let same : q ≡ p = some_inj (rw (here, first) at e) in
      let gone = first-select-none i c ps (first-same i q.id ps here d.0) in
      elim (Bool-cases (c q)) [
        | inl kept ↦ rw (kept, here) (sym kept ∙ ap c same)
        | inr left ↦ rw (left, gone) (sym left ∙ ap c same)
      ]
  | inr other ↦ elim (Bool-cases (c q)) [
    | inl kept ↦ rw (kept, other) (first-select i c ps p d.1 (rw (other, first) at e))
    | inr left ↦ rw left (first-select i c ps p d.1 (rw (other, first) at e))
  ]
]

-- What the two operations do to the status of a prediction.
module _ (i : ℕ) (p : Prediction) (t : Tables)
    (distinct : Distinct (λ q r. q.id == r.id) t.predictions)
    (found : first (has_prediction_id i) t.predictions ≡ some p) where
  pub void_match_predictions-status :
      (id match_id : ℕ) (reason : Text) (occurred_at observed_at : ℕ) (except : Option ℕ)
      → status_of i (void_match_predictions id match_id reason occurred_at observed_at except t).1
        ≡ (if is_voided match_id except p then some voided else status_of i t)
  unfolding void_match_predictions
  void_match_predictions-status id match_id reason occurred_at observed_at except =
      end_predictions-status i id voided reason occurred_at observed_at
        (select (is_voided match_id except) t.predictions) t
      ∙ ap (λ b. if b then some voided else status_of i t)
          (first-select i (is_voided match_id except) t.predictions p distinct found)

  pub reject_started_match-status :
      (id match_id actual_start_at observed_at : ℕ)
      → status_of i (reject_started_match id match_id actual_start_at observed_at t).1
        ≡ (if is_late match_id actual_start_at p then some late_rejected else status_of i t)
  unfolding reject_started_match
  reject_started_match-status id match_id actual_start_at observed_at =
      end_predictions-status i id late_rejected (codes "completed_at_or_after_actual_start")
        actual_start_at observed_at (select (is_late match_id actual_start_at) t.predictions) t
      ∙ ap (λ b. if b then some late_rejected else status_of i t)
          (first-select i (is_late match_id actual_start_at) t.predictions p distinct found)

pub void_match_predictions-predictions :
    (id match_id : ℕ) (reason : Text) (occurred_at observed_at : ℕ) (except : Option ℕ) (t : Tables)
    → (void_match_predictions id match_id reason occurred_at observed_at except t).1.predictions
      ≡ t.predictions
unfolding void_match_predictions
void_match_predictions-predictions id match_id reason occurred_at observed_at except t =
    end_predictions-predictions id voided reason occurred_at observed_at
      (select (is_voided match_id except) t.predictions) t
