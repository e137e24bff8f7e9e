-- ===== src/Scheduler/Reconciled.antt =====
-- What the reconciliation of a schedule leaves of the jobs and the predictions of a match.
use vlytics.Scheduler.Lifecycle.{
  ScheduleChange, Lifecycle, classify_schedule_change, stop, record_change, supersede, call_off,
  schedule_reason, word, start, reconcile,
}
use vlytics.Scheduler.Planner.{ScheduleRevision, is_called_off}
use vlytics.Predictions.Ended.{
  status_of, has_prediction_id, void_match_predictions-status, reject_started_match-status,
  void_match_predictions-predictions,
}
use vlytics.Predictions.{Prediction, Status, voided, late_rejected, is_voided}
use vlytics.Jobs.{ErrorCode}
use vlytics.Prelude.{
  leb, lower, ℕ, Bool, false, not, ◌&&◌, Option, none, some, Text, ◌==◌, ◌≡◌, ◌∙◌, refl,
  if◌then◌else◌, first, Distinct, Bool-cases, inl, inr,
}

-- The revision of the previous one replaces it, with a change.
abbrev pub is_superseding :
    ScheduleRevision → Option ScheduleRevision → Option ScheduleChange → Bool
is_superseding current (some previous) (some change) = not (previous.id == current.id)
is_superseding current _ _ = false

abbrev pub is_late_for : ScheduleRevision → Option ℕ → Prediction → Bool
is_late_for current none p = false
is_late_for current (some actual) p = p.match_id == current.match_id && leb actual p.generated_at

-- The status that a prediction is to have, by the status it had.
abbrev pub status_after :
    ScheduleRevision → Option ScheduleRevision → Prediction → Option Status → Option Status
status_after current previous p before =
    if is_late_for current current.actual_start_at p
    then some late_rejected
    else if is_called_off current && is_voided current.match_id none p
    then some voided
    else if is_superseding current previous (classify_schedule_change current previous)
        && (p.match_id == current.match_id && not (p.schedule_revision_id == current.id))
    then some voided
    else before

module _ (text_of number : ℕ → Text) (code : Text → ℕ) (current : ScheduleRevision) where
  -- A prediction as the steps find it.
  module _ (i : ℕ) (p : Prediction) where
    abbrev HasIt : Lifecycle → Type 0
    HasIt s =
        Distinct (λ q r. q.id == r.id) s.predictions.predictions
        × (first (has_prediction_id i) s.predictions.predictions ≡ some p)

    stop-status :
        (id : ℕ) (reason : Text) (why : ErrorCode) (except : Option ℕ) (s : Lifecycle)
        → HasIt s
        → HasIt (stop id current reason why except s).1
          × (status_of i (stop id current reason why except s).1.predictions ≡ (
              if is_voided current.match_id except p
              then some voided
              else status_of i s.predictions))
    unfolding stop
    stop-status id reason why except s (distinct, found) =
        let same =
          void_match_predictions-predictions id current.match_id reason current.observed_at
            current.observed_at except s.predictions in
        (
          rw same (distinct, found),
          void_match_predictions-status i p s.predictions distinct found id current.match_id reason
              current.observed_at current.observed_at except,
        )

    supersede-status :
        (id : ℕ) (previous : Option ScheduleRevision) (change : Option ScheduleChange)
        (s : Lifecycle)
        → HasIt s
        → HasIt (supersede text_of number code id current previous change s).1
          × (status_of i (supersede text_of number code id current previous change s).1.predictions
              ≡ (if is_superseding current previous change
                    && is_voided current.match_id (some current.id) p
                  then some voided
                  else status_of i s.predictions))
    unfolding supersede
    supersede-status id none change s has = (has, refl)
    supersede-status id (some previous) none s has = (has, refl)
    supersede-status id (some previous) (some change) s has =
        elim (Bool-cases (previous.id == current.id)) [
          | inl same ↦ rw same (has, refl)
          | inr other ↦ rw other (
              let why = schedule_reason text_of number code (word change) in
              stop-status id why (ErrorCode.text (code why)) (some current.id) s has)
        ]

    call_off-status :
        (id : ℕ) (s : Lifecycle)
        → HasIt s
        → HasIt (call_off text_of number code id current s).1
          × (status_of i (call_off text_of number code id current s).1.predictions ≡ (
              if is_called_off current && is_voided current.match_id none p
              then some voided
              else status_of i s.predictions))
    unfolding call_off
    call_off-status id s has = elim (Bool-cases (is_called_off current)) [
      | inl off ↦ rw off (
          let why = schedule_reason text_of number code (lower current.status) in
          stop-status id why (ErrorCode.text (code why)) none s has)
      | inr on ↦ rw on (has, refl)
    ]

    start-status :
        (id : ℕ) (actual : Option ℕ) (s : Lifecycle)
        → HasIt s
        → status_of i (start text_of number code id current actual s).predictions
          ≡ (if is_late_for current actual p then some late_rejected else status_of i s.predictions)
    unfolding start
    start-status id none s has = refl
    start-status id (some actual) s (distinct, found) =
        reject_started_match-status i p s.predictions distinct found id current.match_id actual
          current.observed_at

    record_change-predictions :
        (id : ℕ) (previous : Option ScheduleRevision) (change : Option ScheduleChange)
        (s : Lifecycle)
        → (record_change text_of number code id current previous change s).predictions
          ≡ s.predictions
    unfolding record_change
    record_change-predictions id previous none s = refl
    record_change-predictions id previous (some change) s = refl

  -- If predictions have different ids, a reconciliation leaves each prediction with the status that
  -- follows: rejected as late if it is of a match that has started and was generated no earlier;
  -- otherwise void if it is of a match that is called off, or of the match and another revision
  -- than the one that replaces the previous one with a change; otherwise the status it had.
  pub reconcile-status :
      (event_id id i : ℕ) (previous : Option ScheduleRevision) (s : Lifecycle) (p : Prediction)
      → Distinct (λ q r. q.id == r.id) s.predictions.predictions
      → first (has_prediction_id i) s.predictions.predictions ≡ some p
      → status_of i (reconcile text_of number code event_id id current previous s).1.predictions
        ≡ status_after current previous p (status_of i s.predictions)
  unfolding reconcile
  reconcile-status event_id id i previous s p distinct found =
      let change = classify_schedule_change current previous in
      let s₁ = record_change text_of number code event_id current previous change s in
      let keeps = record_change-predictions i p event_id previous change s in
      let has : HasIt i p s₁ = rw keeps (distinct, found) in
      let (id₂, s₂) = supersede text_of number code id current previous change s₁ in
      let (has₂, e₂) = supersede-status i p id previous change s₁ has in
      let (id₃, s₃) = call_off text_of number code id₂ current s₂ in
      let (has₃, e₃) = call_off-status i p id₂ s₂ has₂ in
      let e₄ = start-status i p id₃ current.actual_start_at s₃ has₃ in
      e₄ ∙ rw e₃ (rw e₂ (rw keeps refl))
