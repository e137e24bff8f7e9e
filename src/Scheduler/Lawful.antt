-- ===== src/Scheduler/Lawful.antt =====
-- What the reconciliation of a schedule keeps of the events of predictions.
use vlytics.Scheduler.Lifecycle.{
  ScheduleChange, Lifecycle, classify_schedule_change, stop, record_change, supersede, call_off,
  schedule_reason, word, start, reconcile,
}
use vlytics.Scheduler.Planner.{ScheduleRevision, is_called_off}
use vlytics.Predictions.Constraints.{AreLawful}
use vlytics.Predictions.Lawful.{void_match_predictions-AreLawful, reject_started_match-AreLawful}
use vlytics.Predictions.Stored.{is_blank}
use vlytics.Jobs.{ErrorCode}
use vlytics.Prelude.{
  lower, ℕ, false, Option, none, some, Text, ◌==◌, ◌≡◌, refl, Bool-cases, inl, inr,
}

module _ (revision_of : ℕ → ℕ) (text_of number : ℕ → Text) (code : Text → ℕ)
    (current : ScheduleRevision) where
  stop-AreLawful :
      (id : ℕ) (reason : Text) (why : ErrorCode) (except : Option ℕ) (s : Lifecycle)
      → is_blank reason ≡ false
      → AreLawful revision_of s.predictions
      → AreLawful revision_of (stop id current reason why except s).1.predictions
  unfolding stop
  stop-AreLawful id reason why except s =
      void_match_predictions-AreLawful revision_of id current.match_id reason current.observed_at
        current.observed_at except s.predictions

  record_change-AreLawful :
      (id : ℕ) (previous : Option ScheduleRevision) (change : Option ScheduleChange) (s : Lifecycle)
      → AreLawful revision_of s.predictions
      → AreLawful revision_of
          (record_change text_of number code id current previous change s).predictions
  unfolding record_change
  record_change-AreLawful id previous none s lawful = lawful
  record_change-AreLawful id previous (some change) s lawful = lawful

  supersede-AreLawful :
      (id : ℕ) (previous : Option ScheduleRevision) (change : Option ScheduleChange) (s : Lifecycle)
      → AreLawful revision_of s.predictions
      → AreLawful revision_of
          (supersede text_of number code id current previous change s).1.predictions
  unfolding supersede
  supersede-AreLawful id none change s lawful = lawful
  supersede-AreLawful id (some previous) none s lawful = lawful
  supersede-AreLawful id (some previous) (some change) s lawful =
      elim (Bool-cases (previous.id == current.id)) [
        | inl same ↦ rw same lawful
        | inr other ↦ rw other (
            let why = schedule_reason text_of number code (word change) in
            stop-AreLawful id why (ErrorCode.text (code why)) (some current.id) s refl lawful)
      ]

  call_off-AreLawful :
      (id : ℕ) (s : Lifecycle)
      → AreLawful revision_of s.predictions
      → AreLawful revision_of (call_off text_of number code id current s).1.predictions
  unfolding call_off
  call_off-AreLawful id s lawful = elim (Bool-cases (is_called_off current)) [
    | inl off ↦ rw off (
        let why = schedule_reason text_of number code (lower current.status) in
        stop-AreLawful id why (ErrorCode.text (code why)) none s refl lawful)
    | inr on ↦ rw on lawful
  ]

  start-AreLawful :
      (id : ℕ) (actual : Option ℕ) (s : Lifecycle)
      → AreLawful revision_of s.predictions
      → AreLawful revision_of (start text_of number code id current actual s).predictions
  unfolding start
  start-AreLawful id none s lawful = lawful
  start-AreLawful id (some actual) s lawful =
      reject_started_match-AreLawful revision_of id current.match_id actual current.observed_at
        s.predictions lawful

  -- If each prediction has the revision that is known by its id, a reconciliation keeps that every
  -- event of a prediction passes the CHECK constraints of its table, that a prediction has at most
  -- one event of its publication and one of its rejection as late, and that a rejection is one that
  -- the code itself writes for the revision of the prediction.
  pub reconcile-AreLawful :
      (event_id id : ℕ) (previous : Option ScheduleRevision) (s : Lifecycle)
      → AreLawful revision_of s.predictions
      → AreLawful revision_of
          (reconcile text_of number code event_id id current previous s).1.predictions
  unfolding reconcile
  reconcile-AreLawful event_id id previous s lawful =
      let change = classify_schedule_change current previous in
      let s₁ = record_change text_of number code event_id current previous change s in
      let (id₂, s₂) = supersede text_of number code id current previous change s₁ in
      let (id₃, s₃) = call_off text_of number code id₂ current s₂ in
      start-AreLawful id₃ current.actual_start_at s₃ (
        call_off-AreLawful id₂ s₂ (
          supersede-AreLawful id previous change s₁
            (record_change-AreLawful event_id previous change s lawful)))
