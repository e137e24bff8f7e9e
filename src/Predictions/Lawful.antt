-- ===== src/Predictions/Lawful.antt =====
-- Proofs on the constraints of the events.
use vlytics.Predictions.{
  Status, published, voided, late_rejected, Prediction, PredictionEvent, Tables, is_same_event,
  end_event, add_once, apply_event, end_predictions, is_voided, is_late, void_match_predictions,
  void_schedule_revision, reject_started_match_predictions, is_late_of_revision,
  reject_started_match,
}
use vlytics.Predictions.Ended.{end_predictions-predictions}
use vlytics.Predictions.Stored.{is_blank}
use vlytics.Prelude.{
  ℕ, Bool, true, false, ◌&&◌, ◌≡◌, ◌==◌, ◌+◌, refl, Option, none, List, [], ◌∷◌, ◌++◌, Text,
  text_eq_refl, &&-true, count-append, count, first, select, arith, All, All-append, Bool-cases,
  Option-cases, inl, inr, ap,
}
use vlytics.Predictions.Constraints.{
  passes_event_checks, is_of, late_reason, is_own, IsLawful, IsKnown, AreLawful,
}

module _ (revision_of : ℕ → ℕ) where
  same_rejection :
      (id occurred_at observed_at : ℕ) (p : Prediction) (e : PredictionEvent)
      → p.schedule_revision_id ≡ revision_of p.id
      → is_own revision_of e ≡ true
      → is_of late_rejected p.id e ≡ true
      → is_same_event (end_event id late_rejected late_reason occurred_at observed_at p) e ≡ true
  same_rejection id occurred_at observed_at p e known own late =
      let at_prediction : e.prediction_id ≡ p.id = ground arith in
      let revision = ap revision_of at_prediction in ground (arith, known, own, late, revision)

  -- Where no event is found, there is no rejection.
  no_rejection :
      (id occurred_at observed_at : ℕ) (p : Prediction) (events : List PredictionEvent)
      → p.schedule_revision_id ≡ revision_of p.id
      → All (λ e. (passes_event_checks e && is_own revision_of e) ≡ true) events
      → first
          (is_same_event (end_event id late_rejected late_reason occurred_at observed_at p))
          events
        ≡ none
      → count (is_of late_rejected p.id) events ≡ 0
  unfolding first count
  no_rejection id occurred_at observed_at p [] known own new = refl
  no_rejection id occurred_at observed_at p (e ∷ events) known own new =
      let N = end_event id late_rejected late_reason occurred_at observed_at p in
      elim (Bool-cases (is_same_event N e)) [
        | inl found ↦ let here = rw (found, first) at new in absurd (ground (arith, here))
        | inr fresh ↦
            let rest =
              no_rejection id occurred_at observed_at p events known own.1
                (rw (fresh, first) at new) in
            elim (Bool-cases (is_of late_rejected p.id e)) [
              | inl late ↦
                  let mine : is_own revision_of e ≡ true =
                    (&&-true (passes_event_checks e) (is_own revision_of e) own.0).1 in
                  let same = same_rejection id occurred_at observed_at p e known mine late in
                  absurd (ground (arith, same, fresh))
              | inr other ↦ rw other rest
            ]
      ]

  -- What keeps the constraints may be added.
  append-IsLawful :
      (new : PredictionEvent) (events : List PredictionEvent)
      → (passes_event_checks new && is_own revision_of new) ≡ true
      → ((i : ℕ) → is_of published i new ≡ false)
      → ((i : ℕ) → is_of late_rejected i new ≡ true → count (is_of late_rejected i) events ≡ 0)
      → IsLawful revision_of events
      → IsLawful revision_of (events ++ new ∷ [])
  unfolding count
  append-IsLawful new events good other first_one (all, one_published, one_late) = (
    All-append (λ e. (passes_event_checks e && is_own revision_of e) ≡ true) events (new ∷ []) all
        (good, tt),
    λ i.
        (let e = count-append (is_of published i) events (new ∷ []) in
          let f = other i in let one = one_published i in rw (e, f) (ground (arith, one))),
    λ i.
        (let e = count-append (is_of late_rejected i) events (new ∷ []) in
          let one = one_late i in
          elim (Bool-cases (is_of late_rejected i new)) [
            | inl late ↦ let none_yet = first_one i late in rw (e, none_yet, late) (ground arith)
            | inr f ↦ rw (e, f) (ground (arith, one))
          ]),
  )

  -- A new event of the status keeps the constraints.
  abbrev Keeps : Status → Text → Type 0
  Keeps status reason =
      (id occurred_at observed_at : ℕ) (p : Prediction) (events : List PredictionEvent)
      → IsKnown revision_of p
      → IsLawful revision_of events
      → first (is_same_event (end_event id status reason occurred_at observed_at p)) events ≡ none
      → IsLawful revision_of (events ++ end_event id status reason occurred_at observed_at p ∷ [])

  Keeps-voided : (reason : Text) → is_blank reason ≡ false → Keeps voided reason
  Keeps-voided reason said id occurred_at observed_at p events known lawful new =
      append-IsLawful (end_event id voided reason occurred_at observed_at p) events (rw said refl)
        (λ i. ground arith) (λ i late. absurd (ground arith)) lawful

  Keeps-late_rejected : Keeps late_rejected late_reason
  Keeps-late_rejected id occurred_at observed_at p events known lawful new =
      append-IsLawful (end_event id late_rejected late_reason occurred_at observed_at p) events
        (let said = text_eq_refl late_reason in ground (arith, known, said)) (λ i. ground arith)
        (λ i late.
          let here : p.id ≡ i = ground arith in
          rw (← here) (no_rejection id occurred_at observed_at p events known lawful.0 new))
        lawful

  add_once-IsLawful :
      (new : PredictionEvent) (t : Tables)
      → (first (is_same_event new) t.events ≡ none → IsLawful revision_of (t.events ++ new ∷ []))
      → IsLawful revision_of t.events
      → IsLawful revision_of (add_once new t).1.events
  unfolding add_once
  add_once-IsLawful new t added lawful = elim (Option-cases (first (is_same_event new) t.events)) [
    | inl fresh ↦ rw (fresh, add_once) (added fresh)
    | inr (x, found) ↦ rw (found, add_once) lawful
  ]

  end_predictions-IsLawful :
      (status : Status) (reason : Text)
      → Keeps status reason
      → (id occurred_at observed_at : ℕ) (ps : List Prediction) (t : Tables)
      → All (IsKnown revision_of) ps
      → IsLawful revision_of t.events
      → IsLawful revision_of (end_predictions id status reason occurred_at observed_at ps t).events
  unfolding end_predictions apply_event
  end_predictions-IsLawful status reason keeps id occurred_at observed_at [] t known lawful = lawful
  end_predictions-IsLawful status reason keeps id occurred_at observed_at (p ∷ ps) t known lawful =
      let new = end_event id status reason occurred_at observed_at p in
      let (event_id, t') = add_once new t in
      end_predictions-IsLawful status reason keeps (id + 1) occurred_at observed_at ps
        (apply_event p.id event_id status observed_at t') known.1
        (add_once-IsLawful new t (keeps id occurred_at observed_at p t.events known.0 lawful)
          lawful)

  select-IsKnown :
      (c : Prediction → Bool) (ps : List Prediction)
      → All (IsKnown revision_of) ps
      → All (IsKnown revision_of) (select c ps)
  unfolding select
  select-IsKnown c [] h = tt
  select-IsKnown c (p ∷ ps) h = elim (Bool-cases (c p)) [
    | inl kept ↦ rw kept (h.0, select-IsKnown c ps h.1)
    | inr left ↦ rw left (select-IsKnown c ps h.1)
  ]

  -- Ending the predictions of some rows keeps the constraints.
  end_selected-AreLawful :
      (status : Status) (reason : Text)
      → Keeps status reason
      → (c : Prediction → Bool) (id occurred_at observed_at : ℕ) (t : Tables)
      → AreLawful revision_of t
      → AreLawful revision_of
          (end_predictions id status reason occurred_at observed_at (select c t.predictions) t)
  end_selected-AreLawful status reason keeps c id occurred_at observed_at t (known, lawful) =
      let ps = select c t.predictions in
      let same = end_predictions-predictions id status reason occurred_at observed_at ps t in
      (
        rw same known,
        end_predictions-IsLawful status reason keeps id occurred_at observed_at ps t
            (select-IsKnown c t.predictions known) lawful,
      )

  pub void_match_predictions-AreLawful :
      (id match_id : ℕ) (reason : Text) (occurred_at observed_at : ℕ) (except : Option ℕ)
      (t : Tables)
      → is_blank reason ≡ false
      → AreLawful revision_of t
      → AreLawful revision_of
          (void_match_predictions id match_id reason occurred_at observed_at except t).1
  unfolding void_match_predictions
  void_match_predictions-AreLawful id match_id reason occurred_at observed_at except t said =
      end_selected-AreLawful voided reason (Keeps-voided reason said) (is_voided match_id except) id
        occurred_at observed_at t

  void_schedule_revision-AreLawful :
      (id revision_id : ℕ) (reason : Text) (occurred_at observed_at : ℕ) (t : Tables)
      → is_blank reason ≡ false
      → AreLawful revision_of t
      → AreLawful revision_of
          (void_schedule_revision id revision_id reason occurred_at observed_at t).1
  unfolding void_schedule_revision
  void_schedule_revision-AreLawful id revision_id reason occurred_at observed_at t said =
      end_selected-AreLawful voided reason (Keeps-voided reason said)
        (λ p. p.schedule_revision_id == revision_id) id occurred_at observed_at t

  pub reject_started_match-AreLawful :
      (id match_id actual_start_at observed_at : ℕ) (t : Tables)
      → AreLawful revision_of t
      → AreLawful revision_of (reject_started_match id match_id actual_start_at observed_at t).1
  unfolding reject_started_match
  reject_started_match-AreLawful id match_id actual_start_at observed_at =
      end_selected-AreLawful late_rejected late_reason Keeps-late_rejected
        (is_late match_id actual_start_at) id actual_start_at observed_at

  reject_started_match_predictions-AreLawful :
      (id revision_id actual_start_at observed_at : ℕ) (t : Tables)
      → AreLawful revision_of t
      → AreLawful revision_of
          (reject_started_match_predictions id revision_id actual_start_at observed_at t).1
  unfolding reject_started_match_predictions
  reject_started_match_predictions-AreLawful id revision_id actual_start_at observed_at =
      end_selected-AreLawful late_rejected late_reason Keeps-late_rejected
        (is_late_of_revision revision_id actual_start_at) id actual_start_at observed_at
