-- ===== src/Backfill/Slots.antt =====
-- The slots are the same before and after what is done while one of them is held.
use vlytics.Backfill.{is_blocked}
use vlytics.Backfill.Kept.{Ends, if-Ends, Rules, cool_from-kept}
use vlytics.Backfill.Whole.{rested-kept, sync_step}
use vlytics.Backfill.Exclusive.{acquire_lem, release_added, Acquires}
use vlytics.Backfill.Lease.{Slot, key_of, acquire, release}
use vlytics.Backfill.Runner.{Outside, State, Outcome, raised, returned, BackfillRunner, finally}
use vlytics.Backfill.Fetch.{cooldown}
use vlytics.Backfill.Pages.{sync_from, sync_once, leased, rested, released, hold}
use vlytics.Sync.Scope.{BackfillScope}
use vlytics.Prelude.{
  ℕ, zero, suc, ◌≡◌, refl, Option, none, some, Text, List, [], ◌∷◌, ◌==◌, ap, ◌∙◌,
}

abbrev pub Holds : {E : Type 0} → List Slot → State E → Type 0
Holds slots st = st.slots ≡ slots

module _ {E : Type 0} (o : Outside E) where
  pub slots-Rules : (slots : List Slot) → Rules o (λ _. Holds slots)
  slots-Rules slots = record {
    requests = λ _ _ _ h. h;
    now = λ _ _ h. h;
    monotonic = λ _ _ h. h;
    sleep = λ _ _ _ h. h;
    jitter = λ _ _ _ h. h;
    ingests = λ _ _ _ h. h;
    fetches = λ _ _ _ _ _ _ _ h. h;
  }

  -- Whatever is known at all times is known when the loop ends.
  sync_from-kept :
      {P : State E → Type 0} (rules : Rules o (λ _. P)) (rounds : ℕ) (r : BackfillRunner)
      (scope : BackfillScope) (size : ℕ) (deadline : Option ℕ) (accepted : ℕ) (cursor : Option Text)
      (seen : List Text) (st : State E)
      → P st
      → Ends (λ _. P) (λ _. P) (sync_from o rounds r scope size deadline accepted cursor seen st)
  unfolding sync_from
  sync_from-kept rules zero r scope size deadline accepted cursor seen st h = h
  sync_from-kept rules (suc rounds) r scope size deadline accepted cursor seen st h =
      sync_step o rules (λ _ _ _ kept. kept) (λ _ _ kept. kept) rounds r scope size deadline
        accepted cursor seen st
        (λ _ a c st' _ _ _ h'.
          sync_from-kept rules rounds r scope size deadline a (some c) (c ∷ seen) st' h')
        h

  finally-slots :
      {A : Type 0} (after : State E → State E) (slots slots' : List Slot) (m : Outcome E A)
      → ((st : State E) → Holds slots st → Holds slots' (after st))
      → Ends (λ _. Holds slots) (λ _. Holds slots) m
      → Ends (λ _. Holds slots') (λ _. Holds slots') (finally after m)
  finally-slots after slots slots' (raised f st) step h = step st h
  finally-slots after slots slots' (returned (a, st)) step h = step st h

  hold-slots :
      {A : Type 0} (r : BackfillRunner) (scope : BackfillScope) (last : State E → State E)
      (body : State E → Outcome E A) (st : State E) (got : Option ℕ × List Slot)
      → Acquires (key_of r.lease_key scope) 0 r.max_concurrency st.slots got
      → ((slots : List Slot) (st' : State E) → Holds slots st' → Holds slots (last st'))
      → ((slots : List Slot) (st' : State E)
          → Holds slots st'
          → Ends (λ _. Holds slots) (λ _. Holds slots) (body st'))
      → Ends (λ _. Holds st.slots) (λ _. Holds st.slots) (hold o r scope last body st got)
  hold-slots r scope last body st (none, slots) (same, full) ends keeps = same
  hold-slots r scope last body st (some slot, slots) (_, _, free, added, _) ends keeps =
      finally-slots (λ st'. released o r scope slot (last st')) slots st.slots
        (body (rested o r (record st { slots = slots })))
        (λ st' held.
          ap (release (key_of r.lease_key scope) slot) (ends slots st' held ∙ added)
          ∙ release_added (key_of r.lease_key scope) slot st.slots free)
        (keeps slots _ (rested-kept o (slots-Rules slots) r (record st { slots = slots }) refl))

  -- What is done while a slot is held, if it leaves the slots alone.
  pub leased-slots :
      {A : Type 0} (r : BackfillRunner) (scope : BackfillScope) (last : State E → State E)
      (body : State E → Outcome E A) (st : State E)
      → ((slots : List Slot) (st' : State E) → Holds slots st' → Holds slots (last st'))
      → ((slots : List Slot) (st' : State E)
          → Holds slots st'
          → Ends (λ _. Holds slots) (λ _. Holds slots) (body st'))
      → Ends (λ _. Holds st.slots) (λ _. Holds st.slots) (leased o r scope last body st)
  unfolding leased
  leased-slots r scope last body st ends keeps =
      if-Ends (λ _. Holds st.slots) (λ _. Holds st.slots) (is_blocked r.gate r.adapter) _ _
        (λ _. refl)
        λ _.
          hold-slots r scope last body st
            (acquire (key_of r.lease_key scope) r.max_concurrency st.slots)
            (acquire_lem (key_of r.lease_key scope) r.max_concurrency st.slots) ends keeps

  pub sync_once-slots :
      (rounds : ℕ) (r : BackfillRunner) (scope : BackfillScope) (size : ℕ) (deadline : Option ℕ)
      (st : State E)
      → Ends
          (λ _. Holds st.slots)
          (λ _. Holds st.slots)
          (sync_once o rounds r scope size deadline st)
  unfolding sync_once
  sync_once-slots rounds r scope size deadline st =
      if-Ends (λ _. Holds st.slots) (λ _. Holds st.slots) (size == 0) _ _ (λ _. refl)
        λ _.
          leased-slots r scope (cooldown o r.interval) _ st
            (λ slots st' h.
              cool_from-kept o (slots-Rules slots) 0 r.interval st'.last_request st' h)
            λ slots st' h.
              sync_from-kept (slots-Rules slots) rounds r scope size deadline 0 none [] st' h
