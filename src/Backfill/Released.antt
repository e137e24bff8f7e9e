-- ===== src/Backfill/Released.antt =====
-- The slot that a synchronisation or a run holds is released however it ends.
use vlytics.Backfill.{
  Advanced, conflict, advanced, load, advance, Bool, BackfillCheckpoint, false, true,
}
use vlytics.Backfill.Runs.{
  stored, run_page, run_pages, limited_pages, start_from, run_leased, run, is_validation, desired,
  advanced_to,
}
use vlytics.Backfill.Kept.{Ends, if-Ends, >>=-Ends, IsAnswer}
use vlytics.Backfill.Whole.{Stopped, fetch-Ends, ingest_all-Ends}
use vlytics.Backfill.Lease.{Slot}
use vlytics.Backfill.Runner.{Outside, State, Outcome, raised, returned, BackfillRunner}
use vlytics.Backfill.Fetch.{fetch_with_retry, reading}
use vlytics.Backfill.Pages.{sync_once, ingest_all}
use vlytics.Sync.Scope.{BackfillScope}
use vlytics.Prelude.{
  if◌then◌else◌, ℕ, zero, suc, ◌≡◌, refl, Option, none, some, List, ◌==◌, ◌||◌, Bool, false, ◌+◌,
  true, length,
}
use vlytics.Backfill.Slots.{Holds, slots-Rules, leased-slots, sync_once-slots}

module _ {E : Type 0} (o : Outside E) where
  stored-slots :
      (slots : List Slot) (st : State E) (got : Advanced)
      → Holds slots st
      → Ends (λ _. Holds slots) (λ _. Holds slots) (stored o st got)
  stored-slots slots st (conflict reason) h = h
  stored-slots slots st (advanced c items) h = h

  module _ (slots : List Slot) (r : BackfillRunner) (scope : BackfillScope) (v b : ℕ)
      (deadline : Option ℕ) where
    abbrev Keeps : {A : Type 0} → Outcome E A → Type 0
    Keeps = Ends (λ _. Holds slots) (λ _. Holds slots)

    kept_of :
        {A : Type 0} (Q : A → Type 0) (m : Outcome E A)
        → Ends (λ a st. Q a × Holds slots st) (Stopped (Holds slots)) m
        → Keeps m
    kept_of Q (raised f st) h = h.1
    kept_of Q (returned (a, st)) h = h.1

    run_page-slots :
        (c : BackfillCheckpoint) (st : State E)
        → Holds slots st
        → Keeps (run_page o r scope v b deadline c st)
    unfolding run_page
    run_page-slots c st h =
        let rules = slots-Rules o slots in
        let size = if is_validation c.phase then v else b in
        >>=-Ends (λ _. Holds slots) (λ _. Holds slots) (λ _. Holds slots)
          (fetch_with_retry o r scope c.cursor size deadline st) _
          (kept_of (λ got. IsAnswer o scope c.cursor size got.0) _
            (fetch-Ends o rules r scope c.cursor size deadline st h))
          λ (page, _, _) st₁ h₁.
            >>=-Ends (λ _. Holds slots) (λ _. Holds slots) (λ _. Holds slots)
              (ingest_all o 0 page.responses st₁) _
              (kept_of (λ a. a ≡ 0 + length page.responses) _
                (ingest_all-Ends o rules 0 page.responses st₁ h₁))
              λ accepted st₂ h₂.
                let (now, st₃) = reading o o.now st₂ in
                let d = desired c page.next_cursor accepted now in
                >>=-Ends (λ _. Holds slots) (λ _. Holds slots) (λ _. Holds slots)
                  (advanced_to o d c.generation st₃) _
                  (stored-slots slots st₃ (advance d c.generation st₃.items) h₂) λ _ _ h₃. h₃

    run_pages-slots :
        (rounds : ℕ) (limited : Bool) (c : BackfillCheckpoint) (q k : ℕ) (st : State E)
        → Holds slots st
        → Keeps (run_pages o rounds limited r scope v b deadline c q k st)
    unfolding run_pages
    run_pages-slots zero limited c q k st h =
        if-Ends (λ _. Holds slots) (λ _. Holds slots) limited _ _ (λ _. h) (λ _. h)
    run_pages-slots (suc rounds) limited c q k st h =
        >>=-Ends (λ _. Holds slots) (λ _. Holds slots) (λ _. Holds slots)
          (run_page o r scope v b deadline c st) _ (run_page-slots c st h)
          λ (c', more, again) st' h'.
            if-Ends (λ _. Holds slots) (λ _. Holds slots) c'.is_completed _ _ (λ _. h')
              (λ _. run_pages-slots rounds limited c' (q + more) (k + again) st' h')

    limited_pages-slots :
        (rounds : ℕ) (limit : Option ℕ) (c : BackfillCheckpoint) (st : State E)
        → Holds slots st
        → Keeps (limited_pages o rounds r scope v b limit deadline (c, st))
    limited_pages-slots rounds none c st h = run_pages-slots rounds false c 0 0 st h
    limited_pages-slots rounds (some n) c st h = run_pages-slots n true c 0 0 st h

    start-slots :
        (known : Option BackfillCheckpoint) (st : State E)
        → Holds slots st
        → Holds slots (start_from o scope known st).1
    start-slots none st h = h
    start-slots (some c) st h = h

    run_leased-slots :
        (rounds : ℕ) (limit : Option ℕ) (st : State E)
        → Holds slots st
        → Keeps (run_leased o rounds r scope v b limit deadline st)
    unfolding run_leased
    run_leased-slots rounds limit st h =
        let start = start-slots (load scope st.items) st h in
        if-Ends (λ _. Holds slots) (λ _. Holds slots)
          (start_from o scope (load scope st.items) st).0.is_completed _ _ (λ _. start)
          (λ _. limited_pages-slots rounds limit _ _ start)

  run-slots :
      (rounds : ℕ) (r : BackfillRunner) (scope : BackfillScope) (v b : ℕ)
      (limit deadline : Option ℕ) (st : State E)
      → Ends
          (λ _. Holds st.slots)
          (λ _. Holds st.slots)
          (run o rounds r scope v b limit deadline st)
  unfolding run
  run-slots rounds r scope v b limit deadline st =
      if-Ends (λ _. Holds st.slots) (λ _. Holds st.slots) (v == 0 || b == 0) _ _ (λ _. refl)
        λ _.
          leased-slots o r scope (λ st'. st') _ st (λ slots st' h. h)
            λ slots st' h. run_leased-slots slots r scope v b deadline rounds limit st' h

  -- A synchronisation and a run leave the slots as they found them, whether they return or raise.
  pub releases_slots :
      (rounds size v b : ℕ) (r : BackfillRunner) (scope : BackfillScope) (limit deadline : Option ℕ)
      (st : State E)
      → Ends
          (λ _. Holds st.slots)
          (λ _. Holds st.slots)
          (sync_once o rounds r scope size deadline st)
        × Ends
            (λ _. Holds st.slots)
            (λ _. Holds st.slots)
            (run o rounds r scope v b limit deadline st)
  releases_slots rounds size v b r scope limit deadline st = (
    sync_once-slots o rounds r scope size deadline st,
    run-slots rounds r scope v b limit deadline st,
  )
