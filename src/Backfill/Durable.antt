-- ===== src/Backfill/Durable.antt =====
-- A stored checkpoint never counts a response that the sink did not take.
use vlytics.Backfill.Whole.{Stopped, fetch-Ends}
use vlytics.Backfill.Runs.{
  run_leased, run_page, run_pages, limited_pages, start_from, is_validation, desired, advanced_to,
}
use vlytics.Backfill.Kept.{Ends, if-Ends, >>=-Ends, Ends-fails, Ends-mono}
use vlytics.Backfill.Runner.{Outside, State, BackfillRunner}
use vlytics.Backfill.Fetch.{reading, fetch_with_retry}
use vlytics.Backfill.Pages.{ingest_all}
use vlytics.Backfill.{BackfillCheckpoint, load, scope_key, advance, has_scope_key}
use vlytics.Sync.Scope.{BackfillScope, scope_key}
use vlytics.Prelude.{
  zero, if◌then◌else◌, ℕ, ◌+◌, ◌≡◌, refl, Bool, true, false, Option, none, some, arith, sym, suc,
  eq_of_text_eq, first_holds,
}
use vlytics.Backfill.Tally.{
  IsTally, Backed, IsCovered, later_Covers, Covers, Covers-Rules, ingest_all-Covers,
  stored-IsCovered,
}

module _ {E : Type 0} (o : Outside E) (taken : E → ℕ) (tally : IsTally o taken)
    (scope : BackfillScope) (before : ℕ) where
  abbrev pub Safe : State E → Type 0
  Safe = Backed o taken tally scope before

  abbrev pub Carries : BackfillCheckpoint → State E → Type 0
  Carries = IsCovered o taken tally scope before

  module _ (r : BackfillRunner) (v b : ℕ) (deadline : Option ℕ) where
    run_page-IsCovered :
        (c : BackfillCheckpoint) (st : State E)
        → Carries c st
        → Ends (λ got. Carries got.0) (λ _. Safe) (run_page o r scope v b deadline c st)
    unfolding run_page
    run_page-IsCovered c st (covers, key) =
        let n = c.responses_ingested in
        let asked =
          fetch_with_retry o r scope c.cursor (if is_validation c.phase then v else b) deadline
            st in
        >>=-Ends (λ _. Safe) (λ _. Covers o taken tally scope before n) (λ got. Carries got.0) asked
          _
          (Ends-fails (λ _. Covers o taken tally scope before n) asked (λ _ _ (_, kept). kept.0)
            (Ends-mono (Stopped (Covers o taken tally scope before n)) asked (λ _ _ (_, kept). kept)
              (fetch-Ends o (Covers-Rules o taken tally scope before n) r scope c.cursor
                (if is_validation c.phase then v else b) deadline st covers)))
          λ (page, _, _) st₁ (backed₁, most₁).
            >>=-Ends (λ _. Safe) (λ a. Covers o taken tally scope before (n + a))
              (λ got. Carries got.0) (ingest_all o 0 page.responses st₁) _
              (ingest_all-Covers o taken tally scope before n 0 page.responses st₁
                (backed₁, omega arith))
              λ accepted st₂ covers₂.
                let (now, st₃) = reading o o.now st₂ in
                let d = desired c page.next_cursor accepted now in
                >>=-Ends (λ _. Safe) Carries (λ got. Carries got.0)
                  (advanced_to o d c.generation st₃) _
                  (stored-IsCovered o taken tally scope before d c.generation st₃
                    (advance d c.generation st₃.items) refl
                    (
                      later_Covers o taken tally scope before (n + accepted) st₂ _
                          (tally.now st₂.outside) covers₂,
                      key,
                    ))
                  λ _ _ covered. covered

    run_pages-IsCovered :
        (rounds : ℕ) (limited : Bool) (c : BackfillCheckpoint) (q k : ℕ) (st : State E)
        → Carries c st
        → Ends (λ _. Safe) (λ _. Safe) (run_pages o rounds limited r scope v b deadline c q k st)
    unfolding run_pages
    run_pages-IsCovered zero limited c q k st ((backed, _), _) =
        if-Ends (λ _. Safe) (λ _. Safe) limited _ _ (λ _. backed) (λ _. backed)
    run_pages-IsCovered (suc rounds) limited c q k st covered =
        >>=-Ends (λ _. Safe) (λ got. Carries got.0) (λ _. Safe)
          (run_page o r scope v b deadline c st) _ (run_page-IsCovered c st covered)
          λ (c', more, again) st' ((backed, most), key).
            if-Ends (λ _. Safe) (λ _. Safe) c'.is_completed _ _ (λ _. backed)
              (λ _.
                run_pages-IsCovered rounds limited c' (q + more) (k + again) st'
                  ((backed, most), key))

    limited_pages-Backed :
        (rounds : ℕ) (limit : Option ℕ) (c : BackfillCheckpoint) (st : State E)
        → Carries c st
        → Ends (λ _. Safe) (λ _. Safe) (limited_pages o rounds r scope v b limit deadline (c, st))
    limited_pages-Backed rounds none c st h = run_pages-IsCovered rounds false c 0 0 st h
    limited_pages-Backed rounds (some n) c st h = run_pages-IsCovered n true c 0 0 st h

    start-IsCovered :
        (known : Option BackfillCheckpoint) (st : State E)
        → load scope st.items ≡ known
        → Safe st
        → Carries (start_from o scope known st).0 (start_from o scope known st).1
    start-IsCovered none st e backed = (
      later_Covers o taken tally scope before 0 st _ (tally.now st.outside) (backed, omega arith),
      refl,
    )
    start-IsCovered (some c) st e backed = (
      (backed, backed c e),
      sym (
          eq_of_text_eq (scope_key scope) (scope_key c.scope)
            (first_holds (has_scope_key (scope_key scope)) st.items c e)),
    )

    -- For every tally of the responses that the sink took, which nothing lowers and which rises
    -- with every response that it takes: if the stored checkpoint of the scope counts no more
    -- responses than that tally (and a constant), so it is after a run of any number of pages,
    -- whether it returns or raises.
    pub run_leased-Backed :
        (rounds : ℕ) (limit : Option ℕ) (st : State E)
        → Safe st
        → Ends (λ _. Safe) (λ _. Safe) (run_leased o rounds r scope v b limit deadline st)
    unfolding run_leased
    run_leased-Backed rounds limit st backed =
        let covered = start-IsCovered (load scope st.items) st refl backed in
        if-Ends (λ _. Safe) (λ _. Safe) (start_from o scope (load scope st.items) st).0.is_completed
          _ _ (λ _. covered.0.0) (λ _. limited_pages-Backed rounds limit _ _ covered)
