-- ===== src/Backfill/Whole.antt =====
-- The proof rule of `Kept` and `Attempts` for what is known of the state at all times: of a page with
-- its retries, of the responses of a page, and of the steps around them.
use vlytics.Backfill.Kept.{
  Ends, Ends-fails, >>=-Ends, if-Ends, Ends-mono, Rules, IsAnswer, ingest-Ends, is_unfinished,
  rest_from-kept,
}
use vlytics.Backfill.Attempts.{fetch_from-Ends}
use vlytics.Backfill.Runner.{
  Outside, State, Outcome, SourceResponse, BackfillRunner, Failure, IngestAction, append_revision,
  append_receipt_only, retry_later, quarantine, SourcePage, contract_error,
}
use vlytics.Backfill.Fetch.{fetch_with_retry, ingest, reaches, wait_after_global_lease}
use vlytics.Backfill.Pages.{ingest_all, accept, check_deadline, rested, is_seen, sync_from, turn}
use vlytics.Sync.Scope.{BackfillScope}
use vlytics.Prelude.{
  ℕ, ◌+◌, ◌≡◌, refl, Bool, true, false, Option, none, some, Text, arith, List, [], ◌∷◌, length,
  if◌then◌else◌, suc,
}

-- An exception of a loop that had the rounds it needs.
abbrev pub Stopped : {E : Type 0} → (State E → Type 0) → Failure → State E → Type 0
Stopped P f st = (is_unfinished f ≡ false) × P st

module _ {E : Type 0} (o : Outside E) {P : State E → Type 0} (rules : Rules o (λ _. P)) where
  pub fetch-Ends :
      (r : BackfillRunner) (scope : BackfillScope) (cursor : Option Text) (size : ℕ)
      (deadline : Option ℕ) (st : State E)
      → P st
      → Ends
          (λ got st'. IsAnswer o scope cursor size got.0 × P st')
          (Stopped P)
          (fetch_with_retry o r scope cursor size deadline st)
  fetch-Ends r scope cursor size deadline st h =
      Ends-fails _ (fetch_with_retry o r scope cursor size deadline st)
        (λ f st' (_, _, fine, kept). (fine, kept))
        (Ends-mono _ (fetch_with_retry o r scope cursor size deadline st)
          (λ got st' (_, _, answer, kept). (answer, kept))
          (fetch_from-Ends o rules r scope cursor size deadline r.retry_policy.max_attempts 1 st
            (omega arith) (omega arith) h))

  ingest-Stopped :
      (x : SourceResponse) (st : State E) → P st → Ends (λ _. P) (Stopped P) (ingest o x st)
  ingest-Stopped x st h =
      Ends-fails (λ _. P) (ingest o x st) (λ f st' (_, _, fine, kept). (fine, kept))
        (ingest-Ends o rules 0 0 x st (omega arith) h)

  accept-Ends :
      (action : Option IngestAction) (st : State E)
      → P st
      → Ends (λ _. P) (Stopped P) (accept o action st)
  accept-Ends none st h = h
  accept-Ends (some append_revision) st h = h
  accept-Ends (some append_receipt_only) st h = h
  accept-Ends (some retry_later) st h = (refl, h)
  accept-Ends (some quarantine) st h = (refl, h)

  pub ingest_all-Ends :
      (accepted : ℕ) (xs : List SourceResponse) (st : State E)
      → P st
      → Ends (λ a st'. (a ≡ accepted + length xs) × P st') (Stopped P) (ingest_all o accepted xs st)
  unfolding ingest_all
  ingest_all-Ends accepted [] st h = (omega arith, h)
  ingest_all-Ends accepted (x ∷ xs) st h =
      >>=-Ends (Stopped P) (λ _. P) _ (ingest o x st) _ (ingest-Stopped x st h)
        λ action st₁ h₁.
          >>=-Ends (Stopped P) (λ _. P) _ (accept o action st₁) _ (accept-Ends action st₁ h₁)
            λ _ st₂ h₂.
              Ends-mono _ (ingest_all o (accepted + 1) xs st₂)
                (λ a st' (e, kept). (omega arith, kept)) (ingest_all-Ends (accepted + 1) xs st₂ h₂)

  pub check_deadline-Ends :
      (deadline : Option ℕ) (st : State E)
      → P st
      → Ends (λ _. P) (Stopped P) (check_deadline o deadline st)
  check_deadline-Ends none st h = h
  check_deadline-Ends (some d) st h =
      if-Ends (Stopped P) (λ _. P) (reaches (some d) (o.now st.outside).0) _ _
        (λ _. (refl, rules.now 0 st h)) (λ _. rules.now 0 st h)

  pub rested-kept : (r : BackfillRunner) (st : State E) → P st → P (rested o r st)
  rested-kept r st h = rested_if r.wait_after_global_lease
    where
      rested_if : (b : Bool) → P (if b then wait_after_global_lease o r.interval st else st)
      rested_if true = rest_from-kept o rules 0 r.interval st.last_request st h
      rested_if false = h

-- A page of `sync_once`: what holds at its end and after each page that may follow holds of the rest.
module _ {E : Type 0} (o : Outside E) {P : State E → Type 0} (rules : Rules o (λ _. P))
    {Q : ℕ → State E → Type 0} {R : Failure → State E → Type 0}
    (stops : (f : Failure) (st : State E) → is_unfinished f ≡ false → P st → R f st)
    (finish : (a : ℕ) (st : State E) → P st → Q a st) where
  turn-Ends :
      (next : ℕ → Text → State E → Outcome E ℕ) (cursor : Option Text) (seen : List Text) (a : ℕ)
      (st : State E)
      → ((c : Text)
          → cursor ≡ some c
          → is_seen c seen ≡ false
          → (st' : State E) → P st'
          → Ends Q R (next a c st'))
      → P st
      → Ends Q R (turn o next cursor seen a st)
  turn-Ends next none seen a st later h = finish a st h
  turn-Ends next (some c) seen a st later h =
      if-Ends R Q (is_seen c seen) _ _ (λ _. stops contract_error st refl h)
        (λ new. later c refl new st h)

  stopped :
      {A : Type 0} (Q' : A → State E → Type 0) (m : Outcome E A)
      → Ends Q' (Stopped P) m
      → Ends Q' R m
  stopped Q' m = Ends-fails Q' m (λ f st (fine, kept). stops f st fine kept)

  pub sync_step :
      (rounds : ℕ) (r : BackfillRunner) (scope : BackfillScope) (size : ℕ) (deadline : Option ℕ)
      (accepted : ℕ) (cursor : Option Text) (seen : List Text) (st : State E)
      → ((page : SourcePage) (a : ℕ) (c : Text) (st' : State E)
          → IsAnswer o scope cursor size page
          → page.next_cursor ≡ some c
          → is_seen c seen ≡ false
          → P st'
          → Ends Q R (sync_from o rounds r scope size deadline a (some c) (c ∷ seen) st'))
      → P st
      → Ends Q R (sync_from o (suc rounds) r scope size deadline accepted cursor seen st)
  unfolding sync_from
  sync_step rounds r scope size deadline accepted cursor seen st later h =
      >>=-Ends R (λ _. P) Q (check_deadline o deadline st) _
        (stopped (λ _. P) _ (check_deadline-Ends o rules deadline st h))
        λ _ st₁ h₁.
          >>=-Ends R (λ got st'. IsAnswer o scope cursor size got.0 × P st') Q
            (fetch_with_retry o r scope cursor size deadline st₁) _
            (stopped (λ got st'. IsAnswer o scope cursor size got.0 × P st')
              (fetch_with_retry o r scope cursor size deadline st₁)
              (fetch-Ends o rules r scope cursor size deadline st₁ h₁))
            λ (page, _, _) st₂ (answer, h₂).
              >>=-Ends R (λ a st'. (a ≡ accepted + length page.responses) × P st') Q
                (ingest_all o accepted page.responses st₂) _
                (stopped (λ a st'. (a ≡ accepted + length page.responses) × P st')
                  (ingest_all o accepted page.responses st₂)
                  (ingest_all-Ends o rules accepted page.responses st₂ h₂))
                λ more st₃ (_, h₃).
                  turn-Ends _ page.next_cursor seen more st₃
                    (λ c e new st'. later page more c st' answer e new) h₃
