-- ===== src/Backfill/Terminates.antt =====
-- `sync_once` ends: every page that it goes on to has a cursor that it did not see before.
use vlytics.Backfill.Kept.{Ends, if-Ends, Rules, is_unfinished}
use vlytics.Backfill.Whole.{sync_step}
use vlytics.Backfill.Lease.{acquire, key_of, Slot}
use vlytics.Backfill.Runner.{
  Outside, State, Outcome, BackfillRunner, Failure, fetched, SourcePage, raised, returned, finally,
}
use vlytics.Backfill.Fetch.{cooldown}
use vlytics.Backfill.Pages.{sync_from, sync_once, is_seen, leased, hold, rested}
use vlytics.Backfill.{is_blocked}
use vlytics.Sync.Scope.{BackfillScope}
use mathlib.Core.Path.{subst}
use vlytics.Prelude.{
  ℕ, zero, suc, ◌≡◌, ◌≤◌, ◌<◌, refl, Bool, true, false, not, Option, none, some, Text, arith, List,
  [], ◌∷◌, ap, ◌==◌, count, first, text_eq, eq_of_text_eq, text_eq_refl, length, Bool-cases, inl,
  inr,
}

count-≤ :
    {A : Type 0} (p q : A → Bool) (xs : List A)
    → ((x : A) → q x ≡ true → p x ≡ true)
    → count q xs ≤ count p xs
unfolding count
count-≤ p q [] h = omega arith
count-≤ p q (x ∷ xs) h = ground (arith, h x, count-≤ p q xs h)

-- How many of the cursors were not seen.
abbrev unseen : List Text → List Text → ℕ
unseen cursors seen = count (λ c. not (is_seen c seen)) cursors

seen_more :
    (c d : Text) (seen : List Text)
    → not (is_seen d (c ∷ seen)) ≡ true
    → not (is_seen d seen) ≡ true
unfolding first
seen_more c d seen h = ground arith

unseen-< :
    (c : Text) (cursors seen : List Text)
    → is_seen c cursors ≡ true
    → is_seen c seen ≡ false
    → unseen cursors (c ∷ seen) < unseen cursors seen
unfolding count first
unseen-< c [] seen known new = ground arith
unseen-< c (d ∷ ds) seen known new = elim (Bool-cases (text_eq c d)) [
  | inl same ↦
      let e = eq_of_text_eq c d same in
      let now = subst (λ x. is_seen x seen ≡ false) e new in
      let hit = subst (λ x. text_eq x c ≡ true) e (text_eq_refl c) in
      rw (now, hit)
        (ground (
          arith,
          count-≤ (λ x. not (is_seen x seen)) (λ x. not (is_seen x (c ∷ seen))) ds
              (λ x. seen_more c x seen),
        ))
  | inr other ↦ ground (arith, unseen-< c ds seen, seen_more c d seen)
]

unseen-length : (cursors : List Text) → unseen cursors [] ≡ length cursors
unfolding count first
unseen-length [] = refl
unseen-length (c ∷ cs) = ap suc (unseen-length cs)

-- Every cursor that the source gives is one of `cursors`.
abbrev pub GivesOnly : {E : Type 0} → Outside E → List Text → Type 0
GivesOnly {E = E} o cursors =
    (scope : BackfillScope) (cursor : Option Text) (size at timeout : ℕ) (e : E) (page : SourcePage)
    (c : Text)
    → (o.fetch_page scope cursor size at timeout e).0 ≡ fetched page
    → page.next_cursor ≡ some c
    → is_seen c cursors ≡ true

abbrev pub Anything : {E A : Type 0} → A → State E → Type 0
Anything _ _ = Unit

-- Not for want of rounds.
abbrev pub Finished : {E : Type 0} → Failure → State E → Type 0
Finished f _ = is_unfinished f ≡ false

module _ {E : Type 0} (o : Outside E) (cursors : List Text) (gives : GivesOnly o cursors) where
  any-Rules : Rules o (λ _ _. Unit {0})
  any-Rules = record {
    requests = λ _ _ _ _. tt;
    now = λ _ _ _. tt;
    monotonic = λ _ _ _. tt;
    sleep = λ _ _ _ _. tt;
    jitter = λ _ _ _ _. tt;
    ingests = λ _ _ _ _. tt;
    fetches = λ _ _ _ _ _ _ _ _. tt;
  }

  sync_from-Finished :
      (rounds : ℕ) (r : BackfillRunner) (scope : BackfillScope) (size : ℕ) (deadline : Option ℕ)
      (accepted : ℕ) (cursor : Option Text) (seen : List Text) (st : State E)
      → unseen cursors seen < rounds
      → Ends Anything Finished (sync_from o rounds r scope size deadline accepted cursor seen st)
  sync_from-Finished zero r scope size deadline accepted cursor seen st h = absurd (omega arith)
  sync_from-Finished (suc rounds) r scope size deadline accepted cursor seen st h =
      sync_step o any-Rules (λ _ _ fine _. fine) (λ _ _ _. tt) rounds r scope size deadline accepted
        cursor seen st
        (λ page a c st' (at, timeout, e, came, _) next new _.
          sync_from-Finished rounds r scope size deadline a (some c) (c ∷ seen) st' (
            omega (
              arith,
              unseen-< c cursors seen (gives scope cursor size at timeout e page c came next) new,
            )))
        tt

  finally-Finished :
      {A : Type 0} (last : State E → State E) (m : Outcome E A)
      → Ends Anything Finished m
      → Ends Anything Finished (finally last m)
  finally-Finished last (raised f st) h = h
  finally-Finished last (returned (a, st)) h = tt

  hold-Finished :
      {A : Type 0} (r : BackfillRunner) (scope : BackfillScope) (last : State E → State E)
      (body : State E → Outcome E A) (st : State E) (got : Option ℕ × List Slot)
      → ((st' : State E) → Ends Anything Finished (body st'))
      → Ends Anything Finished (hold o r scope last body st got)
  hold-Finished r scope last body st (none, slots) fine = refl
  hold-Finished r scope last body st (some slot, slots) fine =
      finally-Finished _ (body (rested o r (record st { slots = slots }))) (fine _)

  -- If every cursor that the source gives is in a list, then with one round more than the list is
  -- long `sync_once` returns or raises for a reason of its own, and never for want of rounds.
  pub sync_once_terminates :
      (rounds : ℕ) (r : BackfillRunner) (scope : BackfillScope) (size : ℕ) (deadline : Option ℕ)
      (st : State E)
      → length cursors < rounds
      → Ends Anything Finished (sync_once o rounds r scope size deadline st)
  unfolding sync_once leased
  sync_once_terminates rounds r scope size deadline st enough =
      if-Ends Finished Anything (size == 0) _ _ (λ _. refl)
        λ _.
          if-Ends Finished Anything (is_blocked r.gate r.adapter) _ _ (λ _. refl)
            λ _.
              hold-Finished r scope (cooldown o r.interval) _ st
                (acquire (key_of r.lease_key scope) r.max_concurrency st.slots)
                λ st'.
                  sync_from-Finished rounds r scope size deadline 0 none [] st'
                    (omega (arith, unseen-length cursors))
