-- ===== src/Backfill/Tally.antt =====
-- The responses that a sink took, and the checkpoints that count no more.
use vlytics.Backfill.Forward.{advance_lem, advance-put}
use vlytics.Backfill.Runs.{stored}
use vlytics.Backfill.Kept.{Ends, Rules}
use vlytics.Backfill.Runner.{
  Outside, State, Outcome, Failure, ◌>>=◌, SourceResponse, Ingested, ingested, ingest_error,
  append_revision, append_receipt_only, retry_later, quarantine,
}
use vlytics.Backfill.Fetch.{reading, ingest_to}
use vlytics.Backfill.Pages.{ingest_all, accept}
use vlytics.Backfill.{
  BackfillCheckpoint, load, Advanced, scope_key, advance, conflict, advanced, has_scope_key, first,
}
use vlytics.Sync.Scope.{BackfillScope, scope_key}
use vlytics.Prelude.{
  ℕ, ◌+◌, ◌≡◌, ◌≤◌, refl, Bool, true, false, Option, none, some, Text, arith, List, [], ◌∷◌, sym,
  ap, first, ◌∙◌, some_inj,
}

-- The action of an ingested response is none that stops the run.
abbrev pub is_taken : Ingested → Bool
is_taken (ingested none) = true
is_taken (ingested (some append_revision)) = true
is_taken (ingested (some append_receipt_only)) = true
is_taken (ingested (some retry_later)) = false
is_taken (ingested (some quarantine)) = false
is_taken (ingest_error _) = false

-- `taken` counts the responses that the sink took, and forgets none.
pub record IsTally {E : Type 0} (o : Outside E) (taken : E → ℕ) : Type 0 where
  pub now : (e : E) → taken e ≤ taken (o.now e).1
  pub monotonic : (e : E) → taken e ≤ taken (o.monotonic e).1
  pub sleep : (d : ℕ) (e : E) → taken e ≤ taken (o.sleep d e)
  pub jitter : (n : ℕ) (e : E) → taken e ≤ taken (o.jitter n e).1
  pub fetch_page :
      (scope : BackfillScope) (cursor : Option Text) (size at timeout : ℕ) (e : E)
      → taken e ≤ taken (o.fetch_page scope cursor size at timeout e).1
  pub ingests : (x : SourceResponse) (e : E) → taken e ≤ taken (o.ingest x e).1
  pub takes :
      (x : SourceResponse) (e : E)
      → is_taken (o.ingest x e).0 ≡ true
      → taken e + 1 ≤ taken (o.ingest x e).1

module _ {E : Type 0} (o : Outside E) (taken : E → ℕ) (tally : IsTally o taken)
    (scope : BackfillScope) (before : ℕ) where
  -- The stored checkpoint counts responses that were taken, `before` of them before the tally.
  abbrev pub Backed : State E → Type 0
  Backed st =
      (c : BackfillCheckpoint)
      → load scope st.items ≡ some c
      → c.responses_ingested ≤ taken st.outside + before

  -- So it is with `n` responses.
  abbrev pub Covers : ℕ → State E → Type 0
  Covers n st = Backed st × (n ≤ taken st.outside + before)

  pub later_Covers :
      (n : ℕ) (st : State E) (e : E)
      → taken st.outside ≤ taken e
      → Covers n st
      → Covers n (record st { outside = e })
  later_Covers n st e h (backed, most) = (λ c known. omega (arith, backed c known), omega arith)

  pub Covers-Rules : (n : ℕ) → Rules o (λ _. Covers n)
  Covers-Rules n = record {
    requests = λ _ _ _ h. h;
    now = λ _ st. later_Covers n st _ (tally.now st.outside);
    monotonic = λ _ st. later_Covers n st _ (tally.monotonic st.outside);
    sleep = λ _ st d. later_Covers n st _ (tally.sleep d st.outside);
    jitter = λ _ st k. later_Covers n st _ (tally.jitter k st.outside);
    ingests = λ _ st x. later_Covers n st _ (tally.ingests x st.outside);
    fetches = λ _ st scope' cursor size at timeout.
        later_Covers n st _ (tally.fetch_page scope' cursor size at timeout st.outside);
  }

  abbrev pub Fails : Failure → State E → Type 0
  Fails _ = Backed

  -- A response that is taken is one more.
  take-Covers :
      {A : Type 0} (n : ℕ) (Q : A → State E → Type 0) (st : State E) (got : Ingested × State E)
      (next : Unit × State E → Outcome E A)
      → Covers n got.1
      → (is_taken got.0 ≡ true → n + 1 ≤ taken got.1.outside + before)
      → ((st : State E) → Covers (n + 1) st → Ends Q Fails (next (tt, st)))
      → Ends Q Fails (ingest_to o got >>= λ (action, st₁). accept o action st₁ >>= next)
  take-Covers n Q st (ingested none, st') next (backed, _) more later =
      later st' (backed, more refl)
  take-Covers n Q st (ingested (some append_revision), st') next (backed, _) more later =
      later st' (backed, more refl)
  take-Covers n Q st (ingested (some append_receipt_only), st') next (backed, _) more later =
      later st' (backed, more refl)
  take-Covers n Q st (ingested (some retry_later), st') next (backed, _) more later = backed
  take-Covers n Q st (ingested (some quarantine), st') next (backed, _) more later = backed
  take-Covers n Q st (ingest_error e, st') next (backed, _) more later = backed

  pub ingest_all-Covers :
      (n accepted : ℕ) (xs : List SourceResponse) (st : State E)
      → Covers (n + accepted) st
      → Ends (λ a. Covers (n + a)) Fails (ingest_all o accepted xs st)
  unfolding ingest_all
  ingest_all-Covers n accepted [] st h = h
  ingest_all-Covers n accepted (x ∷ xs) st h =
      take-Covers (n + accepted) (λ a. Covers (n + a)) st (reading o (o.ingest x) st) _
        (later_Covers (n + accepted) st _ (tally.ingests x st.outside) h)
        (λ took. omega (arith, tally.takes x st.outside took, h.1))
        (λ st' (backed, most). ingest_all-Covers n (accepted + 1) xs st' (backed, omega arith))

  -- What a run knows of its checkpoint.
  abbrev pub IsCovered : BackfillCheckpoint → State E → Type 0
  IsCovered c st = Covers c.responses_ingested st × (scope_key c.scope ≡ scope_key scope)

  pub stored-IsCovered :
      (c : BackfillCheckpoint) (n : ℕ) (st : State E) (got : Advanced)
      → advance c n st.items ≡ got
      → IsCovered c st
      → Ends IsCovered Fails (stored o st got)
  stored-IsCovered c n st (conflict reason) e ((backed, _), _) = backed
  stored-IsCovered c n st (advanced c' items) e ((_, most), key) =
      let (held, _, _, _) = advance_lem c c' n st.items items e in
      let (same, _) = advance-put c c' n st.items items e in
      let held' = ap (λ k. first (has_scope_key k) items) (sym key) ∙ held in
      let counts = ap (λ x. x.responses_ingested) same in
      (
        (
          λ d known.
              let found : c' ≡ d = some_inj (sym held' ∙ known) in
              let also = ap (λ x. x.responses_ingested) found in omega arith,
          omega arith,
        ),
        ap (λ x. scope_key x.scope) same ∙ key,
      )
