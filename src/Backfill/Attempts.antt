-- ===== src/Backfill/Attempts.antt =====
-- The attempts at a page: how many requests they make, and what they return.
use vlytics.Backfill.Kept.{
  Ends, Ends-fails, Ends-mono, >>=-Ends, if-Ends, Rules, IsAnswer, Fails, wait-kept, inspect-Ends,
  sleep_for_retry-Ends, Inspected,
}
use vlytics.Backfill.Runner.{
  Outside, State, Outcome, SourcePage, BackfillRunner, Fetched, fetched, retryable, fetch_error,
  SourceResponse,
}
use vlytics.Backfill.Fetch.{
  fetch_from, retry, answer, request, timeout_of, sleep_for_retry, inspect, fetch_with_retry,
}
use vlytics.Sync.Scope.{BackfillScope}
use vlytics.Prelude.{
  ℕ, zero, suc, ◌+◌, ◌≡◌, ◌≤◌, refl, false, Option, none, Text, ◌==◌, Option-cases, inl, inr, arith,
  ◌<◌,
}

module _ {E : Type 0} (o : Outside E) {P : ℕ → State E → Type 0} (rules : Rules o P)
    (r : BackfillRunner) (scope : BackfillScope) (cursor : Option Text) (size : ℕ)
    (deadline : Option ℕ) where
  abbrev max : ℕ
  max = r.retry_policy.max_attempts

  -- What is known when attempt `a` returned a page.
  abbrev pub Got : SourcePage × ℕ × ℕ → State E → Type 0
  Got (page, a, b) st = (b + 1 ≡ a) × (a ≤ max) × IsAnswer o scope cursor size page × P (suc a) st

  abbrev pub Stops : Outcome E (SourcePage × ℕ × ℕ) → Type 0
  Stops = Ends Got (Fails o rules (suc max))

  -- What follows attempt `n` once its request was made.
  retry-Ends :
      (n : ℕ) (after : Option ℕ) (next : State E → Outcome E (SourcePage × ℕ × ℕ)) (st : State E)
      → n ≤ max
      → ((st : State E) → n + 1 ≤ max → P (suc n) st → Stops (next st))
      → P (suc n) st
      → Stops (retry o r n after deadline next st)
  retry-Ends n after next st b later h =
      if-Ends (Fails o rules (suc max)) Got (n == max) _ _ (λ _. (suc n, omega arith, refl, h))
        (λ more.
          >>=-Ends (Fails o rules (suc max)) (λ _. P (suc n)) Got
            (sleep_for_retry o r n after deadline st) _
            (sleep_for_retry-Ends o rules (suc max) r (suc n) n after deadline st (omega arith) h)
            (λ _ st' h'. later st' (grind arith) h'))

  answer-Ends :
      (n at timeout : ℕ) (next : State E → Outcome E (SourcePage × ℕ × ℕ)) (e : E)
      (got : Fetched × State E)
      → 0 < n
      → n ≤ max
      → (o.fetch_page scope cursor size at timeout e).0 ≡ got.0
      → ((st : State E) → n + 1 ≤ max → P (suc n) st → Stops (next st))
      → P (suc n) got.1
      → Stops (answer o r n deadline next at got)
  answer-Ends n at timeout next e (fetch_error f, st) pos b same later h =
      (suc n, omega arith, refl, h)
  answer-Ends n at timeout next e (retryable, st) pos b same later h =
      retry-Ends n none next st b later h
  answer-Ends n at timeout next e (fetched page, st) pos b same later h =
      >>=-Ends (Fails o rules (suc max))
        (Inspected o rules (suc max) (suc n) at page.responses false) Got
        (inspect o at page.responses false none st) _
        (inspect-Ends o rules (suc max) (suc n) at page.responses false none st (omega arith) h)
        (λ (retried, after) st' (kept, good).
          if-Ends (Fails o rules (suc max)) Got retried _ _
            (λ _. retry-Ends n after next st' b later kept)
            (λ fine. (omega arith, b, (at, timeout, e, same, (good fine).1), kept)))

  request-Ends :
      (n : ℕ) (next : State E → Outcome E (SourcePage × ℕ × ℕ)) (at : ℕ × State E)
      → 0 < n
      → n ≤ max
      → ((st : State E) → n + 1 ≤ max → P (suc n) st → Stops (next st))
      → P n at.1
      → Stops (request o r n deadline next scope cursor size at)
  request-Ends n next (at, st) pos b later h =
      elim (Option-cases (timeout_of r.request_timeout deadline at)) [
        | inl over ↦ rw over (n, omega arith, refl, h)
        | inr (timeout, e) ↦ rw e (
            answer-Ends n at timeout next st.outside _ pos b refl later
              (rules.fetches n st scope cursor size at timeout h))
      ]

  pub fetch_from-Ends :
      (rounds n : ℕ) (st : State E)
      → 0 < n
      → rounds + n ≡ suc max
      → P n st
      → Stops (fetch_from o r rounds n scope cursor size deadline st)
  unfolding fetch_from
  fetch_from-Ends zero n st pos e h = (n, omega arith, refl, h)
  fetch_from-Ends (suc rounds) n st pos e h =
      request-Ends n _ _ pos (omega arith)
        (λ st' more h'.
          fetch_from-Ends rounds (n + 1) st' (omega arith) (omega arith) (grind arith))
        (rules.now n _ (wait-kept o rules n r.interval st h))

-- `calls` counts the calls of `fetch_page`.
pub record IsCount {E : Type 0} (o : Outside E) (calls : E → ℕ) : Type 0 where
  pub now : (e : E) → calls (o.now e).1 ≡ calls e
  pub monotonic : (e : E) → calls (o.monotonic e).1 ≡ calls e
  pub sleep : (d : ℕ) (e : E) → calls (o.sleep d e) ≡ calls e
  pub jitter : (n : ℕ) (e : E) → calls (o.jitter n e).1 ≡ calls e
  pub ingest : (x : SourceResponse) (e : E) → calls (o.ingest x e).1 ≡ calls e
  pub fetch_page :
      (scope : BackfillScope) (cursor : Option Text) (size at timeout : ℕ) (e : E)
      → calls (o.fetch_page scope cursor size at timeout e).1 ≡ calls e + 1

module _ {E : Type 0} (o : Outside E) (calls : E → ℕ) (counts : IsCount o calls) where
  count-Rules : (base : ℕ) → Rules o (λ n st. calls st.outside + 1 ≡ base + n)
  count-Rules base = record {
    requests = λ _ _ _ h. h;
    now = λ n st h. omega (arith, counts.now st.outside);
    monotonic = λ n st h. omega (arith, counts.monotonic st.outside);
    sleep = λ n st d h. omega (arith, counts.sleep d st.outside);
    jitter = λ n st k h. omega (arith, counts.jitter k st.outside);
    ingests = λ n st x h. omega (arith, counts.ingest x st.outside);
    fetches = λ n st scope cursor size at timeout h.
        omega (arith, counts.fetch_page scope cursor size at timeout st.outside);
  }

  -- For every count of the calls of the source, which `fetch_page` raises by one and nothing else
  -- changes: a page is fetched with as many requests as it reports, of which all but the last were
  -- retries, and at most as many as the policy allows; it is a page that the source sent, and no
  -- response of it is to be retried or was received before its request. Where an exception is
  -- raised instead, there were at most as many requests as well.
  pub fetch-count :
      (r : BackfillRunner) (scope : BackfillScope) (cursor : Option Text) (size : ℕ)
      (deadline : Option ℕ) (st : State E)
      → Ends
          (λ (page, requests, retries) st'.
            (calls st'.outside ≡ calls st.outside + requests)
            × (retries + 1 ≡ requests)
            × (requests ≤ r.retry_policy.max_attempts)
            × IsAnswer o scope cursor size page)
          (λ _ st'. calls st'.outside ≤ calls st.outside + r.retry_policy.max_attempts)
          (fetch_with_retry o r scope cursor size deadline st)
  fetch-count r scope cursor size deadline st =
      Ends-fails _ (fetch_with_retry o r scope cursor size deadline st)
        (λ f st' (n, most, fine, made). omega arith)
        (Ends-mono _ (fetch_with_retry o r scope cursor size deadline st)
          (λ (page, a, b) st' (again, most, answer, made). (omega arith, again, most, answer))
          (fetch_from-Ends o (count-Rules (calls st.outside)) r scope cursor size deadline
            r.retry_policy.max_attempts 1 st (omega arith) (omega arith) (omega arith)))
