-- ===== src/Backfill/Fetch.antt =====
-- `RequestRateLimiter` and `_fetch_with_retry` of backend/src/vlytics/mirror/backfill.py.
use vlytics.Backfill.Runner.{
  SourceResponse, SourcePage, request_failed, retry_budget_exceeded, observation_predates,
  raised_error, fetched, retryable, fetch_error, ingested, ingest_error, Outside, delay,
  BackfillRunner, State, Outcome, raised, returned, ◌>>=◌, IngestAction, Fetched, Ingested,
}
use vlytics.Sync.Scope.{BackfillScope}
use vlytics.Prelude.{
  ℕ, zero, suc, Bool, true, false, ◌||◌, Option, none, some, List, [], ◌∷◌, Text, ◌==◌, ◌+◌, ◌-◌,
  min, max, ltb, leb, if◌then◌else◌,
}

-- status == 429 or status >= 500
abbrev pub is_retryable : Option ℕ → Bool
is_retryable none = false
is_retryable (some status) = status == 429 || leb 500 status

-- max(retry_after or 0, response.retry_after_seconds)
abbrev pub later_of : Option ℕ → Option ℕ → Option ℕ
later_of before none = before
later_of none (some seconds) = some seconds
later_of (some before) (some seconds) = some (max before seconds)

-- min(timeout_seconds, remaining_seconds); none if no time remains.
abbrev pub timeout_of : ℕ → Option ℕ → ℕ → Option ℕ
timeout_of timeout none requested_at = some timeout
timeout_of timeout (some deadline) requested_at =
    if leb deadline requested_at then none else some (min timeout (deadline - requested_at))

-- The time `delay` after `now` reaches the deadline.
abbrev pub reaches : Option ℕ → ℕ → Bool
reaches none time = false
reaches (some deadline) time = leb deadline time

module _ {E : Type 0} (o : Outside E) where
  abbrev pub moved : (E → E) → State E → State E
  moved f st = record st { outside = f st.outside }

  -- A reading of a clock, or another call that returns a value.
  abbrev pub reading : {A : Type 0} → (E → A × E) → State E → A × State E
  reading f st = ((f st.outside).0, record st { outside = (f st.outside).1 })

  abbrev pub passed : ℕ × State E → State E
  passed (now, st) = record st { last_request = some now }

  -- Sleeping until a time of the monotonic clock that was just read.
  abbrev pub sleep_until : ℕ → ℕ × State E → State E
  sleep_until time (now, st) = if ltb now time then moved (o.sleep (time - now)) st else st

  abbrev pub wait_from : ℕ → Option ℕ → ℕ × State E → State E
  wait_from interval none at = passed at
  wait_from interval (some last) (now, st) =
      if ltb now (last + interval)
      then passed (reading o.monotonic (moved (o.sleep (last + interval - now)) st))
      else passed (now, st)

  -- RequestRateLimiter.wait
  abbrev pub wait : ℕ → State E → State E
  wait interval st = wait_from interval st.last_request (reading o.monotonic st)

  abbrev pub rest_from : ℕ → Option ℕ → State E → State E
  rest_from interval none st = sleep_until interval (0, st)
  rest_from interval (some last) st = sleep_until (last + interval) (reading o.monotonic st)

  abbrev pub wait_after_global_lease : ℕ → State E → State E
  wait_after_global_lease interval st = rest_from interval st.last_request st

  abbrev pub cool_from : ℕ → Option ℕ → State E → State E
  cool_from interval none st = st
  cool_from interval (some last) st = sleep_until (last + interval) (reading o.monotonic st)

  abbrev pub cooldown : ℕ → State E → State E
  cooldown interval st = cool_from interval st.last_request st

  abbrev pub ingest_to : Ingested × State E → Outcome E (Option IngestAction)
  ingest_to (ingested action, st) = returned (action, st)
  ingest_to (ingest_error e, st) = raised (raised_error e) st

  -- self._ingestion.ingest(response), which may raise
  abbrev pub ingest : SourceResponse → State E → Outcome E (Option IngestAction)
  ingest x st = ingest_to (reading (o.ingest x) st)

  -- The loop over the responses of a page: is the page retried, and after how long?
  unfoldable pub inspect :
      ℕ → List SourceResponse → Bool → Option ℕ → State E → Outcome E (Bool × Option ℕ)
  inspect requested_at [] retried after st = returned ((retried, after), st)
  inspect requested_at (x ∷ xs) retried after st =
      if ltb x.received_at requested_at
      then raised observation_predates st
      else if is_retryable x.status_code
      then (ingest x st >>= λ (_, st').
          inspect requested_at xs true (later_of after x.retry_after_seconds) st')
      else inspect requested_at xs retried after st

  abbrev pub sleep_before : Option ℕ → ℕ → State E → Outcome E Unit
  sleep_before none pause st = returned (tt, moved (o.sleep pause) st)
  sleep_before (some deadline) pause st =
      let (now, st') = reading o.now st in
      if leb deadline (now + pause)
      then raised retry_budget_exceeded st'
      else returned (tt, moved (o.sleep pause) st')

  abbrev pub sleep_for : Option ℕ → Option ℕ → State E → Outcome E Unit
  sleep_for deadline none st = raised retry_budget_exceeded st
  sleep_for deadline (some pause) st = sleep_before deadline pause st

  -- _sleep_for_retry
  unfoldable pub sleep_for_retry :
      BackfillRunner → ℕ → Option ℕ → Option ℕ → State E → Outcome E Unit
  sleep_for_retry r attempt after deadline st =
      let (jitter, st') = reading (o.jitter attempt) st in
      sleep_for deadline (delay r.retry_policy attempt after jitter) st'

  -- After the last attempt the loop ends; before, it sleeps and goes on.
  abbrev pub retry :
      {A : Type 0}
      → BackfillRunner
      → ℕ
      → Option ℕ
      → Option ℕ
      → (State E → Outcome E A)
      → State E
      → Outcome E A
  retry r attempt after deadline next st =
      if attempt == r.retry_policy.max_attempts
      then raised request_failed st
      else (sleep_for_retry r attempt after deadline st >>= λ (_, st'). next st')

  -- What an attempt makes of the answer to its request; `next` are the attempts after it.
  abbrev pub answer :
      BackfillRunner
      → ℕ
      → Option ℕ
      → (State E → Outcome E (SourcePage × ℕ × ℕ))
      → ℕ
      → Fetched × State E
      → Outcome E (SourcePage × ℕ × ℕ)
  answer r attempt deadline next requested_at (fetch_error e, st) = raised (raised_error e) st
  answer r attempt deadline next requested_at (retryable, st) =
      retry r attempt none deadline next st
  answer r attempt deadline next requested_at (fetched page, st) = do
    ((retried, after), st') ← inspect requested_at page.responses false none st
    (if retried
        then retry r attempt after deadline next st'
        else returned ((page, attempt, attempt - 1), st'))

  -- A request with the timeout that the deadline leaves.
  abbrev pub request :
      BackfillRunner
      → ℕ
      → Option ℕ
      → (State E → Outcome E (SourcePage × ℕ × ℕ))
      → BackfillScope
      → Option Text
      → ℕ
      → ℕ × State E
      → Outcome E (SourcePage × ℕ × ℕ)
  request r attempt deadline next scope cursor size (requested_at, st) =
      ask (timeout_of r.request_timeout deadline requested_at)
    where
      ask : Option ℕ → Outcome E (SourcePage × ℕ × ℕ)
      ask none = raised retry_budget_exceeded st
      ask (some timeout) =
          answer r attempt deadline next requested_at
            (reading (o.fetch_page scope cursor size requested_at timeout) st)

  -- The rounds of `_fetch_with_retry` from an attempt on.
  unfoldable pub fetch_from :
      BackfillRunner
      → ℕ
      → ℕ
      → BackfillScope
      → Option Text
      → ℕ
      → Option ℕ
      → State E
      → Outcome E (SourcePage × ℕ × ℕ)
  unfolding inspect sleep_for_retry
  fetch_from r zero attempt scope cursor size deadline st = raised request_failed st
  fetch_from r (suc rounds) attempt scope cursor size deadline st =
      request r attempt deadline (fetch_from r rounds (attempt + 1) scope cursor size deadline)
        scope cursor size (reading o.now (wait r.interval st))

  abbrev pub fetch_with_retry :
      BackfillRunner
      → BackfillScope
      → Option Text
      → ℕ
      → Option ℕ
      → State E
      → Outcome E (SourcePage × ℕ × ℕ)
  fetch_with_retry r scope cursor size deadline st =
      fetch_from r r.retry_policy.max_attempts 1 scope cursor size deadline st
