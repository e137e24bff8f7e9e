-- ===== src/Backfill/Runner.antt =====
-- `BackfillRunner` of backend/src/vlytics/mirror/backfill.py with its `RetryPolicy` and
-- `RequestRateLimiter`. Times and delays are in microseconds, rounded up where the code divides.
use vlytics.Backfill.{Conflict, BackfillCheckpoint, SourceAdapter, CollectionGate}
use vlytics.Backfill.Lease.{Slot}
use vlytics.Sync.Scope.{BackfillScope}
use vlytics.Prelude.{
  ℕ, Bool, Option, none, some, List, Text, ◌+◌, ◌-◌, ◌*◌, ◌/◌, ◌^◌, min, ltb, if◌then◌else◌,
}

-- mirror/models.py
pub data IngestAction : Type 0 where
  append_revision append_receipt_only retry_later quarantine : IngestAction

-- Of a response, what the runner looks at.
pub record SourceResponse : Type 0 where
  pub request_key : Text
  pub received_at : ℕ
  pub status_code : Option ℕ
  pub retry_after_seconds : Option ℕ

pub record SourcePage : Type 0 where
  pub responses : List SourceResponse
  pub next_cursor : Option Text

-- What ends a method other than by a return; `raised` is an error of the adapter or the sink, and
-- `unfinished` is a loop that is not done after the rounds it was given.
pub data Failure : Type 0 where
  value_error collection_blocked lease_unavailable request_failed contract_error : Failure
  retry_budget_exceeded observation_predates unfinished : Failure
  checkpoint_conflict : Conflict → Failure
  raised_error : ℕ → Failure

-- What `fetch_page` comes to: a page, an error that is retried, or one that is not.
pub data Fetched : Type 0 where
  fetched : SourcePage → Fetched
  retryable : Fetched
  fetch_error : ℕ → Fetched

-- What `ingest` comes to; its result may have no action.
pub data Ingested : Type 0 where
  ingested : Option IngestAction → Ingested
  ingest_error : ℕ → Ingested

-- The adapter, the sink and the clocks that a runner is built with, on the state `E` they share.
pub record Outside (E : Type 0) : Type 0 where
  pub now : E → ℕ × E
  pub monotonic : E → ℕ × E
  pub sleep : ℕ → E → E
  pub jitter : ℕ → E → ℕ × E
  pub fetch_page : BackfillScope → Option Text → ℕ → ℕ → ℕ → E → Fetched × E
  pub ingest : SourceResponse → E → Ingested × E

-- The multiplier is a fraction.
pub record RetryPolicy : Type 0 where
  pub max_attempts : ℕ
  pub initial_delay : ℕ
  pub backoff_numerator : ℕ
  pub backoff_denominator : ℕ
  pub max_delay : ℕ

-- A delay; none is RetryBudgetExceeded.
unfoldable pub delay : RetryPolicy → ℕ → Option ℕ → ℕ → Option ℕ
delay p attempt (some retry_after) jitter =
    if ltb p.max_delay (retry_after * 1_000_000) then none else some (retry_after * 1_000_000)
delay p attempt none jitter =
    let k = attempt - 1 in
    let base = p.initial_delay * p.backoff_numerator ^ k / p.backoff_denominator ^ k in
    some (min (base + jitter) p.max_delay)

pub record BackfillRunner : Type 0 where
  pub adapter : SourceAdapter
  pub gate : CollectionGate
  pub interval : ℕ
  pub lease_key : Option Text
  pub max_concurrency : ℕ
  pub wait_after_global_lease : Bool
  pub retry_policy : RetryPolicy
  pub request_timeout : ℕ

-- What the runner's methods change: `_last_request` of the limiter, the slots of the lease, the items
-- of the checkpoint store, and the state outside.
pub record State (E : Type 0) : Type 0 where
  pub outside : E
  pub last_request : Option ℕ
  pub slots : List Slot
  pub items : List BackfillCheckpoint

pub data Outcome (E A : Type 0) : Type 0 where
  raised : Failure → State E → Outcome E A
  returned : A × State E → Outcome E A

infixl 5 ◌>>=◌
abbrev pub ◌>>=◌ : {E A B : Type 0} → Outcome E A → (A × State E → Outcome E B) → Outcome E B
◌>>=◌ (raised f st) next = raised f st
◌>>=◌ (returned r) next = next r

-- try … finally
abbrev pub finally : {E A : Type 0} → (State E → State E) → Outcome E A → Outcome E A
finally last (raised f st) = raised f (last st)
finally last (returned (a, st)) = returned (a, last st)

-- 60.0 / requests_per_minute
abbrev pub interval_of : ℕ → ℕ
interval_of requests_per_minute = (60_000_000 + requests_per_minute - 1) / requests_per_minute
