-- ===== src/Backfill/Sample.antt =====
-- A source that is a list of answers, with a clock that only sleeping moves.

use vlytics.Backfill.Attempts.{IsCount}
use vlytics.Backfill.Paced.{IsClock}
use vlytics.Backfill.Tally.{IsTally}
use vlytics.Backfill.Runner.{
  Outside, State, SourceResponse, BackfillRunner, fetched, retryable, fetch_error, Fetched,
  ingested, append_revision,
}
use vlytics.Sync.Scope.{BackfillScope}
use vlytics.Prelude.{
  ℕ, ◌+◌, ◌≡◌, ◌≤◌, refl, true, some, none, List, [], ◌∷◌, codes, Text, arith, Option,
}

pub record World : Type 0 where
  pub time : ℕ
  pub answers : List Fetched
  pub asked : ℕ
  pub taken : ℕ

abbrev pub asked_more : World → World
asked_more w = record w { asked = w.asked + 1 }

abbrev pub next_answer : List Fetched → World → Fetched × World
next_answer [] w = (fetch_error 0, asked_more w)
next_answer (a ∷ rest) w = (a, record (asked_more w) { answers = rest })

abbrev pub source : Outside World
source = record {
  now = λ w. (w.time, w);
  monotonic = λ w. (w.time, w);
  sleep = λ d w. record w { time = w.time + d };
  jitter = λ _ w. (0, w);
  fetch_page = λ _ _ _ _ _ w. next_answer w.answers w;
  ingest = λ _ w. (ingested (some append_revision), record w { taken = w.taken + 1 });
}

pub source-IsCount : IsCount source (λ w. w.asked)
source-IsCount = record {
  now = λ _. refl;
  monotonic = λ _. refl;
  sleep = λ _ _. refl;
  jitter = λ _ _. refl;
  ingest = λ _ _. refl;
  fetch_page = λ _ _ _ _ _ w. asked_answer w.answers w;
}
  where
    asked_answer :
        (answers : List Fetched) (w : World) → (next_answer answers w).1.asked ≡ w.asked + 1
    asked_answer [] w = refl
    asked_answer (a ∷ rest) w = refl

pub source-IsTally : IsTally source (λ w. w.taken)
source-IsTally = record {
  now = λ _. omega arith;
  monotonic = λ _. omega arith;
  sleep = λ _ _. omega arith;
  jitter = λ _ _. omega arith;
  fetch_page = λ _ _ _ _ _ w. taken_answer w.answers w;
  ingests = λ _ w. omega arith;
  takes = λ _ w _. omega arith;
}
  where
    taken_answer : (answers : List Fetched) (w : World) → w.taken ≤ (next_answer answers w).1.taken
    taken_answer [] w = omega arith
    taken_answer (a ∷ rest) w = omega arith

pub source-IsClock : IsClock source (λ w. w.time)
source-IsClock = record {
  reads_late = λ _. omega arith;
  reads_early = λ _. omega arith;
  sleeps = λ _ _. omega arith;
}

abbrev pub scope : BackfillScope
scope = record {
  source = codes "kovo";
  group_code = codes "1";
  season_code = codes "9";
  competition_code = codes "c";
}

abbrev pub response : Option ℕ → SourceResponse
response status = record {
  request_key = codes "k";
  received_at = 900_000_000;
  status_code = status;
  retry_after_seconds = some 2;
}

abbrev pub page : Option ℕ → Option Text → Fetched
page status next = fetched (record { responses = response status ∷ []; next_cursor = next })

abbrev pub runner : BackfillRunner
runner = record {
  adapter = record { synthetic = true };
  gate = record {
    bulk_collection_enabled = true;
    permission_policy = codes "yes";
    max_requests_per_minute = 12;
    max_concurrency = 2;
  };
  interval = 5_000_000;
  lease_key = none;
  max_concurrency = 2;
  wait_after_global_lease = true;
  retry_policy = record {
    max_attempts = 3;
    initial_delay = 1_000_000;
    backoff_numerator = 2;
    backoff_denominator = 1;
    max_delay = 30_000_000;
  };
  request_timeout = 30_000_000;
}

-- A busy source, then an error, then two pages.
abbrev pub begin : State World
begin = record {
  outside = record {
    time = 100;
    answers =
        page (some 429) none ∷ retryable ∷ page (some 200) (some (codes "2")) ∷ page none none ∷ [];
    asked = 0;
    taken = 0;
  };
  last_request = none;
  slots = [];
  items = [];
}
