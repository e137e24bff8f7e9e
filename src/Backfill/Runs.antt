-- ===== src/Backfill/Runs.antt =====
-- `run` and `_run_leased` of `BackfillRunner`, backend/src/vlytics/mirror/backfill.py.
use vlytics.Sync.Scope.{BackfillScope}
use vlytics.Backfill.{
  BackfillCheckpoint, conflict, advanced, load, advance, Phase, validation, batch, completed, not,
  BackfillScope, Advanced,
}
use vlytics.Backfill.Runner.{
  ◌>>=◌, value_error, unfinished, checkpoint_conflict, Outside, BackfillRunner, State, Outcome,
  raised, returned, checkpoint_conflict, unfinished, value_error,
}
use vlytics.Backfill.Fetch.{reading, fetch_with_retry, fetch_from}
use vlytics.Prelude.{
  ℕ, zero, suc, Bool, true, false, ◌||◌, Option, none, some, Text, ◌==◌, ◌+◌, is_some,
  if◌then◌else◌, not,
}
use vlytics.Backfill.Pages.{ingest_all, leased}

pub record BackfillResult : Type 0 where
  pub checkpoint : BackfillCheckpoint
  pub requests : ℕ
  pub retries : ℕ

abbrev pub result_of : BackfillCheckpoint → ℕ → ℕ → BackfillResult
result_of c requests retries = record { checkpoint = c; requests = requests; retries = retries }

abbrev pub new_checkpoint : BackfillScope → ℕ → BackfillCheckpoint
new_checkpoint scope now = record {
  scope = scope;
  cursor = none;
  phase = validation;
  is_completed = false;
  pages_completed = 0;
  responses_ingested = 0;
  updated_at = now;
  generation = 0;
}

abbrev pub is_validation : Phase → Bool
is_validation validation = true
is_validation batch = false
is_validation completed = false

-- The checkpoint after a page, with the phase that the code calls `phase` or "completed".
abbrev pub desired : BackfillCheckpoint → Option Text → ℕ → ℕ → BackfillCheckpoint
desired c next accepted now = record c {
  cursor = next;
  phase = if is_some next then (if is_validation c.phase then batch else c.phase) else completed;
  is_completed = not (is_some next);
  pages_completed = c.pages_completed + 1;
  responses_ingested = c.responses_ingested + accepted;
  updated_at = now;
}

module _ {E : Type 0} (o : Outside E) where
  abbrev pub stored : State E → Advanced → Outcome E BackfillCheckpoint
  stored st (conflict reason) = raised (checkpoint_conflict reason) st
  stored st (advanced c items) = returned (c, record st { items = items })

  -- self._checkpoints.advance
  abbrev pub advanced_to : BackfillCheckpoint → ℕ → State E → Outcome E BackfillCheckpoint
  advanced_to c expected st = stored st (advance c expected st.items)

  -- One page of `_run_leased`.
  unfoldable pub run_page :
      BackfillRunner
      → BackfillScope
      → ℕ
      → ℕ
      → Option ℕ
      → BackfillCheckpoint
      → State E
      → Outcome E (BackfillCheckpoint × ℕ × ℕ)
  unfolding fetch_from ingest_all advance
  run_page r scope validation_size batch_size deadline c st = do
    ((page, requests, retries), st₁) ←
        fetch_with_retry o r scope c.cursor
          (if is_validation c.phase then validation_size else batch_size) deadline st
    (accepted, st₂) ← ingest_all o 0 page.responses st₁
    let (now, st₃) = reading o o.now st₂
    (c', st₄) ← advanced_to (desired c page.next_cursor accepted now) c.generation st₃
    returned ((c', requests, retries), st₄)

  -- The result after a page that was the last one, or what comes next.
  abbrev pub go_on :
      (BackfillCheckpoint → ℕ → ℕ → State E → Outcome E BackfillResult)
      → ℕ
      → ℕ
      → (BackfillCheckpoint × ℕ × ℕ) × State E
      → Outcome E BackfillResult
  go_on next requests retries ((c, more, again), st) =
      if c.is_completed
      then returned (result_of c (requests + more) (retries + again), st)
      else next c (requests + more) (retries + again) st

  -- The rounds of `_run_leased`, the pages before which took `requests` and `retries`. If `max_pages`
  -- is given they are the pages it leaves.
  unfoldable pub run_pages :
      ℕ
      → Bool
      → BackfillRunner
      → BackfillScope
      → ℕ
      → ℕ
      → Option ℕ
      → BackfillCheckpoint
      → ℕ
      → ℕ
      → State E
      → Outcome E BackfillResult
  unfolding run_page
  run_pages zero limited r scope v b deadline c requests retries st =
      if limited then returned (result_of c requests retries, st) else raised unfinished st
  run_pages (suc rounds) limited r scope v b deadline c requests retries st =
      run_page r scope v b deadline c st
      >>= go_on (run_pages rounds limited r scope v b deadline) requests retries

  -- The checkpoint that a run starts with; the clock is read if the store has none.
  abbrev pub start_from :
      BackfillScope → Option BackfillCheckpoint → State E → BackfillCheckpoint × State E
  start_from scope none st = let (now, st') = reading o o.now st in (new_checkpoint scope now, st')
  start_from scope (some c) st = (c, st)

  abbrev pub limited_pages :
      ℕ
      → BackfillRunner
      → BackfillScope
      → ℕ
      → ℕ
      → Option ℕ
      → Option ℕ
      → BackfillCheckpoint × State E
      → Outcome E BackfillResult
  limited_pages rounds r scope v b none deadline (c, st) =
      run_pages rounds false r scope v b deadline c 0 0 st
  limited_pages rounds r scope v b (some max_pages) deadline (c, st) =
      run_pages max_pages true r scope v b deadline c 0 0 st

  unfoldable pub run_leased :
      ℕ
      → BackfillRunner
      → BackfillScope
      → ℕ
      → ℕ
      → Option ℕ
      → Option ℕ
      → State E
      → Outcome E BackfillResult
  unfolding run_pages
  run_leased rounds r scope v b limit deadline st =
      let (c, st') = start_from scope (load scope st.items) st in
      if c.is_completed
      then returned (result_of c 0 0, st')
      else limited_pages rounds r scope v b limit deadline (c, st')

  unfoldable pub run :
      ℕ
      → BackfillRunner
      → BackfillScope
      → ℕ
      → ℕ
      → Option ℕ
      → Option ℕ
      → State E
      → Outcome E BackfillResult
  unfolding run_leased leased
  run rounds r scope v b limit deadline st =
      if v == 0 || b == 0
      then raised value_error st
      else leased o r scope (λ st'. st') (λ st'. run_leased rounds r scope v b limit deadline st')
          st
