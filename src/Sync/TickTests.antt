-- ===== src/Sync/TickTests.antt =====
-- Ticks of the synchronisation, and a run of its handler.
use vlytics.Sync.Tests.{season_scope, started, five_minutes, print, planned_jobs, planned}
use vlytics.Sync.Scope.{BackfillScope, Mapping, scope_payload}
use vlytics.Sync.Planner.{MatchSyncState, SyncJobSpec, match_payload}
use vlytics.Sync.Handler.{BackfillSyncHandler, handle, synchronise}
use vlytics.Sync.Read.{plan-handle}
use vlytics.Sync.Ticker.{sync_request, tick}
use vlytics.Sync.Ticked.{tick_takes, HasRows}
use vlytics.Backfill.Runner.{returned}
use vlytics.Backfill.Sample.{World, source, runner, begin}
use vlytics.Jobs.{Job, Db, new_row, ok}
use vlytics.Prelude.{
  ℕ, ◌≡◌, refl, Option, none, some, List, [], ◌∷◌, codes, Text, All, length, ◌==◌, if◌then◌else◌,
  arith,
}

-- The payloads of this run are told apart by their length.
abbrev json : Mapping → Text
json payload = length payload ∷ []

abbrev read_json : Text → Option Mapping
read_json [] = none
read_json (n ∷ _) = some (
    if n == 4
    then scope_payload season_scope
    else match_payload print five_minutes season_scope 400000000 started)

abbrev row_of : SyncJobSpec → Job
row_of j = new_row 1 4 (sync_request json print five_minutes j)

abbrev handler : BackfillSyncHandler World
handler = record {
  runner_factory = λ job st. returned (runner, st);
  expected_codes = λ scope st. returned (codes "m1" ∷ [], st);
  loaded_codes = λ scope st. returned (codes "m1" ∷ [], st);
  report_sink = λ report st. returned (tt, st);
}

plan-handle_example :
    All
      (λ j.
        handle source read_json 5 handler (row_of j) 400000000 begin
        ≡ synchronise source 5 handler season_scope (row_of j) 400000000 begin)
      planned_jobs
unfolding scope_payload
plan-handle_example =
    plan-handle source read_json 5 handler print five_minutes season_scope 400000000 (started ∷ [])
      planned_jobs row_of 400000000 begin planned (refl, (refl, tt))

abbrev empty : Db
empty = record { jobs = []; attempts = [] }

abbrev matches : BackfillScope → List MatchSyncState
matches scope = started ∷ []

tick_takes_example :
    (n : ℕ) × (db : Db) × (tick json print five_minutes matches 1 7
        (season_scope ∷ [])
        400000000
        empty
      ≡ ok (n, db))
    × All (HasRows json print five_minutes matches 400000000 db) (season_scope ∷ [])
    × ((id' stamp' : ℕ)
        → (m : ℕ) × (tick json print five_minutes matches id' stamp'
              (season_scope ∷ [])
              400000000
              db
            ≡ ok (m, db)))
tick_takes_example =
    tick_takes json print five_minutes (omega arith, omega arith, omega arith) matches 400000000 1 7
      (season_scope ∷ []) empty tt
