-- ===== src/Backfill/RunTests.antt =====
-- Runs of the slots, the limiter and the runner.
use vlytics.Backfill.Kept.{Ends, IsAnswer}
use vlytics.Backfill.Attempts.{fetch-count}
use vlytics.Backfill.Exclusive.{Acquires, acquire_lem}
use vlytics.Backfill.Released.{releases_slots}
use vlytics.Backfill.Terminates.{GivesOnly, Anything, Finished, sync_once_terminates}
use vlytics.Backfill.Resumed.{run_leased_resumes, go_again}
use vlytics.Backfill.Paced.{IsAfter, unused, waited, Uses-IsAfter}
use vlytics.Backfill.Tally.{Backed}
use vlytics.Backfill.Durable.{run_leased-Backed}
use vlytics.Backfill.Lease.{acquire}
use vlytics.Backfill.Runner.{Outside, State, fetched, retryable, fetch_error, Fetched, ◌>>=◌}
use vlytics.Backfill.Fetch.{fetch_with_retry, wait}
use vlytics.Backfill.Pages.{sync_once}
use vlytics.Backfill.Runs.{run, run_leased}
use mathlib.Core.Path.{subst}
use vlytics.Backfill.Pages.{is_seen}
use vlytics.Prelude.{
  ap, ◌∙◌, some_inj, ◌+◌, ◌≡◌, ◌≤◌, refl, true, some, none, [], ◌∷◌, codes, Text, arith, Option,
  text_eq, first, ◌*◌,
}
use vlytics.Backfill.Slots.{Holds}
use vlytics.Backfill.Sample.{
  World, source, runner, page, begin, asked_more, scope, source-IsTally, source-IsClock,
  source-IsCount, scope,
}

fetch-count_example :
    Ends
      (λ (page, requests, retries) (st' : State World).
        (st'.outside.asked ≡ 0 + requests)
        × (retries + 1 ≡ requests)
        × (requests ≤ 3)
        × IsAnswer source scope none 2 page)
      (λ _ (st' : State World). st'.outside.asked ≤ 0 + 3)
      (fetch_with_retry source runner scope none 2 none begin)
fetch-count_example =
    fetch-count source (λ w. w.asked) source-IsCount runner scope none 2 none begin

acquire_lem_example :
    Acquires
      (codes "k")
      0
      2
      (record { key_scope = codes "k"; slot = 0 } ∷ [])
      (acquire (codes "k") 2 (record { key_scope = codes "k"; slot = 0 } ∷ []))
acquire_lem_example = acquire_lem (codes "k") 2 (record { key_scope = codes "k"; slot = 0 } ∷ [])

releases_slots_example :
    Ends (λ _. Holds []) (λ _. Holds []) (sync_once source 3 runner scope 2 none begin)
    × Ends (λ _. Holds []) (λ _. Holds []) (run source 3 runner scope 2 100 none none begin)
releases_slots_example = releases_slots source 3 2 2 100 runner scope none none begin

run_leased_resumes_example : run_leased source 0 runner scope 2 100 (some (1 + 1)) none begin ≡ (
    run_leased source 0 runner scope 2 100 (some 1) none begin
    >>= go_again source scope runner 2 100 none 0 1)
run_leased_resumes_example = run_leased_resumes source scope runner 2 100 none 0 0 1 begin

nothing_stored : Backed source (λ w. w.taken) source-IsTally scope 0 begin
unfolding first
nothing_stored c e = absurd (ground arith)

run_leased-Backed_example :
    Ends
      (λ _. Backed source (λ w. w.taken) source-IsTally scope 0)
      (λ _. Backed source (λ w. w.taken) source-IsTally scope 0)
      (run_leased source 0 runner scope 2 100 (some 2) none begin)
run_leased-Backed_example =
    run_leased-Backed source (λ w. w.taken) source-IsTally scope 0 runner 2 100 none 0 (some 2)
      begin nothing_stored

abbrev asked_once : State World
asked_once = record begin { last_request = some 100 }

Uses-IsAfter_example :
    IsAfter source
      (λ w. w.time)
      source-IsClock
      5_000_000
      (100 + 2 * 5_000_000)
      (wait source 5_000_000 (wait source 5_000_000 asked_once))
Uses-IsAfter_example =
    Uses-IsAfter source (λ w. w.time) source-IsClock 5_000_000 2 100 {st = asked_once}
      (waited (waited unused)) refl

-- A source of two pages.
abbrev two_pages : Option Text → Fetched
two_pages none = page (some 200) (some (codes "2"))
two_pages (some _) = page (some 200) none

abbrev short_source : Outside World
short_source = record source { fetch_page = λ _ cursor _ _ _ w. (two_pages cursor, asked_more w) }

next_of : Fetched → Option Text
next_of (fetched p) = p.next_cursor
next_of retryable = none
next_of (fetch_error e) = none

gives : GivesOnly short_source (codes "2" ∷ [])
unfolding first text_eq next_of
gives scope none size at timeout e p c came next =
    subst (λ d. is_seen d (codes "2" ∷ []) ≡ true) (some_inj (ap next_of came ∙ next)) refl
gives scope (some _) size at timeout e p c came next = absurd (none-some (ap next_of came ∙ next))
  where
    none-some : {c : Text} → none ≡ some c → ⊥
    none-some e = ground arith

sync_once_terminates_example :
    Ends Anything Finished (sync_once short_source 2 runner scope 2 none begin)
sync_once_terminates_example =
    sync_once_terminates short_source (codes "2" ∷ []) gives 2 runner scope 2 none begin
      (omega arith)
