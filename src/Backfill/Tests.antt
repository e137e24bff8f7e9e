-- ===== src/Backfill/Tests.antt =====
-- Runs of the checkpoint store and of the collection gate.
use vlytics.Backfill.Forward.{advance_lem, advance_twice, IsBeyond}
use vlytics.Backfill.{
  BackfillCheckpoint, batch, advance, advanced, conflict, generation_changed, load, next_generation,
  CollectionGate, SourceAdapter, approved_rate, approved_concurrency, approved,
}
use vlytics.Sync.Scope.{BackfillScope, scope_key}
use vlytics.Prelude.{ℕ, ◌≡◌, ◌+◌, refl, true, false, some, none, [], ◌∷◌, codes, text_eq, first}

abbrev season_scope : BackfillScope
season_scope = record {
  source = codes "kovo";
  group_code = codes "1";
  season_code = codes "9";
  competition_code = codes "c";
}

abbrev page : ℕ → BackfillCheckpoint
page n = record {
  scope = season_scope;
  cursor = none;
  phase = batch;
  is_completed = false;
  pages_completed = n;
  responses_ingested = n;
  updated_at = n;
  generation = 0;
}

abbrev first_page : BackfillCheckpoint
first_page = next_generation 0 (page 1)

abbrev second_page : BackfillCheckpoint
second_page = next_generation 1 (page 2)

forward : advance (page 2) 1 (first_page ∷ []) ≡ advanced second_page (second_page ∷ [])
unfolding advance first text_eq
forward = refl

advance_lem_example :
    (load season_scope (second_page ∷ []) ≡ some second_page)
    × (2 ≡ 1 + 1)
    × ((scope : BackfillScope)
        → text_eq (scope_key scope) (scope_key season_scope) ≡ false
        → load scope (second_page ∷ []) ≡ load scope (first_page ∷ []))
    × ((current : BackfillCheckpoint)
        → load season_scope (first_page ∷ []) ≡ some current
        → (current.generation ≡ 1) × IsBeyond second_page current)
advance_lem_example =
    advance_lem (page 2) second_page 1 (first_page ∷ []) (second_page ∷ []) forward

advance_twice_example : advance (page 3) 1 (second_page ∷ []) ≡ conflict generation_changed
advance_twice_example =
    advance_twice (page 2) second_page (page 3) 1 (first_page ∷ []) (second_page ∷ []) forward refl

abbrev gate : CollectionGate
gate = record {
  bulk_collection_enabled = true;
  permission_policy = codes "yes";
  max_requests_per_minute = 12;
  max_concurrency = 2;
}

abbrev source : SourceAdapter
source = record { synthetic = false }

six : approved_rate gate source (some 6) ≡ approved 6
unfolding approved_rate
six = refl

two : approved_concurrency gate source none ≡ approved 2
unfolding approved_concurrency
two = refl
