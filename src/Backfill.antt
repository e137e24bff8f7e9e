-- ===== src/Backfill.antt =====
-- The checkpoints and the collection gate of backend/src/vlytics/mirror/backfill.py; its runner is in
-- the modules Lease, Runner, Fetch, Pages and Runs.
mod Forward
mod Approved
mod Lease
pub mod Runner
mod Fetch
pub mod Pages
mod Runs
mod Kept
mod Exclusive
mod Slots
mod Released
mod Attempts
mod Whole
mod Terminates
mod Split
mod Resumed
mod Paced
mod Tally
mod Durable
pub mod Sample
mod RunTests
mod Tests
use vlytics.Sync.Scope.{BackfillScope, scope_key}
use vlytics.Prelude.{
  ℕ, Bool, true, false, not, ◌&&◌, ◌||◌, Option, none, some, List, [], ◌∷◌, ◌++◌, Text, text_eq,
  codes, ltb, leb, ◌==◌, ◌+◌, if◌then◌else◌, starts_with, first, update, has_text,
}

pub data Phase : Type 0 where
  validation batch completed : Phase

-- _PHASE_RANK
abbrev pub rank : Phase → ℕ
rank validation = 0
rank batch = 1
rank completed = 2

pub record BackfillCheckpoint : Type 0 where
  pub scope : BackfillScope
  pub cursor : Option Text
  pub phase : Phase
  pub is_completed : Bool
  pub pages_completed : ℕ
  pub responses_ingested : ℕ
  pub updated_at : ℕ
  pub generation : ℕ

-- The messages of CheckpointConflict.
pub data Conflict : Type 0 where
  generation_changed reopened phase_regressed pages_stuck responses_regressed time_regressed :
      Conflict

pub data Advanced : Type 0 where
  conflict : Conflict → Advanced
  advanced : BackfillCheckpoint → List BackfillCheckpoint → Advanced

-- The dictionary of the store has one entry for each key.
abbrev pub has_scope_key : Text → BackfillCheckpoint → Bool
has_scope_key key c = text_eq key (scope_key c.scope)

-- InMemoryCheckpointStore.load
abbrev pub load : BackfillScope → List BackfillCheckpoint → Option BackfillCheckpoint
load scope items = first (has_scope_key (scope_key scope)) items

-- self._items[key] = c
unfoldable pub put : BackfillCheckpoint → List BackfillCheckpoint → List BackfillCheckpoint
put c [] = c ∷ []
put c (d ∷ items) =
    let rest = put c items in if has_scope_key (scope_key c.scope) d then c ∷ items else d ∷ rest

abbrev pub next_generation : ℕ → BackfillCheckpoint → BackfillCheckpoint
next_generation expected c = record c { generation = expected + 1 }

-- The checks against the checkpoint that the store holds.
abbrev pub regression : BackfillCheckpoint → BackfillCheckpoint → Option Conflict
regression c current =
    if current.is_completed
    then some reopened
    else if ltb (rank c.phase) (rank current.phase)
    then some phase_regressed
    else if leb c.pages_completed current.pages_completed
    then some pages_stuck
    else if ltb c.responses_ingested current.responses_ingested
    then some responses_regressed
    else if ltb c.updated_at current.updated_at
    then some time_regressed
    else none

-- InMemoryCheckpointStore.advance
unfoldable pub advance : BackfillCheckpoint → ℕ → List BackfillCheckpoint → Advanced
unfolding put
advance c expected items = elim (load c.scope items) [
  | none ↦
      if not (0 == expected)
      then conflict generation_changed
      else advanced (next_generation expected c) (put (next_generation expected c) items)
  | some current ↦
      if not (current.generation == expected)
      then conflict generation_changed
      else elim (regression c current) [
        | some reason ↦ conflict reason
        | none ↦ advanced (next_generation expected c) (put (next_generation expected c) items)
      ]
]

-- A limit below zero is taken as zero, which the gate treats alike. An adapter, as far as the gate looks at it.
pub record SourceAdapter : Type 0 where
  pub synthetic : Bool

pub record CollectionGate : Type 0 where
  pub bulk_collection_enabled : Bool
  pub permission_policy : Text
  pub max_requests_per_minute : ℕ
  pub max_concurrency : ℕ

pub data Approval : Type 0 where
  blocked refused : Approval
  approved : ℕ → Approval

-- What makes `authorize` raise BulkCollectionBlocked.
abbrev pub is_blocked : CollectionGate → SourceAdapter → Bool
is_blocked g adapter =
    not adapter.synthetic
    && (not g.bulk_collection_enabled
        || (not (has_text g.permission_policy)
            || (starts_with (codes "__REQUIRED") g.permission_policy
                || (g.max_requests_per_minute == 0 || g.max_concurrency == 0))))

abbrev pub within : ℕ → ℕ → Approval
within limit value = if value == 0 || ltb limit value then blocked else approved value

unfoldable pub approved_rate : CollectionGate → SourceAdapter → Option ℕ → Approval
approved_rate g adapter none =
    if is_blocked g adapter
    then blocked
    else if adapter.synthetic
    then refused
    else within g.max_requests_per_minute g.max_requests_per_minute
approved_rate g adapter (some requested) =
    if is_blocked g adapter
    then blocked
    else if adapter.synthetic
    then (if requested == 0 then refused else approved requested)
    else within g.max_requests_per_minute requested

unfoldable pub approved_concurrency : CollectionGate → SourceAdapter → Option ℕ → Approval
approved_concurrency g adapter none =
    if is_blocked g adapter
    then blocked
    else if adapter.synthetic
    then approved 1
    else within g.max_concurrency g.max_concurrency
approved_concurrency g adapter (some requested) =
    if is_blocked g adapter
    then blocked
    else if adapter.synthetic
    then (if requested == 0 then refused else approved requested)
    else within g.max_concurrency requested
