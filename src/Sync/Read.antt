-- ===== src/Sync/Read.antt =====
-- The handler of the synchronisation reads from the planned jobs what the planner wrote.
use vlytics.Sync.Scope.{BackfillScope, Mapping, get, scope_payload, read_code, scope_from_payload}
use vlytics.Sync.Planner.{MatchSyncState, SyncJobSpec, SyncTiming, plan}
use vlytics.Sync.Handler.{BackfillSyncHandler, synchronise, handle, handle_payload}
use vlytics.Backfill.Runner.{Outside, State, raised}
use vlytics.Backfill.Runner
use vlytics.Sync.Planned.{plan-All}
use vlytics.Jobs.{Job, Result, ok, err, value_error}
use vlytics.Prelude.{
  Option, some, ℕ, Bool, true, false, ◌&&◌, ◌≡◌, refl, List, [], ◌∷◌, ◌++◌, Text, All, text_eq,
  if◌then◌else◌, Bool-cases, All-mono, inl, All-both, inr,
}

abbrev pub is_given : Text → Bool
is_given [] = false
is_given (c ∷ s) = true

-- No part of the scope is empty.
abbrev pub is_complete : BackfillScope → Bool
is_complete s =
    is_given s.source
    && (is_given s.group_code && (is_given s.season_code && is_given s.competition_code))

abbrev pub reading : BackfillScope → Result BackfillScope
reading s = if is_complete s then ok s else err value_error

abbrev scope_of : Text → Text → Text → Text → BackfillScope
scope_of a b c d = record { source = a; group_code = b; season_code = c; competition_code = d }

-- By the first part that is empty.
append_parts :
    (a b c d : Text) (more : Mapping)
    → scope_from_payload (scope_payload (scope_of a b c d) ++ more) ≡ reading (scope_of a b c d)
unfolding scope_from_payload scope_payload get read_code text_eq
append_parts [] b c d more = refl
append_parts (_ ∷ _) [] c d more = refl
append_parts (_ ∷ _) (_ ∷ _) [] d more = refl
append_parts (_ ∷ _) (_ ∷ _) (_ ∷ _) [] more = refl
append_parts (_ ∷ _) (_ ∷ _) (_ ∷ _) (_ ∷ _) more = refl

scope_from_payload-append :
    (s : BackfillScope) (more : Mapping) → scope_from_payload (scope_payload s ++ more) ≡ reading s
scope_from_payload-append s more =
    append_parts s.source s.group_code s.season_code s.competition_code more

scope_from_payload-scope_payload :
    (s : BackfillScope) → scope_from_payload (scope_payload s) ≡ reading s
unfolding scope_payload
scope_from_payload-scope_payload s = scope_from_payload-append s []

abbrev IsRead : BackfillScope → SyncJobSpec → Type 0
IsRead scope j = scope_from_payload j.payload ≡ reading scope

module _ (isoformat : ℕ → Text) (timing : SyncTiming) (scope : BackfillScope) (now : ℕ) where
  plan-IsRead :
      (ms : List MatchSyncState) (jobs : List SyncJobSpec)
      → plan isoformat timing scope now ms ≡ ok jobs
      → All (IsRead scope) jobs
  plan-IsRead = plan-All isoformat timing scope now (IsRead scope) (record {
    schedule = λ b long. scope_from_payload-scope_payload scope;
    result = λ m b long. scope_from_payload-append scope _;
    correction = λ m window_end b early long. scope_from_payload-append scope _;
  })

module _ {E : Type 0} (o : Outside E) (read_json : Text → Option Mapping) (rounds : ℕ)
    (h : BackfillSyncHandler E) where
  handle-read :
      (scope : BackfillScope) (payload : Mapping) (row : Job) (at : ℕ) (st : State E)
      → scope_from_payload payload ≡ reading scope
      → read_json row.payload ≡ some payload
      → handle o read_json rounds h row at st ≡ (
          if is_complete scope
          then synchronise o rounds h scope row at st
          else raised Runner.value_error st)
  unfolding handle handle_payload
  handle-read scope payload row at st reads back = elim (Bool-cases (is_complete scope)) [
    | inl full ↦ rw (back, reads, full) refl
    | inr gap ↦ rw (back, reads, gap) refl
  ]

  -- If the planner plans jobs for a scope, and the payload of the row that the queue keeps of each
  -- job reads back as it was planned, then the handler, given the row of any of the jobs, does what
  -- it does for that scope, if no part of the scope is empty, and raises ValueError without doing
  -- anything otherwise.
  pub plan-handle :
      (isoformat : ℕ → Text) (timing : SyncTiming) (scope : BackfillScope) (now : ℕ)
      (ms : List MatchSyncState) (jobs : List SyncJobSpec) (row_of : SyncJobSpec → Job) (at : ℕ)
      (st : State E)
      → plan isoformat timing scope now ms ≡ ok jobs
      → All (λ j. read_json (row_of j).payload ≡ some j.payload) jobs
      → All
          (λ j. handle o read_json rounds h (row_of j) at st ≡ (
            if is_complete scope
            then synchronise o rounds h scope (row_of j) at st
            else raised Runner.value_error st))
          jobs
  plan-handle isoformat timing scope now ms jobs row_of at st e back =
      All-mono jobs (λ j both. handle-read scope j.payload (row_of j) at st both.0 both.1)
        (All-both (IsRead scope) (λ j. read_json (row_of j).payload ≡ some j.payload) jobs
          (plan-IsRead isoformat timing scope now ms jobs e) back)
