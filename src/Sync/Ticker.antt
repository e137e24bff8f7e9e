-- ===== src/Sync/Ticker.antt =====
-- `CurrentSeasonSyncPlanner.enqueue` and `DatabaseCurrentSeasonSyncTicker` of
-- backend/src/vlytics/ops/sync.py on the queue.
use vlytics.Sync.Scope.{BackfillScope, Mapping, scope_key}
use vlytics.Sync.Planner.{MatchSyncState, SyncJobSpec, SyncTiming, plan}
use vlytics.Jobs.Batch.{enqueue_all}
use vlytics.Jobs.{Request, Db, Result, ok, err, value_error, ◌>>=◌}
use vlytics.Prelude.{
  ℕ, Bool, false, ◌||◌, none, some, List, [], ◌∷◌, map, length, ◌+◌, Text, text_eq, is_some, first,
  if◌then◌else◌,
}

-- Two scopes have one key.
unfoldable pub has_shared_key : List BackfillScope → Bool
has_shared_key [] = false
has_shared_key (s ∷ scopes) =
    let rest = has_shared_key scopes in
    is_some (first (λ t. text_eq (scope_key s) (scope_key t)) scopes) || rest

-- The scopes of a new ticker.
unfoldable pub new_ticker : List BackfillScope → Result (List BackfillScope)
unfolding has_shared_key
new_ticker [] = err value_error
new_ticker (s ∷ scopes) = if has_shared_key (s ∷ scopes) then err value_error else ok (s ∷ scopes)

-- `json` prints a payload, `isoformat` a point of time, and `matches` is what the query finds for a
-- scope.
module _ (json : Mapping → Text) (isoformat : ℕ → Text) (timing : SyncTiming) where
  abbrev pub sync_request : SyncJobSpec → Request
  sync_request j = record {
    job_key = j.job_key;
    job_type = j.job_type;
    payload = json j.payload;
    due_at = j.due_at;
    deadline_at = some j.deadline_at;
    match_id = none;
    schedule_revision_id = none;
    stage = none;
    variant_id = none;
  }

  -- The database numbers the rows from `id` on.
  unfoldable pub enqueue_scope :
      ℕ → ℕ → BackfillScope → List MatchSyncState → ℕ → Db → Result (ℕ × Db)
  unfolding plan enqueue_all
  enqueue_scope id stamp scope ms now db = do
    jobs ← plan isoformat timing scope now ms
    db' ← enqueue_all id stamp (map sync_request jobs) db
    ok (length jobs, db')

  -- DatabaseCurrentSeasonSyncTicker.run_once
  unfoldable pub tick :
      (BackfillScope → List MatchSyncState) → ℕ → ℕ → List BackfillScope → ℕ → Db → Result (ℕ × Db)
  unfolding enqueue_scope
  tick matches id stamp [] now db = ok (0, db)
  tick matches id stamp (scope ∷ scopes) now db = do
    (here, db₁) ← enqueue_scope id stamp scope (matches scope) now db
    (rest, db₂) ← tick matches (id + here) stamp scopes now db₁
    ok (here + rest, db₂)
