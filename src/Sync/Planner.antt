-- ===== src/Sync/Planner.antt =====
-- `CurrentSeasonSyncPlanner` of backend/src/vlytics/ops/sync.py. Points of time are microseconds since
-- 1970 and durations microseconds.
use vlytics.Sync.Scope.{BackfillScope, Mapping, scope_key, scope_payload, string}
use vlytics.Jobs.{
  JobType, current_schedule, final_result, correction_recheck, Result, ok, err, value_error, ◌>>=◌,
}
use vlytics.Prelude.{
  ℕ, Bool, not, ◌&&◌, ◌||◌, Option, none, some, List, [], ◌∷◌, ◌++◌, Text, text_eq, codes, ◌+◌, ◌*◌,
  ◌/◌, min, ltb, leb, ◌==◌, if◌then◌else◌,
}

pub record MatchSyncState : Type 0 where
  pub source_match_code : Text
  pub scheduled_start_at : ℕ
  pub status : Text
  pub first_final_observed_at : Option ℕ
  pub latest_result_observed_at : Option ℕ

pub record SyncJobSpec : Type 0 where
  pub job_key : Text
  pub job_type : JobType
  pub payload : Mapping
  pub due_at : ℕ
  pub deadline_at : ℕ

pub record SyncTiming : Type 0 where
  pub schedule_poll_interval : ℕ
  pub result_poll_interval : ℕ
  pub correction_interval : ℕ
  pub correction_window : ℕ

-- _bucket, in seconds since 1970
unfoldable pub bucket : ℕ → ℕ → Result ℕ
bucket timestamp interval =
    let seconds = interval / 1000000 in
    if seconds == 0 then err value_error else ok (timestamp / 1000000 / seconds * seconds)

-- status in {"cancelled", "postponed"}
abbrev pub is_off : Text → Bool
is_off status = text_eq status (codes "cancelled") || text_eq status (codes "postponed")

-- match.latest_result_observed_at or match.first_final_observed_at
abbrev pub last_observed : MatchSyncState → ℕ → ℕ
last_observed m first_final = elim m.latest_result_observed_at [ none ↦ first_final | some t ↦ t ]

-- `isoformat` prints a point of time.
module _ (isoformat : ℕ → Text) (timing : SyncTiming) (scope : BackfillScope) (now : ℕ) where
  abbrev pub spec : Text → JobType → Mapping → ℕ → ℕ → SyncJobSpec
  spec key job_type payload bucket_at deadline = record {
    job_key = key ++ (codes ":" ++ isoformat bucket_at);
    job_type = job_type;
    payload = payload;
    due_at = now;
    deadline_at = deadline;
  }

  abbrev pub match_key : Text → MatchSyncState → Text
  match_key kind m = kind ++ (scope_key scope ++ (codes ":" ++ m.source_match_code))

  abbrev pub match_payload : MatchSyncState → Mapping
  match_payload m = scope_payload scope ++ ((codes "match_code", string m.source_match_code) ∷ [])

  abbrev pub schedule_spec : ℕ → SyncJobSpec
  schedule_spec bucket_at =
      spec (codes "schedule:" ++ scope_key scope) current_schedule (scope_payload scope) bucket_at
        (now + timing.schedule_poll_interval)

  abbrev pub result_spec : MatchSyncState → ℕ → SyncJobSpec
  result_spec m bucket_at =
      spec (match_key (codes "result:") m) final_result (match_payload m) bucket_at
        (now + timing.result_poll_interval)

  abbrev pub correction_spec : MatchSyncState → ℕ → ℕ → SyncJobSpec
  correction_spec m window_end bucket_at =
      spec (match_key (codes "correction:") m) correction_recheck (match_payload m) bucket_at
        (min window_end (now + timing.correction_interval))

  -- What the loop appends for one match.
  unfoldable pub plan_match : MatchSyncState → Result (List SyncJobSpec)
  unfolding bucket
  plan_match m = elim m.first_final_observed_at [
    | none ↦
        if leb m.scheduled_start_at now && not (is_off m.status)
        then (do b ← bucket now timing.result_poll_interval; ok (result_spec m b ∷ []))
        else ok []
    | some first_final ↦
        (let window_end = first_final + timing.correction_window in
          if ltb now window_end
            && leb (last_observed m first_final + timing.correction_interval) now
          then (do
            b ← bucket now timing.correction_interval
            ok (correction_spec m window_end b ∷ []))
          else ok [])
  ]

  unfoldable pub plan_matches : List MatchSyncState → Result (List SyncJobSpec)
  unfolding plan_match
  plan_matches [] = ok []
  plan_matches (m ∷ ms) = do jobs ← plan_match m; rest ← plan_matches ms; ok (jobs ++ rest)

  unfoldable pub plan : List MatchSyncState → Result (List SyncJobSpec)
  unfolding plan_matches bucket
  plan ms = do
    b ← bucket now timing.schedule_poll_interval
    jobs ← plan_matches ms
    ok (schedule_spec b ∷ jobs)
