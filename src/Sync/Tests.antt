-- ===== src/Sync/Tests.antt =====
-- Runs of the synchronisation.
use vlytics.Sync.Settled.{sync_once_settles, outcome_of}
use vlytics.Sync.Dispatcher.{SyncDispatcher, SyncHandler, sync_once}
use vlytics.Jobs.Numbered.{IsRecorded}
use vlytics.Sync.Counted.{reconcile_coverage-count, is_for}
use vlytics.Sync.Scope.{BackfillScope, scope_key, scope_payload}
use vlytics.Sync.Planner.{
  MatchSyncState, SyncJobSpec, SyncTiming, plan, spec, match_key, match_payload,
}
use vlytics.Sync.Coverage.{reconcile_coverage, missing, reason_of}
use vlytics.Jobs.{
  Job, Db, Request, new_row, leased, lease_next, find, timeout, ok, current_schedule, final_result,
}
use vlytics.Prelude.{
  select, update, arith, false, ℕ, ◌≡◌, refl, some, none, List, [], ◌∷◌, codes, Text, count,
  text_eq, first, ◌++◌,
}

abbrev pub season_scope : BackfillScope
season_scope = record {
  source = codes "kovo";
  group_code = codes "1";
  season_code = codes "9";
  competition_code = codes "c";
}

abbrev pub started : MatchSyncState
started = record {
  source_match_code = codes "m1";
  scheduled_start_at = 1000;
  status = codes "scheduled";
  first_final_observed_at = none;
  latest_result_observed_at = none;
}

abbrev pub five_minutes : SyncTiming
five_minutes = record {
  schedule_poll_interval = 300000000;
  result_poll_interval = 300000000;
  correction_interval = 300000000;
  correction_window = 900000000;
}

abbrev pub print : ℕ → Text
print t = t ∷ []

abbrev pub planned_jobs : List SyncJobSpec
planned_jobs =
    spec print five_minutes season_scope 400000000 (codes "schedule:" ++ scope_key season_scope)
      current_schedule (scope_payload season_scope) 300 700000000
    ∷ spec print five_minutes season_scope 400000000
        (match_key print five_minutes season_scope 400000000 (codes "result:") started) final_result
        (match_payload print five_minutes season_scope 400000000 started) 300 700000000
    ∷ []

pub planned : plan print five_minutes season_scope 400000000 (started ∷ []) ≡ ok planned_jobs
unfolding plan text_eq scope_payload
planned = refl

reconcile_coverage-count_example :
    count
      (is_for (codes "b") missing)
      (reconcile_coverage (codes "a" ∷ codes "b" ∷ []) (codes "a" ∷ codes "c" ∷ []) [] [])
    ≡ 1
unfolding text_eq first reason_of
reconcile_coverage-count_example =
    reconcile_coverage-count (codes "a" ∷ codes "b" ∷ []) (codes "a" ∷ codes "c" ∷ []) [] []
      (codes "b") missing

abbrev schedule_request : Request
schedule_request = record {
  job_key = codes "schedule";
  job_type = current_schedule;
  payload = codes "{}";
  due_at = 10;
  deadline_at = some 500;
  match_id = none;
  schedule_revision_id = none;
  stage = none;
  variant_id = none;
}

abbrev queue : Db
queue = record { jobs = new_row 1 4 schedule_request ∷ []; attempts = [] }

abbrev times_out : SyncHandler
times_out job now db = (some timeout, db)

abbrev dispatcher : SyncDispatcher
dispatcher = record {
  handlers = λ t. some times_out;
  lease_owner = 7;
  lease_duration = 120;
  retry_delay = 30;
  max_attempts = 3;
}

abbrev running_row : Job
running_row = leased 7 20 120 (new_row 1 4 schedule_request)

granted :
    lease_next (λ i. false) 7 20 120 queue
    ≡ ok (some running_row, record { jobs = running_row ∷ []; attempts = [] })
unfolding lease_next select update leased
granted = refl

queue-IsRecorded : IsRecorded queue
unfolding first
queue-IsRecorded = ground arith

schedule_timed_out :
    (db : Db) × (sync_once dispatcher (λ i. false) 20 queue ≡ ok (1, db))
    × (find 1 db.jobs ≡ some (outcome_of dispatcher 20 (some timeout) running_row))
unfolding leased
schedule_timed_out =
    sync_once_settles dispatcher (λ i. false) 20 queue
      (record { jobs = running_row ∷ []; attempts = [] }) running_row times_out (some timeout)
      (omega arith) queue-IsRecorded granted refl refl
