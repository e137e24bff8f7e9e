-- ===== src/Jobs/Attempts.antt =====
-- The rows of ops.job_attempts that the methods of `JobRepository` write
-- (backend/src/vlytics/ops/repositories/jobs.py).
use vlytics.Prelude.{
  ℕ, Bool, ◌&&◌, ◌||◌, Option, none, some, List, [], ◌∷◌, ltb, ◌==◌, if◌then◌else◌, first,
}
use vlytics.Jobs.Row.{ErrorCode, Details, Outcome, Job, Attempt, Db, is_running, owned}
use vlytics.Jobs.Results.{Result, ok, err, check_violation, not_null_violation, type_error, ◌>>=◌}
use vlytics.Jobs.Enqueue.{has_id}

abbrev pub is_attempt : ℕ → ℕ → Attempt → Bool
is_attempt i n a = a.job_id == i && a.attempt_no == n

-- INSERT INTO ops.job_attempts … ON CONFLICT (job_id, attempt_no) DO NOTHING, with the table's checks
unfoldable pub insert_attempt : Attempt → List Attempt → Result (List Attempt)
insert_attempt a log =
    if ltb a.completed_at a.started_at || a.attempt_no == 0
    then err check_violation
    else ok (elim (first (is_attempt a.job_id a.attempt_no) log) [ none ↦ a ∷ log | some _ ↦ log ])

abbrev pub abandoned_attempt : ErrorCode → Details → ℕ → Job → ℕ → ℕ → Attempt
abandoned_attempt code details now j owner started = record {
  job_id = j.id;
  attempt_no = j.attempt_no;
  lease_owner = owner;
  started_at = started;
  completed_at = now;
  outcome = Outcome.abandoned;
  error_code = some code;
  details = details;
}

-- The `abandoned` part of a statement: the attempt of a running candidate.
unfoldable pub abandon : ErrorCode → Details → ℕ → Job → List Attempt → Result (List Attempt)
abandon code details now j log =
    if is_running j.state
    then (elim j.lease_owner [
      | none ↦ err not_null_violation
      | some owner ↦ elim j.lease_started_at [
        | none ↦ err not_null_violation
        | some started ↦ insert_attempt (abandoned_attempt code details now j owner started) log
      ]
    ])
    else ok log

-- The inserts of one statement, for each candidate in turn.
unfoldable pub abandon_all :
    ErrorCode → Details → ℕ → List Job → List Attempt → Result (List Attempt)
unfolding abandon
abandon_all code details now [] log = ok log
abandon_all code details now (j ∷ js) log = do
  log' ← abandon code details now j log
  abandon_all code details now js log'

-- `_active_attempt`: the attempt number and start of a lease that `owner` holds, run out or not.
unfoldable pub active_attempt : ℕ → ℕ → Db → Result (Option (ℕ × ℕ))
active_attempt i owner db = elim (first (λ j. has_id i j && owned owner j) db.jobs) [
  | none ↦ ok none
  | some j ↦ elim j.lease_started_at [
    | none ↦ err type_error
    | some started ↦ ok (some (j.attempt_no, started))
  ]
]

unfoldable pub record_attempt :
    ℕ → ℕ → ℕ → Outcome → Option ErrorCode → ℕ → ℕ × ℕ → List Attempt → Result (List Attempt)
unfolding insert_attempt
record_attempt i owner changed outcome code now (attempt_no, started) log =
    if changed == 1
    then insert_attempt
        (record {
          job_id = i;
          attempt_no = attempt_no;
          lease_owner = owner;
          started_at = started;
          completed_at = now;
          outcome = outcome;
          error_code = code;
          details = Details.plain;
        })
        log
    else ok log

-- `if changed and attempt is not None: self._record_attempt(…)`
abbrev pub settle_attempt :
    ℕ
    → ℕ
    → ℕ
    → Outcome
    → Option ErrorCode
    → ℕ
    → Option (ℕ × ℕ)
    → List Attempt
    → Result (List Attempt)
settle_attempt i owner changed outcome code now none log = ok log
settle_attempt i owner changed outcome code now (some attempt) log =
    record_attempt i owner changed outcome code now attempt log
