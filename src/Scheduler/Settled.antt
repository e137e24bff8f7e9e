-- ===== src/Scheduler/Settled.antt =====
-- What becomes of a job that the dispatcher has leased.
use vlytics.Scheduler.Dispatcher.{
  Dispatcher, Handled, finalized, answered, retryable, terminal, raised, settle, dispatch, run_once,
}
use vlytics.Scheduler.Timing.{retry_delay, delay_of, SchedulerTiming}
use vlytics.Jobs
use vlytics.Jobs.{
  Job, Db, ErrorCode, unknown_job_type, ok, err, runtime_error, find, live, leased, released,
  finished, retried, State, is_running, is_attempt,
}
use vlytics.Jobs.Tables.{IsSound}
use vlytics.Jobs.Command.{Command, lease_next, run}
use vlytics.Jobs.Lease.{leased_lem, lease_next_row}
use vlytics.Jobs.Numbered.{IsRecorded, run-IsRecorded, running_unrecorded}
use vlytics.Jobs.Settle.{finish_row, schedule_retry_row, stale_lease_is_refused}
use vlytics.Jobs.Quarantine.{quarantine_live}
use vlytics.Prelude.{
  zero, ℕ, Bool, true, false, ◌≡◌, ◌≤◌, ◌<◌, ◌+◌, ◌-◌, refl, none, some, ltb, if◌then◌else◌, arith,
  Bool-cases, inl, inr, ◌≢◌, first, suc, Option-cases, ◌∙◌, ap, sym,
}

-- What the row becomes by the way in which the handler ended.
abbrev pub verdict : SchedulerTiming → ℕ → Handled → Job → Job
verdict timing clock finalized j = j
verdict timing clock answered j = finished true none clock j
verdict timing clock (retryable code) j =
    if ltb j.attempt_no timing.max_attempts
    then retried (clock + delay_of timing (j.attempt_no - 1)) code clock j
    else finished false (some code) clock j
verdict timing clock (terminal code) j = released State.quarantined (some code) clock j
verdict timing clock (raised _) j = j

pub retry_delay_later :
    (timing : SchedulerTiming) (n : ℕ) → 0 < n → retry_delay timing n ≡ ok (delay_of timing (n - 1))
unfolding retry_delay
retry_delay_later timing zero h = absurd (omega arith)
retry_delay_later timing (suc n) h = let e : suc n - 1 ≡ n = omega arith in rw e refl

module _ (d : Dispatcher) (j : Job) (clock began : ℕ) (db : Db) (recorded : IsRecorded db)
    (found : find j.id db.jobs ≡ some j) (held : live d.lease_owner clock j ≡ true)
    (start : j.lease_started_at ≡ some began) (ordered : began ≤ clock)
    (numbered : 0 < j.attempt_no) where
  unrecorded : first (is_attempt j.id j.attempt_no) db.attempts ≡ none
  unrecorded = running_unrecorded j.id j db recorded found (ground arith)

  -- While the lease is live the dispatcher ends it: the job has the verdict of its handler.
  settle-verdict :
      (handled : Handled)
      → ((e : ℕ) → handled ≢ raised e)
      → (db' : Db) × (settle d j clock handled db ≡ ok (1, db'))
        × (find j.id db'.jobs ≡ some (verdict d.timing clock handled j))
  unfolding settle
  settle-verdict finalized quiet = (db, refl, found)
  settle-verdict answered quiet =
      let (db', e, row, log) =
        finish_row j.id d.lease_owner clock db recorded.0 found held start ordered unrecorded true
          none in
      (db', rw e refl, row)
  settle-verdict (terminal code) quiet =
      let (db', e, row, log) =
        quarantine_live j.id d.lease_owner clock db recorded.0 found held start ordered unrecorded
          code in
      (db', rw e refl, row)
  settle-verdict (raised e) quiet = absurd (quiet e refl)
  settle-verdict (retryable code) quiet =
      elim (Bool-cases (ltb j.attempt_no d.timing.max_attempts)) [
        | inl more ↦
            let delay = delay_of d.timing (j.attempt_no - 1) in
            let (db', e, row, log) =
              schedule_retry_row j.id d.lease_owner clock db recorded.0 found held start ordered
                unrecorded (clock + delay) code in
            (db', rw (more, retry_delay_later d.timing j.attempt_no numbered, e) refl, rw more row)
        | inr last ↦
            let (db', e, row, log) =
              finish_row j.id d.lease_owner clock db recorded.0 found held start ordered unrecorded
                false (some code) in
            (db', rw (last, e) refl, rw last row)
      ]

-- How the handler of a job ends, where a job of an unknown type is terminal.
abbrev pub answer_of : Dispatcher → Job → ℕ → Db → Handled × Db
answer_of d job now db = elim (d.handlers job.job_type) [
  | none ↦ (terminal unknown_job_type, db)
  | some handle ↦ handle job now db
]

dispatch-settle :
    (d : Dispatcher) (j : Job) (now clock : ℕ) (db : Db) (handled : Handled)
    → answer_of d j now db ≡ (handled, db)
    → dispatch d j now clock db ≡ settle d j clock handled db
unfolding dispatch settle
dispatch-settle d j now clock db handled e = elim (Option-cases (d.handlers j.job_type)) [
  | inl unknown ↦
      let same = ap (λ p. p.0) (rw (unknown, answer_of) at e) in
      rw (unknown, sym same, dispatch) refl
  | inr (h, known) ↦ rw (known, dispatch, (rw (known, answer_of) at e)) refl
]

-- In recorded tables, if the first ready job is leased and handled within its lease, by a handler
-- that raises no error of its own and leaves the queue alone, `run_once` counts one job and the job
-- ends by the verdict of its handler.
pub run_once_settles :
    (d : Dispatcher) (locked : ℕ → Bool) (now clock expired : ℕ) (db db₁ db₂ : Db) (j : Job)
    (handled : Handled)
    → IsRecorded db
    → Jobs.expire_due locked now db ≡ ok (expired, db₁)
    → Jobs.lease_next locked d.lease_owner now d.lease_duration db₁ ≡ ok (some j, db₂)
    → now ≤ clock
    → clock < now + d.lease_duration
    → answer_of d j now db₂ ≡ (handled, db₂)
    → ((e : ℕ) → handled ≢ raised e)
    → (db' : Db) × (run_once d locked now clock db ≡ ok (1, db'))
      × (find j.id db'.jobs ≡ some (verdict d.timing clock handled j))
unfolding run_once run leased
run_once_settles d locked now clock expired db db₁ db₂ j handled recorded swept granted later within
      answer quiet =
    let recorded₁ =
      run-IsRecorded (Command.expire_due locked now) db db₁ recorded (rw swept refl) in
    let recorded₂ =
      run-IsRecorded (lease_next locked d.lease_owner now d.lease_duration) db₁ db₂ recorded₁
        (rw granted refl) in
    let (c, at, ready, least, as_leased, row) =
      lease_next_row locked d.lease_owner now d.lease_duration db₁ db₂ recorded₁.0 granted in
    let (same, alive, began, numbered) =
      leased_lem d.lease_owner now d.lease_duration clock c j as_leased within in
    let (db', e, row') =
      settle-verdict d j clock now db₂ recorded₂ (rw same at row) alive began later numbered handled
        quiet in
    (db', rw (swept, granted) (dispatch-settle d j now clock db₂ handled answer ∙ e), row')

module _ (d : Dispatcher) (j r : Job) (clock : ℕ) (db : Db) (sound : IsSound db)
    (found : find j.id db.jobs ≡ some r) (numbered : 0 < j.attempt_no)
    (lost : live d.lease_owner clock r ≡ false) where
  -- In sound tables, when the lease on the job is not live any more, an answer of its handler
  -- becomes an error, and a retry changes nothing.
  settle_lost :
      (code : ErrorCode)
      → (settle d j clock answered db ≡ err runtime_error)
        × (settle d j clock (retryable code) db ≡ ok (1, db))
  unfolding settle
  settle_lost code =
      let (finish, retry, renew) =
        stale_lease_is_refused j.id d.lease_owner clock db sound found true none 0 code 0 lost in
      (rw finish refl, retried_lost)
    where
      retried_lost : settle d j clock (retryable code) db ≡ ok (1, db)
      retried_lost = elim (Bool-cases (ltb j.attempt_no d.timing.max_attempts)) [
        | inl more ↦
            let delay = delay_of d.timing (j.attempt_no - 1) in
            let (finish, retry, renew) =
              stale_lease_is_refused j.id d.lease_owner clock db sound found true none
                (clock + delay) code 0 lost in
            rw (more, retry_delay_later d.timing j.attempt_no numbered, retry) refl
        | inr last ↦
            let (finish, retry, renew) =
              stale_lease_is_refused j.id d.lease_owner clock db sound found false (some code) 0
                code 0 lost in
            rw (last, finish) refl
      ]
