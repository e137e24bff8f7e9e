-- ===== src/Scheduler/Concluded.antt =====
-- What becomes of a job that the pool has executed.
use mathlib.Core.Path.{subst, ap, sym}
use vlytics.Scheduler.Pool.{Pool, Renewal, kept, conclude, retry_or_fail}
use vlytics.Scheduler.Settled.{verdict, retry_delay_later}
use vlytics.Scheduler.Dispatcher.{Handled, finalized, answered, retryable, terminal, raised}
use vlytics.Scheduler.Timing.{delay_of, SchedulerTiming}
use vlytics.Jobs.{
  Job, Db, ErrorCode, Result, handler_error, is_waiting, ok, err, runtime_error, find, live, State,
  is_attempt, retried, finished,
}
use vlytics.Jobs.Numbered.{IsRecorded, running_unrecorded}
use vlytics.Jobs.Settle.{finish_row, schedule_retry_row}
use vlytics.Jobs.Quarantine.{quarantine_live}
use vlytics.Jobs.Verdict.{IsLeft}
use vlytics.Prelude.{
  ℕ, ◌≡◌, ◌≢◌, ◌⊎◌, ◌≤◌, ◌<◌, ◌+◌, ◌-◌, refl, true, false, some, none, ltb, arith, Bool-cases, inl,
  inr, first, Bool, ◌∙◌, ap, sym,
}

verdict_more :
    (timing : SchedulerTiming) (clock n : ℕ) (code : ErrorCode) (r : Job)
    → r.attempt_no ≡ n
    → ltb n timing.max_attempts ≡ true
    → verdict timing clock (retryable code) r
      ≡ retried (clock + delay_of timing (n - 1)) code clock r
verdict_more timing clock n code r counted =
    subst
      (λ k.
        ltb k timing.max_attempts ≡ true
        → verdict timing clock (retryable code) r
          ≡ retried (clock + delay_of timing (k - 1)) code clock r)
      counted (λ more. rw more refl)

verdict_last :
    (timing : SchedulerTiming) (clock n : ℕ) (code : ErrorCode) (r : Job)
    → r.attempt_no ≡ n
    → ltb n timing.max_attempts ≡ false
    → verdict timing clock (retryable code) r ≡ finished false (some code) clock r
verdict_last timing clock n code r counted =
    subst
      (λ k.
        ltb k timing.max_attempts ≡ false
        → verdict timing clock (retryable code) r ≡ finished false (some code) clock r)
      counted (λ last. rw last refl)

module _ (p : Pool) (j r : Job) (clock : ℕ) (db : Db) (found : find j.id db.jobs ≡ some r)
    (numbered : 0 < j.attempt_no) (counted : r.attempt_no ≡ j.attempt_no) where
  module _ (began : ℕ) (recorded : IsRecorded db) (held : live p.lease_owner clock r ≡ true)
      (start : r.lease_started_at ≡ some began) (ordered : began ≤ clock) where
    unrecorded : first (is_attempt j.id r.attempt_no) db.attempts ≡ none
    unrecorded = running_unrecorded j.id r db recorded found (ground arith)

    -- In recorded tables, if the lease is live when the handler is done, began no later than now
    -- and was renewed without an error or a loss, `conclude` ends it, unless the handler raised an
    -- error of its own: the job as it then stands has the verdict of its handler.
    pub conclude_live :
        (handled : Handled)
        → ((e : ℕ) → handled ≢ raised e)
        → (db' : Db) × (conclude p j clock handled kept db ≡ (ok true, db'))
          × (find j.id db'.jobs ≡ some (verdict p.timing clock handled r))
    unfolding conclude retry_or_fail
    conclude_live finalized quiet = (db, refl, found)
    conclude_live answered quiet =
        let (db', e, row, log) =
          finish_row j.id p.lease_owner clock db recorded.0 found held start ordered unrecorded true
            none in
        (db', rw e refl, row)
    conclude_live (terminal code) quiet =
        let (db', e, row, log) =
          quarantine_live j.id p.lease_owner clock db recorded.0 found held start ordered unrecorded
            code in
        (db', rw e refl, row)
    conclude_live (raised e) quiet = absurd (quiet e refl)
    conclude_live (retryable code) quiet =
        elim (Bool-cases (ltb j.attempt_no p.timing.max_attempts)) [
          | inl more ↦
              let delay = delay_of p.timing (j.attempt_no - 1) in
              let (db', e, row, log) =
                schedule_retry_row j.id p.lease_owner clock db recorded.0 found held start ordered
                  unrecorded (clock + delay) code in
              (
                db',
                rw (more, retry_delay_later p.timing j.attempt_no numbered, e) refl,
                row ∙ ap some (sym (verdict_more p.timing clock j.attempt_no code r counted more)),
              )
          | inr last ↦
              let (db', e, row, log) =
                finish_row j.id p.lease_owner clock db recorded.0 found held start ordered
                  unrecorded false (some code) in
              (
                db',
                rw (last, e) refl,
                row ∙ ap some (sym (verdict_last p.timing clock j.attempt_no code r counted last)),
              )
        ]

  -- What `conclude` does without a live lease.
  abbrev pub IsLost : Handled → Renewal → Result Bool × Db → Type 0
  IsLost finalized kept answer = answer ≡ (ok true, db)
  IsLost finalized _ answer = answer ≡ (err runtime_error, db)
  IsLost answered _ answer = answer ≡ (err runtime_error, db)
  IsLost (retryable code) _ answer = answer ≡ (err runtime_error, db)
  IsLost (raised e) _ answer = answer ≡ (err (handler_error e), db)
  IsLost (terminal code) _ answer =
      ((is_waiting r.state ≡ true)
        × ((db' : Db) × (r' : Job) × (answer ≡ (ok true, db'))
            × (find j.id db'.jobs ≡ some r')
            × IsLeft State.quarantined (some code) r.due_at clock r r'
            × (db'.attempts ≡ db.attempts)))
      ⊎ ((is_waiting r.state ≡ false) × (answer ≡ (err runtime_error, db)))
