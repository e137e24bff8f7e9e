-- ===== src/Jobs/Quarantine.antt =====
-- How `quarantine` ends a lease, or a wait.
use vlytics.Jobs.Command.{Command}
use vlytics.Jobs.Updates.{id-target}
use vlytics.Prelude.{ℕ, ◌≡◌, refl, true, false, ◌&&◌, none, some, ◌∷◌, arith, first, update, ◌≤◌}
use vlytics.Jobs.{
  Job, Db, has_id, find, live, ok, active_attempt, owned, ErrorCode, Outcome, is_attempt,
  quarantine, released, State, may_quarantine, is_waiting,
}
use vlytics.Jobs.Tables.{IsSound}
use vlytics.Jobs.Settle.{
  attempt_of, owned_row, active_attempt_returns, count_stale, update_stale, count_live,
  find-update_live, settle_attempt-one, settle_attempt-zero, attempt_lem,
}

module _ (i owner now : ℕ) (db : Db) {r : Job} (sound : IsSound db)
    (found : find i db.jobs ≡ some r) where
  -- No attempt is under way on a job that waits.
  active_attempt-waiting : is_waiting r.state ≡ true → active_attempt i owner db ≡ ok none
  unfolding active_attempt
  active_attempt-waiting waits =
      let running = owned_row i owner now db sound found in
      let free : owned owner r ≡ false = ground (arith, waits) in ground (arith, running, free)

  -- A job that waits is quarantined without a lease, and no attempt is recorded.
  pub quarantine_waiting :
      (code : ErrorCode)
      → is_waiting r.state ≡ true
      → (db' : Db) × (quarantine i owner code now db ≡ ok (true, db'))
        × (find i db'.jobs ≡ some (released State.quarantined (some code) now r))
        × (db'.attempts ≡ db.attempts)
  unfolding quarantine
  quarantine_waiting code waits =
      let kept : may_quarantine owner now r ≡ true = ground (arith, waits) in
      (
        record {
          jobs =
              update (λ j. has_id i j && may_quarantine owner now j)
                (released State.quarantined (some code) now) db.jobs;
          attempts = db.attempts;
        },
        rw (
          active_attempt-waiting waits,
          count_live i owner now db sound found (may_quarantine owner now)
              (released State.quarantined (some code) now) kept,
        ),
        find-update_live i owner now db sound found (may_quarantine owner now)
            (released State.quarantined (some code) now) kept
            (id-target (Command.quarantine i owner code now)),
        refl,
      )

  pub quarantine_stale :
      (code : ErrorCode)
      → is_waiting r.state ≡ false
      → live owner now r ≡ false
      → quarantine i owner code now db ≡ ok (false, db)
  unfolding quarantine
  quarantine_stale code idle stale =
      let (o, e) = active_attempt_returns i owner now db sound found in
      let barred : may_quarantine owner now r ≡ false = ground arith in
      rw (
        e,
        count_stale i owner now db sound found (may_quarantine owner now)
            (released State.quarantined (some code) now) barred,
        update_stale i owner now db sound found (may_quarantine owner now)
            (released State.quarantined (some code) now) barred,
        settle_attempt-zero i owner Outcome.failed (some code) now o db.attempts,
      )

  module _ {t : ℕ} (held : live owner now r ≡ true) (began : r.lease_started_at ≡ some t)
      (ordered : t ≤ now) (fresh : first (is_attempt i r.attempt_no) db.attempts ≡ none) where
    -- On a live lease that began no later than now and whose attempt is not in the log, the job is
    -- quarantined and the attempt is recorded.
    pub quarantine_live :
        (code : ErrorCode)
        → (db' : Db) × (quarantine i owner code now db ≡ ok (true, db'))
          × (find i db'.jobs ≡ some (released State.quarantined (some code) now r))
          × (db'.attempts
              ≡ attempt_of i owner now db sound found t Outcome.failed (some code) ∷ db.attempts)
    unfolding quarantine
    quarantine_live code =
        let kept : may_quarantine owner now r ≡ true = ground arith in
        (
          record {
            jobs =
                update (λ j. has_id i j && may_quarantine owner now j)
                  (released State.quarantined (some code) now) db.jobs;
            attempts =
                attempt_of i owner now db sound found t Outcome.failed (some code) ∷ db.attempts;
          },
          rw (
            attempt_lem i owner now db sound found held began ordered fresh,
            count_live i owner now db sound found (may_quarantine owner now)
                (released State.quarantined (some code) now) kept,
            settle_attempt-one i owner now db sound found t Outcome.failed (some code) held ordered
                fresh,
          ),
          find-update_live i owner now db sound found (may_quarantine owner now)
              (released State.quarantined (some code) now) kept
              (id-target (Command.quarantine i owner code now)),
          refl,
        )
