-- ===== src/Jobs/Lifecycle.antt =====
-- The life of one job: the transitions that ops.enforce_job_state_transition allows
-- (backend/migrations/0014_operator_retry.sql), the states that no call leaves, and the lease that no
-- other worker can break.
use vlytics.Prelude.{ℕ, ◌≡◌, ◌≢◌, refl, inl, inr, Bool, true, false, Option, none, some, arith}
use vlytics.Jobs.{
  Job, Db, State, queued, running, retry_wait, cancelled, expired, quarantined, ok, find,
  is_unfinished, live, leased, finished, retried,
}
use vlytics.Jobs.Command.{
  Command, enqueue, lease_next, finish, renew_lease, schedule_retry, expire_due, quarantine,
  cancel_schedule_revision, cancel_match_jobs, run, guard, target,
}
use vlytics.Jobs.Rows.{run-RowFollows}
use vlytics.Jobs.Tables.{IsSound}

-- The trigger's transitions; an update that leaves the state alone passes too.
abbrev pub allowed : State → State → Bool
allowed queued running = true
allowed queued cancelled = true
allowed queued expired = true
allowed queued quarantined = true
allowed running queued = false
allowed running _ = true
allowed retry_wait running = true
allowed retry_wait retry_wait = true
allowed retry_wait cancelled = true
allowed retry_wait expired = true
allowed retry_wait quarantined = true
allowed queued queued = true
allowed State.failed retry_wait = true
allowed State.succeeded State.succeeded = true
allowed State.failed State.failed = true
allowed cancelled cancelled = true
allowed expired expired = true
allowed quarantined quarantined = true
allowed _ _ = false

allowed_refl : (s : State) → allowed s s ≡ true
allowed_refl queued = refl
allowed_refl _ = refl

target-allowed :
    (c : Command) (r : Job) → guard c r ≡ true → allowed r.state (target c r).state ≡ true
unfolding leased finished retried
target-allowed (enqueue _ _ _) r g = ground arith
target-allowed c r g = ground arith

-- In sound tables, a job is still there after a call that returns, and its state has moved along a
-- transition of the database's trigger, or stayed.
pub run_transition :
    (c : Command) (i : ℕ) (r : Job) (db db' : Db)
    → IsSound db
    → find i db.jobs ≡ some r
    → run c db ≡ ok db'
    → (r' : Job) × (find i db'.jobs ≡ some r') × (allowed r.state r'.state ≡ true)
run_transition c i r db db' s h e =
    let (r', found, how) = run-RowFollows c i r db db' s.0 h e in
    elim how [
      | inl kept ↦ (r', found, rw kept (allowed_refl r.state))
      | inr (g, moved) ↦ (r', found, rw moved (target-allowed c r g))
    ]

guard-unfinished : (c : Command) (r : Job) → guard c r ≡ true → is_unfinished r.state ≡ true
guard-unfinished (enqueue _ _ _) r g = ground arith
guard-unfinished c r g = ground arith

-- In sound tables, a call that returns leaves a job as it was that is neither queued, running nor
-- waiting for a retry.
pub run_keeps_final :
    (c : Command) (i : ℕ) (r : Job) (db db' : Db)
    → IsSound db
    → find i db.jobs ≡ some r
    → is_unfinished r.state ≡ false
    → run c db ≡ ok db'
    → find i db'.jobs ≡ some r
run_keeps_final c i r db db' s h final e =
    let (r', found, how) = run-RowFollows c i r db db' s.0 h e in
    elim how [ inl kept ↦ rw (← kept) found | inr (g, _) ↦ absurd (cc (guard-unfinished c r g)) ]

-- The clock reading that a call brings, the worker that makes it, and whether it cancels.
abbrev pub clock : Command → ℕ
clock (enqueue _ stamp _) = stamp
clock (lease_next _ _ now _) = now
clock (finish _ _ _ _ now) = now
clock (renew_lease _ _ now _) = now
clock (schedule_retry _ _ _ _ now) = now
clock (expire_due _ now) = now
clock (quarantine _ _ _ now) = now
clock (cancel_schedule_revision _ now _) = now
clock (cancel_match_jobs _ now _ _) = now

abbrev pub worker : Command → Option ℕ
worker (lease_next _ owner _ _) = some owner
worker (finish _ owner _ _ _) = some owner
worker (renew_lease _ owner _ _) = some owner
worker (schedule_retry _ owner _ _ _) = some owner
worker (quarantine _ owner _ _) = some owner
worker _ = none

abbrev pub cancels : Command → Bool
cancels (cancel_schedule_revision _ _ _) = true
cancels (cancel_match_jobs _ _ _ _) = true
cancels _ = false

guard-live :
    (c : Command) (owner : ℕ) (r : Job)
    → live owner (clock c) r ≡ true
    → worker c ≢ some owner
    → cancels c ≡ false
    → guard c r ≡ false
guard-live (enqueue _ _ _) owner r h w n = refl
guard-live c owner r h w n = ground arith

-- In sound tables, a call that returns and is neither the lease owner's nor a cancellation leaves a
-- job under a live lease as it was.
pub run_respects_lease :
    (c : Command) (i owner : ℕ) (r : Job) (db db' : Db)
    → IsSound db
    → find i db.jobs ≡ some r
    → live owner (clock c) r ≡ true
    → worker c ≢ some owner
    → cancels c ≡ false
    → run c db ≡ ok db'
    → find i db'.jobs ≡ some r
run_respects_lease c i owner r db db' s h held other n e =
    let (r', found, how) = run-RowFollows c i r db db' s.0 h e in
    elim how [
      | inl kept ↦ rw (← kept) found
      | inr (g, _) ↦ absurd (cc (guard-live c owner r held other n))
    ]
