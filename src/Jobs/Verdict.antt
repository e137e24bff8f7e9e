-- ===== src/Jobs/Verdict.antt =====
-- What a lease and its end make of a row, column by column.
use vlytics.Jobs.Lease.{Precedes, lease_next_row}
use vlytics.Jobs.{
  lease_next, leased, candidates, is_ready, in_time, is_free, is_waiting, is_running, Job, Db,
  ErrorCode, deadline_expired, timeout, ok, Outcome, State, find, live, is_attempt, finish,
  finished, schedule_retry, retried, retry_outcome,
}
use vlytics.Jobs.Settle.{attempt_of, finish_row, schedule_retry_row}
use vlytics.Jobs.Tables.{IsSound}
use vlytics.Prelude.{
  ◌&&◌, not, All, ◌+◌, ◌≢◌, ℕ, Bool, true, false, ◌≡◌, ◌≤◌, ◌<◌, ◌⊎◌, inl, inr, refl, Option, none,
  some, ◌∷◌, first, at_most, arith, if◌then◌else◌, Bool-cases, Option-cases,
}

-- The time has come, or it is ahead or not set.
abbrev pub HasCome : Option ℕ → ℕ → Type 0
HasCome time now = (t : ℕ) × (time ≡ some t) × (t ≤ now)

abbrev pub IsAhead : Option ℕ → ℕ → Type 0
IsAhead time now = (time ≡ none) ⊎ ((t : ℕ) × (time ≡ some t) × (now < t))

-- The row without its lease, in the state, with the code and due at the time; the rest is as it was.
abbrev pub IsLeft : State → Option ErrorCode → ℕ → ℕ → Job → Job → Type 0
IsLeft state code due_at now r r' = r' ≡ record r {
  due_at = due_at;
  state = state;
  lease_owner = none;
  lease_started_at = none;
  lease_until = none;
  error_code = code;
  updated_at = now;
}

-- The row is expired if the deadline has come, else it is left as said.
abbrev pub IsLeftBy : ℕ → State → Option ErrorCode → ℕ → ℕ → Job → Job → Type 0
IsLeftBy time state code due_at now r r' =
    (HasCome r.deadline_at time × IsLeft State.expired (some deadline_expired) r.due_at now r r')
    ⊎ (IsAhead r.deadline_at time × IsLeft state code due_at now r r')

pub deadline-cases :
    (deadline : Option ℕ) (now : ℕ)
    → (HasCome deadline now × (at_most deadline now ≡ true))
      ⊎ (IsAhead deadline now × (at_most deadline now ≡ false))
deadline-cases none now = inr (inl refl, refl)
deadline-cases (some d) now = elim (Bool-cases (at_most (some d) now)) [
  | inl come ↦ inl ((d, refl, ground arith), come)
  | inr ahead ↦ inr (inr (d, refl, ground arith), ahead)
]

finished-IsLeftBy :
    (success : Bool) (code : Option ErrorCode) (now : ℕ) (r : Job)
    → IsLeftBy now
        (if success then State.succeeded else State.failed)
        code
        r.due_at
        now
        r
        (finished success code now r)
unfolding finished
finished-IsLeftBy success code now r = elim (deadline-cases r.deadline_at now) [
  | inl (come, e) ↦ inl (come, rw e refl)
  | inr (ahead, e) ↦ inr (ahead, rw e refl)
]

retried-IsLeftBy :
    (retry_at : ℕ) (code : ErrorCode) (now : ℕ) (r : Job)
    → IsLeftBy retry_at State.retry_wait (some code) retry_at now r (retried retry_at code now r)
unfolding retried
retried-IsLeftBy retry_at code now r = elim (deadline-cases r.deadline_at retry_at) [
  | inl (come, e) ↦ inl (come, rw e refl)
  | inr (ahead, e) ↦ inr (ahead, rw e refl)
]

-- What an attempt that is retried has come to.
abbrev pub IsTried : ErrorCode → Outcome → Type 0
IsTried code outcome =
    ((code ≡ timeout) × (outcome ≡ Outcome.timed_out))
    ⊎ ((code ≢ timeout) × (outcome ≡ Outcome.failed))

retry_outcome-IsTried : (code : ErrorCode) → IsTried code (retry_outcome code)
retry_outcome-IsTried timeout = inl (refl, refl)
retry_outcome-IsTried code = inr (λ e. ground arith, refl)

module _ (i owner now : ℕ) (db : Db) {r : Job} (sound : IsSound db)
    (found : find i db.jobs ≡ some r) {t : ℕ} (held : live owner now r ≡ true)
    (began : r.lease_started_at ≡ some t) (ordered : t ≤ now)
    (fresh : first (is_attempt i r.attempt_no) db.attempts ≡ none) where
  -- In sound tables, `finish` on a live lease that began no later than now and whose attempt is not
  -- in the log answers true and adds that attempt alone, as succeeded or failed. The row has no
  -- lease and the time of the call; if its deadline has come it is expired, with the code for that,
  -- and otherwise it has succeeded or failed as told, with the code that was given; the rest of it
  -- is as it was.
  pub finish_live :
      (success : Bool) (code : Option ErrorCode)
      → (db' : Db) × (r' : Job) × (finish i owner success code now db ≡ ok (true, db'))
        × (find i db'.jobs ≡ some r')
        × IsLeftBy now (if success then State.succeeded else State.failed) code r.due_at now r r'
        × (db'.attempts
            ≡ attempt_of i owner now db sound found t
                (if success then Outcome.succeeded else Outcome.failed)
                code
              ∷ db.attempts)
  finish_live success code =
      let (db', e, row, log) =
        finish_row i owner now db sound found held began ordered fresh success code in
      (db', finished success code now r, e, row, finished-IsLeftBy success code now r, log)

  -- In sound tables, `schedule_retry` on a live lease that began no later than now and whose
  -- attempt is not in the log answers true and adds that attempt alone, as timed out if the code
  -- says so and as failed otherwise. The row has no lease and the time of the call; if its deadline
  -- comes no later than the retry it is expired, with the code for that, and otherwise it waits,
  -- with the code that was given and due at the retry; the rest of it is as it was.
  pub schedule_retry_live :
      (retry_at : ℕ) (code : ErrorCode)
      → (db' : Db) × (r' : Job) × (outcome : Outcome) × (schedule_retry i owner retry_at code now db
          ≡ ok (true, db'))
        × (find i db'.jobs ≡ some r')
        × IsLeftBy retry_at State.retry_wait (some code) retry_at now r r'
        × IsTried code outcome
        × (db'.attempts ≡ attempt_of i owner now db sound found t outcome (some code) ∷ db.attempts)
  schedule_retry_live retry_at code =
      let (db', e, row, log) =
        schedule_retry_row i owner now db sound found held began ordered fresh retry_at code in
      (
        db',
        retried retry_at code now r,
        retry_outcome code,
        e,
        row,
        retried-IsLeftBy retry_at code now r,
        retry_outcome-IsTried code,
        log,
      )

-- Waiting, or running under a lease that has run out.
abbrev pub IsFree : ℕ → Job → Type 0
IsFree now j =
    ((j.state ≡ State.queued) ⊎ (j.state ≡ State.retry_wait))
    ⊎ ((j.state ≡ State.running) × HasCome j.lease_until now)

in_time-IsAhead : (now : ℕ) (j : Job) → in_time now j ≡ true → IsAhead j.deadline_at now
in_time-IsAhead now j h = elim (Option-cases j.deadline_at) [
  | inl e ↦ inl e
  | inr (d, e) ↦ inr (d, e, ground (arith, h, e))
]

is_waiting_lem : (s : State) → is_waiting s ≡ true → (s ≡ State.queued) ⊎ (s ≡ State.retry_wait)
is_waiting_lem State.queued h = inl refl
is_waiting_lem State.retry_wait h = inr refl
is_waiting_lem s h = absurd (ground arith)

is_running_lem : (s : State) → is_running s ≡ true → s ≡ State.running
is_running_lem State.running h = refl
is_running_lem s h = absurd (ground arith)

is_free-IsFree : (now : ℕ) (j : Job) → is_free now j ≡ true → IsFree now j
is_free-IsFree now j h = elim (Bool-cases (is_waiting j.state)) [
  | inl w ↦ inl (is_waiting_lem j.state w)
  | inr other ↦ elim (Option-cases j.lease_until) [
    | inl e ↦ absurd (ground (arith, h, other, e))
    | inr (t, e) ↦
        inr (is_running_lem j.state (ground (arith, h, other)), (t, e, ground (arith, h, other, e)))
  ]
]

-- In sound tables, a job that `lease_next` returns is the row of its id, was due, had no deadline
-- or one ahead, was unlocked and waiting or under a lease that had run out, and comes before no
-- other such row in the order by due and creation time; it is returned running under the caller
-- until the duration has passed, with one more attempt and no code, and stands so in the table.
pub lease_next_grants :
    (locked : ℕ → Bool) (owner now duration : ℕ) (db db' : Db) {j : Job}
    → IsSound db
    → lease_next locked owner now duration db ≡ ok (some j, db')
    → (c : Job) × (find c.id db.jobs ≡ some c)
      × ((is_ready now c && not (locked c.id)) ≡ true)
      × (c.due_at ≤ now)
      × IsAhead c.deadline_at now
      × IsFree now c
      × All (Precedes c) (candidates (is_ready now) locked db.jobs)
      × (j ≡ record c {
        state = State.running;
        lease_owner = some owner;
        lease_started_at = some now;
        lease_until = some (now + duration);
        attempt_no = c.attempt_no + 1;
        error_code = none;
        updated_at = now;
      })
      × (find c.id db'.jobs ≡ some j)
unfolding leased
lease_next_grants locked owner now duration db db' sound h =
    let (c, at, ready, least, granted, row) =
      lease_next_row locked owner now duration db db' sound h in
    (
      c,
      at,
      ready,
      ground (arith, ready),
      in_time-IsAhead now c (ground (arith, ready)),
      is_free-IsFree now c (ground (arith, ready)),
      least,
      granted,
      row,
    )
