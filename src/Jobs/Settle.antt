-- ===== src/Jobs/Settle.antt =====
-- How a lease ends by `finish` and `schedule_retry`.
use vlytics.Jobs.Command.{Command}
use vlytics.Jobs.Updates.{id-target}
use vlytics.Jobs.ById.{count-id, first-id}
use vlytics.Prelude.{
  ℕ, ◌≡◌, refl, Bool, true, false, ◌&&◌, Option, none, some, List, ◌∷◌, arith, first, count, update,
  update-none, if◌then◌else◌, Option-cases, Bool-cases, inl, first-All, inr, ◌∙◌, first-update, ◌≤◌,
  first_holds, suc,
}
use vlytics.Jobs.{
  Job, Db, has_id, find, live, ok, finish, finished, active_attempt, owned, ErrorCode,
  record_attempt, Outcome, Attempt, settle_attempt, schedule_retry, Details, renew_lease, retried,
  is_attempt, in_time, retry_outcome, renewed,
}
use vlytics.Jobs.Tables.{IsSound, RowOk}

pub settle_attempt-zero :
    (i owner : ℕ) (outcome : Outcome) (code : Option ErrorCode) (now : ℕ) (o : Option (ℕ × ℕ))
    (log : List Attempt)
    → settle_attempt i owner 0 outcome code now o log ≡ ok log
unfolding record_attempt
settle_attempt-zero i owner outcome code now none log = refl
settle_attempt-zero i owner outcome code now (some a) log = refl

module _ (i owner now : ℕ) (db : Db) {r : Job} (sound : IsSound db)
    (found : find i db.jobs ≡ some r) where
  row : RowOk r
  unfolding find
  row = first-All RowOk (has_id i) db.jobs sound.2 found

  pub owned_row :
      first (λ j. has_id i j && owned owner j) db.jobs ≡ (if owned owner r then some r else none)
  owned_row = first-id (owned owner) i db.jobs r sound.0 found

  -- The attempt that a live lease stands for.
  active_attempt-live :
      live owner now r ≡ true
      → (t : ℕ) × (r.lease_started_at ≡ some t)
        × (active_attempt i owner db ≡ ok (some (r.attempt_no, t)))
  unfolding active_attempt
  active_attempt-live held = elim (Option-cases r.lease_started_at) [
    | inl e ↦ absurd (ground (arith, row.running_started))
    | inr (t, e) ↦ (t, e, ground (arith, owned_row))
  ]

  pub active_attempt_returns : (o : Option (ℕ × ℕ)) × (active_attempt i owner db ≡ ok o)
  active_attempt_returns = elim (Bool-cases (owned owner r)) [
    | inl e ↦ elim (Option-cases r.lease_started_at) [
      | inl x ↦ absurd (ground (arith, row.running_started))
      | inr (t, x) ↦ (some (r.attempt_no, t), unfold active_attempt in ground (arith, owned_row))
    ]
    | inr e ↦ (none, unfold active_attempt in ground (arith, owned_row))
  ]

  module _ (q : Job → Bool) (f : Job → Job) (fails : q r ≡ false) where
    pub count_stale : count (λ j. has_id i j && q j) db.jobs ≡ 0
    count_stale = count-id q i db.jobs r sound.0 found ∙ rw fails

    pub update_stale : update (λ j. has_id i j && q j) f db.jobs ≡ db.jobs
    update_stale = update-none _ f db.jobs (first-id q i db.jobs r sound.0 found ∙ rw fails)

  finish_stale :
      (success : Bool) (code : Option ErrorCode)
      → live owner now r ≡ false
      → finish i owner success code now db ≡ ok (false, db)
  unfolding finish
  finish_stale success code stale =
      let (o, e) = active_attempt_returns in
      rw (
        e,
        count_stale (live owner now) (finished success code now) stale,
        update_stale (live owner now) (finished success code now) stale,
        settle_attempt-zero i owner (if success then Outcome.succeeded else Outcome.failed) code now
            o db.attempts,
      )

  schedule_retry_stale :
      (retry_at : ℕ) (code : ErrorCode)
      → live owner now r ≡ false
      → schedule_retry i owner retry_at code now db ≡ ok (false, db)
  unfolding schedule_retry
  schedule_retry_stale retry_at code stale =
      let (o, e) = active_attempt_returns in
      rw (
        e,
        count_stale (live owner now) (retried retry_at code now) stale,
        update_stale (live owner now) (retried retry_at code now) stale,
        settle_attempt-zero i owner (retry_outcome code) (some code) now o db.attempts,
      )

  renew_lease_stale :
      (duration : ℕ)
      → live owner now r ≡ false
      → renew_lease i owner now (suc duration) db ≡ ok (false, db)
  unfolding renew_lease
  renew_lease_stale duration stale =
      let dead : (live owner now r && in_time now r) ≡ false = ground arith in
      rw
        (
          count_stale (λ j. live owner now j && in_time now j) (renewed now (suc duration)) dead,
          update_stale (λ j. live owner now j && in_time now j) (renewed now (suc duration)) dead,
        )
        (ground arith)

  -- In sound tables, `finish`, `schedule_retry` and `renew_lease` (by a positive duration) of a
  -- worker whose lease on the job is not live answer false and change neither table.
  pub stale_lease_is_refused :
      (success : Bool) (code : Option ErrorCode) (retry_at : ℕ) (reason : ErrorCode) (duration : ℕ)
      → live owner now r ≡ false
      → (finish i owner success code now db ≡ ok (false, db))
        × (schedule_retry i owner retry_at reason now db ≡ ok (false, db))
        × (renew_lease i owner now (suc duration) db ≡ ok (false, db))
  stale_lease_is_refused success code retry_at reason duration stale = (
    finish_stale success code stale,
    schedule_retry_stale retry_at reason stale,
    renew_lease_stale duration stale,
  )

  module _ (q : Job → Bool) (f : Job → Job) (holds_of : q r ≡ true) where
    pub count_live : count (λ j. has_id i j && q j) db.jobs ≡ 1
    count_live = count-id q i db.jobs r sound.0 found ∙ rw holds_of

    pub find-update_live :
        ((j : Job) → (f j).id ≡ j.id)
        → find i (update (λ j. has_id i j && q j) f db.jobs) ≡ some (f r)
    unfolding find
    find-update_live keeps =
        first-update (has_id i) (λ j. has_id i j && q j) f db.jobs (λ j. rw (keeps j)) found
        ∙ rw (holds_of, first_holds (has_id i) db.jobs r found)

  abbrev pub attempt_of : ℕ → Outcome → Option ErrorCode → Attempt
  attempt_of t outcome code = record {
    job_id = i;
    attempt_no = r.attempt_no;
    lease_owner = owner;
    started_at = t;
    completed_at = now;
    outcome = outcome;
    error_code = code;
    details = Details.plain;
  }

  pub settle_attempt-one :
      (t : ℕ) (outcome : Outcome) (code : Option ErrorCode)
      → live owner now r ≡ true
      → t ≤ now
      → first (is_attempt i r.attempt_no) db.attempts ≡ none
      → settle_attempt i owner 1 outcome code now (some (r.attempt_no, t)) db.attempts
        ≡ ok (attempt_of t outcome code ∷ db.attempts)
  unfolding record_attempt
  settle_attempt-one t outcome code held h fresh = ground (arith, row.running_numbered)

  module _ {t : ℕ} (held : live owner now r ≡ true) (began : r.lease_started_at ≡ some t)
      (ordered : t ≤ now) (fresh : first (is_attempt i r.attempt_no) db.attempts ≡ none) where
    pub attempt_lem : active_attempt i owner db ≡ ok (some (r.attempt_no, t))
    attempt_lem = let (u, same, e) = active_attempt-live held in ground (arith, same, began, e)

    -- In sound tables, `finish` on a live lease that began no later than now and whose attempt is
    -- not in the log answers true, settles the job (or expires it at its deadline) and adds that
    -- attempt alone.
    pub finish_row :
        (success : Bool) (code : Option ErrorCode)
        → (db' : Db) × (finish i owner success code now db ≡ ok (true, db'))
          × (find i db'.jobs ≡ some (finished success code now r))
          × (db'.attempts
              ≡ attempt_of t (if success then Outcome.succeeded else Outcome.failed) code
                ∷ db.attempts)
    unfolding finish
    finish_row success code = (
      record {
        jobs = update (λ j. has_id i j && live owner now j) (finished success code now) db.jobs;
        attempts =
            attempt_of t (if success then Outcome.succeeded else Outcome.failed) code ∷ db.attempts;
      },
      rw (
        attempt_lem,
        count_live (live owner now) (finished success code now) held,
        settle_attempt-one t (if success then Outcome.succeeded else Outcome.failed) code held
            ordered fresh,
      ),
      find-update_live (live owner now) (finished success code now) held
          (id-target (Command.finish i owner success code now)),
      refl,
    )

    -- In sound tables, `schedule_retry` on a live lease that began no later than now and whose
    -- attempt is not in the log answers true, puts the job off until the retry, or expires it if
    -- its deadline comes no later, and adds that attempt alone.
    pub schedule_retry_row :
        (retry_at : ℕ) (code : ErrorCode)
        → (db' : Db) × (schedule_retry i owner retry_at code now db ≡ ok (true, db'))
          × (find i db'.jobs ≡ some (retried retry_at code now r))
          × (db'.attempts ≡ attempt_of t (retry_outcome code) (some code) ∷ db.attempts)
    unfolding schedule_retry
    schedule_retry_row retry_at code = (
      record {
        jobs = update (λ j. has_id i j && live owner now j) (retried retry_at code now) db.jobs;
        attempts = attempt_of t (retry_outcome code) (some code) ∷ db.attempts;
      },
      rw (
        attempt_lem,
        count_live (live owner now) (retried retry_at code now) held,
        settle_attempt-one t (retry_outcome code) (some code) held ordered fresh,
      ),
      find-update_live (live owner now) (retried retry_at code now) held
          (id-target (Command.schedule_retry i owner retry_at code now)),
      refl,
    )
