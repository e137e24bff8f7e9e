-- ===== src/Jobs/Numbered.antt =====
-- The attempts in the log against the jobs that they are of: no lease has two, and the lease of a
-- running job has none yet.
use vlytics.Jobs.Lease.{find-update_self, same_id-leased}
use vlytics.Jobs.Updates.{
  lease_next-picked, Updates, id-target, finish-Updates, schedule_retry-Updates, expire_due-Updates,
  quarantine-Updates, cancel_schedule_revision-Updates, cancel_match_jobs-Updates,
}
use vlytics.Prelude.{
  ℕ, ◌≤◌, ◌<◌, ◌≡◌, inl, inr, true, false, not, ◌&&◌, none, some, List, All, arith, first, Distinct,
  All-first-none, All-mono, ◌∙◌, first-update, All-append,
}
use vlytics.Jobs.{
  Job, Attempt, Db, ok, has_id, find, is_running, is_attempt, is_ready, leased, finished, retried,
}
use vlytics.Jobs.Rows.{find-earliest, Follows, run-RowFollows}
use vlytics.Jobs.Log.{same_attempt}
use vlytics.Jobs.Ended.{Chosen, Ended}
use vlytics.Jobs.History.{run-Extends}
use vlytics.Jobs.Tables.{IsSound, run-IsSound}
use vlytics.Jobs.Command.{
  Command, enqueue, lease_next, finish, renew_lease, schedule_retry, expire_due, quarantine,
  cancel_schedule_revision, cancel_match_jobs, run, guard, target, replay, replay_induction,
}

-- The number is of a lease that the job has had, and not of the one that it holds now.
abbrev pub Behind : ℕ → Job → Type 0
Behind n r = (n ≤ r.attempt_no) × (is_running r.state ≡ true → n < r.attempt_no)

abbrev pub Numbered : List Job → Attempt → Type 0
Numbered js a = (r : Job) × (find a.job_id js ≡ some r) × Behind a.attempt_no r

abbrev pub IsRecorded : Db → Type 0
IsRecorded db = IsSound db × Distinct same_attempt db.attempts × All (Numbered db.jobs) db.attempts

-- The lease of a running job has no attempt in the log.
pub running_unrecorded :
    (i : ℕ) (r : Job) (db : Db)
    → IsRecorded db
    → find i db.jobs ≡ some r
    → is_running r.state ≡ true
    → first (is_attempt i r.attempt_no) db.attempts ≡ none
running_unrecorded i r db h found running =
    All-first-none (is_attempt i r.attempt_no) db.attempts (All-mono db.attempts other h.2)
  where
    same_find : (a : Attempt) (k : Job) → find a.job_id db.jobs ≡ some k → a.job_id ≡ i → k ≡ r
    same_find a k at e = cc

    other : (a : Attempt) → Numbered db.jobs a → is_attempt i r.attempt_no a ≡ false
    other a (k, at, behind) = ground (arith, same_find a k at, behind)

Chosen-guard : (c : Command) (db : Db) (j : Job) → IsSound db → Chosen c db j → guard c j ≡ true
Chosen-guard (lease_next locked owner now duration) db j s h =
    (find-earliest (λ x. is_ready now x && not (locked x.id)) db.jobs j s.0 h).1
Chosen-guard (enqueue _ _ _) db j s h = absurd h
Chosen-guard (renew_lease _ _ _ _) db j s h = absurd h
Chosen-guard _ db j s h = h

target-Behind :
    (c : Command) (n : ℕ) (r : Job) → guard c r ≡ true → Behind n r → Behind n (target c r)
unfolding leased finished retried
target-Behind (enqueue _ _ _) n r g h = h
target-Behind c n r g h = ground arith

ended-Behind :
    (c : Command) (db : Db) (r : Job)
    → guard c r ≡ true
    → Chosen c db r
    → Behind r.attempt_no (target c r)
unfolding leased finished retried
ended-Behind (enqueue _ _ _) db r g h = absurd h
ended-Behind (renew_lease _ _ _ _) db r g h = absurd h
ended-Behind c db r g h = ground arith

Updates-target :
    (c : Command) (db db' : Db) (j : Job)
    → Updates c
    → find j.id db.jobs ≡ some j
    → guard c j ≡ true
    → run c db ≡ ok db'
    → find j.id db'.jobs ≡ some (target c j)
unfolding find
Updates-target c db db' j u h g e =
    rw (u db db' e)
      (first-update (has_id j.id) (guard c) (target c) db.jobs (λ k. rw (id-target c k)) h ∙ rw g)

-- A row whose lease ends is the target of the call afterwards.
Chosen-target :
    (c : Command) (db db' : Db) (j : Job)
    → find j.id db.jobs ≡ some j
    → Chosen c db j
    → run c db ≡ ok db'
    → find j.id db'.jobs ≡ some (target c j)
Chosen-target (enqueue _ _ _) db db' j h ch e = absurd ch
Chosen-target (renew_lease _ _ _ _) db db' j h ch e = absurd ch
Chosen-target (lease_next locked owner now duration) db db' j h ch e =
    rw (lease_next-picked locked owner now duration db db' j ch e)
      (find-update_self (leased owner now duration) j db.jobs (same_id-leased owner now duration) h)
Chosen-target (finish i owner s code now) db db' j h ch e =
    Updates-target _ db db' j (finish-Updates i owner now s code) h ch e
Chosen-target (schedule_retry i owner retry_at code now) db db' j h ch e =
    Updates-target _ db db' j (schedule_retry-Updates i owner now retry_at code) h ch e
Chosen-target (expire_due locked now) db db' j h ch e =
    Updates-target _ db db' j (expire_due-Updates locked now) h ch e
Chosen-target (quarantine i owner code now) db db' j h ch e =
    Updates-target _ db db' j (quarantine-Updates i owner now code) h ch e
Chosen-target (cancel_schedule_revision revision now code) db db' j h ch e =
    Updates-target _ db db' j (cancel_schedule_revision-Updates revision now code) h ch e
Chosen-target (cancel_match_jobs match_id now code except) db db' j h ch e =
    Updates-target _ db db' j (cancel_match_jobs-Updates match_id now code except) h ch e

kept-Numbered :
    (c : Command) (db db' : Db) (a : Attempt)
    → IsSound db
    → run c db ≡ ok db'
    → Numbered db.jobs a
    → Numbered db'.jobs a
kept-Numbered c db db' a s e (r, found, behind) =
    let (r', found', how) = run-RowFollows c a.job_id r db db' s.0 found e in
    (r', found', after_step r' how)
  where
    after_step : (r' : Job) → Follows c r r' → Behind a.attempt_no r'
    after_step r' (inl kept) = rw kept behind
    after_step r' (inr (g, moved)) = rw moved (target-Behind c a.attempt_no r g behind)

Ended-Numbered :
    (c : Command) (db db' : Db) (a : Attempt)
    → IsSound db
    → run c db ≡ ok db'
    → Ended c db a
    → Numbered db'.jobs a
Ended-Numbered c db db' a s e (j, found, ch, is_for) = (
  target c j,
  rw is_for.1 (Chosen-target c db db' j found ch e),
  rw is_for.2 (ended-Behind c db j (Chosen-guard c db j s ch) ch),
)

-- Every call keeps the log in step with the jobs: no lease of a job is recorded twice, none beyond
-- the job's count of attempts, and the lease of a running job not yet.
pub run-IsRecorded :
    (c : Command) (db db' : Db) → IsRecorded db → run c db ≡ ok db' → IsRecorded db'
run-IsRecorded c db db' h e =
    let (new, grown, ended, apart) = run-Extends c db db' h.0 e in
    (
      run-IsSound c db db' h.0 e,
      apart h.1,
      rw grown (
          All-append (Numbered db'.jobs) new db.attempts
            (All-mono new (λ a x. Ended-Numbered c db db' a h.0 e x) ended)
            (All-mono db.attempts (λ a x. kept-Numbered c db db' a h.0 e x) h.2)),
    )

-- Whatever the history of calls, some of which may raise, tables that are recorded stay so: ids and
-- keys are unique, each row satisfies its constraints, each lease has at most one attempt in the
-- log, and a running job's lease has none.
pub replay-IsRecorded : (cs : List Command) (db : Db) → IsRecorded db → IsRecorded (replay cs db)
replay-IsRecorded = replay_induction IsRecorded run-IsRecorded
