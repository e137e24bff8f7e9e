-- ===== src/Jobs/History.antt =====
-- Which attempts the calls of `JobRepository` add to the log, and that no lease is recorded twice.
use vlytics.Jobs.Ended.{
  Ended, finish-Extends, schedule_retry-Extends, quarantine-Extends, found_below, found_here,
}
use vlytics.Jobs.Tables.{IsSound}
use vlytics.Jobs
use vlytics.Prelude.{
  ℕ, ◌≡◌, inl, inr, Bool, true, not, ◌&&◌, some, List, [], ◌∷◌, All, arith, select, Option-cases,
  Bool-cases, Distinct, All-mono,
}
use vlytics.Jobs.{
  Job, Attempt, Db, Result, ok, err, ◌>>=◌, has_id, find, active_attempt, record_attempt, Outcome,
  is_running, ErrorCode, owned, insert_attempt, Details, settle_attempt, count, >>=-eq-ok, live,
  may_quarantine, abandon_all, earliest, candidates, deadline_expired, is_overdue, is_ready,
  abandon, lease_expired, Result-cases,
}
use vlytics.Jobs.Rows.{same_id, find-earliest}
use vlytics.Jobs.Log.{Extends, Extends-same, abandon_all-Extends, abandon-Extends}
use vlytics.Jobs.Command.{
  Command, enqueue, lease_next, finish, renew_lease, schedule_retry, expire_due, quarantine,
  cancel_schedule_revision, cancel_match_jobs, run, second,
}

-- A row that a SELECT finds is the row of its id.
select_found :
    (p : Job → Bool) (js : List Job)
    → Distinct same_id js
    → All (λ j. (find j.id js ≡ some j) × (p j ≡ true)) (select p js)
unfolding select
select_found p [] d = tt
select_found p (x ∷ js) d =
    let rest : All (λ j. (find j.id (x ∷ js) ≡ some j) × (p j ≡ true)) (select p js) =
      All-mono (select p js) (λ j h. (found_below x j js (unfold find in d.0) h.0, h.1))
        (select_found p js d.1) in
    elim (Bool-cases (p x)) [ inl e ↦ rw e ((found_here x js, e), rest) | inr e ↦ rw e rest ]

one_step :
    {L A : Type 0} (k : Result L) (f : L → A × Db) {db' : Db}
    → second (k >>= λ l. ok (f l)) ≡ ok db'
    → (l : L) × (k ≡ ok l) × ((f l).1 ≡ db')
one_step k f e =
    let (p, e₁, e₂) = >>=-eq-ok (k >>= λ l. ok (f l)) (λ r. ok r.1) e in
    let (l, h, e₃) = >>=-eq-ok k _ e₁ in (l, h, cc)

expire_due-Extends :
    (locked : ℕ → Bool) (now : ℕ) (db db' : Db)
    → Distinct same_id db.jobs
    → run (expire_due locked now) db ≡ ok db'
    → Extends (Ended (expire_due locked now) db) db.attempts db'.attempts
unfolding run Jobs.expire_due
expire_due-Extends locked now db db' d e =
    let (log, h, made) =
      one_step
        (abandon_all deadline_expired Details.expired now
          (candidates (is_overdue now) locked db.jobs) db.attempts)
        _ e in
    rw (← made) (
      abandon_all-Extends (Ended (expire_due locked now) db) _ _ now _ db.attempts log
        (All-mono _ (λ j f a i. (j, f.0, f.1, i))
          (select_found (λ j. is_overdue now j && not (locked j.id)) db.jobs d))
        h)

lease_next-log :
    (locked : ℕ → Bool) (owner now duration : ℕ) (db db' : Db) (c : Job)
    → earliest (candidates (is_ready now) locked db.jobs) ≡ some c
    → run (lease_next locked owner now duration) db ≡ ok db'
    → abandon lease_expired Details.recovered now c db.attempts ≡ ok db'.attempts
unfolding run Jobs.lease_next
lease_next-log locked owner now duration db db' c picked e =
    elim (Result-cases (abandon lease_expired Details.recovered now c db.attempts)) [
      | inl (log, h) ↦ ground arith
      | inr (x, h) ↦ absurd (ground arith)
    ]

lease_next-Extends :
    (locked : ℕ → Bool) (owner now duration : ℕ) (db db' : Db)
    → Distinct same_id db.jobs
    → run (lease_next locked owner now duration) db ≡ ok db'
    → Extends (Ended (lease_next locked owner now duration) db) db.attempts db'.attempts
lease_next-Extends locked owner now duration db db' d e =
    elim (Option-cases (earliest (candidates (is_ready now) locked db.jobs))) [
      | inl idle ↦ Extends-same _ _ _ (unfold run Jobs.lease_next in ground arith)
      | inr (c, picked) ↦
          let f : (find c.id db.jobs ≡ some c) × ((is_ready now c && not (locked c.id)) ≡ true) =
            find-earliest (λ j. is_ready now j && not (locked j.id)) db.jobs c d picked in
          abandon-Extends _ _ _ now c db.attempts db'.attempts (λ a i. (c, f.0, picked, i))
            (lease_next-log locked owner now duration db db' c picked e)
    ]

-- A call adds to the log only attempts of leases that it may end, under the numbers that their rows
-- bear, removes nothing, and repeats no attempt.
pub run-Extends :
    (c : Command) (db db' : Db)
    → IsSound db
    → run c db ≡ ok db'
    → Extends (Ended c db) db.attempts db'.attempts
run-Extends (enqueue id stamp q) db db' s e =
    Extends-same _ _ _ (unfold run Jobs.enqueue in ground arith)
run-Extends (lease_next locked owner now duration) db db' s e =
    lease_next-Extends locked owner now duration db db' s.0 e
run-Extends (finish i owner success code now) db db' s e =
    finish-Extends i owner now success code db db' s.0 e
run-Extends (renew_lease i owner now duration) db db' s e =
    Extends-same _ _ _ (unfold run Jobs.renew_lease in ground arith)
run-Extends (schedule_retry i owner retry_at code now) db db' s e =
    schedule_retry-Extends i owner now retry_at code db db' s.0 e
run-Extends (expire_due locked now) db db' s e = expire_due-Extends locked now db db' s.0 e
run-Extends (quarantine i owner code now) db db' s e =
    quarantine-Extends i owner now code db db' s.0 e
run-Extends (cancel_schedule_revision revision now code) db db' s e =
    Extends-same _ _ _ (unfold run Jobs.cancel_schedule_revision in ground arith)
run-Extends (cancel_match_jobs match_id now code except) db db' s e =
    Extends-same _ _ _ (unfold run Jobs.cancel_match_jobs in ground arith)
