-- ===== src/Jobs/Ended.antt =====
-- The attempts of the leases that `finish`, `schedule_retry` and `quarantine` end.

use vlytics.Jobs.Settle.{settle_attempt-zero}
use vlytics.Jobs.ById.{first-id_none, first-id, count-id, same_as}
use vlytics.Jobs
use vlytics.Prelude.{
  ℕ, ◌≡◌, refl, inl, inr, Bool, true, ◌&&◌, Option, none, some, List, ◌∷◌, arith, Option-cases,
  Bool-cases, first, Distinct, count, ==_iff, first_holds, ◌∙◌, sym,
}
use vlytics.Jobs.{
  Job, Attempt, Db, Result, ok, err, ◌>>=◌, has_id, find, active_attempt, record_attempt, Outcome,
  is_running, ErrorCode, owned, insert_attempt, Details, settle_attempt, count, >>=-eq-ok, live,
  may_quarantine, abandon_all, earliest, candidates, deadline_expired, is_overdue, is_ready,
  abandon, lease_expired, Result-cases,
}
use vlytics.Jobs.Rows.{same_id}
use vlytics.Jobs.Log.{IsFor, Extends, Extends-same, insert_attempt-Extends}
use vlytics.Jobs.Command.{
  Command, enqueue, lease_next, finish, renew_lease, schedule_retry, quarantine, run, guard, second,
}

-- The rows whose lease a call may end: those of its UPDATE, or the one that `lease_next` picks.
abbrev pub Chosen : Command → Db → Job → Type 0
Chosen (lease_next locked _ now _) db j =
    earliest (candidates (is_ready now) locked db.jobs) ≡ some j
Chosen (enqueue _ _ _) db j = ⊥
Chosen (renew_lease _ _ _ _) db j = ⊥
Chosen c db j = guard c j ≡ true

-- The attempt of a running job whose lease the call `c` may end.
abbrev pub Ended : Command → Db → Attempt → Type 0
Ended c db a = (j : Job) × (find j.id db.jobs ≡ some j) × Chosen c db j × IsFor j a

record_attempt-cases :
    (i owner : ℕ) (outcome : Outcome) (code : Option ErrorCode) (now n t : ℕ)
    (log log' : List Attempt)
    → record_attempt i owner 1 outcome code now (n, t) log ≡ ok log'
    → (a : Attempt) × (a.job_id ≡ i) × (a.attempt_no ≡ n) × (insert_attempt a log ≡ ok log')
unfolding record_attempt
record_attempt-cases i owner outcome code now n t log log' e = (
  record {
    job_id = i;
    attempt_no = n;
    lease_owner = owner;
    started_at = t;
    completed_at = now;
    outcome = outcome;
    error_code = code;
    details = Details.plain;
  },
  refl,
  refl,
  e,
)

-- The attempt that `_active_attempt` read is that of the row.
active_attempt-cases :
    (i owner n t : ℕ) (db : Db)
    → Distinct same_id db.jobs
    → active_attempt i owner db ≡ ok (some (n, t))
    → (r : Job) × (find i db.jobs ≡ some r) × (is_running r.state ≡ true) × (r.attempt_no ≡ n)
active_attempt-cases i owner n t db d e = elim (Option-cases (find i db.jobs)) [
  | inl none_here ↦
      absurd
        (unfold active_attempt in ground (arith, first-id_none (owned owner) i db.jobs none_here))
  | inr (r, found) ↦ elim (Bool-cases (owned owner r)) [
    | inl held ↦ (
      r,
      found,
      ground arith,
      unfold active_attempt in ground (arith, first-id (owned owner) i db.jobs r d found),
    )
    | inr free ↦
        absurd (unfold active_attempt in ground (arith, first-id (owned owner) i db.jobs r d found))
  ]
]

module _ (db : Db) (c : Command) (q : Job → Bool) (i owner : ℕ) (outcome : Outcome)
    (code : Option ErrorCode) (now : ℕ)
    (link : (j : Job) → j.id ≡ i → q j ≡ true → Chosen c db j) where
  settle-Extends :
      (o : Option (ℕ × ℕ)) (log' : List Attempt)
      → Distinct same_id db.jobs
      → active_attempt i owner db ≡ ok o
      → settle_attempt i owner
          (count (λ j. has_id i j && q j) db.jobs)
          outcome
          code
          now
          o
          db.attempts
        ≡ ok log'
      → Extends (Ended c db) db.attempts log'
  settle-Extends none log' d h e = Extends-same _ _ log' (cc)
  settle-Extends (some (n, t)) log' d h e =
      let (r, found, running, num) = active_attempt-cases i owner n t db d h in
      let same : r.id ≡ i =
        (==_iff r.id i).0 (unfold find in first_holds (has_id i) db.jobs r found) in
      elim (Bool-cases (q r)) [
        | inl passes ↦
            let (a, for_job, numbered, inserted) =
              record_attempt-cases i owner outcome code now n t db.attempts log'
                (rw (count-id q i db.jobs r d found, passes) at e) in
            insert_attempt-Extends (Ended c db) a db.attempts log'
              (
                r,
                rw same found,
                link r same passes,
                (running, for_job ∙ sym same, numbered ∙ sym num),
              )
              inserted
        | inr fails ↦ Extends-same _ _ log' (
            cc (
              settle_attempt-zero i owner outcome code now (some (n, t)) db.attempts,
              rw (count-id q i db.jobs r d found, fails) at e,
            ))
      ]

two_steps :
    {O L : Type 0} (m : Result O) (k : O → Result L) (f : O → L → Bool × Db) {db' : Db}
    → second (m >>= λ o. k o >>= λ l. ok (f o l)) ≡ ok db'
    → (o : O) × (l : L) × (m ≡ ok o) × (k o ≡ ok l) × ((f o l).1 ≡ db')
two_steps m k f e =
    let (p, e₁, e₂) = >>=-eq-ok (m >>= λ o. k o >>= λ l. ok (f o l)) (λ r. ok r.1) e in
    let (o, h, e₃) = >>=-eq-ok m _ e₁ in let (l, h', e₄) = >>=-eq-ok (k o) _ e₃ in (o, l, h, h', cc)

pub finish-Extends :
    (i owner now : ℕ) (success : Bool) (code : Option ErrorCode) (db db' : Db)
    → Distinct same_id db.jobs
    → run (finish i owner success code now) db ≡ ok db'
    → Extends (Ended (finish i owner success code now) db) db.attempts db'.attempts
unfolding run Jobs.finish
finish-Extends i owner now success code db db' d e =
    let (o, log, h, settled, made) = two_steps (active_attempt i owner db) _ _ e in
    rw (← made) (
      settle-Extends db (finish i owner success code now) (live owner now) i owner _ _ now
        (λ j s l. (ground arith)) o log d h settled)

pub schedule_retry-Extends :
    (i owner now retry_at : ℕ) (code : ErrorCode) (db db' : Db)
    → Distinct same_id db.jobs
    → run (schedule_retry i owner retry_at code now) db ≡ ok db'
    → Extends (Ended (schedule_retry i owner retry_at code now) db) db.attempts db'.attempts
unfolding run Jobs.schedule_retry
schedule_retry-Extends i owner now retry_at code db db' d e =
    let (o, log, h, settled, made) = two_steps (active_attempt i owner db) _ _ e in
    rw (← made) (
      settle-Extends db (schedule_retry i owner retry_at code now) (live owner now) i owner _ _ now
        (λ j s l. (ground arith)) o log d h settled)

pub quarantine-Extends :
    (i owner now : ℕ) (code : ErrorCode) (db db' : Db)
    → Distinct same_id db.jobs
    → run (quarantine i owner code now) db ≡ ok db'
    → Extends (Ended (quarantine i owner code now) db) db.attempts db'.attempts
unfolding run Jobs.quarantine
quarantine-Extends i owner now code db db' d e =
    let (o, log, h, settled, made) = two_steps (active_attempt i owner db) _ _ e in
    rw (← made) (
      settle-Extends db (quarantine i owner code now) (may_quarantine owner now) i owner _ _ now
        (λ j s l. (ground arith)) o log d h settled)

pub found_below :
    (x j : Job) (js : List Job)
    → find x.id js ≡ none
    → find j.id js ≡ some j
    → find j.id (x ∷ js) ≡ some j
unfolding find first
found_below x j js apart h = ground (arith, same_as j.id x js)

pub found_here : (x : Job) (js : List Job) → find x.id (x ∷ js) ≡ some x
unfolding find first
found_here x js = ground arith
