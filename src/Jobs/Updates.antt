-- ===== src/Jobs/Updates.antt =====
-- The table of jobs after each call of `JobRepository`.
use vlytics.Prelude.{
  ℕ, ◌≡◌, refl, ◌⊎◌, inl, inr, Bool, true, Option, some, List, [], ◌∷◌, arith, Option-cases, first,
  update, ◌++◌,
}
use vlytics.Jobs.{
  Request, new_row, Job, Db, Result, ok, err, ◌>>=◌, has_id, find, earliest, candidates, before,
  passes_checks, conflicts, leased, finished, retried, active_attempt, record_attempt, abandon,
  abandon_all, is_ready, none, not,
}
use vlytics.Jobs
use vlytics.Jobs.Command.{
  Command, enqueue, lease_next, finish, renew_lease, schedule_retry, expire_due, quarantine,
  cancel_schedule_revision, cancel_match_jobs, run, guard, target,
}

pub id-target : (c : Command) (j : Job) → (target c j).id ≡ j.id
unfolding leased finished retried
id-target (enqueue _ _ _) j = refl
id-target _ j = ground arith

-- The calls other than `enqueue` and `lease_next` are one UPDATE of the rows that pass their guard.
abbrev pub Updates : Command → Type 0
Updates c = (db db' : Db) → run c db ≡ ok db' → db'.jobs ≡ update (guard c) (target c) db.jobs

module _ (i owner now : ℕ) where
  pub finish-Updates : (success : Bool) (code : _) → Updates (finish i owner success code now)
  unfolding run Jobs.finish
  finish-Updates success code db db' h = ground arith

  pub renew_lease-Updates : (duration : ℕ) → Updates (renew_lease i owner now duration)
  unfolding run Jobs.renew_lease
  renew_lease-Updates duration db db' h = ground arith

  pub schedule_retry-Updates :
      (retry_at : ℕ) (code : _) → Updates (schedule_retry i owner retry_at code now)
  unfolding run Jobs.schedule_retry
  schedule_retry-Updates retry_at code db db' h = ground arith

  pub quarantine-Updates : (code : _) → Updates (quarantine i owner code now)
  unfolding run Jobs.quarantine
  quarantine-Updates code db db' h = ground arith

pub expire_due-Updates : (locked : ℕ → Bool) (now : ℕ) → Updates (expire_due locked now)
unfolding run Jobs.expire_due
expire_due-Updates locked now db db' h = ground arith

pub cancel_schedule_revision-Updates :
    (revision now : ℕ) (code : _) → Updates (cancel_schedule_revision revision now code)
unfolding run Jobs.cancel_schedule_revision
cancel_schedule_revision-Updates revision now code db db' h = ground arith

pub cancel_match_jobs-Updates :
    (match_id now : ℕ) (code : _) (except : Option ℕ)
    → Updates (cancel_match_jobs match_id now code except)
unfolding run Jobs.cancel_match_jobs
cancel_match_jobs-Updates match_id now code except db db' h = ground arith

pub lease_next-picked :
    (locked : ℕ → Bool) (owner now duration : ℕ) (db db' : Db) (c : Job)
    → earliest (candidates (is_ready now) locked db.jobs) ≡ some c
    → run (lease_next locked owner now duration) db ≡ ok db'
    → db'.jobs ≡ update (has_id c.id) (leased owner now duration) db.jobs
unfolding run Jobs.lease_next
lease_next-picked locked owner now duration db db' c picked h = ground arith

pub lease_next-jobs :
    (locked : ℕ → Bool) (owner now duration : ℕ) (db db' : Db)
    → run (lease_next locked owner now duration) db ≡ ok db'
    → (db'.jobs ≡ db.jobs)
      ⊎ ((c : Job) × (earliest (candidates (is_ready now) locked db.jobs) ≡ some c)
          × (db'.jobs ≡ update (has_id c.id) (leased owner now duration) db.jobs))
unfolding run Jobs.lease_next
lease_next-jobs locked owner now duration db db' h =
    elim (Option-cases (earliest (candidates (is_ready now) locked db.jobs))) [
      | inl idle ↦ inl (ground arith)
      | inr (c, e) ↦ inr (c, e, ground arith)
    ]

pub enqueue-jobs :
    (id stamp : ℕ) (q : Request) (db db' : Db)
    → run (enqueue id stamp q) db ≡ ok db'
    → (db'.jobs ≡ db.jobs)
      ⊎ ((passes_checks (new_row id stamp q) ≡ true)
          × (first (conflicts (new_row id stamp q)) db.jobs ≡ none)
          × (db'.jobs ≡ db.jobs ++ new_row id stamp q ∷ []))
unfolding run Jobs.enqueue
enqueue-jobs id stamp q db db' h = ground arith

-- The rows that the UPDATE of a call writes: `lease_next` writes the row that it picked.
abbrev pub MayTouch : Command → Job → Type 0
MayTouch (lease_next _ _ _ _) j = Unit
MayTouch c j = guard c j ≡ true

-- The table of jobs after a call.
pub data Shape (c : Command) (js js' : List Job) : Type 0 where
  same : js' ≡ js → Shape c js js'
  appended :
      (id stamp : ℕ) (q : Request)
      → passes_checks (new_row id stamp q) ≡ true
      → first (conflicts (new_row id stamp q)) js ≡ none
      → js' ≡ js ++ new_row id stamp q ∷ []
      → Shape c js js'
  updated :
      (p : Job → Bool)
      → ((j : Job) → p j ≡ true → MayTouch c j)
      → js' ≡ update p (target c) js
      → Shape c js js'

pub run-Shape : (c : Command) (db db' : Db) → run c db ≡ ok db' → Shape c db.jobs db'.jobs
run-Shape (enqueue id stamp q) db db' h = elim (enqueue-jobs id stamp q db db' h) [
  | inl e ↦ same e
  | inr (checked, clear, e) ↦ appended id stamp q checked clear e
]
run-Shape (lease_next locked owner now duration) db db' h =
    elim (lease_next-jobs locked owner now duration db db' h) [
      | inl e ↦ same e
      | inr (c, _, e) ↦ updated (has_id c.id) (λ j _. tt) e
    ]
run-Shape (finish i owner success code now) db db' h =
    updated _ (λ j e. e) (finish-Updates i owner now success code db db' h)
run-Shape (renew_lease i owner now duration) db db' h =
    updated _ (λ j e. e) (renew_lease-Updates i owner now duration db db' h)
run-Shape (schedule_retry i owner retry_at code now) db db' h =
    updated _ (λ j e. e) (schedule_retry-Updates i owner now retry_at code db db' h)
run-Shape (expire_due locked now) db db' h =
    updated _ (λ j e. e) (expire_due-Updates locked now db db' h)
run-Shape (quarantine i owner code now) db db' h =
    updated _ (λ j e. e) (quarantine-Updates i owner now code db db' h)
run-Shape (cancel_schedule_revision revision now code) db db' h =
    updated _ (λ j e. e) (cancel_schedule_revision-Updates revision now code db db' h)
run-Shape (cancel_match_jobs match_id now code except) db db' h =
    updated _ (λ j e. e) (cancel_match_jobs-Updates match_id now code except db db' h)
