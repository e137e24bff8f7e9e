-- ===== src/Jobs/Command.antt =====
-- The calls of `JobRepository` that change the tables, as data: a history of the queue is a list of
-- these. A call that raises rolls its transaction back.
use vlytics.Prelude.{refl, ℕ, Bool, false, not, ◌&&◌, Option, some, List, [], ◌∷◌, holds, ◌≡◌}
use vlytics.Jobs.{
  State, ErrorCode, deadline_expired, Job, Request, Db, Result, ok, err, ◌>>=◌, has_id, live,
  in_time, is_unfinished, is_ready, is_overdue, may_quarantine, is_affected, leased, finished,
  renewed, retried, released,
}
use vlytics.Jobs

pub data Command : Type 0 where
  enqueue : ℕ → ℕ → Request → Command
  lease_next : (ℕ → Bool) → ℕ → ℕ → ℕ → Command
  finish : ℕ → ℕ → Bool → Option ErrorCode → ℕ → Command
  renew_lease : ℕ → ℕ → ℕ → ℕ → Command
  schedule_retry : ℕ → ℕ → ℕ → ErrorCode → ℕ → Command
  expire_due : (ℕ → Bool) → ℕ → Command
  quarantine : ℕ → ℕ → ErrorCode → ℕ → Command
  cancel_schedule_revision : ℕ → ℕ → ErrorCode → Command
  cancel_match_jobs : ℕ → ℕ → ErrorCode → Option ℕ → Command

abbrev pub second {ℓ} : {A : Type ℓ} → Result (A × Db) → Result Db
second r = do (_, db) ← r; ok db

unfoldable pub run : Command → Db → Result Db
run (enqueue id stamp q) db = second (Jobs.enqueue id stamp q db)
run (lease_next locked owner now duration) db =
    second (Jobs.lease_next locked owner now duration db)
run (finish i owner success code now) db = second (Jobs.finish i owner success code now db)
run (renew_lease i owner now duration) db = second (Jobs.renew_lease i owner now duration db)
run (schedule_retry i owner retry_at code now) db =
    second (Jobs.schedule_retry i owner retry_at code now db)
run (expire_due locked now) db = second (Jobs.expire_due locked now db)
run (quarantine i owner code now) db = second (Jobs.quarantine i owner code now db)
run (cancel_schedule_revision revision now code) db =
    ok (Jobs.cancel_schedule_revision revision now code db).1
run (cancel_match_jobs match_id now code except) db =
    ok (Jobs.cancel_match_jobs match_id now code except db).1

-- The tables after a call, whether it returns or raises.
unfoldable pub after : Command → Db → Db
after c db = elim (run c db) [ ok db' ↦ db' | err _ ↦ db ]

unfoldable pub replay : List Command → Db → Db
replay [] db = db
replay (c ∷ cs) db = replay cs (after c db)

-- The rows that a call may change, and what it makes of them.
abbrev pub guard : Command → Job → Bool
guard (enqueue _ _ _) j = false
guard (lease_next locked _ now _) j = is_ready now j && not (locked j.id)
guard (finish i owner _ _ now) j = has_id i j && live owner now j
guard (renew_lease i owner now _) j = has_id i j && (live owner now j && in_time now j)
guard (schedule_retry i owner _ _ now) j = has_id i j && live owner now j
guard (expire_due locked now) j = is_overdue now j && not (locked j.id)
guard (quarantine i owner _ now) j = has_id i j && may_quarantine owner now j
guard (cancel_schedule_revision revision _ _) j =
    holds j.schedule_revision_id revision && is_unfinished j.state
guard (cancel_match_jobs match_id _ _ except) j = is_affected match_id except j

abbrev pub target : Command → Job → Job
target (enqueue _ _ _) j = j
target (lease_next _ owner now duration) j = leased owner now duration j
target (finish _ _ success code now) j = finished success code now j
target (renew_lease _ _ now duration) j = renewed now duration j
target (schedule_retry _ _ retry_at code now) j = retried retry_at code now j
target (expire_due _ now) j = released State.expired (some deadline_expired) now j
target (quarantine _ _ code now) j = released State.quarantined (some code) now j
target (cancel_schedule_revision _ now code) j = released State.cancelled (some code) now j
target (cancel_match_jobs _ now code _) j = released State.cancelled (some code) now j

-- What holds of the tables before a call and after each call that returns, holds after it.
pub after_induction {κ} :
    (P : Db → Type κ) (c : Command) (db : Db)
    → P db
    → ((db' : Db) → run c db ≡ ok db' → P db')
    → P (after c db)
unfolding after
after_induction P c db h step = go (run c db) refl
  where
    go : (r : Result Db) → run c db ≡ r → P (elim r [ ok db' ↦ db' | err _ ↦ db ])
    go (ok db') e = step db' e
    go (err _) e = h

pub replay_induction {κ} :
    (P : Db → Type κ)
    → ((c : Command) (db db' : Db) → P db → run c db ≡ ok db' → P db')
    → (cs : List Command) (db : Db) → P db
    → P (replay cs db)
unfolding replay
replay_induction P step [] db h = h
replay_induction P step (c ∷ cs) db h =
    replay_induction P step cs (after c db) (after_induction P c db h (λ db'. step c db db' h))
