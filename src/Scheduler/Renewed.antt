-- ===== src/Scheduler/Renewed.antt =====
-- A worker that renews its lease in time keeps it.
use vlytics.Scheduler.Pool.{Pool, kept, renew_loop}
use vlytics.Jobs.Renew.{renew_lease-live}
use vlytics.Jobs.Tables.{IsSound}
use vlytics.Jobs.{Job, Db, find, live, owned, renewed}
use vlytics.Prelude.{
  ℕ, ◌≡◌, ◌<◌, ◌+◌, true, Option, some, List, [], ◌∷◌, at_most, if◌then◌else◌, arith, Bool-cases,
  inl, inr, refl,
}

-- Each tick comes before the lease that the ticks before it have renewed runs out.
abbrev pub Prompt : ℕ → ℕ → List ℕ → Type 0
Prompt duration until [] = Unit
Prompt duration until (t ∷ ticks) = (t < until) × Prompt duration (t + duration) ticks

-- When the lease runs out after the ticks before the deadline.
abbrev pub lease_end : Option ℕ → ℕ → ℕ → List ℕ → ℕ
lease_end deadline duration until [] = until
lease_end deadline duration until (t ∷ ticks) =
    let rest = lease_end deadline duration (t + duration) ticks in
    if at_most deadline t then until else rest

-- In sound tables, if every tick comes before the lease runs out that the ticks before it have
-- renewed, the renewal thread ends without a loss or an error, and the lease is live until the
-- duration after the last tick before the deadline.
pub renew_loop_keeps :
    (p : Pool) (i until : ℕ) (ticks : List ℕ) (db : Db) (r : Job)
    → 0 < p.lease_duration
    → IsSound db
    → find i db.jobs ≡ some r
    → owned p.lease_owner r ≡ true
    → r.lease_until ≡ some until
    → Prompt p.lease_duration until ticks
    → (db' : Db) × (r' : Job) × (renew_loop p i r.deadline_at ticks db ≡ (kept, db'))
      × (find i db'.jobs ≡ some r')
      × ((t : ℕ)
          → t < lease_end r.deadline_at p.lease_duration until ticks
          → live p.lease_owner t r' ≡ true)
unfolding renew_loop
renew_loop_keeps p i until [] db r d sound found own ends prompt =
    (db, r, refl, found, λ t h. ground arith)
renew_loop_keeps p i until (t ∷ ticks) db r d sound found own ends (early, prompt) =
    elim (Bool-cases (at_most r.deadline_at t)) [
      | inl late ↦ (db, r, rw late refl, found, λ u h. ground arith)
      | inr before ↦
          let (db₁, e, sound₁, found₁) =
            renew_lease-live i p.lease_owner t p.lease_duration db d sound found (ground arith)
              (ground arith) in
          let (db', r', e', found', alive) =
            renew_loop_keeps p i (t + p.lease_duration) ticks db₁ (renewed t p.lease_duration r) d
              sound₁ found₁ own refl prompt in
          (db', r', rw (before, e) e', found', λ u h. alive u (rw before at h))
    ]
