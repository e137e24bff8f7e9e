-- ===== src/Jobs/Lease.antt =====
-- What `lease_next` grants.
use vlytics.Jobs.Rows.{find-earliest}
use vlytics.Jobs.Tables.{IsSound}
use mathlib.Core.Path.{subst}
use vlytics.Prelude.{
  ◌≤◌, ◌<◌, ◌≡◌, refl, ◌⊎◌, true, false, none, List, [], ◌∷◌, arith, All, Option-cases, inl, inr,
  All-mono, ◌&&◌, not, update, first-update, ◌∙◌, ◌+◌,
}
use vlytics.Jobs.{
  Job, before, earliest, some, ℕ, Bool, Db, lease_next, ok, find, is_ready, not, candidates, leased,
  update, has_id, live,
}

-- `c` does not come after `k` in ORDER BY due_at, created_at.
abbrev pub Precedes : Job → Job → Type 0
Precedes c k = (c.due_at < k.due_at) ⊎ ((c.due_at ≡ k.due_at) × (c.created_at ≤ k.created_at))

Precedes-trans : (a b c : Job) → Precedes a b → Precedes b c → Precedes a c
Precedes-trans a b c h k = omega arith

before_or : (a b : Job) → (before a b ≡ true × Precedes a b) ⊎ (before a b ≡ false × Precedes b a)
before_or a b = ground arith

earliest-none : (js : List Job) → earliest js ≡ none → js ≡ []
unfolding earliest
earliest-none [] h = refl
earliest-none (j ∷ js) h = ground arith

Precedes-refl : (j : Job) → Precedes j j
Precedes-refl j = omega arith

earliest-Precedes : (js : List Job) (c : Job) → earliest js ≡ some c → All (Precedes c) js
unfolding earliest
earliest-Precedes [] c h = tt
earliest-Precedes (j ∷ js) c h = elim (Option-cases (earliest js)) [
  | inl e ↦
      subst (λ x. All (Precedes x) (j ∷ js)) (only e) (Precedes-refl j, rw (earliest-none js e) tt)
  | inr (k, e) ↦ elim (before_or j k) [
    | inl (b, p) ↦
        subst (λ x. All (Precedes x) (j ∷ js)) (left k e b)
          (Precedes-refl j, All-mono js (λ x. Precedes-trans j k x p) (earliest-Precedes js k e))
    | inr (b, p) ↦
        subst (λ x. All (Precedes x) (j ∷ js)) (right k e b) (p, earliest-Precedes js k e)
  ]
]
  where
    only : earliest js ≡ none → j ≡ c
    only e = ground arith

    left : (k : Job) → earliest js ≡ some k → before j k ≡ true → j ≡ c
    left k e b = ground arith

    right : (k : Job) → earliest js ≡ some k → before j k ≡ false → k ≡ c
    right k e b = ground arith

pub find-update_self :
    (f : Job → Job) (c : Job) (js : List Job)
    → ((i : ℕ) (j : Job) → has_id i (f j) ≡ has_id i j)
    → find c.id js ≡ some c
    → find c.id (update (has_id c.id) f js) ≡ some (f c)
unfolding find
find-update_self f c js keeps h =
    first-update (has_id c.id) (has_id c.id) f js (keeps c.id) h ∙ ground arith

pub same_id-leased :
    (owner now duration i : ℕ) (j : Job) → has_id i (leased owner now duration j) ≡ has_id i j
unfolding leased
same_id-leased owner now duration i j = refl

-- In sound tables, a job that `lease_next` returns is the row of its id, was due, before its
-- deadline, free and unlocked, comes before no other such row in the order by due and creation
-- time, and stands in the table as returned.
pub lease_next_row :
    (locked : ℕ → Bool) (owner now duration : ℕ) (db db' : Db) {j : Job}
    → IsSound db
    → lease_next locked owner now duration db ≡ ok (some j, db')
    → (c : Job) × (find c.id db.jobs ≡ some c)
      × ((is_ready now c && not (locked c.id)) ≡ true)
      × All (Precedes c) (candidates (is_ready now) locked db.jobs)
      × (j ≡ leased owner now duration c)
      × (find c.id db'.jobs ≡ some j)
unfolding lease_next
lease_next_row locked owner now duration db db' {j} s h =
    elim (Option-cases (earliest (candidates (is_ready now) locked db.jobs))) [
      | inl idle ↦ absurd (nothing idle)
      | inr (c, e) ↦
          let c_lem : (find c.id db.jobs ≡ some c)
              × ((is_ready now c && not (locked c.id)) ≡ true) =
            find-earliest (λ x. is_ready now x && not (locked x.id)) db.jobs c s.0 e in
          (
            c,
            c_lem.0,
            c_lem.1,
            earliest-Precedes _ c e,
            (granted c e).0,
            rw ((granted c e).0, (granted c e).1)
                (find-update_self (leased owner now duration) c db.jobs
                  (same_id-leased owner now duration) c_lem.0),
          )
    ]
  where
    nothing : earliest (candidates (is_ready now) locked db.jobs) ≡ none → ⊥
    nothing e = ground arith

    granted :
        (c : Job)
        → earliest (candidates (is_ready now) locked db.jobs) ≡ some c
        → (j ≡ leased owner now duration c)
          × (db'.jobs ≡ update (has_id c.id) (leased owner now duration) db.jobs)
    granted c e = ground arith

-- A lease that was granted is live until it runs out.
pub leased_lem :
    (owner now duration clock : ℕ) (c j : Job)
    → j ≡ leased owner now duration c
    → clock < now + duration
    → (c.id ≡ j.id)
      × (live owner clock j ≡ true)
      × (j.lease_started_at ≡ some now)
      × (0 < j.attempt_no)
unfolding leased
leased_lem owner now duration clock c j e h = rw e (refl, ground arith, refl, omega arith)
