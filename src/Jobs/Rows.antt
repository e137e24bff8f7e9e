-- ===== src/Jobs/Rows.antt =====
-- What each call of `JobRepository` does to the row with a given id.
use vlytics.Prelude.{
  ◌&&◌, if◌then◌else◌, first_holds, ℕ, ◌≡◌, refl, ◌⊎◌, inl, inr, Bool, true, some, List, [], ◌∷◌,
  arith, first, select, update, Distinct, first-append, first-update, Bool-cases, ◌∙◌,
}
use vlytics.Jobs.{
  Request, new_row, Job, Db, ok, has_id, find, earliest, candidates, leased, is_ready, not,
}
use vlytics.Jobs.Command.{
  Command, enqueue, lease_next, finish, renew_lease, schedule_retry, expire_due, quarantine,
  cancel_schedule_revision, cancel_match_jobs, run, guard, target,
}
use vlytics.Jobs.Updates.{
  id-target, Updates, finish-Updates, renew_lease-Updates, schedule_retry-Updates,
  quarantine-Updates, expire_due-Updates, cancel_schedule_revision-Updates,
  cancel_match_jobs-Updates, lease_next-jobs, enqueue-jobs,
}

abbrev pub same_id : Job → Job → Bool
same_id j k = has_id j.id k

-- The row that `earliest` picks is the one that its id finds, and passes the test.
pub find-earliest :
    (p : Job → Bool) (js : List Job) (c : Job)
    → Distinct same_id js
    → earliest (select p js) ≡ some c
    → (find c.id js ≡ some c) × (p c ≡ true)
unfolding earliest select find first
find-earliest p [] c d h = ground arith
find-earliest p (j ∷ js) c d h = grind (arith, find-earliest p js c d.1, find-earliest p js)

-- What a call leaves in a row: it is kept, or it passed the guard and is now the target.
abbrev pub Follows : Command → Job → Job → Type 0
Follows c r r' = (r' ≡ r) ⊎ ((guard c r ≡ true) × (r' ≡ target c r))

abbrev pub RowFollows : Command → ℕ → Job → List Job → Type 0
RowFollows c i r js = (r' : Job) × (find i js ≡ some r') × Follows c r r'

has_id-target : (c : Command) (i : ℕ) (j : Job) → has_id i (target c j) ≡ has_id i j
has_id-target c i j = rw (id-target c j)

pub update-RowFollows :
    (c : Command) (i : ℕ) (r : Job) (js : List Job)
    → find i js ≡ some r
    → RowFollows c i r (update (guard c) (target c) js)
unfolding find
update-RowFollows c i r js h = elim (Bool-cases (guard c r)) [
  | inl e ↦ (target c r, found ∙ rw e, inr (e, refl))
  | inr e ↦ (r, found ∙ rw e, inl refl)
]
  where
    found :
        first (has_id i) (update (guard c) (target c) js)
        ≡ some (if guard c r then target c r else r)
    found = first-update (has_id i) (guard c) (target c) js (has_id-target c i) h

Updates-RowFollows :
    (c : Command) (i : ℕ) (r : Job) (db db' : Db)
    → Updates c
    → find i db.jobs ≡ some r
    → run c db ≡ ok db'
    → RowFollows c i r db'.jobs
Updates-RowFollows c i r db db' u h e = rw (u db db' e) (update-RowFollows c i r db.jobs h)

picked-RowFollows :
    (locked : ℕ → Bool) (owner now duration i : ℕ) (r c : Job) (js : List Job)
    → Distinct same_id js
    → find i js ≡ some r
    → earliest (candidates (is_ready now) locked js) ≡ some c
    → RowFollows
        (lease_next locked owner now duration)
        i
        r
        (update (has_id c.id) (leased owner now duration) js)
unfolding find
picked-RowFollows locked owner now duration i r c js d h picked =
    elim (Bool-cases (has_id c.id r)) [
      | inl same ↦ (leased owner now duration r, found ∙ rw same, inr (guarded same, refl))
      | inr other ↦ (r, found ∙ rw other, inl refl)
    ]
  where
    c_lem : (find c.id js ≡ some c) × ((is_ready now c && not (locked c.id)) ≡ true)
    c_lem = find-earliest (λ j. is_ready now j && not (locked j.id)) js c d picked

    found :
        first (has_id i) (update (has_id c.id) (leased owner now duration) js)
        ≡ some (if has_id c.id r then leased owner now duration r else r)
    found =
        first-update (has_id i) (has_id c.id) (leased owner now duration) js
          (has_id-target (lease_next locked owner now duration) i) h

    guarded : has_id c.id r ≡ true → guard (lease_next locked owner now duration) r ≡ true
    guarded same = ground (arith, c_lem.0, c_lem.1, first_holds (has_id i) js r h, h)

lease_next-RowFollows :
    (locked : ℕ → Bool) (owner now duration i : ℕ) (r : Job) (db db' : Db)
    → Distinct same_id db.jobs
    → find i db.jobs ≡ some r
    → run (lease_next locked owner now duration) db ≡ ok db'
    → RowFollows (lease_next locked owner now duration) i r db'.jobs
lease_next-RowFollows locked owner now duration i r db db' d h e =
    elim (lease_next-jobs locked owner now duration db db' e) [
      | inl same ↦ (r, rw same h, inl refl)
      | inr (c, picked, changed) ↦
          rw changed (picked-RowFollows locked owner now duration i r c db.jobs d h picked)
    ]

enqueue-RowFollows :
    (id stamp : ℕ) (q : Request) (i : ℕ) (r : Job) (db db' : Db)
    → find i db.jobs ≡ some r
    → run (enqueue id stamp q) db ≡ ok db'
    → RowFollows (enqueue id stamp q) i r db'.jobs
unfolding find
enqueue-RowFollows id stamp q i r db db' h e = elim (enqueue-jobs id stamp q db db' e) [
  | inl same ↦ (r, rw same h, inl refl)
  | inr (_, _, changed) ↦
      (r, rw changed (first-append (has_id i) db.jobs (new_row id stamp q ∷ []) r h), inl refl)
]

-- Every call, on the row that an id finds: it is there after the call too, and is kept unless the
-- guard of the call holds of it.
pub run-RowFollows :
    (c : Command) (i : ℕ) (r : Job) (db db' : Db)
    → Distinct same_id db.jobs
    → find i db.jobs ≡ some r
    → run c db ≡ ok db'
    → RowFollows c i r db'.jobs
run-RowFollows (enqueue id stamp q) i r db db' d h e = enqueue-RowFollows id stamp q i r db db' h e
run-RowFollows (lease_next locked owner now duration) i r db db' d h e =
    lease_next-RowFollows locked owner now duration i r db db' d h e
run-RowFollows (finish j owner s code now) i r db db' d h e =
    Updates-RowFollows _ i r db db' (finish-Updates j owner now s code) h e
run-RowFollows (renew_lease j owner now duration) i r db db' d h e =
    Updates-RowFollows _ i r db db' (renew_lease-Updates j owner now duration) h e
run-RowFollows (schedule_retry j owner retry_at code now) i r db db' d h e =
    Updates-RowFollows _ i r db db' (schedule_retry-Updates j owner now retry_at code) h e
run-RowFollows (expire_due locked now) i r db db' d h e =
    Updates-RowFollows _ i r db db' (expire_due-Updates locked now) h e
run-RowFollows (quarantine j owner code now) i r db db' d h e =
    Updates-RowFollows _ i r db db' (quarantine-Updates j owner now code) h e
run-RowFollows (cancel_schedule_revision revision now code) i r db db' d h e =
    Updates-RowFollows _ i r db db' (cancel_schedule_revision-Updates revision now code) h e
run-RowFollows (cancel_match_jobs match_id now code except) i r db db' d h e =
    Updates-RowFollows _ i r db db' (cancel_match_jobs-Updates match_id now code except) h e
