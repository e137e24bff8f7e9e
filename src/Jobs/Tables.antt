-- ===== src/Jobs/Tables.antt =====
-- What every call of `JobRepository` keeps true of the whole table of jobs: the ids and the keys are
-- unique, and each row passes the CHECK constraints of ops.jobs.
use vlytics.Prelude.{
  ◌&&◌, ◌==◌, ℕ, ◌≡◌, refl, true, false, ◌∷◌, Bool, List, [], All, All-append, All-update, text_eq,
  arith, Distinct, Distinct-append, Distinct-update, first-none-All, is_some,
}
use vlytics.Jobs.{
  Request, Job, Db, ok, conflicts, passes_checks, is_running, new_row, leased, finished, retried,
}
use vlytics.Jobs.Command.{Command, enqueue, run, target}
use vlytics.Jobs.Updates.{id-target, MayTouch, same, appended, updated, run-Shape}
use vlytics.Jobs.Rows.{same_id}

abbrev pub same_key : Job → Job → Bool
same_key j k = text_eq j.job_key k.job_key

key-target : (c : Command) (j : Job) → (target c j).job_key ≡ j.job_key
unfolding leased finished retried
key-target (enqueue _ _ _) j = refl
key-target _ j = ground arith

-- The CHECK constraints on the lease columns, those that an INSERT is held to, and the number
-- that an attempt's row wants.
pub record RowOk (j : Job) : Type 0 where
  pub checked : passes_checks j ≡ true
  pub owner_until : is_some j.lease_owner ≡ is_some j.lease_until
  pub running_owner : is_running j.state ≡ is_some j.lease_owner
  pub running_started : is_running j.state ≡ is_some j.lease_started_at
  pub running_numbered : (is_running j.state && j.attempt_no == 0) ≡ false

abbrev pub IsSound : Db → Type 0
IsSound db = Distinct same_id db.jobs × Distinct same_key db.jobs × All RowOk db.jobs

target-RowOk : (c : Command) (j : Job) → MayTouch c j → RowOk j → RowOk (target c j)
unfolding leased finished retried
target-RowOk (enqueue _ _ _) j g h = h
target-RowOk c j g h = ground arith

keep_apart :
    (same_as : Job → Job → Bool) (new : Job) (js : List Job)
    → ((j : Job) → conflicts new j ≡ false → same_as j new ≡ false)
    → All (λ j. conflicts new j ≡ false) js
    → All (λ j. same_as j new ≡ false) js
keep_apart same_as new [] h a = tt
keep_apart same_as new (j ∷ js) h a = (h j a.0, keep_apart same_as new js h a.1)

id_apart : (new j : Job) → conflicts new j ≡ false → same_id j new ≡ false
id_apart new j h = ground arith

key_apart : (new j : Job) → conflicts new j ≡ false → same_key j new ≡ false
key_apart new j h = ground arith

new-RowOk :
    (id stamp : ℕ) (q : Request)
    → passes_checks (new_row id stamp q) ≡ true
    → RowOk (new_row id stamp q)
new-RowOk id stamp q h = record {
  checked = h;
  owner_until = refl;
  running_owner = refl;
  running_started = refl;
  running_numbered = refl;
}

-- Every call that returns keeps ids and keys unique and every row within the constraints, so none of
-- its UPDATE statements is refused by them.
pub run-IsSound : (c : Command) (db db' : Db) → IsSound db → run c db ≡ ok db' → IsSound db'
run-IsSound c db db' (ids, keys, rows) e = elim (run-Shape c db db' e) [
  | same h ↦ rw h (ids, keys, rows)
  | appended id stamp q checked clear h ↦
      let new = new_row id stamp q in
      let a = first-none-All (conflicts new) db.jobs clear in
      rw h (
        Distinct-append same_id db.jobs new (keep_apart same_id new db.jobs (id_apart new) a) ids,
        Distinct-append same_key db.jobs new (keep_apart same_key new db.jobs (key_apart new) a)
            keys,
        All-append RowOk db.jobs (new ∷ []) rows (new-RowOk id stamp q checked, tt),
      )
  | updated p touched h ↦ rw h (
    Distinct-update same_id p (target c) db.jobs (λ j k. rw (id-target c j))
        (λ j k. rw (id-target c k)) ids,
    Distinct-update same_key p (target c) db.jobs (λ j k. rw (key-target c j))
        (λ j k. rw (key-target c k)) keys,
    All-update p (target c) db.jobs (λ j g. target-RowOk c j (touched j g)) rows,
  )
]
