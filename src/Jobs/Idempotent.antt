-- ===== src/Jobs/Idempotent.antt =====
-- Enqueuing the same work again adds no job.
use mathlib.Core.Path.{subst}
use vlytics.Prelude.{
  sym, All, All-append, if◌then◌else◌, ℕ, ◌≡◌, inl, inr, Bool, true, false, Option, none, some,
  List, [], ◌∷◌, ◌++◌, arith, select, Option-cases, Bool-cases, first, text_eq_refl, text_eq, ◌||◌,
  first_holds, leb, ap, first-All, first-none-All, first-append_none, ◌∙◌, first-append,
}
use vlytics.Jobs.{
  Job, Db, Request, new_row, ok, find, conflicts, same_job, oldest, enqueue, has_id, JobType,
  same_slot, same_indexed, same_number, is_engine_type, passes_checks, leb,
}

first_other :
    (p q : Job → Bool) (js : List Job) {x : Job}
    → q x ≡ true
    → first p js ≡ some x
    → (y : Job) × (first q js ≡ some y)
unfolding first
first_other p q [] t h = absurd (cc)
first_other p q (j ∷ js) {x} t h = elim (Bool-cases (q j)) [
  | inl e ↦ (j, rw e)
  | inr e ↦ let (y, found) = first_other p q js {x = x} t (ground arith) in (y, rw e found)
]

oldest_of : (j : Job) (js : List Job) → (y : Job) × (oldest (j ∷ js) ≡ some y)
unfolding oldest
oldest_of j js = elim (Option-cases (oldest js)) [
  | inl e ↦ (j, rw e)
  | inr (k, e) ↦ (if leb j.created_at k.created_at then j else k, rw e)
]

oldest_found :
    (q : Job → Bool) (js : List Job) {x : Job}
    → first q js ≡ some x
    → (y : Job) × (oldest (select q js) ≡ some y)
unfolding first select
oldest_found q [] h = absurd (cc)
oldest_found q (j ∷ js) {x} h = elim (Bool-cases (q j)) [
  | inl e ↦ rw e (oldest_of j (select q js))
  | inr e ↦ rw e (oldest_found q js {x = x} (ground arith))
]

-- A row that keeps the request out of the table by its key or its work, and not by its id.
abbrev meets : Job → Job → Bool
meets new j = text_eq j.job_key new.job_key || same_indexed new j

meets-conflicts : (new j : Job) → meets new j ≡ true → conflicts new j ≡ true
meets-conflicts new j h = ground arith

slot_number :
    (t : JobType) (a b : Option ℕ)
    → same_slot t a b ≡ true
    → (same_number a b ≡ true) × (is_engine_type t ≡ true)
slot_number t a b h = ground arith

meets-same_job : (new j : Job) → meets new j ≡ true → same_job new j ≡ true
meets-same_job new j h = ground (arith, slot_number new.job_type j.variant_id new.variant_id)

conflicts-meets :
    (new j : Job) → has_id new.id j ≡ false → conflicts new j ≡ true → meets new j ≡ true
conflicts-meets new j f h = ground arith

module _ (id stamp : ℕ) (q : Request) (db db' : Db) {j : Job}
    (e : enqueue id stamp q db ≡ ok (j, db')) where
  abbrev new : Job
  new = new_row id stamp q

  enqueue_checked : passes_checks new ≡ true
  unfolding enqueue
  enqueue_checked = elim (Bool-cases (passes_checks new)) [
    | inl h ↦ h
    | inr h ↦ absurd (ground arith)
  ]

  enqueue_adds : first (conflicts new) db.jobs ≡ none → db'.jobs ≡ db.jobs ++ new ∷ []
  unfolding enqueue
  enqueue_adds clear = ground (arith, enqueue_checked)

  enqueue_keeps : (x : Job) → first (conflicts new) db.jobs ≡ some x → db'.jobs ≡ db.jobs
  unfolding enqueue
  enqueue_keeps x found = ground (arith, enqueue_checked)

  meets_self : first (meets new) (new ∷ []) ≡ some new
  unfolding first
  meets_self = rw (text_eq_refl q.job_key)

  -- After a request there is a row that it met: the one that kept it out, or its own.
  enqueue-meets : find id db.jobs ≡ none → (x : Job) × (first (meets new) db'.jobs ≡ some x)
  enqueue-meets fresh = elim (Option-cases (first (conflicts new) db.jobs)) [
    | inl clear ↦ rw (enqueue_adds clear) (elim (Option-cases (first (meets new) db.jobs)) [
      | inl free ↦ (new, first-append_none (meets new) db.jobs (new ∷ []) free ∙ meets_self)
      | inr (x, found) ↦ (x, first-append (meets new) db.jobs (new ∷ []) x found)
    ])
    | inr (x, found) ↦ rw (enqueue_keeps x found) (
        first_other (conflicts new) (meets new) db.jobs
          (conflicts-meets new x (other x found) (first_holds (conflicts new) db.jobs x found))
          found)
  ]
    where
      other : (x : Job) → first (conflicts new) db.jobs ≡ some x → has_id id x ≡ false
      other x found =
          first-All (λ y. has_id id y ≡ false) (conflicts new) db.jobs
            (first-none-All (has_id id) db.jobs (unfold find in fresh)) found

-- A row of the table keeps the request out, by its key or its work.
abbrev pub IsMet : Request → Db → Type 0
IsMet q db =
    (passes_checks (new_row 0 0 q) ≡ true)
    × ((x : Job) × (first (meets (new_row 0 0 q)) db.jobs ≡ some x))

pub enqueue-IsMet :
    (id stamp : ℕ) (q : Request) (db db' : Db) {j : Job}
    → find id db.jobs ≡ none
    → enqueue id stamp q db ≡ ok (j, db')
    → IsMet q db'
enqueue-IsMet id stamp q db db' {j} fresh e =
    (enqueue_checked id stamp q db db' {j = j} e, enqueue-meets id stamp q db db' {j = j} e fresh)

-- Another request leaves it so.
pub enqueue-IsMet_other :
    (id stamp : ℕ) (q q' : Request) (db db' : Db) {j : Job}
    → enqueue id stamp q' db ≡ ok (j, db')
    → IsMet q db
    → IsMet q db'
enqueue-IsMet_other id stamp q q' db db' {j} e (checked, (x, met)) =
    elim (Option-cases (first (conflicts (new_row id stamp q')) db.jobs)) [
      | inl clear ↦ (
        checked,
        (
          x,
          ap (first (meets (new_row 0 0 q))) (enqueue_adds id stamp q' db db' {j = j} e clear)
              ∙ first-append (meets (new_row 0 0 q)) db.jobs (new_row id stamp q' ∷ []) x met,
        ),
      )
      | inr (y, found) ↦ (
        checked,
        (
          x,
          ap (first (meets (new_row 0 0 q))) (enqueue_keeps id stamp q' db db' {j = j} e y found)
              ∙ met,
        ),
      )
    ]

-- What holds of all rows and of the new one holds of all rows afterwards.
pub enqueue-All :
    (P : Job → Type 0) (id stamp : ℕ) (q : Request) (db db' : Db) {j : Job}
    → enqueue id stamp q db ≡ ok (j, db')
    → P (new_row id stamp q)
    → All P db.jobs
    → All P db'.jobs
enqueue-All P id stamp q db db' {j} e new rows =
    elim (Option-cases (first (conflicts (new_row id stamp q)) db.jobs)) [
      | inl clear ↦
          subst (All P) (sym (enqueue_adds id stamp q db db' {j = j} e clear))
            (All-append P db.jobs (new_row id stamp q ∷ []) rows (new, tt))
      | inr (x, found) ↦
          subst (All P) (sym (enqueue_keeps id stamp q db db' {j = j} e x found)) rows
    ]

pub IsMet-enqueue :
    (id stamp : ℕ) (q : Request) (db : Db)
    → IsMet q db
    → (k : Job) × (enqueue id stamp q db ≡ ok (k, db))
IsMet-enqueue id stamp q db (checked, (x, met)) =
    let new' = new_row id stamp q in
    let m : meets new' x ≡ true = first_holds (meets (new_row 0 0 q)) db.jobs x met in
    let (y, conflict) =
      first_other (meets (new_row 0 0 q)) (conflicts new') db.jobs (meets-conflicts new' x m) met in
    let (z, same) =
      first_other (meets (new_row 0 0 q)) (same_job new') db.jobs (meets-same_job new' x m) met in
    let (k, old) = oldest_found (same_job new') db.jobs same in
    (k, unfold enqueue in rw (checked, conflict, old))

-- A request whose row passes the CHECK constraints is answered.
pub enqueue-takes :
    (id stamp : ℕ) (q : Request) (db : Db)
    → find id db.jobs ≡ none
    → passes_checks (new_row id stamp q) ≡ true
    → (r : Job × Db) × (enqueue id stamp q db ≡ ok r)
enqueue-takes id stamp q db fresh checked =
    let new' = new_row id stamp q in
    elim (Option-cases (first (conflicts new') db.jobs)) [
      | inl clear ↦
          ((new', record db { jobs = db.jobs ++ new' ∷ [] }), unfold enqueue in rw (checked, clear))
      | inr (x, found) ↦
          let other =
            first-All (λ y. has_id id y ≡ false) (conflicts new') db.jobs
              (first-none-All (has_id id) db.jobs (unfold find in fresh)) found in
          let met =
            first_other (conflicts new') (meets new') db.jobs
              (conflicts-meets new' x other (first_holds (conflicts new') db.jobs x found)) found in
          let (k, e) = IsMet-enqueue id stamp q db (checked, met) in ((k, db), e)
    ]

-- A request that was answered under an id that was new is answered again, under any id, and leaves
-- the tables as they are.
enqueue_again :
    (id stamp id' stamp' : ℕ) (q : Request) (db db' : Db) {j : Job}
    → find id db.jobs ≡ none
    → enqueue id stamp q db ≡ ok (j, db')
    → (k : Job) × (enqueue id' stamp' q db' ≡ ok (k, db'))
enqueue_again id stamp id' stamp' q db db' {j} fresh e =
    IsMet-enqueue id' stamp' q db' (enqueue-IsMet id stamp q db db' {j = j} fresh e)
