-- ===== src/Jobs/Batch.antt =====
-- Several requests of one transaction.
use vlytics.Jobs.Idempotent.{
  IsMet, enqueue-IsMet, enqueue-IsMet_other, IsMet-enqueue, enqueue-All, enqueue-takes,
}
use vlytics.Jobs.{
  Job, Db, Request, Result, new_row, ok, >>=-eq-ok, ◌>>=◌, enqueue, find, ok_inj, passes_checks,
}
use mathlib.Core.Path.{subst}
use vlytics.Prelude.{
  length, ℕ, none, true, List, [], ◌∷◌, ◌+◌, ◌≡◌, ◌<◌, refl, arith, All, All-mono, first,
}

-- The database numbers the rows it writes.
unfoldable pub enqueue_all : ℕ → ℕ → List Request → Db → Result Db
unfolding enqueue
enqueue_all id stamp [] db = ok db
enqueue_all id stamp (q ∷ requests) db = do
  (row, db') ← enqueue id stamp q db
  enqueue_all (id + 1) stamp requests db'

-- The database gives new rows ids that no row has.
abbrev pub IsNew : ℕ → Db → Type 0
IsNew id db = All (λ j. j.id < id) db.jobs

IsNew-find : (id : ℕ) (jobs : List Job) → All (λ j. j.id < id) jobs → find id jobs ≡ none
unfolding find first
IsNew-find id [] h = refl
IsNew-find id (j ∷ jobs) h = ground (arith, IsNew-find id jobs h.1)

pub enqueue_all-IsMet_other :
    (id stamp : ℕ) (q : Request) (requests : List Request) (db db' : Db)
    → enqueue_all id stamp requests db ≡ ok db'
    → IsMet q db
    → IsMet q db'
unfolding enqueue_all
enqueue_all-IsMet_other id stamp q [] db db' e met = subst (IsMet q) (ok_inj e) met
enqueue_all-IsMet_other id stamp q (p ∷ requests) db db' e met =
    let ((row, db₁), first_one, rest) = >>=-eq-ok (enqueue id stamp p db) _ e in
    enqueue_all-IsMet_other (id + 1) stamp q requests db₁ db' rest
      (enqueue-IsMet_other id stamp q p db db₁ first_one met)

enqueue-IsNew :
    (id stamp : ℕ) (q : Request) (db db' : Db) {j : Job}
    → enqueue id stamp q db ≡ ok (j, db')
    → IsNew id db
    → IsNew (id + 1) db'
enqueue-IsNew id stamp q db db' {j} e new =
    enqueue-All (λ k. k.id < id + 1) id stamp q db db' {j = j} e (omega arith)
      (All-mono db.jobs (λ k h. omega (arith, h)) new)

-- Each of the requests is met afterwards.
pub enqueue_all-IsMet :
    (id stamp : ℕ) (requests : List Request) (db db' : Db)
    → IsNew id db
    → enqueue_all id stamp requests db ≡ ok db'
    → All (λ q. IsMet q db') requests
unfolding enqueue_all
enqueue_all-IsMet id stamp [] db db' new e = tt
enqueue_all-IsMet id stamp (q ∷ requests) db db' new e =
    let ((row, db₁), first_one, rest) = >>=-eq-ok (enqueue id stamp q db) _ e in
    (
      enqueue_all-IsMet_other (id + 1) stamp q requests db₁ db' rest
          (enqueue-IsMet id stamp q db db₁ (IsNew-find id db.jobs new) first_one),
      enqueue_all-IsMet (id + 1) stamp requests db₁ db'
          (enqueue-IsNew id stamp q db db₁ first_one new) rest,
    )

-- Requests that are met change nothing.
pub IsMet-enqueue_all :
    (id stamp : ℕ) (requests : List Request) (db : Db)
    → All (λ q. IsMet q db) requests
    → enqueue_all id stamp requests db ≡ ok db
unfolding enqueue_all
IsMet-enqueue_all id stamp [] db met = refl
IsMet-enqueue_all id stamp (q ∷ requests) db met =
    let (k, again) = IsMet-enqueue id stamp q db met.0 in
    rw again (IsMet-enqueue_all (id + 1) stamp requests db met.1)

-- Requests whose rows pass the CHECK constraints are answered.
pub enqueue_all-takes :
    (id stamp : ℕ) (requests : List Request) (db : Db)
    → IsNew id db
    → All (λ q. passes_checks (new_row 0 0 q) ≡ true) requests
    → (db' : Db) × (enqueue_all id stamp requests db ≡ ok db')
unfolding enqueue_all
enqueue_all-takes id stamp [] db new pass = (db, refl)
enqueue_all-takes id stamp (q ∷ requests) db new pass =
    let ((row, db₁), e) = enqueue-takes id stamp q db (IsNew-find id db.jobs new) pass.0 in
    let (db', rest) =
      enqueue_all-takes (id + 1) stamp requests db₁ (enqueue-IsNew id stamp q db db₁ e new)
        pass.1 in
    (db', rw e rest)

pub enqueue_all-IsNew :
    (id stamp : ℕ) (requests : List Request) (db db' : Db)
    → IsNew id db
    → enqueue_all id stamp requests db ≡ ok db'
    → IsNew (id + length requests) db'
unfolding enqueue_all
enqueue_all-IsNew id stamp [] db db' new e =
    subst (IsNew (id + 0)) (ok_inj e) (All-mono db.jobs (λ k h. omega (arith, h)) new)
enqueue_all-IsNew id stamp (q ∷ requests) db db' new e =
    let ((row, db₁), first_one, rest) = >>=-eq-ok (enqueue id stamp q db) _ e in
    let after =
      enqueue_all-IsNew (id + 1) stamp requests db₁ db'
        (enqueue-IsNew id stamp q db db₁ first_one new) rest in
    All-mono db'.jobs (λ k h. omega (arith, h)) after
