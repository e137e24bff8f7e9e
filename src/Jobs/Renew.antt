-- ===== src/Jobs/Renew.antt =====
-- The renewal of a live lease.
use vlytics.Jobs.Command.{Command, run}
use vlytics.Jobs.Settle.{count_live, find-update_live}
use vlytics.Jobs.Updates.{id-target}
use vlytics.Jobs.Tables.{IsSound, run-IsSound}
use vlytics.Jobs.{Job, Db, find, live, in_time, ok, renew_lease, renewed, update, has_id, false}
use vlytics.Prelude.{ℕ, ◌≡◌, ◌&&◌, true, some, refl, arith, update, ◌<◌, ◌==◌, false}

-- A live lease on a job before its deadline is renewed: it runs for the duration from now on, and
-- nothing else of the job changes.
pub renew_lease-live :
    (i owner now duration : ℕ) (db : Db) {r : Job}
    → 0 < duration
    → IsSound db
    → find i db.jobs ≡ some r
    → live owner now r ≡ true
    → in_time now r ≡ true
    → (db' : Db) × (renew_lease i owner now duration db ≡ ok (true, db'))
      × IsSound db'
      × (find i db'.jobs ≡ some (renewed now duration r))
unfolding renew_lease run
renew_lease-live i owner now duration db {r} long sound found held early =
    let positive : (duration == 0) ≡ false = ground arith in
    let both : (live owner now r && in_time now r) ≡ true = ground arith in
    let db' = record db {
      jobs =
          update (λ (j : Job). has_id i j && (live owner now j && in_time now j))
            (renewed now duration) db.jobs;
    } in
    let e : renew_lease i owner now duration db ≡ ok (true, db') =
      rw
        (
          positive,
          count_live i owner now db sound found (λ j. live owner now j && in_time now j)
              (renewed now duration) both,
        )
        (ground arith) in
    (
      db',
      e,
      run-IsSound (Command.renew_lease i owner now duration) db db' sound (rw e refl),
      find-update_live i owner now db sound found (λ j. live owner now j && in_time now j)
          (renewed now duration) both (id-target (Command.renew_lease i owner now duration)),
    )
