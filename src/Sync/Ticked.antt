-- ===== src/Sync/Ticked.antt =====
-- What a tick of the synchronisation leaves in the queue.
use vlytics.Sync.Ticker.{sync_request, enqueue_scope, tick}
use vlytics.Sync.Planned.{plan-All}
use vlytics.Sync.Scope.{BackfillScope, Mapping}
use vlytics.Sync.Planner.{
  MatchSyncState, SyncJobSpec, SyncTiming, bucket, plan_match, plan_matches, plan, schedule_spec,
  result_spec, correction_spec, is_off, last_observed,
}
use vlytics.Jobs.Batch.{
  IsNew, enqueue_all-IsNew, enqueue_all-IsMet, enqueue_all-IsMet_other, IsMet-enqueue_all,
  enqueue_all-takes,
}
use vlytics.Jobs.Idempotent.{IsMet}
use vlytics.Jobs.{Db, ok, new_row, passes_checks}
use mathlib.Core.Path.{subst}
use vlytics.Prelude.{
  ℕ, not, ◌&&◌, ◌≡◌, ◌<◌, ◌+◌, ◌/◌, ◌*◌, ◌==◌, false, refl, true, List, [], ◌∷◌, ◌++◌, Text, All,
  All-mono, All-map, length-map, ltb, leb, arith, Bool-cases, Option-cases, inl, inr, map, length,
}

-- The intervals are seconds at least.
abbrev pub IsSlow : SyncTiming → Type 0
IsSlow timing =
    (0 < timing.schedule_poll_interval / 1_000_000)
    × (0 < timing.result_poll_interval / 1_000_000)
    × (0 < timing.correction_interval / 1_000_000)

bucket_total :
    (now interval : ℕ) → 0 < interval / 1_000_000 → (b : ℕ) × (bucket now interval ≡ ok b)
unfolding bucket
bucket_total now interval h =
    let seconds = interval / 1_000_000 in
    let positive : (seconds == 0) ≡ false = ground (arith, h) in
    (now / 1_000_000 / seconds * seconds, rw positive)

module _ (isoformat : ℕ → Text) (timing : SyncTiming) (slow : IsSlow timing) (scope : BackfillScope)
    (now : ℕ) where
  plan_match_total :
      (m : MatchSyncState)
      → (jobs : List SyncJobSpec) × (plan_match isoformat timing scope now m ≡ ok jobs)
  unfolding plan_match
  plan_match_total m = elim (Option-cases m.first_final_observed_at) [
    | inl pending ↦ elim (Bool-cases (leb m.scheduled_start_at now && not (is_off m.status))) [
      | inl wanted ↦
          let (b, at) = bucket_total now timing.result_poll_interval slow.1 in
          (result_spec isoformat timing scope now m b ∷ [], rw (pending, wanted, at))
      | inr idle ↦ ([], rw (pending, idle))
    ]
    | inr (t, known) ↦
        elim (Bool-cases (
          ltb now (t + timing.correction_window)
          && leb (last_observed m t + timing.correction_interval) now)) [
            | inl wanted ↦
                let (b, at) = bucket_total now timing.correction_interval slow.2 in
                (
                  correction_spec isoformat timing scope now m (t + timing.correction_window) b
                      ∷ [],
                  rw (known, wanted, at),
                )
            | inr idle ↦ ([], rw (known, idle))
          ]
  ]

  plan_matches_total :
      (ms : List MatchSyncState)
      → (jobs : List SyncJobSpec) × (plan_matches isoformat timing scope now ms ≡ ok jobs)
  unfolding plan_matches
  plan_matches_total [] = ([], refl)
  plan_matches_total (m ∷ ms) =
      let (here, e) = plan_match_total m in
      let (rest, f) = plan_matches_total ms in (here ++ rest, rw (e, f))

  plan_total :
      (ms : List MatchSyncState)
      → (jobs : List SyncJobSpec) × (plan isoformat timing scope now ms ≡ ok jobs)
  unfolding plan
  plan_total ms =
      let (b, at) = bucket_total now timing.schedule_poll_interval slow.0 in
      let (jobs, e) = plan_matches_total ms in
      (schedule_spec isoformat timing scope now b ∷ jobs, rw (at, e))

module _ (json : Mapping → Text) (isoformat : ℕ → Text) (timing : SyncTiming)
    (matches : BackfillScope → List MatchSyncState) (now : ℕ) where
  -- A row of the queue meets each job that is planned for the scope.
  abbrev pub HasRows : Db → BackfillScope → Type 0
  HasRows db scope =
      (jobs : List SyncJobSpec) × (plan isoformat timing scope now (matches scope) ≡ ok jobs)
      × All (λ q. IsMet q db) (map (sync_request json isoformat timing) jobs)

module _ (json : Mapping → Text) (isoformat : ℕ → Text) (timing : SyncTiming) (slow : IsSlow timing)
    (matches : BackfillScope → List MatchSyncState) (now : ℕ) where
  abbrev HasAll : Db → BackfillScope → Type 0
  HasAll = HasRows json isoformat timing matches now

  plan-passes :
      (scope : BackfillScope) (ms : List MatchSyncState) (jobs : List SyncJobSpec)
      → plan isoformat timing scope now ms ≡ ok jobs
      → All (λ j. passes_checks (new_row 0 0 (sync_request json isoformat timing j)) ≡ true) jobs
  plan-passes scope =
      plan-All isoformat timing scope now
        (λ j. passes_checks (new_row 0 0 (sync_request json isoformat timing j)) ≡ true)
        (record {
          schedule = λ b long. ground arith;
          result = λ m b long. ground arith;
          correction = λ m window_end b early long. ground arith;
        })

  enqueue_scope_takes :
      (id stamp : ℕ) (scope : BackfillScope) (db : Db)
      → IsNew id db
      → (n : ℕ) × (db' : Db) × (enqueue_scope json isoformat timing id stamp scope
            (matches scope)
            now
            db
          ≡ ok (n, db'))
        × IsNew (id + n) db'
        × HasAll db' scope
        × ((other : BackfillScope) → HasAll db other → HasAll db' other)
  unfolding enqueue_scope
  enqueue_scope_takes id stamp scope db new =
      let (jobs, e) = plan_total isoformat timing slow scope now (matches scope) in
      let requests = map (sync_request json isoformat timing) jobs in
      let (db', f) = enqueue_all-takes id stamp requests db new (
        All-map (λ q. passes_checks (new_row 0 0 q) ≡ true) (sync_request json isoformat timing)
          jobs (plan-passes scope (matches scope) jobs e)) in
      (
        length jobs,
        db',
        rw (e, f),
        subst (λ n. IsNew (id + n) db') (length-map (sync_request json isoformat timing) jobs)
            (enqueue_all-IsNew id stamp requests db db' new f),
        (jobs, e, enqueue_all-IsMet id stamp requests db db' new f),
        λ other rows. (
          rows.0,
          rows.1,
          All-mono (map (sync_request json isoformat timing) rows.0)
              (λ q met. enqueue_all-IsMet_other id stamp q requests db db' f met) rows.2,
        ),
      )

  tick_rows :
      (id stamp : ℕ) (scopes : List BackfillScope) (db : Db)
      → IsNew id db
      → (n : ℕ) × (db' : Db) × (tick json isoformat timing matches id stamp scopes now db
          ≡ ok (n, db'))
        × All (HasAll db') scopes
        × ((other : BackfillScope) → HasAll db other → HasAll db' other)
  unfolding tick
  tick_rows id stamp [] db new = (0, db, refl, tt, λ other rows. rows)
  tick_rows id stamp (scope ∷ scopes) db new =
      let (n, db₁, e, new₁, here, stays) = enqueue_scope_takes id stamp scope db new in
      let (m, db₂, f, rest, stays₁) = tick_rows (id + n) stamp scopes db₁ new₁ in
      (
        n + m,
        db₂,
        rw (e, f),
        (stays₁ scope here, rest),
        λ other rows. stays₁ other (stays other rows),
      )

  tick_again :
      (id stamp : ℕ) (scopes : List BackfillScope) (db : Db)
      → All (HasAll db) scopes
      → (n : ℕ) × (tick json isoformat timing matches id stamp scopes now db ≡ ok (n, db))
  unfolding tick enqueue_scope
  tick_again id stamp [] db rows = (0, refl)
  tick_again id stamp (scope ∷ scopes) db ((jobs, e, met), rest) =
      let same =
        IsMet-enqueue_all id stamp (map (sync_request json isoformat timing) jobs) db met in
      let (m, again) = tick_again (id + length jobs) stamp scopes db rest in
      (length jobs + m, rw (e, same, again))

  -- If the intervals are seconds at least and the database numbers new rows with ids that no row
  -- has, then a tick succeeds, afterwards each job that is planned for each scope has a row of the
  -- queue that meets it, by its key or its work, and another tick at the same time changes nothing.
  pub tick_takes :
      (id stamp : ℕ) (scopes : List BackfillScope) (db : Db)
      → IsNew id db
      → (n : ℕ) × (db' : Db) × (tick json isoformat timing matches id stamp scopes now db
          ≡ ok (n, db'))
        × All (HasRows json isoformat timing matches now db') scopes
        × ((id' stamp' : ℕ)
            → (m : ℕ) × (tick json isoformat timing matches id' stamp' scopes now db'
                ≡ ok (m, db')))
  tick_takes id stamp scopes db new =
      let (n, db', e, rows, stays) = tick_rows id stamp scopes db new in
      (n, db', e, rows, λ id' stamp'. tick_again id' stamp' scopes db' rows)
