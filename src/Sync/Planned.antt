-- ===== src/Sync/Planned.antt =====
-- What the planner of the synchronisation plans.
use vlytics.Sync.Scope.{BackfillScope}
use vlytics.Sync.Planner.{
  MatchSyncState, SyncJobSpec, SyncTiming, bucket, schedule_spec, result_spec, correction_spec,
  plan_match, plan_matches, plan, is_off, last_observed,
}
use vlytics.Jobs.{ok, >>=-eq-ok, Result-cases, ok_inj}
use mathlib.Core.Path.{subst}
use vlytics.Prelude.{
  zero, suc, ℕ, not, ◌&&◌, ◌≡◌, ◌<◌, ◌+◌, refl, List, [], ◌∷◌, ◌++◌, Text, All, All-append, ltb,
  leb, arith, Bool-cases, Option-cases, inl, inr, suc,
}

-- The job can be leased from the time of planning on, and for some time.
abbrev pub IsOpen : ℕ → SyncJobSpec → Type 0
IsOpen now j = (j.due_at ≡ now) × (now < j.deadline_at)

bucket_positive : (now interval b : ℕ) → bucket now interval ≡ ok b → 0 < interval
unfolding bucket
bucket_positive now zero b e = absurd (ground arith)
bucket_positive now (suc n) b e = omega arith

-- What holds of each job that the planner can make holds of all that it returns.
module _ (isoformat : ℕ → Text) (timing : SyncTiming) (scope : BackfillScope) (now : ℕ) where
  pub record Makes (P : SyncJobSpec → Type 0) : Type 0 where
    pub schedule :
        (b : ℕ) → 0 < timing.schedule_poll_interval → P (schedule_spec isoformat timing scope now b)
    pub result :
        (m : MatchSyncState) (b : ℕ)
        → 0 < timing.result_poll_interval
        → P (result_spec isoformat timing scope now m b)
    pub correction :
        (m : MatchSyncState) (window_end b : ℕ)
        → now < window_end
        → 0 < timing.correction_interval
        → P (correction_spec isoformat timing scope now m window_end b)

  module _ (P : SyncJobSpec → Type 0) (makes : Makes P) where
    carry : (xs jobs : List SyncJobSpec) → ok xs ≡ ok jobs → All P xs → All P jobs
    carry xs jobs e h = subst (All P) (ok_inj e) h

    plan_match-All :
        (m : MatchSyncState) (jobs : List SyncJobSpec)
        → plan_match isoformat timing scope now m ≡ ok jobs
        → All P jobs
    unfolding plan_match
    plan_match-All m jobs e = elim (Option-cases m.first_final_observed_at) [
      | inl pending ↦ elim (Bool-cases (leb m.scheduled_start_at now && not (is_off m.status))) [
        | inl wanted ↦ elim (Result-cases (bucket now timing.result_poll_interval)) [
          | inl (b, at) ↦
              let long = bucket_positive now timing.result_poll_interval b at in
              carry _ jobs (rw (pending, wanted, at, plan_match) at e) (makes.result m b long, tt)
          | inr (x, at) ↦ absurd (ground arith)
        ]
        | inr idle ↦ carry _ jobs (rw (pending, idle, plan_match) at e) tt
      ]
      | inr (t, known) ↦
          elim (Bool-cases (
            ltb now (t + timing.correction_window)
            && leb (last_observed m t + timing.correction_interval) now)) [
              | inl wanted ↦ elim (Result-cases (bucket now timing.correction_interval)) [
                | inl (b, at) ↦
                    let long = bucket_positive now timing.correction_interval b at in
                    let early : now < t + timing.correction_window = ground arith in
                    carry _ jobs (rw (known, wanted, at, plan_match) at e)
                      (makes.correction m (t + timing.correction_window) b early long, tt)
                | inr (x, at) ↦ absurd (ground arith)
              ]
              | inr idle ↦ carry _ jobs (rw (known, idle, plan_match) at e) tt
            ]
    ]

    plan_matches-All :
        (ms : List MatchSyncState) (jobs : List SyncJobSpec)
        → plan_matches isoformat timing scope now ms ≡ ok jobs
        → All P jobs
    unfolding plan_matches
    plan_matches-All [] jobs e = carry [] jobs e tt
    plan_matches-All (m ∷ ms) jobs e =
        let (here, at, e) = >>=-eq-ok (plan_match isoformat timing scope now m) _ e in
        let (rest, later, e) = >>=-eq-ok (plan_matches isoformat timing scope now ms) _ e in
        carry (here ++ rest) jobs e
          (All-append P here rest (plan_match-All m here at) (plan_matches-All ms rest later))

    pub plan-All :
        (ms : List MatchSyncState) (jobs : List SyncJobSpec)
        → plan isoformat timing scope now ms ≡ ok jobs
        → All P jobs
    unfolding plan
    plan-All ms jobs e =
        let (b, at, e) = >>=-eq-ok (bucket now timing.schedule_poll_interval) _ e in
        let (rest, later, e) = >>=-eq-ok (plan_matches isoformat timing scope now ms) _ e in
        carry _ jobs e (
          makes.schedule b (bucket_positive now timing.schedule_poll_interval b at),
          plan_matches-All ms rest later,
        )

  -- Every job that the planner returns is due at the time of planning and has its deadline later.
  plan-IsOpen :
      (ms : List MatchSyncState) (jobs : List SyncJobSpec)
      → plan isoformat timing scope now ms ≡ ok jobs
      → All (IsOpen now) jobs
  plan-IsOpen ms jobs e =
      plan-All (IsOpen now)
        (record {
          schedule = λ b long. (refl, omega arith);
          result = λ m b long. (refl, omega arith);
          correction = λ m window_end b early long. (refl, ground arith);
        })
        ms jobs e
