-- ===== src/Scheduler/Replayed.antt =====
-- Scheduling again what was scheduled adds no job.
use vlytics.Scheduler.Timing.{SchedulerTiming}
use vlytics.Scheduler.Planner.{
  ScheduleRevision, PredictionVariantSpec, ScheduledJob, Payload, plan, request_of, enqueue_jobs,
  enqueue_planned,
}
use vlytics.Jobs.Batch.{IsNew, IsMet-enqueue_all, enqueue_all-IsMet}
use vlytics.Jobs.{ok, >>=-eq-ok, Db, ok_inj}
use mathlib.Core.Path.{subst}
use vlytics.Prelude.{map, ℕ, List, Text, ◌≡◌, ap}

module _ (json : Payload → Text) where
  enqueue_jobs_again :
      (id stamp id' stamp' : ℕ) (jobs : List ScheduledJob) (db db' : Db)
      → IsNew id db
      → enqueue_jobs json id stamp jobs db ≡ ok db'
      → enqueue_jobs json id' stamp' jobs db' ≡ ok db'
  unfolding enqueue_jobs
  enqueue_jobs_again id stamp id' stamp' jobs db db' new e =
      let requests = map (request_of json) jobs in
      IsMet-enqueue_all id' stamp' requests db' (enqueue_all-IsMet id stamp requests db db' new e)

  module _ (text_of isoformat : ℕ → Text) (timing : SchedulerTiming)
      (schedules : List ScheduleRevision) (variants : List PredictionVariantSpec) (now : ℕ) where
    -- If the database numbers new rows with ids that no row has, and the same schedules were
    -- scheduled, with the same variants at the same time, then scheduling them again returns the
    -- same count and leaves the tables as they are.
    pub enqueue_planned_again :
        (id stamp id' stamp' n : ℕ) (db db' : Db)
        → IsNew id db
        → enqueue_planned json text_of isoformat timing id stamp schedules variants now db
          ≡ ok (n, db')
        → enqueue_planned json text_of isoformat timing id' stamp' schedules variants now db'
          ≡ ok (n, db')
    unfolding enqueue_planned
    enqueue_planned_again id stamp id' stamp' n db db' new e =
        let (planned, p, e₁) =
          >>=-eq-ok (plan text_of isoformat timing schedules variants now) _ e in
        let (db₁, q, e₂) = >>=-eq-ok (enqueue_jobs json id stamp planned db) _ e₁ in
        let same = ok_inj e₂ in
        let stays : db₁ ≡ db' = ap (λ x. x.1) same in
        let again =
          subst (λ d. enqueue_jobs json id' stamp' planned d ≡ ok d) stays
            (enqueue_jobs_again id stamp id' stamp' planned db db₁ new q) in
        rw (p, again) (ap (λ m. ok (m, db')) (ap (λ x. x.0) same))
