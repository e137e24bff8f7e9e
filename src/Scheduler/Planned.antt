-- ===== src/Scheduler/Planned.antt =====
-- The queue takes every planned job of a match that did not start before its cutoff.
use vlytics.Scheduler.Timing.{SchedulerTiming, cutoff_at, deadline_at, sooner}
use vlytics.Scheduler.Planner.{
  ScheduleRevision, PredictionVariantSpec, ScheduledJob, Payload, is_called_off, prediction_jobs,
  source_sync_jobs, plan_schedule, plan_schedules, plan, request_of, has_duplicate,
}
use vlytics.Jobs.{ok, new_row, passes_checks, >>=-eq-ok, err-ok, ok_inj}
use vlytics.Sync.Planner.{bucket}
use vlytics.Sync.Scope.{BackfillScope}
use mathlib.Core.Path.{subst}
use vlytics.Prelude.{
  min, ℕ, true, Option, none, some, List, [], ◌∷◌, Text, ◌+◌, ◌≡◌, ◌≤◌, arith, Bool-cases, inl, inr,
  All, All-append, ltb, if_true, if_false, sym, ◌∙◌,
}

-- A match that was to start at a time did not start before its cutoff, as far as is known.
abbrev pub IsNotEarly : SchedulerTiming → ℕ → Option ℕ → Type 0
IsNotEarly timing start none = Unit
IsNotEarly timing start (some actual) = start ≤ actual + timing.target_cutoff

abbrev pub IsTimely : SchedulerTiming → ScheduleRevision → Type 0
IsTimely timing s = IsNotEarly timing s.scheduled_start_at s.actual_start_at

cutoff_at_lem :
    (timing : SchedulerTiming) (start cutoff : ℕ)
    → cutoff_at timing start ≡ ok cutoff
    → cutoff + timing.target_cutoff ≡ start
unfolding cutoff_at
cutoff_at_lem timing start cutoff c = ground arith

due_by :
    (timing : SchedulerTiming) (start cutoff : ℕ) (actual : Option ℕ)
    → cutoff + timing.target_cutoff ≡ start
    → IsNotEarly timing start actual
    → cutoff ≤ sooner (min (cutoff + timing.completion_grace) start) actual
due_by timing start cutoff none c h = omega arith
due_by timing start cutoff (some a) c h = omega arith

deadline_at-≥ :
    (timing : SchedulerTiming) (start : ℕ) (actual : Option ℕ) (cutoff deadline : ℕ)
    → cutoff_at timing start ≡ ok cutoff
    → deadline_at timing start actual ≡ ok deadline
    → IsNotEarly timing start actual
    → cutoff ≤ deadline
unfolding deadline_at
deadline_at-≥ timing start actual cutoff deadline c d h =
    let found = ok_inj (rw (c, deadline_at) at d) in
    rw (← found) (due_by timing start cutoff actual (cutoff_at_lem timing start cutoff c) h)

module _ (json : Payload → Text) (text_of isoformat : ℕ → Text) (timing : SchedulerTiming)
    (id stamp : ℕ) where
  -- The row of the job passes the CHECK constraints.
  abbrev pub Passes : ScheduledJob → Type 0
  Passes j = passes_checks (new_row id stamp (request_of json j)) ≡ true

  prediction_jobs-Passes :
      (s : ScheduleRevision) (cutoff deadline : ℕ) (variants : List PredictionVariantSpec)
      → cutoff ≤ deadline
      → All Passes (prediction_jobs text_of isoformat timing s cutoff deadline variants)
  unfolding prediction_jobs
  prediction_jobs-Passes s cutoff deadline [] h = tt
  prediction_jobs-Passes s cutoff deadline (v ∷ vs) h =
      (ground arith, prediction_jobs-Passes s cutoff deadline vs h)

  source_sync_jobs-Passes :
      (s : ScheduleRevision) (scope : Option BackfillScope) (now cutoff : ℕ)
      (jobs : List ScheduledJob)
      → source_sync_jobs text_of isoformat timing s scope now cutoff ≡ ok jobs
      → All Passes jobs
  source_sync_jobs-Passes s none now cutoff jobs e = subst (All Passes) (ok_inj e) tt
  source_sync_jobs-Passes s (some scope) now cutoff jobs e = elim (Bool-cases (ltb now cutoff)) [
    | inl early ↦
        let (bucket_at, _, rest) =
          >>=-eq-ok (bucket now timing.source_sync_interval) _ (sym (if_true _ _ early) ∙ e) in
        subst (All Passes) (ok_inj rest) (ground arith, tt)
    | inr late ↦ subst (All Passes) (ok_inj (sym (if_false _ _ late) ∙ e)) tt
  ]

  plan_schedule-Passes :
      (variants : List PredictionVariantSpec) (now : ℕ) (s : ScheduleRevision)
      (jobs : List ScheduledJob)
      → IsTimely timing s
      → plan_schedule text_of isoformat timing variants now s ≡ ok jobs
      → All Passes jobs
  unfolding plan_schedule
  plan_schedule-Passes variants now s jobs h e = elim (Bool-cases (is_called_off s)) [
    | inl off ↦ subst (All Passes) (ok_inj (sym (if_true _ _ off) ∙ e)) tt
    | inr on ↦
        let (cutoff, c, e₁) =
          >>=-eq-ok (cutoff_at timing s.scheduled_start_at) _ (sym (if_false _ _ on) ∙ e) in
        let (deadline, d, e₂) =
          >>=-eq-ok (deadline_at timing s.scheduled_start_at s.actual_start_at) _ e₁ in
        let (sync, y, e₃) =
          >>=-eq-ok (source_sync_jobs text_of isoformat timing s s.source_scope now cutoff) _ e₂ in
        let due =
          deadline_at-≥ timing s.scheduled_start_at s.actual_start_at cutoff deadline c d h in
        subst (All Passes) (ok_inj e₃) (
          All-append Passes sync _ (source_sync_jobs-Passes s s.source_scope now cutoff sync y)
            (ground arith, prediction_jobs-Passes s cutoff deadline variants due))
  ]

  plan_schedules-Passes :
      (variants : List PredictionVariantSpec) (now : ℕ) (schedules : List ScheduleRevision)
      (jobs : List ScheduledJob)
      → All (IsTimely timing) schedules
      → plan_schedules text_of isoformat timing variants now schedules ≡ ok jobs
      → All Passes jobs
  unfolding plan_schedules
  plan_schedules-Passes variants now [] jobs h e = subst (All Passes) (ok_inj e) tt
  plan_schedules-Passes variants now (s ∷ schedules) jobs h e =
      let (some_jobs, p, e₁) =
        >>=-eq-ok (plan_schedule text_of isoformat timing variants now s) _ e in
      let (rest, q, e₂) =
        >>=-eq-ok (plan_schedules text_of isoformat timing variants now schedules) _ e₁ in
      subst (All Passes) (ok_inj e₂) (
        All-append Passes some_jobs rest (plan_schedule-Passes variants now s some_jobs h.0 p)
          (plan_schedules-Passes variants now schedules rest h.1 q))

  -- If no match of the schedules started before its cutoff, the row of every job that the planner
  -- returns passes the CHECK constraints of the queue.
  pub plan-Passes :
      (schedules : List ScheduleRevision) (variants : List PredictionVariantSpec) (now : ℕ)
      (jobs : List ScheduledJob)
      → All (IsTimely timing) schedules
      → plan text_of isoformat timing schedules variants now ≡ ok jobs
      → All Passes jobs
  unfolding plan
  plan-Passes schedules variants now jobs h e = elim (Bool-cases (has_duplicate variants)) [
    | inl twice ↦ absurd (err-ok (sym (if_true _ _ twice) ∙ e))
    | inr distinct ↦
        plan_schedules-Passes variants now schedules jobs h (sym (if_false _ _ distinct) ∙ e)
  ]
