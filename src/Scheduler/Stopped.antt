-- ===== src/Scheduler/Stopped.antt =====
-- What the reconciliation of a schedule leaves of the jobs of a match.
use vlytics.Scheduler.Reconciled.{is_superseding}
use vlytics.Scheduler.Lifecycle.{
  ScheduleChange, Lifecycle, classify_schedule_change, stop, record_change, supersede, call_off,
  start, reconcile, schedule_reason, word,
}
use vlytics.Scheduler.Planner.{ScheduleRevision, is_called_off}
use vlytics.Jobs.{
  ErrorCode, Job, State, is_affected, is_unfinished, differs, released, cancel_match_jobs,
  match_actual_start,
}
use vlytics.Prelude.{
  lower, ℕ, Bool, true, false, ◌&&◌, ◌||◌, Option, none, some, List, [], ◌∷◌, Text, ◌==◌, ◌≡◌, refl,
  arith, holds, update, All, All-update, is_some, Bool-cases, inl, inr,
}

-- If the condition holds, no unfinished job of the match is left but on the excepted revision.
abbrev IsClear : ℕ → Bool → Option ℕ → List Job → Type 0
IsClear match_id b except jobs = All (λ j. (b && is_affected match_id except j) ≡ false) jobs

cancel-stops :
    (match_id now : ℕ) (code : ErrorCode) (b : Bool) (except : Option ℕ) (jobs : List Job)
    → IsClear match_id b except
        (update (is_affected match_id except) (released State.cancelled (some code) now) jobs)
unfolding update
cancel-stops match_id now code b except [] = tt
cancel-stops match_id now code b except (j ∷ jobs) =
    elim (Bool-cases (is_affected match_id except j)) [
      | inl hit ↦ (ground (arith, hit), cancel-stops match_id now code b except jobs)
      | inr left ↦ (ground (arith, left), cancel-stops match_id now code b except jobs)
    ]

cancel-keeps :
    (match_id m now : ℕ) (code : ErrorCode) (b : Bool) (except e : Option ℕ) (jobs : List Job)
    → IsClear match_id b except jobs
    → IsClear match_id b except
        (update (is_affected m e) (released State.cancelled (some code) now) jobs)
cancel-keeps match_id m now code b except e jobs =
    All-update {P = λ j. (b && is_affected match_id except j) ≡ false} (is_affected m e)
      (released State.cancelled (some code) now) jobs (λ j hit h. ground arith)

-- The job is on a match that has started or is called off, or on a revision that was replaced.
abbrev pub is_obsolete : ScheduleRevision → Option ScheduleRevision → Job → Bool
is_obsolete current previous j =
    is_some current.actual_start_at
    || (is_called_off current
        || (is_superseding current previous (classify_schedule_change current previous)
            && differs j.schedule_revision_id current.id))

module _ (text_of number : ℕ → Text) (code : Text → ℕ) (current : ScheduleRevision) where
  abbrev Clear : Bool → Option ℕ → Lifecycle → Type 0
  Clear b except s = IsClear current.match_id b except s.queue.jobs

  stop-stops :
      (id : ℕ) (reason : Text) (why : ErrorCode) (b : Bool) (except : Option ℕ) (s : Lifecycle)
      → Clear b except (stop id current reason why except s).1
  unfolding stop cancel_match_jobs
  stop-stops id reason why b except s =
      cancel-stops current.match_id current.observed_at why b except s.queue.jobs

  stop-keeps :
      (id : ℕ) (reason : Text) (why : ErrorCode) (e : Option ℕ) (b : Bool) (except : Option ℕ)
      (s : Lifecycle)
      → Clear b except s
      → Clear b except (stop id current reason why e s).1
  unfolding stop cancel_match_jobs
  stop-keeps id reason why e b except s =
      cancel-keeps current.match_id current.match_id current.observed_at why b except e s.queue.jobs

  vacuous : (except : Option ℕ) (jobs : List Job) → IsClear current.match_id false except jobs
  vacuous except [] = tt
  vacuous except (j ∷ jobs) = (refl, vacuous except jobs)

  supersede-stops :
      (id : ℕ) (previous : Option ScheduleRevision) (change : Option ScheduleChange) (s : Lifecycle)
      → Clear
          (is_superseding current previous change)
          (some current.id)
          (supersede text_of number code id current previous change s).1
  unfolding supersede
  supersede-stops id none change s = vacuous (some current.id) s.queue.jobs
  supersede-stops id (some previous) none s = vacuous (some current.id) s.queue.jobs
  supersede-stops id (some previous) (some change) s =
      elim (Bool-cases (previous.id == current.id)) [
        | inl same ↦ rw same (vacuous (some current.id) s.queue.jobs)
        | inr other ↦ rw other (
            let why = schedule_reason text_of number code (word change) in
            stop-stops id why (ErrorCode.text (code why)) true (some current.id) s)
      ]

  call_off-stops :
      (id : ℕ) (s : Lifecycle)
      → Clear (is_called_off current) none (call_off text_of number code id current s).1
  unfolding call_off
  call_off-stops id s = elim (Bool-cases (is_called_off current)) [
    | inl off ↦ rw off (
        let why = schedule_reason text_of number code (lower current.status) in
        stop-stops id why (ErrorCode.text (code why)) true none s)
    | inr on ↦ rw on (vacuous none s.queue.jobs)
  ]

  call_off-keeps :
      (id : ℕ) (b : Bool) (except : Option ℕ) (s : Lifecycle)
      → Clear b except s
      → Clear b except (call_off text_of number code id current s).1
  unfolding call_off
  call_off-keeps id b except s h = elim (Bool-cases (is_called_off current)) [
    | inl off ↦ rw off (
        let why = schedule_reason text_of number code (lower current.status) in
        stop-keeps id why (ErrorCode.text (code why)) none b except s h)
    | inr on ↦ rw on h
  ]

  start-stops :
      (id : ℕ) (actual : Option ℕ) (s : Lifecycle)
      → Clear (is_some actual) none (start text_of number code id current actual s)
  unfolding start cancel_match_jobs
  start-stops id none s = vacuous none s.queue.jobs
  start-stops id (some actual) s =
      cancel-stops current.match_id current.observed_at match_actual_start true none s.queue.jobs

  start-keeps :
      (id : ℕ) (actual : Option ℕ) (b : Bool) (except : Option ℕ) (s : Lifecycle)
      → Clear b except s
      → Clear b except (start text_of number code id current actual s)
  unfolding start cancel_match_jobs
  start-keeps id none b except s h = h
  start-keeps id (some actual) b except s h =
      cancel-keeps current.match_id current.match_id current.observed_at match_actual_start b except
        none s.queue.jobs h

  -- A reconciliation leaves no unfinished job of a match that has started or is called off, nor one
  -- that is for another revision of the match than the one that replaces the previous one with a
  -- change.
  pub reconcile-stops :
      (event_id id : ℕ) (previous : Option ScheduleRevision) (s : Lifecycle)
      → All
          (λ j.
            (holds j.match_id current.match_id
              && (is_unfinished j.state && is_obsolete current previous j))
            ≡ false)
          (reconcile text_of number code event_id id current previous s).1.queue.jobs
  unfolding reconcile
  reconcile-stops event_id id previous s =
      let change = classify_schedule_change current previous in
      let s₁ = record_change text_of number code event_id current previous change s in
      let (id₂, s₂) = supersede text_of number code id current previous change s₁ in
      let (id₃, s₃) = call_off text_of number code id₂ current s₂ in
      let actual = current.actual_start_at in
      let replaced = is_superseding current previous change in
      let s₄ = start text_of number code id₃ current actual s₃ in
      let by_change : Clear replaced (some current.id) s₄ =
        start-keeps id₃ actual replaced (some current.id) s₃ (
          call_off-keeps id₂ replaced (some current.id) s₂
            (supersede-stops id previous change s₁)) in
      let by_status : Clear (is_called_off current) none s₄ =
        start-keeps id₃ actual (is_called_off current) none s₃ (call_off-stops id₂ s₂) in
      let by_start : Clear (is_some actual) none s₄ = start-stops id₃ actual s₃ in
      combine (is_some actual) (is_called_off current) replaced s₄.queue.jobs by_start by_status
        by_change
    where
      combine :
          (a b c : Bool) (jobs : List Job)
          → IsClear current.match_id a none jobs
          → IsClear current.match_id b none jobs
          → IsClear current.match_id c (some current.id) jobs
          → All
              (λ j.
                (holds j.match_id current.match_id
                  && (is_unfinished j.state
                      && (a || (b || (c && differs j.schedule_revision_id current.id)))))
                ≡ false)
              jobs
      combine a b c [] ha hb hc = tt
      combine a b c (j ∷ jobs) ha hb hc =
          (ground (arith, ha.0, hb.0, hc.0), combine a b c jobs ha.1 hb.1 hc.1)
