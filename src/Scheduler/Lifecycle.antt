-- ===== src/Scheduler/Lifecycle.antt =====
-- `classify_schedule_change`, `ScheduleEventRepository` and `ScheduleLifecycleCoordinator` of
-- backend/src/vlytics/ops/scheduler.py on the queue and the predictions.
use vlytics.Scheduler.Planner.{ScheduleRevision, is_called_off}
use vlytics.Predictions.{Tables, void_match_predictions, reject_started_match}
use vlytics.Jobs
use vlytics.Jobs.{Db, ErrorCode, match_actual_start}
use vlytics.Prelude.{
  ℕ, Bool, true, false, Option, none, some, List, [], ◌∷◌, ◌++◌, Text, text_eq, codes, lower, ltb,
  ◌==◌, ◌+◌, if◌then◌else◌, first, is_some,
}

pub data ScheduleChange : Type 0 where
  cancelled postponed earlier_start rescheduled : ScheduleChange

abbrev pub word : ScheduleChange → Text
word cancelled = codes "cancelled"
word postponed = codes "postponed"
word earlier_start = codes "earlier_start"
word rescheduled = codes "rescheduled"

-- The match starts earlier than it was known to, or at all.
abbrev pub starts_earlier : Option ℕ → Option ScheduleRevision → Bool
starts_earlier none previous = false
starts_earlier (some actual) none = true
starts_earlier (some actual) (some previous) = elim previous.actual_start_at [
  | none ↦ true
  | some before ↦ ltb actual before
]

abbrev pub compare_starts : ScheduleRevision → Option ScheduleRevision → Option ScheduleChange
compare_starts current none = none
compare_starts current (some previous) =
    if current.scheduled_start_at == previous.scheduled_start_at
    then none
    else if ltb current.scheduled_start_at previous.scheduled_start_at
    then some earlier_start
    else some rescheduled

unfoldable pub classify_schedule_change :
    ScheduleRevision → Option ScheduleRevision → Option ScheduleChange
classify_schedule_change current previous =
    if text_eq (lower current.status) (codes "cancelled")
    then some cancelled
    else if text_eq (lower current.status) (codes "postponed")
    then some postponed
    else if starts_earlier current.actual_start_at previous
    then some earlier_start
    else compare_starts current previous

-- The metadata are the last two.
pub record ScheduleEvent : Type 0 where
  pub id : ℕ
  pub event_key : Text
  pub match_id : ℕ
  pub previous_schedule_revision_id : Option ℕ
  pub schedule_revision_id : ℕ
  pub event_type : ScheduleChange
  pub reason : Text
  pub occurred_at : ℕ
  pub observed_at : ℕ
  pub scheduled_start_at : ℕ
  pub status : Text

-- ScheduleEventRepository.add_once
unfoldable pub add_schedule_event : ScheduleEvent → List ScheduleEvent → List ScheduleEvent
add_schedule_event new events =
    if is_some (first (λ e. text_eq e.event_key new.event_key) events)
    then events
    else events ++ new ∷ []

-- The tables that the coordinator writes.
pub record Lifecycle : Type 0 where
  pub queue : Db
  pub schedule_events : List ScheduleEvent
  pub predictions : Tables

-- Cancels the jobs and voids the predictions of the match. New events of predictions are numbered
-- from `id` on; the first result is where the next ones go on.
unfoldable pub stop : ℕ → ScheduleRevision → Text → ErrorCode → Option ℕ → Lifecycle → ℕ × Lifecycle
unfolding void_match_predictions Jobs.cancel_match_jobs
stop id current reason code except s =
    let (n, queue) =
      Jobs.cancel_match_jobs current.match_id current.observed_at code except s.queue in
    let (m, predictions) =
      void_match_predictions id current.match_id reason current.observed_at current.observed_at
        except s.predictions in
    (id + m, record s { queue = queue; predictions = predictions })

-- `text_of` prints a UUID and `number` a number; `code` is the number of an error code.
module _ (text_of number : ℕ → Text) (code : Text → ℕ) where
  abbrev pub id_or_none : Option ScheduleRevision → Text
  id_or_none none = codes "None"
  id_or_none (some previous) = text_of previous.id

  abbrev pub schedule_event :
      ℕ → ScheduleRevision → Option ScheduleRevision → ScheduleChange → ScheduleEvent
  schedule_event id current previous change = record {
    id = id;
    event_key =
        text_of current.match_id
        ++ (codes ":"
            ++ (id_or_none previous
                ++ (codes ":" ++ (text_of current.id ++ (codes ":" ++ word change)))));
    match_id = current.match_id;
    previous_schedule_revision_id = elim previous [ none ↦ none | some r ↦ some r.id ];
    schedule_revision_id = current.id;
    event_type = change;
    reason = codes "schedule revision " ++ (number current.revision ++ (codes ": " ++ word change));
    occurred_at = current.observed_at;
    observed_at = current.observed_at;
    scheduled_start_at = current.scheduled_start_at;
    status = current.status;
  }

  unfoldable pub record_change :
      ℕ → ScheduleRevision → Option ScheduleRevision → Option ScheduleChange → Lifecycle → Lifecycle
  unfolding add_schedule_event
  record_change id current previous none s = s
  record_change id current previous (some change) s = record s {
    schedule_events =
        add_schedule_event (schedule_event id current previous change) s.schedule_events;
  }

  abbrev pub schedule_reason : Text → Text
  schedule_reason why = codes "schedule_" ++ why

  -- What the change makes obsolete: the work on the other revisions.
  unfoldable pub supersede :
      ℕ
      → ScheduleRevision
      → Option ScheduleRevision
      → Option ScheduleChange
      → Lifecycle
      → ℕ × Lifecycle
  unfolding stop
  supersede id current (some previous) (some change) s =
      if previous.id == current.id
      then (id, s)
      else (let why = schedule_reason (word change) in
          stop id current why (ErrorCode.text (code why)) (some current.id) s)
  supersede id current _ _ s = (id, s)

  unfoldable pub call_off : ℕ → ScheduleRevision → Lifecycle → ℕ × Lifecycle
  unfolding stop
  call_off id current s =
      if is_called_off current
      then (let why = schedule_reason (lower current.status) in
          stop id current why (ErrorCode.text (code why)) none s)
      else (id, s)

  unfoldable pub start : ℕ → ScheduleRevision → Option ℕ → Lifecycle → Lifecycle
  unfolding reject_started_match Jobs.cancel_match_jobs
  start id current none s = s
  start id current (some actual) s = record s {
    queue =
        (Jobs.cancel_match_jobs current.match_id current.observed_at match_actual_start none
          s.queue).1;
    predictions =
        (reject_started_match id current.match_id actual current.observed_at s.predictions).1;
  }

  -- ScheduleLifecycleCoordinator.reconcile; the database numbers the event of the schedule.
  unfoldable pub reconcile :
      ℕ
      → ℕ
      → ScheduleRevision
      → Option ScheduleRevision
      → Lifecycle
      → Option ScheduleChange × Lifecycle
  unfolding classify_schedule_change record_change supersede call_off start
  reconcile event_id id current previous s =
      let change = classify_schedule_change current previous in
      let s₁ = record_change event_id current previous change s in
      let (id₂, s₂) = supersede id current previous change s₁ in
      let (id₃, s₃) = call_off id₂ current s₂ in
      (change, start id₃ current current.actual_start_at s₃)
