-- ===== src/Scheduler/Timing.antt =====
-- `SchedulerTiming` of backend/src/vlytics/ops/scheduler.py. Points of time and durations are in
-- microseconds.
use vlytics.Prelude.{
  ℕ, Bool, true, ◌&&◌, Option, none, some, ◌+◌, ◌-◌, ◌*◌, min, ltb, leb, ◌==◌, suc, zero,
  if◌then◌else◌,
}
use vlytics.Jobs.{Result, ok, err, value_error, ◌>>=◌, overflow_error}

-- `backoff n` is the float product retry_initial_delay * retry_backoff_multiplier ** n as a timedelta.
pub record SchedulerTiming : Type 0 where
  pub target_cutoff : ℕ
  pub initial_start_tolerance : ℕ
  pub completion_grace : ℕ
  pub request_timeout : ℕ
  pub max_attempts : ℕ
  pub backoff : ℕ → ℕ
  pub retry_max_delay : ℕ
  pub source_sync_interval : ℕ

abbrev pub minutes : ℕ → ℕ
minutes n = n * 60000000

abbrev pub delay_of : SchedulerTiming → ℕ → ℕ
delay_of timing n = min (timing.backoff n) timing.retry_max_delay

unfoldable pub retry_delay : SchedulerTiming → ℕ → Result ℕ
retry_delay timing zero = err value_error
retry_delay timing (suc n) = ok (delay_of timing n)

-- The delays after the first `n` attempts.
unfoldable pub delays : SchedulerTiming → ℕ → ℕ
delays timing zero = 0
delays timing (suc n) = delays timing n + delay_of timing n

abbrev pub worst_case : SchedulerTiming → ℕ
worst_case timing =
    timing.request_timeout * timing.max_attempts + delays timing (timing.max_attempts - 1)

-- __post_init__
abbrev pub is_timing : SchedulerTiming → Bool
is_timing timing =
    timing.target_cutoff == minutes 60
    && (ltb timing.initial_start_tolerance timing.completion_grace
        && (ltb timing.completion_grace timing.target_cutoff
            && (leb 1 timing.max_attempts && leb (worst_case timing) timing.completion_grace)))

-- A date before the year 1 is an OverflowError.
unfoldable pub cutoff_at : SchedulerTiming → ℕ → Result ℕ
cutoff_at timing start =
    if leb timing.target_cutoff start then ok (start - timing.target_cutoff) else err overflow_error

abbrev pub sooner : ℕ → Option ℕ → ℕ
sooner t none = t
sooner t (some actual) = min t actual

unfoldable pub deadline_at : SchedulerTiming → ℕ → Option ℕ → Result ℕ
unfolding cutoff_at
deadline_at timing start actual = do
  cutoff ← cutoff_at timing start
  ok (sooner (min (cutoff + timing.completion_grace) start) actual)

unfoldable pub start_is_on_time : SchedulerTiming → ℕ → ℕ → Result Bool
unfolding cutoff_at
start_is_on_time timing started start = do
  cutoff ← cutoff_at timing start
  ok (leb cutoff started && leb started (cutoff + timing.initial_start_tolerance))

abbrev pub is_before : ℕ → Option ℕ → Bool
is_before t none = true
is_before t (some actual) = ltb t actual

unfoldable pub completion_is_on_time : SchedulerTiming → ℕ → ℕ → Option ℕ → Result Bool
unfolding deadline_at
completion_is_on_time timing completed start actual = do
  deadline ← deadline_at timing start actual
  ok (ltb completed deadline && (ltb completed start && is_before completed actual))
