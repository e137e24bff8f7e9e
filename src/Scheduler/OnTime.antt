-- ===== src/Scheduler/OnTime.antt =====
-- What the timing of the scheduler guarantees.
use vlytics.Scheduler.Timing.{
  SchedulerTiming, is_timing, delay_of, delays, worst_case, cutoff_at, deadline_at,
  completion_is_on_time,
}
use vlytics.Jobs.{ok, ◌>>=◌}
use vlytics.Prelude.{
  ℕ, true, ◌≡◌, ◌≤◌, ◌+◌, ◌*◌, ◌-◌, refl, List, [], ◌∷◌, Option, none, some, ltb, leb, arith, All,
  length, suc, zero, inl, inr, Bool-cases, min, ap,
}

-- A completion is on time exactly if it comes before the deadline: the further comparisons with the
-- starts decide nothing.
completion_is_on_time_deadline :
    (timing : SchedulerTiming) (completed start : ℕ) (actual : Option ℕ)
    → completion_is_on_time timing completed start actual
      ≡ (deadline_at timing start actual >>= (λ deadline. ok (ltb completed deadline)))
unfolding completion_is_on_time deadline_at cutoff_at
completion_is_on_time_deadline timing completed start none =
    elim (Bool-cases (leb timing.target_cutoff start)) [
      | inl e ↦ rw e (ground arith)
      | inr e ↦ rw e refl
    ]
completion_is_on_time_deadline timing completed start (some actual) =
    elim (Bool-cases (leb timing.target_cutoff start)) [
      | inl e ↦ rw e (ground arith)
      | inr e ↦ rw e refl
    ]

-- When the last of some attempts ends that take as long as listed, the first of them after `done`
-- earlier ones, if each retry starts after the delay for it.
abbrev pub last_end : SchedulerTiming → ℕ → ℕ → List ℕ → ℕ
last_end timing done t [] = t
last_end timing done t (d ∷ []) = t + d
last_end timing done t (d ∷ e ∷ ds) =
    last_end timing (suc done) (t + d + delay_of timing done) (e ∷ ds)

-- The delays between `n` attempts after the first `done`.
between : SchedulerTiming → ℕ → ℕ → ℕ
between timing done zero = 0
between timing done (suc n) = delay_of timing done + between timing (suc done) n

last_end_bound :
    (timing : SchedulerTiming) (done t : ℕ) (d : ℕ) (ds : List ℕ)
    → All (λ x. x ≤ timing.request_timeout) (d ∷ ds)
    → last_end timing done t (d ∷ ds)
      ≤ t + timing.request_timeout * suc (length ds) + between timing done (length ds)
unfolding between
last_end_bound timing done t d [] h = omega (arith, h.0)
last_end_bound timing done t d (e ∷ ds) h =
    let rest = last_end_bound timing (suc done) (t + d + delay_of timing done) e ds h.1 in
    let step : timing.request_timeout * suc (suc (length ds))
        ≡ timing.request_timeout * suc (length ds) + timing.request_timeout =
      omega arith in
    omega (arith, rest, step, h.0)

delays-between :
    (timing : SchedulerTiming) (done n : ℕ)
    → delays timing done + between timing done n ≡ delays timing (done + n)
unfolding delays between
delays-between timing done zero = let e : done + 0 ≡ done = omega arith in rw e (omega arith)
delays-between timing done (suc n) =
    let e : done + suc n ≡ suc done + n = omega arith in
    let rest = delays-between timing (suc done) n in rw e (omega (arith, rest))

delays_mono : (timing : SchedulerTiming) (n k : ℕ) → delays timing n ≤ delays timing (n + k)
unfolding delays
delays_mono timing n zero = let e : n + 0 ≡ n = omega arith in rw e (omega arith)
delays_mono timing n (suc k) =
    let e : n + suc k ≡ suc (n + k) = omega arith in
    let rest = delays_mono timing n k in rw e (omega (arith, rest))

fits_beyond :
    (timing : SchedulerTiming) (n k : ℕ)
    → timing.request_timeout * suc n + delays timing n
      ≤ timing.request_timeout * (suc n + k) + delays timing (n + k)
fits_beyond timing n k = grind (arith, delays_mono timing n k)

fits :
    (timing : SchedulerTiming) (n : ℕ)
    → suc n ≤ timing.max_attempts
    → timing.request_timeout * suc n + delays timing n ≤ worst_case timing
fits timing n h =
    let k = timing.max_attempts - suc n in
    let most : timing.max_attempts ≡ suc n + k = omega arith in
    let before : timing.max_attempts - 1 ≡ n + k = omega arith in
    let product = ap (λ x. timing.request_timeout * x) most in
    let total = ap (delays timing) before in omega (arith, product, total, fits_beyond timing n k)

delays_zero : (timing : SchedulerTiming) → delays timing 0 ≡ 0
unfolding delays
delays_zero timing = refl

cutoff_grace :
    (timing : SchedulerTiming) (start cutoff : ℕ)
    → is_timing timing ≡ true
    → cutoff_at timing start ≡ ok cutoff
    → (cutoff + timing.completion_grace ≤ start) × (worst_case timing ≤ timing.completion_grace)
unfolding cutoff_at
cutoff_grace timing start cutoff valid at = ground arith

-- Under a valid timing, attempts that start at the cutoff, are as many as allowed at most, take the
-- timeout at most and wait for the retry delays end by the deadline.
pub attempts_fit :
    (timing : SchedulerTiming) (start cutoff d : ℕ) (ds : List ℕ)
    → is_timing timing ≡ true
    → cutoff_at timing start ≡ ok cutoff
    → All (λ x. x ≤ timing.request_timeout) (d ∷ ds)
    → length (d ∷ ds) ≤ timing.max_attempts
    → (deadline : ℕ) × (deadline_at timing start none ≡ ok deadline)
      × (last_end timing 0 cutoff (d ∷ ds) ≤ deadline)
unfolding deadline_at
attempts_fit timing start cutoff d ds valid at short few =
    let bound = last_end_bound timing 0 cutoff d ds short in
    let sum = delays-between timing 0 (length ds) in
    let fit = fits timing (length ds) few in
    let plain : 0 + length ds ≡ length ds = omega arith in
    let start_at = ap (delays timing) plain in
    let none_yet = delays_zero timing in
    let apart = cutoff_grace timing start cutoff valid at in
    (
      min (cutoff + timing.completion_grace) start,
      rw at refl,
      omega (arith, bound, sum, fit, none_yet, apart, start_at),
    )
