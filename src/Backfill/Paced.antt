-- ===== src/Backfill/Paced.antt =====
-- The rate limiter keeps requests apart by its interval, whatever happens between them.
use vlytics.Backfill.Runner.{Outside, State}
use vlytics.Backfill.Fetch.{wait, wait_from, reading, moved}
use vlytics.Prelude.{ℕ, suc, ◌+◌, ◌-◌, ◌*◌, ◌≡◌, ◌≤◌, refl, some, arith, ltb, Bool-cases, inl, inr}

-- The monotonic clock: a reading lies between the times before and after it, and a sleep is not cut
-- short.
pub record IsClock {E : Type 0} (o : Outside E) (time : E → ℕ) : Type 0 where
  pub reads_late : (e : E) → time e ≤ (o.monotonic e).0
  pub reads_early : (e : E) → (o.monotonic e).0 ≤ time (o.monotonic e).1
  pub sleeps : (e : E) (d : ℕ) → time e + d ≤ time (o.sleep d e)

module _ {E : Type 0} (o : Outside E) (time : E → ℕ) (clock : IsClock o time) (interval : ℕ) where
  -- The last request was let through no earlier than `t`.
  abbrev pub IsAfter : ℕ → State E → Type 0
  IsAfter t st = (l : ℕ) × (st.last_request ≡ some l) × (t ≤ l)

  wait_from-IsAfter :
      (last now : ℕ) (st : State E)
      → now ≤ time st.outside
      → IsAfter (last + interval) (wait_from o interval (some last) (now, st))
  wait_from-IsAfter last now st h = elim (Bool-cases (ltb now (last + interval))) [
    | inl early ↦ rw early (
      (o.monotonic (o.sleep (last + interval - now) st.outside)).0,
      refl,
      grind (
        arith,
        clock.sleeps st.outside (last + interval - now),
        clock.reads_late (o.sleep (last + interval - now) st.outside),
      ),
    )
    | inr late ↦ rw late (now, refl, ground arith)
  ]

  wait-IsAfter : (t : ℕ) (st : State E) → IsAfter t st → IsAfter (t + interval) (wait o interval st)
  wait-IsAfter t st (l, e, h) =
      let (l', e', h') =
        wait_from-IsAfter l (o.monotonic st.outside).0 (reading o o.monotonic st).1
          (clock.reads_early st.outside) in
      rw e (l', e', omega arith)

  -- What a process does with the limiter: `n` requests are let through, and between them anything may
  -- happen outside.
  pub data Uses : ℕ → State E → State E → Type 0 where
    unused : {st : State E} → Uses 0 st st
    elsewhere : {n : ℕ} {st st' : State E} (f : E → E) → Uses n st st' → Uses n st (moved o f st')
    waited : {n : ℕ} {st st' : State E} → Uses n st st' → Uses (suc n) st (wait o interval st')

  -- On a monotonic clock whose sleeps are not cut short: after a request at a time and `n` more,
  -- with anything between them, the last request was let through at least `n` intervals after that
  -- time.
  pub Uses-IsAfter :
      (n : ℕ) (t : ℕ) {st st' : State E}
      → Uses n st st'
      → st.last_request ≡ some t
      → IsAfter (t + n * interval) st'
  Uses-IsAfter n t unused e = (t, e, omega arith)
  Uses-IsAfter n t (elsewhere f before) e = Uses-IsAfter n t before e
  Uses-IsAfter n t (waited {n = m} before) e =
      let (l, e', h) = wait-IsAfter (t + m * interval) _ (Uses-IsAfter m t before e) in
      (l, e', grind arith)
