-- ===== src/Backfill/Kept.antt =====
-- The proof rule of the runner's methods: what each call outside and each request keeps, a method
-- keeps, with what is known of its value when it returns and of the exception when it does not.
use vlytics.Backfill.Runner.{
  Outside, State, Outcome, raised, returned, ◌>>=◌, SourceResponse, fetched, Ingested, ingested,
  ingest_error, BackfillRunner, SourcePage, Failure, unfinished,
}
use vlytics.Backfill.Fetch.{
  moved, wait, wait_from, sleep_until, rest_from, cool_from, ingest, ingest_to, inspect,
  sleep_before, sleep_for, sleep_for_retry, is_retryable, later_of,
}
use vlytics.Sync.Scope.{BackfillScope}
use vlytics.Prelude.{
  ℕ, suc, ◌+◌, ◌-◌, ◌≡◌, ◌≤◌, refl, Bool, true, false, Option, none, some, List, [], ◌∷◌, Text, ltb,
  leb, arith, All, if◌then◌else◌,
}

abbrev pub is_unfinished : Failure → Bool
is_unfinished unfinished = true
is_unfinished _ = false

-- A method ends with a value and a state that pass `Q`, or with an exception and a state that pass `R`.
abbrev pub Ends :
    {E A : Type 0} → (A → State E → Type 0) → (Failure → State E → Type 0) → Outcome E A → Type 0
Ends Q R (raised f st) = R f st
Ends Q R (returned (a, st)) = Q a st

pub Ends-fails :
    {E A : Type 0} (Q : A → State E → Type 0) {R R' : Failure → State E → Type 0} (m : Outcome E A)
    → ((f : Failure) (st : State E) → R f st → R' f st)
    → Ends Q R m
    → Ends Q R' m
Ends-fails Q (raised f st) weaken h = weaken f st h
Ends-fails Q (returned (a, st)) weaken h = h

module _ {E : Type 0} (R : Failure → State E → Type 0) where
  pub >>=-Ends :
      {A B : Type 0} (Q : A → State E → Type 0) (Q' : B → State E → Type 0) (m : Outcome E A)
      (next : A × State E → Outcome E B)
      → Ends Q R m
      → ((a : A) (st : State E) → Q a st → Ends Q' R (next (a, st)))
      → Ends Q' R (m >>= next)
  >>=-Ends Q Q' (raised f st) next h step = h
  >>=-Ends Q Q' (returned (a, st)) next h step = step a st h

  pub if-Ends :
      {A : Type 0} (Q : A → State E → Type 0) (b : Bool) (x y : Outcome E A)
      → (b ≡ true → Ends Q R x)
      → (b ≡ false → Ends Q R y)
      → Ends Q R (if b then x else y)
  if-Ends Q true x y p q = p refl
  if-Ends Q false x y p q = q refl

  pub Ends-mono :
      {A : Type 0} {Q Q' : A → State E → Type 0} (m : Outcome E A)
      → ((a : A) (st : State E) → Q a st → Q' a st)
      → Ends Q R m
      → Ends Q' R m
  Ends-mono (raised f st) weaken h = h
  Ends-mono (returned (a, st)) weaken h = weaken a st h

-- `P n` is what is known of the state when attempt `n` of a page is the next.
pub record Rules {E : Type 0} (o : Outside E) (P : ℕ → State E → Type 0) : Type 0 where
  pub requests :
      (n : ℕ) (st : State E) (l : Option ℕ) → P n st → P n (record st { last_request = l })
  pub now : (n : ℕ) (st : State E) → P n st → P n (moved o (λ e. (o.now e).1) st)
  pub monotonic : (n : ℕ) (st : State E) → P n st → P n (moved o (λ e. (o.monotonic e).1) st)
  pub sleep : (n : ℕ) (st : State E) (d : ℕ) → P n st → P n (moved o (o.sleep d) st)
  pub jitter : (n : ℕ) (st : State E) (k : ℕ) → P n st → P n (moved o (λ e. (o.jitter k e).1) st)
  pub ingests :
      (n : ℕ) (st : State E) (x : SourceResponse)
      → P n st
      → P n (moved o (λ e. (o.ingest x e).1) st)
  pub fetches :
      (n : ℕ) (st : State E) (scope : BackfillScope) (cursor : Option Text) (size at timeout : ℕ)
      → P n st
      → P (suc n) (moved o (λ e. (o.fetch_page scope cursor size at timeout e).1) st)

-- What is known of a page that is returned: the source sent it, no response of it is one to retry,
-- and none was received before the request.
abbrev pub IsAnswer :
    {E : Type 0} → Outside E → BackfillScope → Option Text → ℕ → SourcePage → Type 0
IsAnswer {E = E} o scope cursor size page =
    (at : ℕ) × (timeout : ℕ) × (e : E) × ((o.fetch_page scope cursor size at timeout e).0
      ≡ fetched page)
    × All (λ x. (at ≤ x.received_at) × (is_retryable x.status_code ≡ false)) page.responses

module _ {E : Type 0} (o : Outside E) {P : ℕ → State E → Type 0} (rules : Rules o P) where
  if-kept : (n : ℕ) (b : Bool) (x y : State E) → P n x → P n y → P n (if b then x else y)
  if-kept n true x y p q = p
  if-kept n false x y p q = q

  wait_from-kept :
      (n interval : ℕ) (last : Option ℕ) (at : ℕ × State E)
      → P n at.1
      → P n (wait_from o interval last at)
  wait_from-kept n interval none (now, st) h = rules.requests n st (some now) h
  wait_from-kept n interval (some last) (now, st) h =
      if-kept n (ltb now (last + interval)) _ _
        (rules.requests n _ _ (rules.monotonic n _ (rules.sleep n st (last + interval - now) h)))
        (rules.requests n st (some now) h)

  pub wait-kept : (n interval : ℕ) (st : State E) → P n st → P n (wait o interval st)
  wait-kept n interval st h = wait_from-kept n interval st.last_request _ (rules.monotonic n st h)

  sleep_until-kept : (n time : ℕ) (at : ℕ × State E) → P n at.1 → P n (sleep_until o time at)
  sleep_until-kept n time (now, st) h =
      if-kept n (ltb now time) _ _ (rules.sleep n st (time - now) h) h

  pub rest_from-kept :
      (n interval : ℕ) (last : Option ℕ) (st : State E)
      → P n st
      → P n (rest_from o interval last st)
  rest_from-kept n interval none st h = sleep_until-kept n interval (0, st) h
  rest_from-kept n interval (some last) st h =
      sleep_until-kept n (last + interval) _ (rules.monotonic n st h)

  pub cool_from-kept :
      (n interval : ℕ) (last : Option ℕ) (st : State E)
      → P n st
      → P n (cool_from o interval last st)
  cool_from-kept n interval none st h = h
  cool_from-kept n interval (some last) st h =
      sleep_until-kept n (last + interval) _ (rules.monotonic n st h)

  -- The state after an exception belongs to some attempt.
  abbrev pub Fails : ℕ → Failure → State E → Type 0
  Fails most f st = (n : ℕ) × (n ≤ most) × (is_unfinished f ≡ false) × P n st

  module _ (most : ℕ) where
    ingest_to-Ends :
        (n : ℕ) (got : Ingested × State E)
        → n ≤ most
        → P n got.1
        → Ends (λ _. P n) (Fails most) (ingest_to o got)
    ingest_to-Ends n (ingested action, st) b h = h
    ingest_to-Ends n (ingest_error e, st) b h = (n, b, refl, h)

    pub ingest-Ends :
        (n : ℕ) (x : SourceResponse) (st : State E)
        → n ≤ most
        → P n st
        → Ends (λ _. P n) (Fails most) (ingest o x st)
    ingest-Ends n x st b h = ingest_to-Ends n _ b (rules.ingests n st x h)

    abbrev pub Inspected : ℕ → ℕ → List SourceResponse → Bool → Bool × Option ℕ → State E → Type 0
    Inspected n at xs before (retried, after) st =
        P n st
        × (retried ≡ false
            → (before ≡ false)
              × All (λ x. (at ≤ x.received_at) × (is_retryable x.status_code ≡ false)) xs)

    pub inspect-Ends :
        (n at : ℕ) (xs : List SourceResponse) (before : Bool) (after : Option ℕ) (st : State E)
        → n ≤ most
        → P n st
        → Ends (Inspected n at xs before) (Fails most) (inspect o at xs before after st)
    unfolding inspect
    inspect-Ends n at [] before after st b h = (h, λ e. (e, tt))
    inspect-Ends n at (x ∷ xs) before after st b h =
        if-Ends (Fails most) (Inspected n at (x ∷ xs) before) (ltb x.received_at at) _ _
          (λ _. (n, b, refl, h))
          (λ early.
            if-Ends (Fails most) (Inspected n at (x ∷ xs) before) (is_retryable x.status_code) _ _
              (λ _.
                >>=-Ends (Fails most) (λ _. P n) (Inspected n at (x ∷ xs) before) (ingest o x st) _
                  (ingest-Ends n x st b h)
                  (λ _ st' h'.
                    Ends-mono (Fails most) (inspect o at xs true _ st')
                      (λ (retried, later) st'' (kept, good).
                        (kept, λ e. absurd (ground (arith, good e))))
                      (inspect-Ends n at xs true (later_of after x.retry_after_seconds) st' b h')))
              (λ fine.
                Ends-mono (Fails most) (inspect o at xs before after st)
                  (λ (retried, later) st'' (kept, good).
                    (kept, λ e. ((good e).0, ((ground arith, fine), (good e).1))))
                  (inspect-Ends n at xs before after st b h)))

    sleep_before-Ends :
        (n : ℕ) (deadline : Option ℕ) (pause : ℕ) (st : State E)
        → n ≤ most
        → P n st
        → Ends (λ _. P n) (Fails most) (sleep_before o deadline pause st)
    sleep_before-Ends n none pause st b h = rules.sleep n st pause h
    sleep_before-Ends n (some deadline) pause st b h =
        if-Ends (Fails most) (λ _. P n) (leb deadline ((o.now st.outside).0 + pause)) _ _
          (λ _. (n, b, refl, rules.now n st h)) (λ _. rules.sleep n _ pause (rules.now n st h))

    sleep_for-Ends :
        (n : ℕ) (deadline pause : Option ℕ) (st : State E)
        → n ≤ most
        → P n st
        → Ends (λ _. P n) (Fails most) (sleep_for o deadline pause st)
    sleep_for-Ends n deadline none st b h = (n, b, refl, h)
    sleep_for-Ends n deadline (some pause) st b h = sleep_before-Ends n deadline pause st b h

    pub sleep_for_retry-Ends :
        (r : BackfillRunner) (n k : ℕ) (after deadline : Option ℕ) (st : State E)
        → n ≤ most
        → P n st
        → Ends (λ _. P n) (Fails most) (sleep_for_retry o r k after deadline st)
    unfolding sleep_for_retry
    sleep_for_retry-Ends r n k after deadline st b h =
        sleep_for-Ends n deadline _ _ b (rules.jitter n st k h)
