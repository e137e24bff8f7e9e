-- ===== src/Backfill/Split.antt =====
-- The pages of a run in two parts, and the requests of the parts.

use vlytics.Backfill.Runner.{Outside, State, Outcome, BackfillRunner, raised, returned, ◌>>=◌}
use vlytics.Backfill.Runs.{BackfillResult, result_of, run_page, go_on, run_pages}
use vlytics.Backfill.{BackfillCheckpoint}
use vlytics.Sync.Scope.{BackfillScope}
use vlytics.Prelude.{
  ℕ, zero, suc, ◌+◌, ◌≡◌, refl, true, false, Option, arith, sym, ap, ◌∙◌, if◌then◌else◌, if_true,
  if_false, inl, inr, Bool-cases, inl, inr,
}

-- The sums of two runs.
abbrev pub added : BackfillResult → BackfillResult → BackfillResult
added before r = result_of r.checkpoint (before.requests + r.requests) (before.retries + r.retries)

abbrev pub with_counts :
    {E : Type 0} → BackfillResult → Outcome E BackfillResult → Outcome E BackfillResult
with_counts before (raised f st) = raised f st
with_counts before (returned (r, st)) = returned (added before r, st)

pub added_eq :
    (c : BackfillCheckpoint) {q q' k k' : ℕ} → q ≡ q' → k ≡ k' → result_of c q k ≡ result_of c q' k'
added_eq c e f = rw (e, f) refl

with_counts_twice :
    {E : Type 0} (x y z : BackfillResult) (m : Outcome E BackfillResult)
    → x.requests ≡ y.requests + z.requests
    → x.retries ≡ y.retries + z.retries
    → with_counts x m ≡ with_counts y (with_counts z m)
with_counts_twice x y z (raised f st) e g = refl
with_counts_twice x y z (returned (r, st)) e g =
    ap (λ w. returned (w, st)) (added_eq r.checkpoint (omega arith) (omega arith))

-- The counts do not depend on the checkpoint.
pub with_counts_of :
    {E : Type 0} (x : BackfillResult) (m : Outcome E BackfillResult)
    → with_counts (result_of x.checkpoint x.requests x.retries) m ≡ with_counts x m
with_counts_of x (raised f st) = refl
with_counts_of x (returned (r, st)) = refl

module _ {E : Type 0} (o : Outside E) (r : BackfillRunner) (scope : BackfillScope) (v b : ℕ)
    (deadline : Option ℕ) where
  abbrev pub pages : ℕ → BackfillCheckpoint → ℕ → ℕ → State E → Outcome E BackfillResult
  pages n = run_pages o n true r scope v b deadline

  -- What comes after the pages of a run that may still be open.
  abbrev pub rest : ℕ → BackfillResult × State E → Outcome E BackfillResult
  rest n (res, st) =
      if res.checkpoint.is_completed
      then returned (res, st)
      else pages n res.checkpoint res.requests res.retries st

  turn_split :
      (m n q k : ℕ) (page : Outcome E (BackfillCheckpoint × ℕ × ℕ))
      → ((c : BackfillCheckpoint) (q k : ℕ) (st : State E)
          → c.is_completed ≡ false
          → pages (m + n) c q k st ≡ (pages m c q k st >>= rest n))
      → (page >>= go_on o (pages (m + n)) q k) ≡ ((page >>= go_on o (pages m) q k) >>= rest n)
  turn_split m n q k (raised f st') later = refl
  turn_split m n q k (returned ((c, more, again), st)) later = elim (Bool-cases c.is_completed) [
    | inl done ↦
        if_true _ _ done
        ∙ sym (
            ap (λ x. x >>= rest n) (if_true _ (pages m c (q + more) (k + again) st) done)
            ∙ if_true _ _ done)
    | inr open_one ↦
        if_false _ _ open_one
        ∙ later c (q + more) (k + again) st open_one
        ∙ sym (ap (λ x. x >>= rest n) (if_false _ (pages m c (q + more) (k + again) st) open_one))
  ]

  pub pages_split :
      (m n : ℕ) (c : BackfillCheckpoint) (q k : ℕ) (st : State E)
      → c.is_completed ≡ false
      → pages (m + n) c q k st ≡ (pages m c q k st >>= rest n)
  unfolding run_pages
  pages_split zero n c q k st open_one =
      let e : zero + n ≡ n = omega arith in
      ap (λ x. pages x c q k st) e ∙ sym (if_false _ _ open_one)
  pages_split (suc m) n c q k st open_one =
      let e : suc m + n ≡ suc (m + n) = omega arith in
      ap (λ x. pages x c q k st) e
      ∙ turn_split m n q k (run_page o r scope v b deadline c st) (pages_split m n)

  turn_counts :
      (n : ℕ) (c : BackfillCheckpoint) (q k : ℕ) (page : Outcome E (BackfillCheckpoint × ℕ × ℕ))
      → ((c : BackfillCheckpoint) (q k : ℕ) (st : State E)
          → pages n c q k st ≡ with_counts (result_of c q k) (pages n c 0 0 st))
      → (page >>= go_on o (pages n) q k)
        ≡ with_counts (result_of c q k) (page >>= go_on o (pages n) 0 0)
  turn_counts n c q k (raised f st) later = refl
  turn_counts n c q k (returned ((c', more, again), st)) later = elim (Bool-cases c'.is_completed) [
    | inl done ↦
        if_true _ _ done
        ∙ ap (λ w. returned (w, st)) (added_eq c' (omega arith) (omega arith))
        ∙ sym (
            ap (with_counts (result_of c q k))
              (if_true _ (pages n c' (0 + more) (0 + again) st) done))
    | inr open_one ↦
        if_false _ _ open_one
        ∙ later c' (q + more) (k + again) st
        ∙ with_counts_twice (result_of c' (q + more) (k + again)) (result_of c q k)
            (result_of c' (0 + more) (0 + again)) (pages n c' 0 0 st) (omega arith) (omega arith)
        ∙ ap (with_counts (result_of c q k)) (sym (later c' (0 + more) (0 + again) st))
        ∙ sym (
            ap (with_counts (result_of c q k))
              (if_false _ (pages n c' (0 + more) (0 + again) st) open_one))
  ]

  pub pages_counts :
      (n : ℕ) (c : BackfillCheckpoint) (q k : ℕ) (st : State E)
      → pages n c q k st ≡ with_counts (result_of c q k) (pages n c 0 0 st)
  unfolding run_pages
  pages_counts zero c q k st = ap (λ w. returned (w, st)) (added_eq c (omega arith) (omega arith))
  pages_counts (suc n) c q k st =
      turn_counts n c q k (run_page o r scope v b deadline c st) (pages_counts n)
