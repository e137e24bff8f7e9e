-- ===== src/Provider/Billed.antt =====
-- What a call is charged, and that a settlement charges it.
use vlytics.Provider.Call.{
  PredictionContext, value, PredictionProvider, Call, Ended, Facts, no_response,
}
use vlytics.Provider.Predict.{fail, preflight, is_unresolved, after_settle, bill}
use vlytics.Provider.{
  succeeded, FailureCode, PyError, PredictionAttemptResult, is_consistent, ProviderResponseMetadata,
  BudgetAccount, IsAccount, maximum_call_cost, ProviderUsage, cost_of, skipped, granted,
  ProviderVariant,
}
use mathlib.Core.Path.{subst, ap, sym}
use vlytics.Prelude.{
  Bool, true, false, Option, none, some, Text, ◌≡◌, refl, arith, ℕ, ◌+◌, ◌≤◌, length, ap, sym, ◌⊎◌,
  inl, inr,
}
use vlytics.Provider.Settles.{EndsWith, EndsWith-mono, Stays, IsGood}

-- The cost of a result is that of its usage, and without a usage at most the reserved one.
abbrev pub IsPriced : ProviderVariant → Option ProviderUsage → ℕ → Type 0
IsPriced v none cost = cost ≤ maximum_call_cost v
IsPriced v (some u) cost = cost ≡ cost_of v u

module _ {E O S : Type 0} (p : PredictionProvider E O) (b : BudgetAccount S) (spent held : S → ℕ)
    (account : IsAccount b spent held) (context : PredictionContext) where
  -- The document passed the checks before the call, and the response those after it.
  abbrev pub IsApproved : PredictionAttemptResult O → Type 0
  IsApproved r =
      (document : Text) × (response : Text) × (m : ProviderResponseMetadata) × (o : O) × (preflight
          p b context
        ≡ (document, none))
      × (is_unresolved p b context ≡ false)
      × (length document ≤ p.variant.max_input_tokens)
      × (p.parse_response_metadata response ≡ value m)
      × IsGood p b context response m o
      × (r.output ≡ some o)

  -- The budget grants the greatest cost of a call.
  abbrev pub IsGranted : Call E S → Type 0
  IsGranted st = (b.reserve (maximum_call_cost p.variant) st.budget).0 ≡ granted

  abbrev pub Charges : Call E S → PredictionAttemptResult O → Call E S → Type 0
  Charges st r st' =
      (spent st'.budget ≡ spent st.budget + r.cost)
      × (held st'.budget ≡ held st.budget)
      × IsPriced p.variant r.usage r.cost
      × ((r.cost ≡ 0) ⊎ IsGranted st)
      × (is_consistent r ≡ true)
      × (r.status ≡ succeeded → IsApproved r)

  -- What was reserved or spent is not lost.
  abbrev pub Loses : Call E S → PyError → Call E S → Type 0
  Loses st e st' = spent st.budget + held st.budget ≤ spent st'.budget + held st'.budget

  abbrev pub Fine : Call E S → Ended E S (PredictionAttemptResult O) → Type 0
  Fine st = EndsWith (Charges st) (Loses st)

  abbrev pub cap : ℕ
  cap = maximum_call_cost p.variant

  -- The greatest cost was reserved.
  abbrev pub Holds : Call E S → Call E S → Type 0
  Holds before st =
      (spent st.budget ≡ spent before.budget)
      × (held st.budget ≡ held before.budget + cap)
      × IsGranted before

  after_settle-Fine :
      (before st : Call E S) (f : Facts) (next : Call E S → Ended E S (PredictionAttemptResult O))
      (got : Bool × S)
      → got.0 ≡ true
      → spent got.1 ≡ spent before.budget + f.cost
      → held got.1 ≡ held before.budget
      → IsPriced p.variant f.usage f.cost
      → IsGranted before
      → ((st : Call E S) → Stays p b context IsApproved f st (next st))
      → Fine before (after_settle p b context next st got)
  after_settle-Fine before st f next (true, s) e paid free priced ok stays =
      EndsWith-mono _ (Charges before) _ (Loses before) (next (record st { budget = s }))
        (λ r st' ((consistent, usage, cost, good), same).
          let now = ap (λ c. spent c.budget) same in
          let kept = ap (λ c. held c.budget) same in
          (
            omega arith,
            omega arith,
            subst (λ u. IsPriced p.variant u r.cost) (sym usage)
                (subst (λ c. IsPriced p.variant f.usage c) (sym cost) priced),
            inr ok,
            consistent,
            good,
          ))
        (λ e st' same.
          let now = ap (λ c. spent c.budget) same in
          let kept = ap (λ c. held c.budget) same in omega arith)
        (stays (record st { budget = s }))
  after_settle-Fine before st f next (false, s) e paid free priced ok stays = absurd (ground arith)

  pub bill-Fine :
      (before st : Call E S) (actual : ℕ) (f : Facts)
      (next : Call E S → Ended E S (PredictionAttemptResult O))
      → Holds before st
      → actual ≡ f.cost
      → IsPriced p.variant f.usage f.cost
      → ((st : Call E S) → Stays p b context IsApproved f st (next st))
      → Fine before (bill p b context actual next st)
  bill-Fine before st actual f next (same, more, ok) e priced stays =
      let (fine, paid, freed) = account.settles cap actual st.budget (omega arith) in
      after_settle-Fine before st f next (b.settle cap actual st.budget) fine (omega arith)
        (omega arith) priced ok stays

  pub skip-Fine :
      (before : Call E S) (code : FailureCode) (hash : Text) (e : E) (s : S)
      → spent s ≡ spent before.budget
      → held s ≡ held before.budget
      → Fine before (
          fail p b context skipped code
            (no_response hash none 0)
            (record { outside = e; budget = s }))
  skip-Fine before code hash e s same alike =
      (omega arith, omega arith, omega arith, inl refl, refl, λ x. absurd (ground arith))
