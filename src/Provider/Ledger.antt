-- ===== src/Provider/Ledger.antt =====
-- `BudgetLedger` of backend/src/vlytics/engine/providers/models.py is an account, and calls within
-- their limits do not take it beyond its cap.
use vlytics.Provider.Settles.{EndsWith, EndsWith-mono}
use vlytics.Provider.Billed.{IsPriced}
use vlytics.Provider.Charged.{predict-Charges}
use vlytics.Provider.Call.{PredictionProvider, PredictionContext, Call, is_excessive}
use vlytics.Provider.Predict.{predict}
use vlytics.Provider.{
  release, reserve, settle, BudgetLedger, BudgetAccount, IsAccount, ProviderUsage, ProviderVariant,
  granted, denied, maximum_call_cost, cost_of,
}
use native.Mathlib.Nat.{mul-le-mul_right}
use vlytics.Prelude.{
  ℕ, Bool, true, false, Option, none, some, ◌+◌, ◌≡◌, ◌≤◌, ◌≢◌, refl, arith, Bool-cases, inl, inr,
  ltb, ◌⊎◌, not,
}

abbrev pub ledger : BudgetAccount BudgetLedger
ledger = record { reserve = reserve; settle = settle; release = release }

grants :
    (amount : ℕ) (l : BudgetLedger)
    → (reserve amount l).0 ≡ granted
    → ((reserve amount l).1.spent ≡ l.spent)
      × ((reserve amount l).1.reserved ≡ l.reserved + amount)
      × (l.spent + l.reserved + amount ≤ l.cap)
unfolding reserve
grants amount l e = elim (Bool-cases (ltb l.cap (l.spent + l.reserved + amount))) [
  | inl over ↦ absurd (denied-granted (rw (over, reserve) at e))
  | inr fits ↦ rw fits (refl, refl, ground arith)
]
  where
    denied-granted : denied ≡ granted → ⊥
    denied-granted e = ground arith

denies :
    (amount : ℕ) (l : BudgetLedger)
    → (reserve amount l).0 ≢ granted
    → ((reserve amount l).1.spent ≡ l.spent) × ((reserve amount l).1.reserved ≡ l.reserved)
unfolding reserve
denies amount l e = elim (Bool-cases (ltb l.cap (l.spent + l.reserved + amount))) [
  | inl over ↦ rw over (refl, refl)
  | inr fits ↦ absurd (e (rw fits refl))
]

settles :
    (reserved actual : ℕ) (l : BudgetLedger)
    → reserved ≤ l.reserved
    → ((settle reserved actual l).0 ≡ true)
      × ((settle reserved actual l).1.spent ≡ l.spent + actual)
      × ((settle reserved actual l).1.reserved + reserved ≡ l.reserved)
unfolding settle
settles reserved actual l h = elim (Bool-cases (ltb l.reserved reserved)) [
  | inl over ↦ absurd (ground arith)
  | inr fits ↦ rw fits (refl, refl, omega arith)
]

-- The process-local budget keeps the promises of an account: a reservation that is granted is held,
-- one that is not changes nothing, and the settlement of an amount that is held succeeds, frees it
-- and adds the actual cost to what was spent.
releases :
    (reserved : ℕ) (l : BudgetLedger)
    → reserved ≤ l.reserved
    → ((release reserved l).0 ≡ true)
      × ((release reserved l).1.spent ≡ l.spent)
      × ((release reserved l).1.reserved + reserved ≡ l.reserved)
unfolding release
releases reserved l h = elim (Bool-cases (ltb l.reserved reserved)) [
  | inl over ↦ absurd (ground arith)
  | inr fits ↦ rw fits (refl, refl, omega arith)
]

-- The process-local budget keeps the promises of an account: a reservation that is granted is held,
-- one that is not changes nothing, the settlement of an amount that is held succeeds, frees it and
-- adds the actual cost to what was spent, and its release succeeds and frees it alone.
pub ledger-IsAccount : IsAccount ledger (λ l. l.spent) (λ l. l.reserved)
ledger-IsAccount = record {
  grants = λ amount l e. let (same, more, _) = grants amount l e in (same, more);
  denies = denies;
  settles = settles;
  releases = releases;
}

-- A call's usage is not known, or within the limits of its variant.
abbrev pub is_moderate : ProviderVariant → Option ProviderUsage → Bool
is_moderate v none = true
is_moderate v (some u) = not (is_excessive v u)

cost_of-≤ :
    (v : ProviderVariant) (u : ProviderUsage)
    → is_excessive v u ≡ false
    → cost_of v u ≤ maximum_call_cost v
cost_of-≤ v u within =
    let input : u.input_tokens ≤ v.max_input_tokens = ground arith in
    let output : u.output_tokens ≤ v.max_output_tokens = ground arith in
    omega (
      arith,
      mul-le-mul_right v.input_cost_per_million input,
      mul-le-mul_right v.output_cost_per_million output,
    )

priced-≤ :
    (v : ProviderVariant) (usage : Option ProviderUsage) (cost : ℕ)
    → is_moderate v usage ≡ true
    → IsPriced v usage cost
    → cost ≤ maximum_call_cost v
priced-≤ v none cost within priced = priced
priced-≤ v (some u) cost within priced = rw priced (cost_of-≤ v u (ground arith))

module _ {E O : Type 0} (p : PredictionProvider E O) (context : PredictionContext) where
  -- If the process-local budget is within its cap, spent and held together, and `predict` returns a
  -- result whose usage is not known or within the limits of the variant, it is within its cap
  -- afterwards.
  pub predict-cap :
      (timeout_ms : ℕ) (st : Call E BudgetLedger)
      → st.budget.spent + st.budget.reserved ≤ st.budget.cap
      → EndsWith
          (λ r st'.
            is_moderate p.variant r.usage ≡ true
            → st'.budget.spent + st'.budget.reserved ≤ st.budget.cap)
          (λ _ _. Unit)
          (predict p ledger context timeout_ms st)
  predict-cap timeout_ms st h =
      EndsWith-mono _ _ _ (λ _ _. Unit {0}) (predict p ledger context timeout_ms st)
        (λ r st' (paid, free, priced, reason, _, _) within.
          under_cap r.cost (priced-≤ p.variant r.usage r.cost within priced) reason paid free)
        (λ _ _ _. tt)
        (predict-Charges p ledger (λ l. l.spent) (λ l. l.reserved) ledger-IsAccount context
          timeout_ms st)
    where
      under_cap :
          (cost : ℕ) {spent reserved : ℕ}
          → cost ≤ maximum_call_cost p.variant
          → (cost ≡ 0) ⊎ ((reserve (maximum_call_cost p.variant) st.budget).0 ≡ granted)
          → spent ≡ st.budget.spent + cost
          → reserved ≡ st.budget.reserved
          → spent + reserved ≤ st.budget.cap
      under_cap cost low (inl nothing) paid free = omega arith
      under_cap cost low (inr ok) paid free =
          let (_, _, fits) = grants (maximum_call_cost p.variant) st.budget ok in omega arith
