-- ===== src/Budget/Course.antt =====
-- The courses of reservations and settlements, and what they keep within the limits.
use mathlib.Core.Path.{subst}
use vlytics.Budget.Within.{
  IsWithin, each_day, each_month, reserve_amount-adds, settle_amount-rows, settled_totals,
}
use vlytics.Budget.Amount.{Decimal, database_amount}
use vlytics.Budget.{
  Reservation, ProviderBudgetLimits, Ledger, on_day, in_month, reserve_amount, settle_amount,
  text_eq, true, is_open, settled_row, Decimal, reserve, database_amount, settle, release,
}
use vlytics.Jobs.{Job, ok, >>=-eq-ok}
use vlytics.Prelude.{
  All-update, refl, ℕ, Bool, ◌≡◌, ◌≤◌, List, Text, arith, text_eq, true, inl, sym, inr,
}

-- A ledger that speaks for the provider has the limits.
abbrev pub Governs : ProviderBudgetLimits → Text → Ledger → Type 0
Governs limits provider l = text_eq l.provider provider ≡ true → l.limits ≡ limits

-- The calls that change the rows. A call that raises changes nothing and is no step.
pub data Step (limits : ProviderBudgetLimits) (provider : Text)
    : List Reservation → List Reservation → Type 0 where
  reserves :
      {rows rows' : List Reservation} (jobs : List Job) (id : ℕ) (amount : Decimal) (l l' : Ledger)
      (granted : Bool)
      → Governs limits provider l
      → reserve jobs id amount l rows ≡ ok (granted, l', rows')
      → Step limits provider rows rows'
  settles :
      {rows rows' : List Reservation} (cost actual : Decimal) (r a : ℕ) (l : Ledger)
      → database_amount cost ≡ ok r
      → database_amount actual ≡ ok a
      → a ≤ r
      → settle cost actual l rows ≡ ok rows'
      → Step limits provider rows rows'
  releases :
      {rows rows' : List Reservation} (cost : Decimal) (l : Ledger)
      → release cost l rows ≡ ok rows'
      → Step limits provider rows rows'

pub data Reaches (limits : ProviderBudgetLimits) (provider : Text)
    : List Reservation → List Reservation → Type 0 where
  none_yet : {rows : List Reservation} → Reaches limits provider rows rows
  then_step :
      {rows rows₁ rows₂ : List Reservation}
      → Reaches limits provider rows rows₁
      → Step limits provider rows₁ rows₂
      → Reaches limits provider rows rows₂

module _ (limits : ProviderBudgetLimits) (provider : Text) where
  reserve_amount-IsWithin :
      (jobs : List Job) (id amount : ℕ) (l l' : Ledger) (rows rows' : List Reservation)
      (granted : Bool)
      → Governs limits provider l
      → reserve_amount jobs id amount l rows ≡ ok (granted, l', rows')
      → IsWithin limits provider rows
      → IsWithin limits provider rows'
  reserve_amount-IsWithin jobs id amount l l' rows rows' granted governed e
        (ok_rows, days, months) =
      elim (reserve_amount-adds jobs id amount l l' rows rows' granted e) [
        | inl same ↦ subst (IsWithin limits provider) (sym same) (ok_rows, days, months)
        | inr (fits, more) ↦ subst (IsWithin limits provider) (sym more) (
          (refl, ok_rows),
          λ day. each_day jobs id amount l rows fits limits provider governed day (days day),
          λ month.
              each_month jobs id amount l rows fits limits provider governed month (months month),
        )
      ]

  settle_amount-IsWithin :
      (cost actual : ℕ) (l : Ledger) (rows rows' : List Reservation)
      → actual ≤ cost
      → settle_amount cost actual l rows ≡ ok rows'
      → IsWithin limits provider rows
      → IsWithin limits provider rows'
  settle_amount-IsWithin cost actual l rows rows' less e (ok_rows, days, months) =
      elim (settle_amount-rows cost actual l rows rows' e) [
        | inl same ↦ subst (IsWithin limits provider) (sym same) (ok_rows, days, months)
        | inr (id, changed) ↦ subst (IsWithin limits provider) (sym changed) (
          All-update (is_open id cost) (settled_row cost actual) rows (λ r p h. refl) ok_rows,
          λ day.
              settled_totals (on_day provider day limits.currency) id cost actual rows
                limits.daily_amount limits.daily_calls (λ r. refl) less ok_rows (days day),
          λ month.
              settled_totals (in_month provider month limits.currency) id cost actual rows
                limits.monthly_amount limits.monthly_calls (λ r. refl) less ok_rows (months month),
        )
      ]

  Step-IsWithin :
      {rows rows' : List Reservation}
      → Step limits provider rows rows'
      → IsWithin limits provider rows
      → IsWithin limits provider rows'
  unfolding reserve settle release
  Step-IsWithin {rows} {rows'} (reserves jobs id amount l l' granted governed e) h =
      let (n, at, e) = >>=-eq-ok (database_amount amount) _ e in
      reserve_amount-IsWithin jobs id n l l' rows rows' granted governed e h
  Step-IsWithin {rows} {rows'} (settles cost actual r a l er ea less e) h =
      settle_amount-IsWithin r a l rows rows' less (rw (er, ea) at e) h
  Step-IsWithin {rows} {rows'} (releases cost l e) h =
      let (r, at, e) = >>=-eq-ok (database_amount cost) _ e in
      settle_amount-IsWithin r 0 l rows rows' (omega arith) e h

  -- If every ledger of the provider has the limits, and no call is settled above what was reserved
  -- for it, any course of reservations, settlements and releases keeps the charges and the calls of
  -- the provider within the limits on every day and in every month.
  pub Reaches-IsWithin :
      {rows rows' : List Reservation}
      → Reaches limits provider rows rows'
      → IsWithin limits provider rows
      → IsWithin limits provider rows'
  Reaches-IsWithin none_yet h = h
  Reaches-IsWithin (then_step before step) h = Step-IsWithin step (Reaches-IsWithin before h)
