-- ===== src/Budget/Within.antt =====
-- What a provider's calls cost stays within its limits.
use mathlib.Core.Path.{subst}
use vlytics.Budget.Charges.{charges-update, count-update}
use vlytics.Budget.{
  Date, Reservation, ProviderBudgetLimits, Ledger, charges, on_day, in_month, exceeds,
  reservation_row, reserve_amount, is_reserved, settle_amount, text_eq, same_date, month_of, true,
  update, is_open, settled_row, some, charge,
}
use vlytics.Jobs.{Job, ok}
use vlytics.Prelude.{
  refl, ℕ, Bool, false, not, ◌≡◌, ◌≤◌, ◌⊎◌, List, ◌∷◌, Text, All, count, is_some, arith,
  text_eq_refl, text_eq, true, update, Bool-cases, inl, eq_of_text_eq, inr, some, ◌==◌,
  Option-cases, All-mono,
}

-- state = 'settled' exactly if settled_amount is not null.
abbrev pub IsRow : Reservation → Type 0
IsRow r = is_some r.settled_amount ≡ not (is_reserved r.state)

abbrev pub DayWithin : ProviderBudgetLimits → Text → List Reservation → Date → Type 0
DayWithin limits provider rows day =
    (charges (on_day provider day limits.currency) rows ≤ limits.daily_amount)
    × (count (on_day provider day limits.currency) rows ≤ limits.daily_calls)

abbrev pub MonthWithin : ProviderBudgetLimits → Text → List Reservation → Date → Type 0
MonthWithin limits provider rows month =
    (charges (in_month provider month limits.currency) rows ≤ limits.monthly_amount)
    × (count (in_month provider month limits.currency) rows ≤ limits.monthly_calls)

-- On every day and in every month the charges and the calls of the provider are within the limits.
abbrev pub IsWithin : ProviderBudgetLimits → Text → List Reservation → Type 0
IsWithin limits provider rows =
    All IsRow rows
    × ((day : Date) → DayWithin limits provider rows day)
    × ((month : Date) → MonthWithin limits provider rows month)

pub reserve_amount-adds :
    (jobs : List Job) (id amount : ℕ) (l l' : Ledger) (rows rows' : List Reservation)
    (granted : Bool)
    → reserve_amount jobs id amount l rows ≡ ok (granted, l', rows')
    → (rows' ≡ rows)
      ⊎ ((exceeds jobs l amount rows ≡ false) × (rows' ≡ reservation_row id l amount ∷ rows))
unfolding reserve_amount
reserve_amount-adds jobs id amount l l' rows rows' granted e = ground arith

eq_of_same_date : (a b : Date) → same_date a b ≡ true → a ≡ b
eq_of_same_date a b e =
    let y : a.year ≡ b.year = ground arith in
    let m : a.month ≡ b.month = ground arith in
    let d : a.day ≡ b.day = ground arith in rw (y, m, d) refl

module _ (jobs : List Job) (id amount : ℕ) (l : Ledger) (rows : List Reservation)
    (fits : exceeds jobs l amount rows ≡ false) where
  own_day : DayWithin l.limits l.provider (reservation_row id l amount ∷ rows) l.reserved_on
  unfolding charges count
  own_day =
      let p = text_eq_refl l.provider in let c = text_eq_refl l.limits.currency in ground arith

  own_month :
      MonthWithin l.limits l.provider (reservation_row id l amount ∷ rows) (month_of l.reserved_on)
  unfolding charges count
  own_month =
      let p = text_eq_refl l.provider in let c = text_eq_refl l.limits.currency in ground arith

  moved_day :
      (limits : ProviderBudgetLimits) (provider : Text) (day : Date)
      → l.limits ≡ limits
      → l.provider ≡ provider
      → l.reserved_on ≡ day
      → DayWithin limits provider (reservation_row id l amount ∷ rows) day
  moved_day limits provider day a b c =
      subst (λ x. DayWithin x provider (reservation_row id l amount ∷ rows) day) a
        (subst (λ x. DayWithin l.limits x (reservation_row id l amount ∷ rows) day) b
          (subst (λ x. DayWithin l.limits l.provider (reservation_row id l amount ∷ rows) x) c
            own_day))

  moved_month :
      (limits : ProviderBudgetLimits) (provider : Text) (month : Date)
      → l.limits ≡ limits
      → l.provider ≡ provider
      → month_of l.reserved_on ≡ month
      → MonthWithin limits provider (reservation_row id l amount ∷ rows) month
  moved_month limits provider month a b c =
      subst (λ x. MonthWithin x provider (reservation_row id l amount ∷ rows) month) a
        (subst (λ x. MonthWithin l.limits x (reservation_row id l amount ∷ rows) month) b
          (subst (λ x. MonthWithin l.limits l.provider (reservation_row id l amount ∷ rows) x) c
            own_month))

  module _ (limits : ProviderBudgetLimits) (provider : Text)
      (governed : text_eq l.provider provider ≡ true → l.limits ≡ limits) where
    pub each_day :
        (day : Date)
        → DayWithin limits provider rows day
        → DayWithin limits provider (reservation_row id l amount ∷ rows) day
    unfolding charges count
    each_day day before =
        elim (Bool-cases (on_day provider day limits.currency (reservation_row id l amount))) [
          | inl same ↦
              let p : text_eq l.provider provider ≡ true = ground arith in
              let d : same_date l.reserved_on day ≡ true = ground arith in
              moved_day limits provider day (governed p) (eq_of_text_eq l.provider provider p)
                (eq_of_same_date l.reserved_on day d)
          | inr other ↦ ground arith
        ]

    pub each_month :
        (month : Date)
        → MonthWithin limits provider rows month
        → MonthWithin limits provider (reservation_row id l amount ∷ rows) month
    unfolding charges count
    each_month month before =
        elim (Bool-cases (in_month provider month limits.currency (reservation_row id l amount))) [
          | inl same ↦
              let p : text_eq l.provider provider ≡ true = ground arith in
              let d : same_date (month_of l.reserved_on) month ≡ true = ground arith in
              moved_month limits provider month (governed p) (eq_of_text_eq l.provider provider p)
                (eq_of_same_date (month_of l.reserved_on) month d)
          | inr other ↦ ground arith
        ]

pub settle_amount-rows :
    (reserved_cost actual : ℕ) (l : Ledger) (rows rows' : List Reservation)
    → settle_amount reserved_cost actual l rows ≡ ok rows'
    → (rows' ≡ rows)
      ⊎ ((id : ℕ) × (rows'
            ≡ update (is_open id reserved_cost) (settled_row reserved_cost actual) rows))
unfolding settle_amount
settle_amount-rows reserved_cost actual l rows rows' e = elim (Option-cases l.reservation_id) [
  | inl none_held ↦ absurd (ground arith)
  | inr (id, held) ↦ inr_or id held
]
  where
    inr_or :
        (id : ℕ)
        → l.reservation_id ≡ some id
        → (rows' ≡ rows)
          ⊎ ((id : ℕ) × (rows'
                ≡ update (is_open id reserved_cost) (settled_row reserved_cost actual) rows))
    inr_or id held = elim (Bool-cases (count (is_open id reserved_cost) rows == 0)) [
      | inl gone ↦ inl (ground arith)
      | inr there ↦ inr (id, ground arith)
    ]

settled_charge :
    (id cost actual : ℕ) (r : Reservation)
    → actual ≤ cost
    → IsRow r
    → is_open id cost r ≡ true
    → charge (settled_row cost actual r) ≤ charge r
settled_charge id cost actual r less row unsettled = ground arith

pub settled_totals :
    (q : Reservation → Bool) (id cost actual : ℕ) (rows : List Reservation) (amount calls : ℕ)
    → ((r : Reservation) → q (settled_row cost actual r) ≡ q r)
    → actual ≤ cost
    → All IsRow rows
    → (charges q rows ≤ amount) × (count q rows ≤ calls)
    → (charges q (update (is_open id cost) (settled_row cost actual) rows) ≤ amount)
      × (count q (update (is_open id cost) (settled_row cost actual) rows) ≤ calls)
settled_totals q id cost actual rows amount calls keeps less ok_rows before =
    let lower =
      charges-update q (is_open id cost) (settled_row cost actual) keeps rows
        (All-mono rows (λ r row. settled_charge id cost actual r less row) ok_rows) in
    let same = count-update q (is_open id cost) (settled_row cost actual) keeps rows in
    (omega (arith, lower, before.0), omega (arith, same, before.1))
