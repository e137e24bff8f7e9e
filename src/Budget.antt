-- ===== src/Budget.antt =====
-- `PostgresBudgetLedger` of backend/src/vlytics/engine/providers/budget.py, on the rows of
-- ops.provider_budget_reservations. A method's statements run in one transaction under advisory locks
-- on the day, the month and the match, so they are one step on the rows.
pub mod Amount
pub mod Charges
pub mod Within
pub mod Course
mod Again
mod Tests
use vlytics.Budget.Amount.{Decimal, database_amount, database_max}
use vlytics.Jobs.{Job, Result, ok, err, value_error, ◌>>=◌, find}
use vlytics.Prelude.{
  ℕ, Bool, true, false, not, ◌&&◌, ◌||◌, Option, none, some, List, [], ◌∷◌, ◌++◌, Text, text_eq,
  ◌+◌, ltb, leb, ◌==◌, holds, if◌then◌else◌, first, update, count, is_some,
}

pub record Date : Type 0 where
  pub year : ℕ
  pub month : ℕ
  pub day : ℕ

abbrev pub same_date : Date → Date → Bool
same_date a b = a.year == b.year && (a.month == b.month && a.day == b.day)

pub data ReservationState : Type 0 where
  reserved settled : ReservationState

-- A row of ops.provider_budget_reservations.
pub record Reservation : Type 0 where
  pub id : ℕ
  pub reservation_key : Text
  pub provider : Text
  pub job_id : ℕ
  pub budget_day : Date
  pub budget_month : Date
  pub reserved_amount : ℕ
  pub settled_amount : Option ℕ
  pub state : ReservationState
  pub conservative_charge : Bool
  pub currency : Text

-- Amounts are in units of the quantum. Those of a configuration may have more digits; an amount is
-- compared with them after it was rounded up to the quantum, so rounding them down changes nothing.
pub record ProviderBudgetLimits : Type 0 where
  pub daily_amount : ℕ
  pub monthly_amount : ℕ
  pub daily_calls : ℕ
  pub monthly_calls : ℕ
  pub max_calls_per_match : ℕ
  pub currency : Text

-- The ledger of one call. `reserved_on` is the day of `reserved_at` in UTC.
pub record Ledger : Type 0 where
  pub reservation_key : Text
  pub provider : Text
  pub job_id : ℕ
  pub limits : ProviderBudgetLimits
  pub reserved_on : Date
  pub reservation_id : Option ℕ
  pub reserved_amount : Option ℕ

abbrev pub month_of : Date → Date
month_of d = record d { day = 1 }

-- COALESCE(settled_amount, reserved_amount)
abbrev pub charge : Reservation → ℕ
charge r = elim r.settled_amount [ none ↦ r.reserved_amount | some amount ↦ amount ]

-- The sum of the charges of the rows that pass a test.
unfoldable pub charges : (Reservation → Bool) → List Reservation → ℕ
charges q [] = 0
charges q (r ∷ rows) = if q r then charge r + charges q rows else charges q rows

abbrev pub on_day : Text → Date → Text → Reservation → Bool
on_day provider day currency r =
    text_eq r.provider provider && (same_date r.budget_day day && text_eq r.currency currency)

abbrev pub in_month : Text → Date → Text → Reservation → Bool
in_month provider month currency r =
    text_eq r.provider provider && (same_date r.budget_month month && text_eq r.currency currency)

-- The match of a job; a job that is not there has none.
abbrev pub match_of : List Job → ℕ → Option ℕ
match_of jobs i = elim (find i jobs) [ none ↦ none | some j ↦ j.match_id ]

-- The rows of the calls for one match, or for one job if it has no match.
abbrev pub for_match : List Job → Ledger → Reservation → Bool
for_match jobs l r = text_eq r.provider l.provider && elim (match_of jobs l.job_id) [
  | none ↦ is_some (find r.job_id jobs) && r.job_id == l.job_id
  | some m ↦ holds (match_of jobs r.job_id) m
]

-- A row of the month in another currency.
abbrev pub is_mixed : Ledger → Reservation → Bool
is_mixed l r =
    text_eq r.provider l.provider
    && (same_date r.budget_month (month_of l.reserved_on)
        && not (text_eq r.currency l.limits.currency))

abbrev pub reservation_row : ℕ → Ledger → ℕ → Reservation
reservation_row id l amount = record {
  id = id;
  reservation_key = l.reservation_key;
  provider = l.provider;
  job_id = l.job_id;
  budget_day = l.reserved_on;
  budget_month = month_of l.reserved_on;
  reserved_amount = amount;
  settled_amount = none;
  state = reserved;
  conservative_charge = false;
  currency = l.limits.currency;
}

abbrev pub holding : ℕ → ℕ → Ledger → Ledger
holding id amount l = record l { reservation_id = some id; reserved_amount = some amount }

-- The amounts or the calls of the day, the month or the match would go beyond the limits.
abbrev pub exceeds : List Job → Ledger → ℕ → List Reservation → Bool
exceeds jobs l amount rows =
    let day = on_day l.provider l.reserved_on l.limits.currency in
    let month = in_month l.provider (month_of l.reserved_on) l.limits.currency in
    ltb l.limits.daily_amount (charges day rows + amount)
    || (ltb l.limits.monthly_amount (charges month rows + amount)
        || (leb l.limits.daily_calls (count day rows)
            || (leb l.limits.monthly_calls (count month rows)
                || leb l.limits.max_calls_per_match (count (for_match jobs l) rows))))

abbrev pub has_key : Text → Reservation → Bool
has_key key r = text_eq r.reservation_key key

-- `reserve` for an amount in quanta; `id` is the id that the database would give a new row.
unfoldable pub reserve_amount :
    List Job → ℕ → ℕ → Ledger → List Reservation → Result (Bool × Ledger × List Reservation)
unfolding charges
reserve_amount jobs id amount l rows =
    if is_some (first (is_mixed l) rows)
    then err value_error
    else elim (first (has_key l.reservation_key) rows) [
      | some r ↦
          if not (text_eq r.currency l.limits.currency)
          then err value_error
          else if not (r.reserved_amount == amount)
          then err value_error
          else ok (true, holding r.id amount l, rows)
      | none ↦
          if exceeds jobs l amount rows
          then ok (false, l, rows)
          else ok (true, holding id amount l, reservation_row id l amount ∷ rows)
    ]

unfoldable pub reserve :
    List Job → ℕ → Decimal → Ledger → List Reservation → Result (Bool × Ledger × List Reservation)
unfolding reserve_amount
reserve jobs id amount l rows = do
  normalized ← database_amount amount
  reserve_amount jobs id normalized l rows

abbrev pub is_reserved : ReservationState → Bool
is_reserved reserved = true
is_reserved settled = false

abbrev pub settled_row : ℕ → ℕ → Reservation → Reservation
settled_row reserved_cost actual r = record r {
  settled_amount = some actual;
  state = settled;
  conservative_charge = leb reserved_cost actual;
}

abbrev pub is_open : ℕ → ℕ → Reservation → Bool
is_open id amount r = r.id == id && (is_reserved r.state && r.reserved_amount == amount)

abbrev pub is_settled_at : ℕ → Reservation → Bool
is_settled_at id r = r.id == id && not (is_reserved r.state)

abbrev pub has_settled : ℕ → List Reservation → ℕ → Bool
has_settled id rows actual = elim (first (is_settled_at id) rows) [
  | none ↦ false
  | some r ↦ holds r.settled_amount actual
]

-- `settle` for amounts in quanta.
unfoldable pub settle_amount : ℕ → ℕ → Ledger → List Reservation → Result (List Reservation)
settle_amount reserved_cost actual l rows = elim l.reservation_id [
  | none ↦ err value_error
  | some id ↦
      if not (holds l.reserved_amount reserved_cost)
      then err value_error
      else if count (is_open id reserved_cost) rows == 0
      then (if has_settled id rows actual then ok rows else err value_error)
      else ok (update (is_open id reserved_cost) (settled_row reserved_cost actual) rows)
]

unfoldable pub settle : Decimal → Decimal → Ledger → List Reservation → Result (List Reservation)
unfolding settle_amount
settle reserved_cost actual l rows = do
  r ← database_amount reserved_cost
  a ← database_amount actual
  settle_amount r a l rows

-- `release`, which settles at 0
unfoldable pub release : Decimal → Ledger → List Reservation → Result (List Reservation)
unfolding settle_amount
release reserved_cost l rows = do r ← database_amount reserved_cost; settle_amount r 0 l rows
