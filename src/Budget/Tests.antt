-- ===== src/Budget/Tests.antt =====
-- Runs of the budget ledger.
use vlytics.Budget.Course.{Reaches, none_yet, then_step, reserves, settles, Reaches-IsWithin}
use vlytics.Budget.Within.{IsWithin}
use vlytics.Budget.Again.{reserve_again}
use vlytics.Budget.Amount.{Decimal, finite, database_amount}
use vlytics.Budget
use vlytics.Budget.{
  Date, ProviderBudgetLimits, Ledger, Reservation, reserve, settle, reservation_row, holding,
  settled_row,
}
use vlytics.Jobs.{ok}
use vlytics.Prelude.{
  first, count, update, ◌≡◌, refl, true, false, none, List, [], ◌∷◌, codes, arith,
}

abbrev two_dollars : ProviderBudgetLimits
two_dollars = record {
  daily_amount = 200000000;
  monthly_amount = 300000000;
  daily_calls = 4;
  monthly_calls = 9;
  max_calls_per_match = 2;
  currency = codes "USD";
}

abbrev call : Ledger
call = record {
  reservation_key = codes "k1";
  provider = codes "p";
  job_id = 1;
  limits = two_dollars;
  reserved_on = record { year = 2026; month = 3; day = 14 };
  reservation_id = none;
  reserved_amount = none;
}

-- 1.25 and 0.5
abbrev one_quarter : Decimal
one_quarter = finite false 125 2

abbrev half : Decimal
half = finite false 5 1

abbrev held_row : Reservation
held_row = reservation_row 1 call 125000000

abbrev held : Ledger
held = holding 1 125000000 call

reserved : reserve [] 1 one_quarter call [] ≡ ok (true, held, held_row ∷ [])
unfolding reserve database_amount first count
reserved = refl

abbrev paid_rows : List Reservation
paid_rows = settled_row 125000000 50000000 held_row ∷ []

paid : settle one_quarter half held (held_row ∷ []) ≡ ok paid_rows
unfolding settle database_amount count update
paid = refl

one_quarter_units : database_amount one_quarter ≡ ok 125000000
unfolding database_amount
one_quarter_units = refl

half_units : database_amount half ≡ ok 50000000
unfolding database_amount
half_units = refl

course : Reaches two_dollars (codes "p") [] paid_rows
course =
    then_step (then_step none_yet (reserves [] 1 one_quarter call held true (λ h. refl) reserved)) (
      settles one_quarter half 125000000 50000000 held one_quarter_units half_units (omega arith)
        paid)

empty-IsWithin : IsWithin two_dollars (codes "p") []
unfolding Budget.charges count
empty-IsWithin = (tt, λ day. (omega arith, omega arith), λ month. (omega arith, omega arith))

Reaches-IsWithin_example : IsWithin two_dollars (codes "p") paid_rows
Reaches-IsWithin_example = Reaches-IsWithin two_dollars (codes "p") course empty-IsWithin

reserve_again_example :
    reserve [] 2 one_quarter call (held_row ∷ []) ≡ ok (true, held, held_row ∷ [])
reserve_again_example = reserve_again [] [] 1 2 one_quarter call held [] (held_row ∷ []) reserved
