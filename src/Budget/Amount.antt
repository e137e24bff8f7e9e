-- ===== src/Budget/Amount.antt =====
-- Amounts of money as backend/src/vlytics/engine/providers/budget.py stores them: whole numbers of
-- the database's quantum, 10^-8.
use vlytics.Prelude.{ℕ, Bool, not, ◌&&◌, ltb, ◌==◌, if◌then◌else◌, ◌+◌, ◌-◌, ◌*◌, ◌/◌, ◌^◌}
use vlytics.Jobs.{Result, ok, err, value_error}

-- A decimal.Decimal: `finite negative coefficient scale` is coefficient / 10^scale, or its negative.
pub data Decimal : Type 0 where
  finite : Bool → ℕ → ℕ → Decimal
  infinity nan : Decimal

-- _DATABASE_AMOUNT_MAX, in units of the quantum
abbrev pub database_max : ℕ
database_max = 99999999999999999999

abbrev pub ceiling_div : ℕ → ℕ → ℕ
ceiling_div a b = (a + (b - 1)) / b

-- _database_amount. The quantum has 8 digits and the greatest amount 20, so `quantize` stays within
-- the 28 digits of the decimal context and raises nothing.
unfoldable pub database_amount : Decimal → Result ℕ
database_amount infinity = err value_error
database_amount nan = err value_error
database_amount (finite negative coefficient scale) =
    if negative && not (coefficient == 0)
    then err value_error
    else if ltb (database_max * 10 ^ scale) (coefficient * 10 ^ 8)
    then err value_error
    else (let normalized = ceiling_div (coefficient * 10 ^ 8) (10 ^ scale) in
        if ltb database_max normalized then err value_error else ok normalized)
