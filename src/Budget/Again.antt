-- ===== src/Budget/Again.antt =====
-- Reservations that are made twice, and amounts that are rounded up.
use native.Mathlib.Nat.{one-le-pow, lt-div-mul-add, div-mul-le_self}
use vlytics.Budget.Amount.{Decimal, finite, database_amount, ceiling_div}
use vlytics.Budget.{
  Reservation, Ledger, reserve, reserve_amount, is_mixed, has_key, reservation_row, exceeds,
  holding, text_eq,
}
use vlytics.Jobs.{Job, ok, >>=-eq-ok}
use vlytics.Prelude.{
  ℕ, Bool, true, false, ◌≡◌, ◌≤◌, ◌<◌, ◌+◌, ◌*◌, ◌^◌, List, ◌∷◌, none, some, arith, text_eq_refl,
  first, Bool-cases, Option-cases, inl, inr, text_eq, ◌==◌, ◌-◌,
}

own_row :
    (id amount : ℕ) (l : Ledger)
    → (is_mixed l (reservation_row id l amount) ≡ false)
      × (has_key l.reservation_key (reservation_row id l amount) ≡ true)
own_row id amount l =
    let c = text_eq_refl l.limits.currency in
    let k = text_eq_refl l.reservation_key in (ground arith, ground arith)

reserve_amount_again :
    (jobs jobs' : List Job) (id id' amount : ℕ) (l l' : Ledger) (rows rows' : List Reservation)
    → reserve_amount jobs id amount l rows ≡ ok (true, l', rows')
    → reserve_amount jobs' id' amount l rows' ≡ ok (true, l', rows')
unfolding reserve_amount first
reserve_amount_again jobs jobs' id id' amount l l' rows rows' e =
    elim (Option-cases (first (is_mixed l) rows)) [
      | inr (r, mixed) ↦ absurd (ground arith)
      | inl pure ↦ elim (Option-cases (first (has_key l.reservation_key) rows)) [
        | inr (r, known) ↦ known_again r known pure
        | inl new ↦ new_again new pure
      ]
    ]
  where
    known_again :
        (r : Reservation)
        → first (has_key l.reservation_key) rows ≡ some r
        → first (is_mixed l) rows ≡ none
        → reserve_amount jobs' id' amount l rows' ≡ ok (true, l', rows')
    known_again r known pure = elim (Bool-cases (text_eq r.currency l.limits.currency)) [
      | inr other ↦ absurd (ground arith)
      | inl same ↦ elim (Bool-cases (r.reserved_amount == amount)) [
        | inr changed ↦ absurd (ground arith)
        | inl kept ↦
            let rows_lem : rows' ≡ rows = ground arith in
            let l_lem : l' ≡ holding r.id amount l = ground arith in
            rw (rows_lem, l_lem, pure, known, same, kept) (ground arith)
      ]
    ]

    new_again :
        first (has_key l.reservation_key) rows ≡ none
        → first (is_mixed l) rows ≡ none
        → reserve_amount jobs' id' amount l rows' ≡ ok (true, l', rows')
    new_again new pure = elim (Bool-cases (exceeds jobs l amount rows)) [
      | inl over ↦ absurd (ground arith)
      | inr fits ↦
          let rows_lem : rows' ≡ reservation_row id l amount ∷ rows = ground arith in
          let l_lem : l' ≡ holding id amount l = ground arith in
          let (mixed, key) = own_row id amount l in
          let c = text_eq_refl l.limits.currency in
          rw (rows_lem, l_lem, mixed, key, pure, c) (ground arith)
    ]

-- A reservation that was granted is granted again, whatever the jobs then are, and adds no row.
pub reserve_again :
    (jobs jobs' : List Job) (id id' : ℕ) (amount : Decimal) (l l' : Ledger)
    (rows rows' : List Reservation)
    → reserve jobs id amount l rows ≡ ok (true, l', rows')
    → reserve jobs' id' amount l rows' ≡ ok (true, l', rows')
unfolding reserve
reserve_again jobs jobs' id id' amount l l' rows rows' e =
    let (n, at, e) = >>=-eq-ok (database_amount amount) _ e in
    rw at (reserve_amount_again jobs jobs' id id' n l l' rows rows' e)

ceiling_div_bounds : (a b : ℕ) → 0 < b → (a ≤ ceiling_div a b * b) × (ceiling_div a b * b < a + b)
ceiling_div_bounds a b h =
    let least = lt-div-mul-add {a = a + (b - 1)} h in
    let most = div-mul-le_self (a + (b - 1)) b in
    (omega (arith, least, most), omega (arith, least, most))

pow_positive : (n : ℕ) → 0 < 10 ^ n
pow_positive n = omega (arith, one-le-pow n 10 (omega arith))

-- An amount that is stored is rounded up to the quantum, by less than one quantum.
database_amount_rounds_up :
    (negative : Bool) (coefficient scale n : ℕ)
    → database_amount (finite negative coefficient scale) ≡ ok n
    → (coefficient * 10 ^ 8 ≤ n * 10 ^ scale) × (n * 10 ^ scale < coefficient * 10 ^ 8 + 10 ^ scale)
unfolding database_amount
database_amount_rounds_up negative coefficient scale n e =
    let same : n ≡ ceiling_div (coefficient * 10 ^ 8) (10 ^ scale) = ground arith in
    rw same (ceiling_div_bounds (coefficient * 10 ^ 8) (10 ^ scale) (pow_positive scale))
