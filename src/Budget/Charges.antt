-- ===== src/Budget/Charges.antt =====
-- The totals of charges and calls when a row is settled.
use vlytics.Budget.{Reservation, charge, charges}
use vlytics.Prelude.{Bool, true, ◌≡◌, ◌≤◌, refl, List, [], ◌∷◌, All, update, count, arith}

module _ (q target : Reservation → Bool) (f : Reservation → Reservation)
    (keeps : (r : Reservation) → q (f r) ≡ q r) where
  pub count-update : (rows : List Reservation) → count q (update target f rows) ≡ count q rows
  unfolding count update
  count-update [] = refl
  count-update (r ∷ rows) = ground (arith, keeps r, count-update rows)

  pub charges-update :
      (rows : List Reservation)
      → All (λ r. target r ≡ true → charge (f r) ≤ charge r) rows
      → charges q (update target f rows) ≤ charges q rows
  unfolding charges update
  charges-update [] h = omega arith
  charges-update (r ∷ rows) h = ground (arith, keeps r, charges-update rows h.1, h.0)
