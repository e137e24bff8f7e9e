-- ===== src/Jobs/Results.antt =====
-- What a method of `JobRepository` returns: a value, or the exception that ends its transaction.
use vlytics.Prelude.{ℕ, ◌≡◌, ◌⊎◌, inl, inr, refl, arith, ◌≢◌}

-- What PostgreSQL, a method or a caller of it raises; `handler_error` is what a job handler raises.
pub data DbError : Type 0 where
  check_violation not_null_violation no_result type_error value_error overflow_error runtime_error :
      DbError
  handler_error : ℕ → DbError

pub data Result {ℓ} (A : Type ℓ) : Type ℓ where
  err : DbError → Result A
  ok : A → Result A

module _ {ℓ κ} {A : Type ℓ} {B : Type κ} where
  infixl 5 ◌>>=◌
  abbrev pub ◌>>=◌ : Result A → (A → Result B) → Result B
  ◌>>=◌ (err e) next = err e
  ◌>>=◌ (ok a) next = next a

  -- A block that returns has gone through its first call.
  pub >>=-eq-ok :
      (call : Result A) (next : A → Result B) {b : B}
      → (call >>= next) ≡ ok b
      → (a : A) × (call ≡ ok a) × (next a ≡ ok b)
  >>=-eq-ok (err e) next returned = absurd (ground arith)
  >>=-eq-ok (ok a) next returned = (a, refl, returned)

pub ok_inj {ℓ} : {A : Type ℓ} {a b : A} → ok a ≡ ok b → a ≡ b
ok_inj e = ground arith

pub err-ok {ℓ} : {A : Type ℓ} {a : A} {e : DbError} → err e ≢ ok a
err-ok h = ground arith

pub Result-cases {ℓ} :
    {A : Type ℓ} (r : Result A) → ((a : A) × (r ≡ ok a)) ⊎ ((e : DbError) × (r ≡ err e))
Result-cases (ok a) = inl (a, refl)
Result-cases (err e) = inr (e, refl)
