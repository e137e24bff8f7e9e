-- ===== src/Prelude/Table.antt =====
-- A database table as the list of its rows: the first row that passes a test, the update of all rows
-- that pass one, and how many do.
use Prim.Native.Nat.{ℕ, suc, ◌+◌}
use mathlib.Core.Path.{◌≡◌, refl, ◌∙◌, fun_ext, subst}
use mathlib.Core.Bool.{Bool, true, false}
use mathlib.Core.Option.{Option, none, some}
use mathlib.Core.List.{List, [], ◌∷◌, ◌++◌}
use native.Mathlib.Omega.{arith}
use vlytics.Prelude.Tests.{if◌then◌else◌, Bool-cases}
use vlytics.Prelude.Lists.{All}
use mathlib.Core.Logic.{inl, inr}

module _ {ℓ} {A : Type ℓ} where
  -- SELECT … WHERE p LIMIT 1, in the order of the table
  unfoldable pub first : (A → Bool) → List A → Option A
  first p [] = none
  first p (x ∷ xs) = if p x then some x else first p xs

  -- SELECT … WHERE p
  unfoldable pub select : (A → Bool) → List A → List A
  select p [] = []
  select p (x ∷ xs) = let rest = select p xs in if p x then x ∷ rest else rest

  -- UPDATE … SET f WHERE p
  unfoldable pub update : (A → Bool) → (A → A) → List A → List A
  update p f [] = []
  update p f (x ∷ xs) = (if p x then f x else x) ∷ update p f xs

  -- the row count of such an update
  unfoldable pub count : (A → Bool) → List A → ℕ
  count p [] = 0
  count p (x ∷ xs) = let rest = count p xs in if p x then suc rest else rest

  pub count-zero : (p : A → Bool) (xs : List A) → first p xs ≡ none → count p xs ≡ 0
  unfolding first count
  count-zero p [] h = refl
  count-zero p (x ∷ xs) h = ground (arith, count-zero p xs)

  pub count-append : (p : A → Bool) (xs ys : List A) → count p (xs ++ ys) ≡ count p xs + count p ys
  unfolding count
  count-append p [] ys = omega arith
  count-append p (x ∷ xs) ys = ground (arith, count-append p xs ys)

  pub update-none :
      (p : A → Bool) (f : A → A) (xs : List A) → first p xs ≡ none → update p f xs ≡ xs
  unfolding first update
  update-none p f [] h = refl
  update-none p f (x ∷ xs) h = ground (arith, update-none p f xs)

  pub first_holds : (p : A → Bool) (xs : List A) (x : A) → first p xs ≡ some x → p x ≡ true
  unfolding first
  first_holds p [] x h = ground arith
  first_holds p (y ∷ xs) x h = ground (arith, first_holds p xs x)

  pub first-All {κ} :
      (P : A → Type κ) (p : A → Bool) (xs : List A) {x : A} → All P xs → first p xs ≡ some x → P x
  unfolding first
  first-All P p [] h e = absurd (cc)
  first-All P p (y ∷ xs) {x} h e = elim (Bool-cases (p y)) [
    | inl t ↦ subst P (ground arith) h.0
    | inr f ↦ first-All P p xs h.1 (ground arith)
  ]

  pub first-append :
      (p : A → Bool) (xs ys : List A) (x : A) → first p xs ≡ some x → first p (xs ++ ys) ≡ some x
  unfolding first
  first-append p [] ys x h = ground arith
  first-append p (y ∷ xs) ys x h = ground (arith, first-append p xs ys x)

  pub first-append_none :
      (p : A → Bool) (xs ys : List A) → first p xs ≡ none → first p (xs ++ ys) ≡ first p ys
  unfolding first
  first-append_none p [] ys h = refl
  first-append_none p (y ∷ xs) ys h = ground (arith, first-append_none p xs ys)

  -- An update that keeps the key by which `k` selects shows up in the row that `k` finds.
  pub first-update :
      (k p : A → Bool) (f : A → A) (xs : List A)
      → ((x : A) → k (f x) ≡ k x)
      → {x : A} → first k xs ≡ some x
      → first k (update p f xs) ≡ some (if p x then f x else x)
  unfolding first update
  first-update k p f [] keeps h = ground arith
  first-update k p f (y ∷ xs) keeps {x} h =
      ground (arith, keeps y, first-update k p f xs keeps {x = x})

  pub first-update-none :
      (k p : A → Bool) (f : A → A) (xs : List A)
      → ((x : A) → k (f x) ≡ k x)
      → first k xs ≡ none
      → first k (update p f xs) ≡ none
  unfolding first update
  first-update-none k p f [] keeps h = refl
  first-update-none k p f (y ∷ xs) keeps h =
      ground (arith, keeps y, first-update-none k p f xs keeps)

  pub All-update {κ} :
      {P : A → Type κ} (p : A → Bool) (f : A → A) (xs : List A)
      → ((x : A) → p x ≡ true → P x → P (f x))
      → All P xs
      → All P (update p f xs)
  unfolding update
  All-update p f [] step h = tt
  All-update {P = P} p f (x ∷ xs) step h = (here (p x) refl, All-update p f xs step h.1)
    where
      here : (b : Bool) → p x ≡ b → P (if b then f x else x)
      here true e = step x e h.0
      here false e = h.0

  -- No row passes the test of a row above it.
  abbrev pub Distinct : (A → A → Bool) → List A → Type ℓ
  Distinct same [] = Unit
  Distinct same (x ∷ xs) = (first (same x) xs ≡ none) × Distinct same xs

  pub first-none-All : (p : A → Bool) (xs : List A) → first p xs ≡ none → All (λ x. p x ≡ false) xs
  unfolding first
  first-none-All p [] h = tt
  first-none-All p (x ∷ xs) h = ground (arith, first-none-All p xs)

  pub All-first-none : (p : A → Bool) (xs : List A) → All (λ x. p x ≡ false) xs → first p xs ≡ none
  unfolding first
  All-first-none p [] h = refl
  All-first-none p (x ∷ xs) h = ground (arith, All-first-none p xs h.1)

  pub Distinct-append :
      (same : A → A → Bool) (xs : List A) (new : A)
      → All (λ x. same x new ≡ false) xs
      → Distinct same xs
      → Distinct same (xs ++ new ∷ [])
  unfolding first
  Distinct-append same [] new h d = (refl, tt)
  Distinct-append same (x ∷ xs) new h d = (
    first-append_none (same x) xs (new ∷ []) d.0 ∙ ground arith,
    Distinct-append same xs new h.1 d.1,
  )

  pub Distinct-update :
      (same : A → A → Bool) (p : A → Bool) (f : A → A) (xs : List A)
      → ((x y : A) → same (f x) y ≡ same x y)
      → ((x y : A) → same x (f y) ≡ same x y)
      → Distinct same xs
      → Distinct same (update p f xs)
  unfolding update
  Distinct-update same p f [] left right d = tt
  Distinct-update same p f (x ∷ xs) left right d =
      (here (p x), Distinct-update same p f xs left right d.1)
    where
      here : (b : Bool) → first (same (if b then f x else x)) (update p f xs) ≡ none
      here true = rw (fun_ext (left x)) (first-update-none (same x) p f xs (right x) d.0)
      here false = first-update-none (same x) p f xs (right x) d.0
