-- ===== src/Backfill/Exclusive.antt =====
-- A slot of a scope is held by one worker at a time, and given back whatever happens.
use vlytics.Backfill.Lease.{Slot, is_slot, is_held, acquire, acquire_from, release}
use mathlib.Core.Path.{subst}
use vlytics.Prelude.{
  ℕ, zero, suc, ◌+◌, ◌≡◌, ◌≤◌, ◌<◌, refl, Bool, true, false, not, Option, none, some, List, [], ◌∷◌,
  Text, ℕ_discrete, sym, text_eq_refl, arith, first, select, Bool-cases, inl, inr, Option-cases,
}

-- What `acquire` does from slot `n` on.
abbrev pub Acquires : Text → ℕ → ℕ → List Slot → Option ℕ × List Slot → Type 0
Acquires key n end slots (none, slots') =
    (slots' ≡ slots) × ((k : ℕ) → n ≤ k → k < end → is_held key k slots ≡ true)
Acquires key n end slots (some slot, slots') =
    (n ≤ slot)
    × (slot < end)
    × (is_held key slot slots ≡ false)
    × (slots' ≡ record { key_scope = key; slot = slot } ∷ slots)
    × ((k : ℕ) → n ≤ k → k < slot → is_held key k slots ≡ true)

acquire_from-Acquires :
    (rounds n end : ℕ) (key : Text) (slots : List Slot)
    → rounds + n ≡ end
    → Acquires key n end slots (acquire_from rounds n key slots)
unfolding acquire_from
acquire_from-Acquires zero n end key slots e = (refl, λ k low high. absurd (omega arith))
acquire_from-Acquires (suc rounds) n end key slots e = elim (Bool-cases (is_held key n slots)) [
  | inl held ↦ rw held (
      later (acquire_from rounds (n + 1) key slots)
        (acquire_from-Acquires rounds (n + 1) end key slots (omega arith)) held)
  | inr free ↦ rw free (omega arith, omega arith, free, refl, λ k low high. absurd (omega arith))
]
  where
    from_next :
        {top : ℕ}
        → is_held key n slots ≡ true
        → ((k : ℕ) → n + 1 ≤ k → k < top → is_held key k slots ≡ true)
        → (k : ℕ) → n ≤ k
        → k < top
        → is_held key k slots ≡ true
    from_next held full k low high = elim (ℕ_discrete k n) [
      | yes same ↦ subst (λ m. is_held key m slots ≡ true) (sym same) held
      | no other ↦ full k (omega arith) high
    ]

    later :
        (got : Option ℕ × List Slot)
        → Acquires key (n + 1) end slots got
        → is_held key n slots ≡ true
        → Acquires key n end slots got
    later (none, slots') (same, full) held = (same, from_next held full)
    later (some slot, slots') (low, high, free, added, full) held =
        (omega arith, high, free, added, from_next held full)

select-first-none :
    {A : Type 0} (p : A → Bool) (xs : List A) → first p xs ≡ none → select (λ x. not (p x)) xs ≡ xs
unfolding first select
select-first-none p [] h = refl
select-first-none p (x ∷ xs) h = ground (arith, select-first-none p xs)

-- A worker is given the lowest slot that no worker holds, and one below the approved number; it is
-- added to those that are held. A worker is refused only if all slots below that number are held,
-- and then nothing changes.
pub acquire_lem :
    (key : Text) (max_concurrency : ℕ) (slots : List Slot)
    → Acquires key 0 max_concurrency slots (acquire key max_concurrency slots)
acquire_lem key max_concurrency slots =
    acquire_from-Acquires max_concurrency 0 max_concurrency key slots (omega arith)

-- What a slot was added to is what its release leaves.
pub release_added :
    (key : Text) (n : ℕ) (slots : List Slot)
    → is_held key n slots ≡ false
    → release key n (record { key_scope = key; slot = n } ∷ slots) ≡ slots
unfolding select
release_added key n slots free =
    let mine : is_slot key n (record { key_scope = key; slot = n }) ≡ true =
      ground (arith, text_eq_refl key) in
    elim (Option-cases (first (is_slot key n) slots)) [
      | inl none_held ↦ rw mine (select-first-none (is_slot key n) slots none_held)
      | inr (s, e) ↦ absurd (ground (arith, (rw (e, is_held) at free)))
    ]
