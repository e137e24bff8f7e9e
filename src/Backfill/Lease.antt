-- ===== src/Backfill/Lease.antt =====
-- `InMemoryScopeLease` of backend/src/vlytics/mirror/backfill.py: the slots of a scope that its workers
-- hold. A method holds the lock, so it is one step on the set.
use vlytics.Sync.Scope.{BackfillScope, scope_key}
use vlytics.Prelude.{
  ℕ, zero, suc, Bool, not, ◌&&◌, Option, none, some, List, [], ◌∷◌, Text, text_eq, ◌==◌, ◌+◌,
  if◌then◌else◌, is_some, first, select,
}

pub record Slot : Type 0 where
  pub key_scope : Text
  pub slot : ℕ

abbrev pub is_slot : Text → ℕ → Slot → Bool
is_slot key n s = text_eq s.key_scope key && s.slot == n

-- key in self._slots
abbrev pub is_held : Text → ℕ → List Slot → Bool
is_held key n slots = is_some (first (is_slot key n) slots)

-- self._lease_key or scope.key
abbrev pub key_of : Option Text → BackfillScope → Text
key_of none scope = scope_key scope
key_of (some []) scope = scope_key scope
key_of (some (c ∷ key)) scope = c ∷ key

-- The rounds of `acquire` from a slot on.
unfoldable pub acquire_from : ℕ → ℕ → Text → List Slot → Option ℕ × List Slot
acquire_from zero n key slots = (none, slots)
acquire_from (suc rounds) n key slots =
    let rest = acquire_from rounds (n + 1) key slots in
    if is_held key n slots then rest else (some n, record { key_scope = key; slot = n } ∷ slots)

abbrev pub acquire : Text → ℕ → List Slot → Option ℕ × List Slot
acquire key max_concurrency slots = acquire_from max_concurrency 0 key slots

-- `release`, which discards the slot
abbrev pub release : Text → ℕ → List Slot → List Slot
release key n slots = select (λ s. not (is_slot key n s)) slots
