-- ===== src/Backfill/Forward.antt =====
-- Checkpoints only move forward, and no two writers advance the same one.
use vlytics.Sync.Scope.{BackfillScope, scope_key}
use vlytics.Backfill.{
  BackfillCheckpoint, advanced, conflict, generation_changed, has_scope_key, load, put,
  next_generation, regression, advance, rank,
}
use mathlib.Core.Path.{subst, sym}
use vlytics.Prelude.{
  if◌then◌else◌, ℕ, false, ◌≡◌, ◌<◌, ◌≤◌, ◌+◌, refl, none, some, List, [], ◌∷◌, text_eq,
  text_eq_refl, first, arith, Bool-cases, Option-cases, inl, inr, ap, eq_of_text_eq, ◌==◌, sym, ◌∙◌,
}

load-put :
    (c : BackfillCheckpoint) (items : List BackfillCheckpoint) → load c.scope (put c items) ≡ some c
unfolding put first
load-put c [] = rw (text_eq_refl (scope_key c.scope)) refl
load-put c (d ∷ items) = elim (Bool-cases (has_scope_key (scope_key c.scope) d)) [
  | inl same ↦ rw (same, text_eq_refl (scope_key c.scope)) refl
  | inr other ↦ rw (other, other) (load-put c items)
]

load-put_other :
    (scope : BackfillScope) (c : BackfillCheckpoint) (items : List BackfillCheckpoint)
    → text_eq (scope_key scope) (scope_key c.scope) ≡ false
    → load scope (put c items) ≡ load scope items
unfolding put first
load-put_other scope c [] apart = rw apart refl
load-put_other scope c (d ∷ items) apart = elim (Bool-cases (has_scope_key (scope_key c.scope) d)) [
  | inl same ↦
      let e = eq_of_text_eq (scope_key c.scope) (scope_key d.scope) same in
      let also = subst (λ k. text_eq (scope_key scope) k ≡ false) e apart in
      rw (same, apart, also) refl
  | inr other ↦ rw other (
      ap (λ x. if has_scope_key (scope_key scope) d then some d else x)
        (load-put_other scope c items apart))
]

-- The new checkpoint is beyond the old one.
abbrev pub IsBeyond : BackfillCheckpoint → BackfillCheckpoint → Type 0
IsBeyond c current =
    (current.is_completed ≡ false)
    × (rank current.phase ≤ rank c.phase)
    × (current.pages_completed < c.pages_completed)
    × (current.responses_ingested ≤ c.responses_ingested)
    × (current.updated_at ≤ c.updated_at)

regression-IsBeyond :
    (c current : BackfillCheckpoint) → regression c current ≡ none → IsBeyond c current
regression-IsBeyond c current e = ground arith

put_pair :
    (c c' : BackfillCheckpoint) (items items' : List BackfillCheckpoint)
    → advanced c (put c items) ≡ advanced c' items'
    → (c' ≡ c) × (items' ≡ put c' items)
put_pair c c' items items' e =
    let same : c ≡ c' = ground arith in
    let rest : put c items ≡ items' = ground arith in
    (sym same, sym rest ∙ ap (λ x. put x items) same)

pub advance-put :
    (c c' : BackfillCheckpoint) (expected : ℕ) (items items' : List BackfillCheckpoint)
    → advance c expected items ≡ advanced c' items'
    → (c' ≡ next_generation expected c) × (items' ≡ put c' items)
unfolding advance
advance-put c c' expected items items' e = elim (Option-cases (load c.scope items)) [
  | inl new ↦ elim (Bool-cases (0 == expected)) [
    | inl first_one ↦
        put_pair (next_generation expected c) c' items items' (rw (new, first_one, advance) at e)
    | inr late ↦ absurd (ground arith)
  ]
  | inr (current, known) ↦ elim (Bool-cases (current.generation == expected)) [
    | inl same ↦ elim (Option-cases (regression c current)) [
      | inl fine ↦
          put_pair (next_generation expected c) c' items items'
            (rw (known, same, fine, advance) at e)
      | inr (reason, back) ↦ absurd (ground arith)
    ]
    | inr late ↦ absurd (ground arith)
  ]
]

-- A checkpoint that was advanced is the one that is loaded from then on, one generation later;
-- those of other scopes stay; and it lies beyond the one that was there, if one was.
pub advance_lem :
    (c c' : BackfillCheckpoint) (expected : ℕ) (items items' : List BackfillCheckpoint)
    → advance c expected items ≡ advanced c' items'
    → (load c.scope items' ≡ some c')
      × (c'.generation ≡ expected + 1)
      × ((scope : BackfillScope)
          → text_eq (scope_key scope) (scope_key c.scope) ≡ false
          → load scope items' ≡ load scope items)
      × ((current : BackfillCheckpoint)
          → load c.scope items ≡ some current
          → (current.generation ≡ expected) × IsBeyond c' current)
unfolding advance
advance_lem c c' expected items items' e =
    let (same, rest) = advance-put c c' expected items items' e in
    let whole = rest ∙ ap (λ x. put x items) same in
    let held = load-put (next_generation expected c) items in
    (
      ap (load c.scope) whole ∙ held ∙ ap some (sym same),
      ap (λ x. x.generation) same,
      λ scope apart.
          ap (load scope) whole ∙ load-put_other scope (next_generation expected c) items apart,
      λ current known. beyond_current same current known,
    )
  where
    beyond_current :
        c' ≡ next_generation expected c
        → (current : BackfillCheckpoint) → load c.scope items ≡ some current
        → (current.generation ≡ expected) × IsBeyond c' current
    beyond_current same current known = elim (Bool-cases (current.generation == expected)) [
      | inl now ↦ elim (Option-cases (regression c current)) [
        | inl fine ↦ (
          ground arith,
          subst (λ x. IsBeyond x current) (sym same) (regression-IsBeyond c current fine),
        )
        | inr (reason, back) ↦ absurd (ground arith)
      ]
      | inr late ↦ absurd (ground arith)
    ]

-- Of two writers that expect the same generation of a checkpoint, the second is told of a conflict,
-- whatever it wants to write.
pub advance_twice :
    (c c' d : BackfillCheckpoint) (expected : ℕ) (items items' : List BackfillCheckpoint)
    → advance c expected items ≡ advanced c' items'
    → d.scope ≡ c.scope
    → advance d expected items' ≡ conflict generation_changed
unfolding advance
advance_twice c c' d expected items items' e same =
    let (held, later, rest, forward) = advance_lem c c' expected items items' e in
    let at = ap (λ s. load s items') same ∙ held in
    let passed : (c'.generation == expected) ≡ false = ground arith in rw (at, passed, advance) refl
