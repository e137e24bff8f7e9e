-- ===== src/Features/Past.antt =====
-- What the selected history of a target match holds.
use vlytics.Features.{
  AvailabilityPolicy, ResultRevision, MatchScheduleRevision, HistoricalMatch, TargetMatch,
}
use vlytics.Features.Selection.{
  may_read, SelectedMatch, select_schedule, select_result, collect, take_match, is_comparable,
  has_ended, latest, latest_from, is_newer_schedule, is_newer_result, is_later,
}
use mathlib.Core.Path.{subst}
use vlytics.Prelude.{
  Option-cases, ◌<◌, ℕ, Bool, true, false, not, ◌&&◌, ◌≡◌, ◌⊎◌, refl, sym, Option, none, some, List,
  [], ◌∷◌, text_eq, codes, arith, select, All, All-mono, Bool-cases, inl, inr, some_inj, &&-true,
  if_true, if_false,
}

-- P holds of one of the entries.
abbrev pub Any : {A : Type 0} → (A → Type 0) → List A → Type 0
Any P [] = ⊥
Any P (x ∷ xs) = P x ⊎ Any P xs

-- Of the entries that may be read, x is one that none is newer than.
abbrev pub IsNewest : {A : Type 0} → (A → A → Bool) → (A → Bool) → List A → A → Type 0
IsNewest is_newer readable xs x =
    Any (λ y. y ≡ x) xs × (readable x ≡ true) × All (λ y. (readable y && is_newer y x) ≡ false) xs

Any-here :
    {A : Type 0} (P : A → Type 0) (p : A → Bool) (xs : List A) → Any P (select p xs) → Any P xs
unfolding select
Any-here P p [] h = h
Any-here P p (x ∷ xs) h = elim (Bool-cases (p x)) [
  | inl kept ↦ elim (rw (kept, select) at h) [
    | inl here ↦ inl here
    | inr later ↦ inr (Any-here P p xs later)
  ]
  | inr left ↦ inr (Any-here P p xs (rw (left, select) at h))
]

readable_one :
    {A : Type 0} (p : A → Bool) (r : A) (xs : List A) → Any (λ y. y ≡ r) (select p xs) → p r ≡ true
unfolding select
readable_one p r [] h = elim h [ ]
readable_one p r (x ∷ xs) h = elim (Bool-cases (p x)) [
  | inl kept ↦ elim (rw (kept, select) at h) [
    | inl here ↦ rw (← here) kept
    | inr later ↦ readable_one p r xs later
  ]
  | inr left ↦ readable_one p r xs (rw (left, select) at h)
]

has_ended-end :
    (cutoff_at : ℕ) (s : MatchScheduleRevision)
    → has_ended cutoff_at s ≡ true
    → (t : ℕ) × (s.ended_at ≡ some t) × (t < cutoff_at)
has_ended-end cutoff_at s h = elim (Option-cases s.ended_at) [
  | inl missing ↦ absurd (ground (arith, h, missing))
  | inr (t, known) ↦ (t, known, ground (arith, h, known))
]

select-All :
    {A : Type 0} (p q : A → Bool) (xs : List A)
    → All (λ y. q y ≡ false) (select p xs)
    → All (λ y. (p y && q y) ≡ false) xs
unfolding select
select-All p q [] h = tt
select-All p q (x ∷ xs) h = elim (Bool-cases (p x)) [
  | inl kept ↦
      let kept_all = rw (kept, select) at h in (rw kept kept_all.0, select-All p q xs kept_all.1)
  | inr left ↦ (rw left refl, select-All p q xs (rw (left, select) at h))
]

module _ {A : Type 0} (revision observed_at : A → ℕ) where
  abbrev newer : A → A → Bool
  newer a b = is_later (revision a) (observed_at a) (revision b) (observed_at b)

  newer_trans : (a b c : A) → newer b a ≡ true → newer b c ≡ false → newer a c ≡ false
  newer_trans a b c h k = ground arith

  newer-false_trans : (a b c : A) → newer a b ≡ false → newer b c ≡ false → newer a c ≡ false
  newer-false_trans a b c h k = ground arith

  latest_from_lem :
      (best : A) (xs : List A) (r : A)
      → latest_from newer best xs ≡ r
      → Any (λ y. y ≡ r) (best ∷ xs) × (newer best r ≡ false) × All (λ y. newer y r ≡ false) xs
  unfolding latest_from
  latest_from_lem best [] r e = (inl e, rw (← e) (ground arith), tt)
  latest_from_lem best (x ∷ xs) r e = elim (Bool-cases (newer x best)) [
    | inl better ↦
        let (one, top, rest) = latest_from_lem x xs r (rw (better, latest_from) at e) in
        (inr one, newer_trans best x r better top, (top, rest))
    | inr worse ↦
        let (one, top, rest) = latest_from_lem best xs r (rw (worse, latest_from) at e) in
        (
          elim one [ inl here ↦ inl here | inr later ↦ inr (inr later) ],
          top,
          (newer-false_trans x best r worse top, rest),
        )
  ]

  latest_lem :
      (xs : List A) (r : A)
      → latest newer xs ≡ some r
      → Any (λ y. y ≡ r) xs × All (λ y. newer y r ≡ false) xs
  latest_lem [] r e = absurd (ground arith)
  latest_lem (x ∷ xs) r e =
      let (one, top, rest) = latest_from_lem x xs r (some_inj e) in (one, (top, rest))

  -- The newest of the readable entries.
  latest-IsNewest :
      (readable : A → Bool) (xs : List A) (r : A)
      → latest newer (select readable xs) ≡ some r
      → IsNewest newer readable xs r
  latest-IsNewest readable xs r e =
      let (one, top) = latest_lem (select readable xs) r e in
      (
        Any-here (λ y. y ≡ r) readable xs one,
        readable_one readable r xs one,
        select-All readable (λ y. newer y r) xs top,
      )

module _ {W : Type 0} (target : TargetMatch) (cutoff_at : ℕ) (policy : AvailabilityPolicy) where
  -- The selected match is a comparable match, with the newest revisions that may be read, has ended
  -- before the cutoff, and its result counts.
  abbrev pub IsPast : HistoricalMatch W → SelectedMatch W → Type 0
  IsPast m i =
      (m.id ≡ i.match_id)
      × (is_comparable target m ≡ true)
      × IsNewest is_newer_schedule (λ r. may_read policy cutoff_at r.observed_at)
          m.schedule_revisions i.schedule
      × IsNewest is_newer_result (λ r. may_read policy cutoff_at r.observed_at) m.result_revisions
          i.result
      × ((t : ℕ) × (i.schedule.ended_at ≡ some t) × (t < cutoff_at))
      × (text_eq i.result.finality (codes "void") ≡ false)

  take_match-All :
      (m : HistoricalMatch W) (schedule : Option MatchScheduleRevision)
      (result : Option (ResultRevision W)) (ms : List (HistoricalMatch W))
      (rest : List (SelectedMatch W))
      → is_comparable target m ≡ true
      → select_schedule policy cutoff_at m.schedule_revisions ≡ schedule
      → select_result policy cutoff_at m.result_revisions ≡ result
      → All (λ i. Any (λ n. IsPast n i) (m ∷ ms)) rest
      → All (λ i. Any (λ n. IsPast n i) (m ∷ ms)) (take_match cutoff_at m.id schedule result rest)
  unfolding select_schedule select_result
  take_match-All m none result ms rest alike s r h = h
  take_match-All m (some schedule) none ms rest alike s r h = h
  take_match-All m (some schedule) (some result) ms rest alike s r h =
      elim (Bool-cases
        (has_ended cutoff_at schedule && not (text_eq result.finality (codes "void")))) [
          | inl taken ↦
              let (ended, counts) = &&-true (has_ended cutoff_at schedule) _ taken in
              rw taken (
                inl (
                  refl,
                  alike,
                  latest-IsNewest (λ x. x.revision) (λ x. x.observed_at)
                      (λ x. may_read policy cutoff_at x.observed_at) m.schedule_revisions schedule
                      s,
                  latest-IsNewest (λ x. x.revision) (λ x. x.observed_at)
                      (λ x. may_read policy cutoff_at x.observed_at) m.result_revisions result r,
                  has_ended-end cutoff_at schedule ended,
                  ground arith,
                ),
                h,
              )
          | inr left ↦ rw left h
        ]

  abbrev pub IsPastOf : List (HistoricalMatch W) → SelectedMatch W → Type 0
  IsPastOf ms i = Any (λ m. IsPast m i) ms

  pub collect-IsPast :
      (ms : List (HistoricalMatch W)) → All (IsPastOf ms) (collect target cutoff_at policy ms)
  unfolding collect
  collect-IsPast [] = tt
  collect-IsPast (m ∷ ms) =
      let rest = All-mono (collect target cutoff_at policy ms) (λ i h. inr h) (collect-IsPast ms) in
      elim (Bool-cases (is_comparable target m)) [
        | inl alike ↦
            subst (All (IsPastOf (m ∷ ms))) (sym (if_true _ _ alike))
              (take_match-All m _ _ ms (collect target cutoff_at policy ms) alike refl refl rest)
        | inr other ↦ subst (All (IsPastOf (m ∷ ms))) (sym (if_false _ _ other)) rest
      ]
