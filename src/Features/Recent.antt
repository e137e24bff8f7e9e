-- ===== src/Features/Recent.antt =====
-- The selected history of a target match, and its order.
use vlytics.Features.Past.{IsPastOf, collect-IsPast}
use vlytics.Features.{
  AvailabilityPolicy, ResultRevision, MatchScheduleRevision, HistoricalMatch, TargetMatch,
}
use vlytics.Features.Selection.{
  SelectedMatch, select_schedule, select_result, select_history, collect, take_match, is_comparable,
  has_ended, insert_match, sort_matches, is_as_recent, end_of,
}
use mathlib.Core.Path.{subst}
use vlytics.Prelude.{
  suc, ℕ, Bool, false, not, ◌&&◌, ◌≡◌, ◌≤◌, refl, sym, ◌∙◌, Option, none, some, List, [], ◌∷◌, Text,
  text_eq, codes, arith, count, if◌then◌else◌, All, All-mono, Bool-cases, inl, inr, if_true,
  if_false,
}

-- Each item ended no earlier than those after it.
abbrev pub IsRecentFirst : {W : Type 0} → List (SelectedMatch W) → Type 0
IsRecentFirst [] = Unit
IsRecentFirst (i ∷ items) = All (λ j. end_of j ≤ end_of i) items × IsRecentFirst items

module _ {W : Type 0} where
  insert_match-All :
      (P : SelectedMatch W → Type 0) (i : SelectedMatch W) (items : List (SelectedMatch W))
      → P i
      → All P items
      → All P (insert_match i items)
  unfolding insert_match
  insert_match-All P i [] p h = (p, tt)
  insert_match-All P i (j ∷ items) p h = elim (Bool-cases (is_as_recent i j)) [
    | inl front ↦ subst (All P) (sym (if_true _ _ front)) (p, h)
    | inr later ↦ subst (All P) (sym (if_false _ _ later)) (h.0, insert_match-All P i items p h.1)
  ]

  sort_matches-All :
      (P : SelectedMatch W → Type 0) (items : List (SelectedMatch W))
      → All P items
      → All P (sort_matches items)
  unfolding sort_matches
  sort_matches-All P [] h = tt
  sort_matches-All P (i ∷ items) h =
      insert_match-All P i (sort_matches items) h.0 (sort_matches-All P items h.1)

  insert_match-IsRecentFirst :
      (i : SelectedMatch W) (items : List (SelectedMatch W))
      → IsRecentFirst items
      → IsRecentFirst (insert_match i items)
  unfolding insert_match
  insert_match-IsRecentFirst i [] h = (tt, tt)
  insert_match-IsRecentFirst i (j ∷ items) h = elim (Bool-cases (is_as_recent i j)) [
    | inl front ↦
        let first_later : end_of j ≤ end_of i = ground arith in
        subst IsRecentFirst (sym (if_true _ _ front))
          ((first_later, All-mono items (λ k later. omega arith) h.0), h)
    | inr later ↦
        let earlier : end_of i ≤ end_of j = ground arith in
        subst IsRecentFirst (sym (if_false _ _ later)) (
          insert_match-All (λ k. end_of k ≤ end_of j) i items earlier h.0,
          insert_match-IsRecentFirst i items h.1,
        )
  ]

  sort_matches-IsRecentFirst : (items : List (SelectedMatch W)) → IsRecentFirst (sort_matches items)
  unfolding sort_matches
  sort_matches-IsRecentFirst [] = tt
  sort_matches-IsRecentFirst (i ∷ items) =
      insert_match-IsRecentFirst i (sort_matches items) (sort_matches-IsRecentFirst items)

  count-insert_match :
      (p : SelectedMatch W → Bool) (i : SelectedMatch W) (items : List (SelectedMatch W))
      → count p (insert_match i items) ≡ count p (i ∷ items)
  unfolding insert_match count
  count-insert_match p i [] = refl
  count-insert_match p i (j ∷ items) = ground (arith, count-insert_match p i items)

  count-sort_matches :
      (p : SelectedMatch W → Bool) (items : List (SelectedMatch W))
      → count p (sort_matches items) ≡ count p items
  unfolding sort_matches count
  count-sort_matches p [] = refl
  count-sort_matches p (i ∷ items) =
      ground (arith, count-insert_match p i (sort_matches items), count-sort_matches p items)

  -- A match is selected: it is comparable, has ended before the cutoff, and has a result that counts.
  abbrev pub is_selected : TargetMatch → ℕ → AvailabilityPolicy → HistoricalMatch W → Bool
  is_selected target cutoff_at policy m =
      is_comparable target m && elim (select_schedule policy cutoff_at m.schedule_revisions) [
        | none ↦ false
        | some s ↦ elim (select_result policy cutoff_at m.result_revisions) [
          | none ↦ false
          | some r ↦ has_ended cutoff_at s && not (text_eq r.finality (codes "void"))
        ]
      ]

  take_match-count :
      (id : Text) (cutoff_at : ℕ) (m : HistoricalMatch W) (schedule : Option MatchScheduleRevision)
      (result : Option (ResultRevision W)) (rest : List (SelectedMatch W))
      → count (λ i. text_eq id i.match_id) (take_match cutoff_at m.id schedule result rest) ≡ (
          if text_eq id m.id && elim schedule [
            | none ↦ false
            | some s ↦ elim result [
              | none ↦ false
              | some r ↦ has_ended cutoff_at s && not (text_eq r.finality (codes "void"))
            ]
          ]
          then suc (count (λ i. text_eq id i.match_id) rest)
          else count (λ i. text_eq id i.match_id) rest)
  unfolding count
  take_match-count id cutoff_at m none result rest = ground arith
  take_match-count id cutoff_at m (some s) none rest = ground arith
  take_match-count id cutoff_at m (some s) (some r) rest =
      elim (Bool-cases (has_ended cutoff_at s && not (text_eq r.finality (codes "void")))) [
        | inl taken ↦ rw taken (ground arith)
        | inr left ↦ rw left (ground arith)
      ]

  collect-count :
      (id : Text) (target : TargetMatch) (cutoff_at : ℕ) (policy : AvailabilityPolicy)
      (ms : List (HistoricalMatch W))
      → count (λ i. text_eq id i.match_id) (collect target cutoff_at policy ms)
        ≡ count (λ m. text_eq id m.id && is_selected target cutoff_at policy m) ms
  unfolding collect count
  collect-count id target cutoff_at policy [] = refl
  collect-count id target cutoff_at policy (m ∷ ms) = elim (Bool-cases (is_comparable target m)) [
    | inl alike ↦ rw alike (
        take_match-count id cutoff_at m (select_schedule policy cutoff_at m.schedule_revisions)
          (select_result policy cutoff_at m.result_revisions) (collect target cutoff_at policy ms)
        ∙ rw (collect-count id target cutoff_at policy ms) refl)
    | inr other ↦ rw other (collect-count id target cutoff_at policy ms ∙ ground arith)
  ]

  -- Each match of the selected history is another match of the season and the competition, ended
  -- before the cutoff by the newest schedule that may be read, with the newest such result, which
  -- is not void; a match stands no later than one that ended earlier; and every match with such
  -- revisions is selected as often as it is given.
  pub select_history_lem :
      (target : TargetMatch) (cutoff_at : ℕ) (policy : AvailabilityPolicy)
      (ms : List (HistoricalMatch W))
      → All (IsPastOf target cutoff_at policy ms) (select_history target cutoff_at policy ms)
        × IsRecentFirst (select_history target cutoff_at policy ms)
        × ((id : Text)
            → count (λ i. text_eq id i.match_id) (select_history target cutoff_at policy ms)
              ≡ count (λ m. text_eq id m.id && is_selected target cutoff_at policy m) ms)
  unfolding select_history
  select_history_lem target cutoff_at policy ms =
      let items = collect target cutoff_at policy ms in
      (
        sort_matches-All (IsPastOf target cutoff_at policy ms) items
            (collect-IsPast target cutoff_at policy ms),
        sort_matches-IsRecentFirst items,
        λ id.
            count-sort_matches (λ i. text_eq id i.match_id) items
            ∙ collect-count id target cutoff_at policy ms,
      )
