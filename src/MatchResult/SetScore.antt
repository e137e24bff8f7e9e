-- ===== src/MatchResult/SetScore.antt =====
-- The scores at which a set of volleyball ends, rally by rally, and `_valid_set_score`.
use vlytics.MatchResult.{valid_set_score, target_of, VolleyballSetRule}
use mathlib.Core.Path.{subst}
use vlytics.Prelude.{ℕ, ◌≡◌, ◌≤◌, ◌+◌, ◌↔◌, ◌⊎◌, inl, inr, true, arith, zero, suc, ◌<◌, ◌-◌}

-- A side has the target and leads by the margin.
abbrev pub Over : ℕ → ℕ → ℕ → ℕ → Type 0
Over target margin h a = ((target ≤ h) × (a + margin ≤ h)) ⊎ ((target ≤ a) × (h + margin ≤ a))

-- A course of rallies from 0:0 to h:a, none of which was played after the set was over.
pub data Rallies (target margin : ℕ) : ℕ → ℕ → Type 0 where
  start : Rallies target margin 0 0
  home_point :
      (h a : ℕ)
      → Rallies target margin h a
      → ¬ Over target margin h a
      → Rallies target margin (suc h) a
  away_point :
      (h a : ℕ)
      → Rallies target margin h a
      → ¬ Over target margin h a
      → Rallies target margin h (suc a)

-- The score is one at which a set can end.
abbrev pub Ends : ℕ → ℕ → ℕ → ℕ → Type 0
Ends target margin h a = Rallies target margin h a × Over target margin h a

module _ (target margin : ℕ) (two : 2 ≤ margin) where
  level : (n : ℕ) → Rallies target margin n n
  level zero = start
  level (suc n) =
      away_point (suc n) n (home_point n n (level n) (λ o. omega arith)) (λ o. omega arith)

  -- One side pulls ahead from l:l, by no more than the margin or to no more than the target.
  home_ahead : (d w l : ℕ) → w ≡ d + l → (w ≤ target) ⊎ (d ≤ margin) → Rallies target margin w l
  home_ahead zero w l e h = subst (λ x. Rallies target margin x l) (omega arith) (level l)
  home_ahead (suc d) zero l e h = absurd (omega arith)
  home_ahead (suc d) (suc w) l e h =
      home_point w l (home_ahead d w l (omega arith) (omega arith)) (λ o. omega arith)

  away_ahead : (d w l : ℕ) → w ≡ d + l → (w ≤ target) ⊎ (d ≤ margin) → Rallies target margin l w
  away_ahead zero w l e h = subst (λ x. Rallies target margin l x) (omega arith) (level l)
  away_ahead (suc d) zero l e h = absurd (omega arith)
  away_ahead (suc d) (suc w) l e h =
      away_point l w (away_ahead d w l (omega arith) (omega arith)) (λ o. omega arith)

  home_wins-Ends :
      (h a : ℕ)
      → target ≤ h
      → ((a + margin ≤ target) × (h ≡ target)) ⊎ (h ≡ a + margin)
      → Ends target margin h a
  home_wins-Ends h a t w =
      (home_ahead (h - a) h a (omega arith) (omega arith), inl (t, omega arith))

  away_wins-Ends :
      (h a : ℕ)
      → target ≤ a
      → ((h + margin ≤ target) × (a ≡ target)) ⊎ (a ≡ h + margin)
      → Ends target margin h a
  away_wins-Ends h a t w =
      (away_ahead (a - h) a h (omega arith) (omega arith), inr (t, omega arith))

module _ (rule : VolleyballSetRule) (number : ℕ) where
  -- The scores that _valid_set_score accepts.
  abbrev Accepted : ℕ → ℕ → Type 0
  Accepted h a =
      (target_of rule number ≤ h
        × (((a + rule.winning_margin ≤ target_of rule number) × (h ≡ target_of rule number))
            ⊎ (h ≡ a + rule.winning_margin)))
      ⊎ (target_of rule number ≤ a
          × (((h + rule.winning_margin ≤ target_of rule number) × (a ≡ target_of rule number))
              ⊎ (a ≡ h + rule.winning_margin)))

  valid_set_score-Accepted :
      (h a : ℕ) → 0 < rule.winning_margin → valid_set_score number h a rule ≡ true ↔ Accepted h a
  valid_set_score-Accepted h a m = ground arith

  Ends-Accepted :
      (h a : ℕ)
      → 0 < rule.winning_margin
      → 0 < target_of rule number
      → Ends (target_of rule number) rule.winning_margin h a
      → Accepted h a
  Ends-Accepted zero zero m t (start, o) = absurd (omega arith)
  Ends-Accepted (suc h) a m t (home_point g b r n, o) = ground arith
  Ends-Accepted h (suc a) m t (away_point g b r n, o) = ground arith

  -- If the winning margin is at least two and the target positive, `valid_set_score` accepts
  -- exactly the scores at which a set can end that is played rally by rally and stops as soon as it
  -- is over.
  pub valid_set_score_iff :
      (h a : ℕ)
      → 2 ≤ rule.winning_margin
      → 0 < target_of rule number
      → valid_set_score number h a rule ≡ true
        ↔ Ends (target_of rule number) rule.winning_margin h a
  valid_set_score_iff h a m t = (
    (λ e. elim ((valid_set_score-Accepted h a (omega arith)).0 e) [
      | inl p ↦ home_wins-Ends (target_of rule number) rule.winning_margin m h a p.0 p.1
      | inr p ↦ away_wins-Ends (target_of rule number) rule.winning_margin m h a p.0 p.1
    ]),
    (λ e. (valid_set_score-Accepted h a (omega arith)).1 (Ends-Accepted h a (omega arith) t e)),
  )
