-- ===== src/Features/Sound.antt =====
-- When a computation returns, and what makes a value of a feature sound.
use vlytics.Features.Definitions.{min_samples, definition_of}
use vlytics.Features.{
  MissingReason, no_prior_matches, insufficient_sample, missing_input, source_metric_unverified,
  cumulative_value_rejected, zero_denominator, lineup_unavailable, recent_5_match_win_rate, Float,
  FeatureLineage, FeatureKey, FeatureValue, is_consistent, StatLine, Built, failed, built, get,
  ◌>>=◌,
}
use vlytics.Features.Values.{ratio_feature, required, value_at, sum_from}
use vlytics.Prelude.{
  ◌||◌, not, ◌==◌, ◌∷◌, false, if◌then◌else◌, Bool, refl, ℕ, true, ◌&&◌, ◌≡◌, Option, none, some,
  List, [], Text, arith, is_some, leb, All,
}

-- P holds of what is returned, and no exception is raised.
abbrev pub Returns : {A : Type 0} → (A → Type 0) → Built A → Type 0
Returns P (built a) = P a
Returns P (failed e) = ⊥

pub Returns-bind :
    {A B : Type 0} (P : A → Type 0) (Q : B → Type 0) (m : Built A) (next : A → Built B)
    → Returns P m
    → ((a : A) → P a → Returns Q (next a))
    → Returns Q (m >>= next)
Returns-bind P Q (built a) next h k = k a h
Returns-bind P Q (failed e) next h k = h

pub Returns-if :
    {A : Type 0} (P : A → Type 0) (b : Bool) (m n : Built A)
    → Returns P m
    → (b ≡ false → Returns P n)
    → Returns P (if b then m else n)
Returns-if P true m n h k = h
Returns-if P false m n h k = k refl

abbrev pub is_reason : MissingReason → MissingReason → Bool
is_reason no_prior_matches no_prior_matches = true
is_reason insufficient_sample insufficient_sample = true
is_reason missing_input missing_input = true
is_reason source_metric_unverified source_metric_unverified = true
is_reason cumulative_value_rejected cumulative_value_rejected = true
is_reason zero_denominator zero_denominator = true
is_reason lineup_unavailable lineup_unavailable = true
is_reason _ _ = false

abbrev pub among : MissingReason → List MissingReason → Bool
among reason [] = false
among reason (other ∷ reasons) = is_reason reason other || among reason reasons

-- The value has a number and samples enough, or a reason that the definition lists.
abbrev pub is_sound : {W : Type 0} → FeatureKey → FeatureValue W → Bool
is_sound key v = is_consistent v && elim v.missing_reason [
  | none ↦ leb (min_samples key) v.sample_size
  | some reason ↦ among reason (definition_of key).missing_reasons
]

-- A sound value of the definition.
abbrev pub IsValue : {W : Type 0} → FeatureKey → FeatureValue W → Type 0
IsValue key v = (is_sound key v ≡ true) × (v.definition ≡ key)

-- One sound value for each of the definitions, in their order.
abbrev pub AreValues : {W : Type 0} → List FeatureKey → List (FeatureValue W) → Type 0
AreValues [] [] = Unit
AreValues [] (_ ∷ _) = ⊥
AreValues (_ ∷ _) [] = ⊥
AreValues (key ∷ keys) (v ∷ vs) = IsValue key v × AreValues keys vs

-- A number is returned.
abbrev pub IsNumber : {W : Type 0} → W → Type 0
IsNumber v = Unit

abbrev pub HasKey : {W : Type 0} → Text → StatLine W → Type 0
HasKey key line = is_some (get key line.values) ≡ true

-- All definitions list two reasons.
lists_counts :
    (key : FeatureKey)
    → (among no_prior_matches (definition_of key).missing_reasons
        && among insufficient_sample (definition_of key).missing_reasons)
      ≡ true
lists_counts recent_5_match_win_rate = refl
lists_counts key = refl

module _ {W : Type 0} (num : Float W) where
  pub ratio_feature-IsValue :
      (key : FeatureKey) (n d : W) (samples : ℕ) (lineage : FeatureLineage)
      → (among zero_denominator (definition_of key).missing_reasons
          || (samples == 0 || not (num.is_zero d)))
        ≡ true
      → IsValue key (ratio_feature num key n d samples lineage)
  unfolding ratio_feature
  ratio_feature-IsValue key n d samples lineage h =
      let both = lists_counts key in (ground (arith, both), ground arith)

  required-Returns : (v : Option W) → is_some v ≡ true → Returns IsNumber (required v)
  required-Returns none h = absurd (ground arith)
  required-Returns (some v) h = tt

  pub value_at-Returns :
      (key : Text) (line : StatLine W) → HasKey key line → Returns IsNumber (value_at key line)
  value_at-Returns key line h = required-Returns (get key line.values) h

  pub sum_from-Returns :
      (f : StatLine W → Built W) (total : W) (lines : List (StatLine W))
      → All (λ line. Returns IsNumber (f line)) lines
      → Returns IsNumber (sum_from num f total lines)
  unfolding sum_from
  sum_from-Returns f total [] h = tt
  sum_from-Returns f total (line ∷ lines) h =
      Returns-bind IsNumber IsNumber (f line) (λ v. sum_from num f (num.add total v) lines) h.0
        (λ v n. sum_from-Returns f (num.add total v) lines h.1)
