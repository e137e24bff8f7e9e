-- ===== src/Features/Metrics.antt =====
-- Proofs on the metrics of a team.
use vlytics.Features.{
  Float, FeatureKey, attack_efficiency, serve_ace_rate, block_points_per_set, receive_efficiency,
  errors_per_set, StatLine, Built, built, ◌>>=◌,
}
use vlytics.Features.Definitions.{definition_of, metric_reasons}
use vlytics.Features.Selection.{SelectedMatch}
use vlytics.Features.Values.{ratio_feature, value_at, sum_of, lineage_of}
use vlytics.Features.Team.{
  has_keys, Scanned, no_line, unusable, all_lines, scan_lines, metric_parts, measure, team_metric,
  set_count,
}
use vlytics.Prelude.{true, ◌≡◌, refl, List, [], ◌∷◌, Text, codes, length, arith, All, All-mono}
use vlytics.Features.Sound.{
  Returns, Returns-bind, IsValue, IsNumber, HasKey, ratio_feature-IsValue, value_at-Returns,
  sum_from-Returns,
}
use vlytics.Features.Lines.{AreUsable, keys_of, is_metric, scan_lines-AreUsable}

metric_reasons_lem :
    (key : FeatureKey) → is_metric key ≡ true → (definition_of key).missing_reasons ≡ metric_reasons
metric_reasons_lem attack_efficiency m = refl
metric_reasons_lem serve_ace_rate m = refl
metric_reasons_lem receive_efficiency m = refl
metric_reasons_lem block_points_per_set m = refl
metric_reasons_lem errors_per_set m = refl
metric_reasons_lem key m = absurd (ground arith)

module _ {W : Type 0} (num : Float W) where
  sum_of_key :
      (key : Text) (lines : List (StatLine W))
      → All (HasKey key) lines
      → Returns IsNumber (sum_of num (value_at key) lines)
  sum_of_key key lines h =
      sum_from-Returns num (value_at key) num.zero lines
        (All-mono lines (λ line has. value_at-Returns num key line has) h)

  -- A pair of two sums.
  pair_of_sums :
      (f g : StatLine W → Built W) (lines : List (StatLine W))
      → All (λ line. Returns IsNumber (f line)) lines
      → All (λ line. Returns IsNumber (g line)) lines
      → Returns
          (λ (p : W × W). Unit)
          (sum_of num f lines >>= λ n. sum_of num g lines >>= λ d. built (n, d))
  pair_of_sums f g lines hf hg =
      Returns-bind IsNumber (λ p. Unit) (sum_of num f lines)
        (λ n. sum_of num g lines >>= λ d. built (n, d)) (sum_from-Returns num f num.zero lines hf)
        (λ n u.
          Returns-bind IsNumber (λ p. Unit) (sum_of num g lines) (λ d. built (n, d))
            (sum_from-Returns num g num.zero lines hg) (λ d v. tt))

  -- The sums of one and of two keys that all lines have.
  sums_of_keys :
      (k l : Text) (lines : List (StatLine W))
      → All (λ line. has_keys (k ∷ l ∷ []) line ≡ true) lines
      → Returns
          (λ (p : W × W). Unit)
          (sum_of num (value_at k) lines >>= λ n.
            sum_of num (value_at l) lines >>= λ d. built (n, d))
  sums_of_keys k l lines h =
      pair_of_sums (value_at k) (value_at l) lines
        (All-mono lines (λ line has. value_at-Returns num k line (ground arith)) h)
        (All-mono lines (λ line has. value_at-Returns num l line (ground arith)) h)

  sum_over_sets :
      (k : Text) (history : List (SelectedMatch W)) (lines : List (StatLine W))
      → All (λ line. has_keys (k ∷ []) line ≡ true) lines
      → Returns
          (λ (p : W × W). Unit)
          (sum_of num (value_at k) lines >>= λ n. built (n, num.of_count (set_count history)))
  sum_over_sets k history lines h =
      Returns-bind IsNumber (λ p. Unit) (sum_of num (value_at k) lines)
        (λ n. built (n, num.of_count (set_count history)))
        (sum_of_key k lines (All-mono lines (λ line has. ground arith) h)) (λ n u. tt)

  -- kills - errors of a line
  difference-Returns :
      (k l : Text) (line : StatLine W)
      → HasKey k line
      → HasKey l line
      → Returns IsNumber (value_at k line >>= λ a. value_at l line >>= λ b. built (num.sub a b))
  difference-Returns k l line hk hl =
      Returns-bind IsNumber IsNumber (value_at k line)
        (λ a. value_at l line >>= λ b. built (num.sub a b)) (value_at-Returns num k line hk)
        (λ a u.
          Returns-bind IsNumber IsNumber (value_at l line) (λ b. built (num.sub a b))
            (value_at-Returns num l line hl) (λ b v. tt))

  differences_of_keys :
      (k l j : Text) (lines : List (StatLine W))
      → All (λ line. has_keys (k ∷ l ∷ j ∷ []) line ≡ true) lines
      → Returns
          (λ (p : W × W). Unit)
          (sum_of num
              (λ line. value_at k line >>= λ a. value_at l line >>= λ b. built (num.sub a b))
              lines
            >>= λ n. sum_of num (value_at j) lines >>= λ d. built (n, d))
  differences_of_keys k l j lines h =
      pair_of_sums (λ line. value_at k line >>= λ a. value_at l line >>= λ b. built (num.sub a b))
        (value_at j) lines
        (All-mono lines (λ line has. difference-Returns k l line (ground arith) (ground arith)) h)
        (All-mono lines (λ line has. value_at-Returns num j line (ground arith)) h)

  pub metric_parts-Returns :
      (key : FeatureKey) (history : List (SelectedMatch W)) (lines : List (StatLine W))
      → is_metric key ≡ true
      → All (λ line. has_keys (keys_of key) line ≡ true) lines
      → Returns (λ (p : W × W). Unit) (metric_parts num key history lines)
  metric_parts-Returns attack_efficiency history lines m h =
      differences_of_keys (codes "attack_kills") (codes "attack_errors") (codes "attack_attempts")
        lines h
  metric_parts-Returns serve_ace_rate history lines m h =
      sums_of_keys (codes "serve_aces") (codes "serve_attempts") lines h
  metric_parts-Returns receive_efficiency history lines m h =
      sums_of_keys (codes "receive_successes") (codes "receive_attempts") lines h
  metric_parts-Returns block_points_per_set history lines m h =
      sum_over_sets (codes "block_points") history lines h
  metric_parts-Returns errors_per_set history lines m h =
      sum_over_sets (codes "errors") history lines h
  metric_parts-Returns key history lines m h = absurd (ground arith)

  measure-Returns :
      (key : FeatureKey) (history : List (SelectedMatch W)) (scanned : Scanned W)
      → is_metric key ≡ true
      → AreUsable (keys_of key) scanned
      → Returns (IsValue key) (measure num key history scanned)
  measure-Returns key history (no_line n) m h = (rw (metric_reasons_lem key m) refl, refl)
  measure-Returns key history (unusable reason n line) m h = (rw (metric_reasons_lem key m) h, refl)
  measure-Returns key history (all_lines lines) m h =
      Returns-bind (λ p. Unit) (IsValue key) (metric_parts num key history lines)
        (λ p. built (ratio_feature num key p.0 p.1 (length lines) (lineage_of history [] lines)))
        (metric_parts-Returns key history lines m h)
        (λ p u.
          ratio_feature-IsValue num key p.0 p.1 (length lines) (lineage_of history [] lines)
            (rw (metric_reasons_lem key m) refl))

  pub team_metric-Returns :
      (key : FeatureKey) (team_id : Text) (history : List (SelectedMatch W))
      → is_metric key ≡ true
      → Returns (IsValue key) (team_metric num key team_id history (keys_of key))
  unfolding team_metric
  team_metric-Returns key team_id [] m = (rw (metric_reasons_lem key m) refl, refl)
  team_metric-Returns key team_id (i ∷ history) m =
      measure-Returns key (i ∷ history) (scan_lines team_id (keys_of key) (i ∷ history)) m
        (scan_lines-AreUsable team_id (keys_of key) (i ∷ history))
