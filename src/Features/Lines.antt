-- ===== src/Features/Lines.antt =====
-- Proofs on the lines that a metric reads.
use vlytics.Features.{
  MissingReason, FeatureKey, attack_efficiency, serve_ace_rate, block_points_per_set,
  receive_efficiency, errors_per_set, StatLine, get,
}
use vlytics.Features.Definitions.{metric_reasons}
use mathlib.Core.Path.{subst}
use vlytics.Features.Selection.{SelectedMatch}
use vlytics.Features.Team.{
  metric_line_reason, has_keys, Scanned, no_line, unusable, all_lines, scanned_on, scan_line,
  scan_checked, scan_lines,
}
use vlytics.Prelude.{
  Bool, true, false, ◌≡◌, refl, Option, none, some, List, [], ◌∷◌, Text, codes, arith, All,
}
use vlytics.Features.Sound.{among}

-- The reason, if there is one, is that of a metric.
abbrev pub is_metric_reason : Option MissingReason → Bool
is_metric_reason none = true
is_metric_reason (some reason) = among reason metric_reasons

-- All lines that were taken have the keys, or the reason against one is that of a metric.
abbrev pub AreUsable : {W : Type 0} → List Text → Scanned W → Type 0
AreUsable keys (no_line n) = Unit
AreUsable keys (unusable reason n line) = among reason metric_reasons ≡ true
AreUsable keys (all_lines lines) = All (λ line. has_keys keys line ≡ true) lines

module _ {W : Type 0} where
  pub metric_line_reason-has_keys :
      (line : StatLine W) (keys : List Text)
      → metric_line_reason line keys ≡ none
      → has_keys keys line ≡ true
  unfolding metric_line_reason
  metric_line_reason-has_keys line keys h = ground arith

  pub metric_line_reason-is_metric_reason :
      (line : StatLine W) (keys : List Text)
      → is_metric_reason (metric_line_reason line keys) ≡ true
  unfolding metric_line_reason
  metric_line_reason-is_metric_reason line keys = ground arith

  scanned_on-AreUsable :
      (keys : List Text) (line : StatLine W) (rest : Scanned W)
      → has_keys keys line ≡ true
      → AreUsable keys rest
      → AreUsable keys (scanned_on line rest)
  scanned_on-AreUsable keys line (no_line n) h r = tt
  scanned_on-AreUsable keys line (unusable reason n bad) h r = r
  scanned_on-AreUsable keys line (all_lines lines) h r = (h, r)

  pub scan_lines-AreUsable :
      (team_id : Text) (keys : List Text) (history : List (SelectedMatch W))
      → AreUsable keys (scan_lines team_id keys history)
  unfolding scan_lines
  scan_lines-AreUsable team_id keys [] = tt
  scan_lines-AreUsable team_id keys (i ∷ history) =
      by_line (get team_id i.result.team_stats) (scan_lines team_id keys history)
        (scan_lines-AreUsable team_id keys history)
    where
      checked :
          (reason : Option MissingReason) (line : StatLine W) (rest : Scanned W)
          → metric_line_reason line keys ≡ reason
          → AreUsable keys rest
          → AreUsable keys (scan_checked reason line rest)
      checked none line rest e h =
          scanned_on-AreUsable keys line rest (metric_line_reason-has_keys line keys e) h
      checked (some reason) line rest e h =
          subst (λ r. is_metric_reason r ≡ true) e (metric_line_reason-is_metric_reason line keys)

      by_line :
          (line : Option (StatLine W)) (rest : Scanned W)
          → AreUsable keys rest
          → AreUsable keys (scan_line keys line rest)
      by_line none rest h = tt
      by_line (some line) rest h = checked (metric_line_reason line keys) line rest refl h

-- The keys that a metric reads.
abbrev pub keys_of : FeatureKey → List Text
keys_of attack_efficiency =
    codes "attack_kills" ∷ codes "attack_errors" ∷ codes "attack_attempts" ∷ []
keys_of serve_ace_rate = codes "serve_aces" ∷ codes "serve_attempts" ∷ []
keys_of receive_efficiency = codes "receive_successes" ∷ codes "receive_attempts" ∷ []
keys_of block_points_per_set = codes "block_points" ∷ []
keys_of errors_per_set = codes "errors" ∷ []
keys_of _ = []

abbrev pub is_metric : FeatureKey → Bool
is_metric attack_efficiency = true
is_metric serve_ace_rate = true
is_metric receive_efficiency = true
is_metric block_points_per_set = true
is_metric errors_per_set = true
is_metric _ = false
