-- ===== src/Features/Rows.antt =====
-- Proofs on the shares and trends of a player.
use mathlib.Core.Path.{subst}
use vlytics.Features.{
  lineup_unavailable, PlayerFeatures, Float, MissingReason, FeatureLineage, PlayerStatLine,
  StatLine, TargetMatch, RosterRevision, attack_share_recent_5, attack_share_trend_3v3, get,
}
use vlytics.Features.Values.{value_at, lineage_of}
use vlytics.Features.Definitions.{min_samples, metric_reasons, player_reasons, keys_of_scope}
use vlytics.Features.Selection.{SelectedMatch}
use vlytics.Features.Team.{take, metric_line_reason, team_history}
use vlytics.Features.Player.{
  PlayerMetricRow, row_reason, row_on, row_checked, scan_row, scan_rows, player_metric_rows,
  player_line, team_line, attempts, share_of_rows, trend_of_rows, trend_of_sums,
  player_attack_share, player_attack_trend, features_of_player, drop, appears,
}
use vlytics.Features.Sound.{
  Returns, Returns-bind, Returns-if, IsValue, AreValues, among, IsNumber, HasKey,
  ratio_feature-IsValue, value_at-Returns, sum_from-Returns,
}
use vlytics.Features.Lines.{
  metric_line_reason-has_keys, metric_line_reason-is_metric_reason, is_metric_reason,
}
use vlytics.Prelude.{
  select, Text, codes, ℕ, zero, suc, All, All-mono, All-map, ltb, false, List, [], ◌∷◌, map, refl,
  ◌≡◌, length, Option, none, some, arith, true,
}

module _ {A : Type 0} (P : A → Type 0) where
  All-take : (n : ℕ) (xs : List A) → All P xs → All P (take n xs)
  All-take zero xs h = tt
  All-take (suc n) [] h = tt
  All-take (suc n) (x ∷ xs) h = (h.0, All-take n xs h.1)

  All-drop : (n : ℕ) (xs : List A) → All P xs → All P (drop n xs)
  All-drop zero xs h = h
  All-drop (suc n) [] h = tt
  All-drop (suc n) (x ∷ xs) h = All-drop n xs h.1

-- Both lines of a row count the attempts.
abbrev HasAttempts : {W : Type 0} → PlayerMetricRow W → Type 0
HasAttempts row =
    HasKey (codes "attack_attempts") row.player.stats × HasKey (codes "attack_attempts") row.team

reason_of_player :
    (reason : MissingReason)
    → among reason metric_reasons ≡ true
    → among reason player_reasons ≡ true
reason_of_player lineup_unavailable h = refl
reason_of_player reason h = refl

module _ {W : Type 0} where
  row_reason-HasAttempts :
      (player : PlayerStatLine W) (team : StatLine W) (team_id : Text)
      → row_reason player team team_id ≡ none
      → HasAttempts (record { player = player; team = team })
  row_reason-HasAttempts player team team_id h =
      let keys = codes "attack_attempts" ∷ [] in
      let of_player : metric_line_reason player.stats keys ≡ none = ground arith in
      let of_team : metric_line_reason team keys ≡ none = ground arith in
      let player_has = metric_line_reason-has_keys player.stats keys of_player in
      let team_has = metric_line_reason-has_keys team keys of_team in (ground arith, ground arith)

  row_reason-is_metric_reason :
      (player : PlayerStatLine W) (team : StatLine W) (team_id : Text)
      → is_metric_reason (row_reason player team team_id) ≡ true
  row_reason-is_metric_reason player team team_id =
      let keys = codes "attack_attempts" ∷ [] in
      let of_player = metric_line_reason-is_metric_reason player.stats keys in
      let of_team = metric_line_reason-is_metric_reason team keys in ground arith

  -- All rows count the attempts, and the reason, if there is one, is that of a metric.
  abbrev AreRows : List (PlayerMetricRow W) × Option MissingReason → Type 0
  AreRows (rows, reason) = All HasAttempts rows × (is_metric_reason reason ≡ true)

  row_on-AreRows :
      (row : PlayerMetricRow W) (rest : List (PlayerMetricRow W) × Option MissingReason)
      → HasAttempts row
      → AreRows rest
      → AreRows (row_on row rest)
  row_on-AreRows row (rows, reason) h r = ((h, r.0), r.1)

  row_checked-AreRows :
      (player : PlayerStatLine W) (team : StatLine W) (team_id : Text)
      (reason : Option MissingReason) (rest : List (PlayerMetricRow W) × Option MissingReason)
      → row_reason player team team_id ≡ reason
      → AreRows rest
      → AreRows (row_checked reason (record { player = player; team = team }) rest)
  row_checked-AreRows player team team_id none rest e h =
      row_on-AreRows (record { player = player; team = team }) rest
        (row_reason-HasAttempts player team team_id e) h
  row_checked-AreRows player team team_id (some reason) rest e h = (
    tt,
    subst (λ r. is_metric_reason r ≡ true) e (row_reason-is_metric_reason player team team_id),
  )

  scan_row-AreRows :
      (team_id : Text) (player : Option (PlayerStatLine W)) (team : Option (StatLine W))
      (rest : List (PlayerMetricRow W) × Option MissingReason)
      → AreRows rest
      → AreRows (scan_row team_id player team rest)
  scan_row-AreRows team_id none team rest h = (tt, refl)
  scan_row-AreRows team_id (some player) none rest h = (tt, refl)
  scan_row-AreRows team_id (some player) (some team) rest h =
      row_checked-AreRows player team team_id (row_reason player team team_id) rest refl h

  scan_rows-AreRows :
      (player_id team_id : Text) (items : List (SelectedMatch W))
      → AreRows (scan_rows player_id team_id items)
  unfolding scan_rows
  scan_rows-AreRows player_id team_id [] = (tt, refl)
  scan_rows-AreRows player_id team_id (i ∷ items) =
      scan_row-AreRows team_id (get player_id i.result.player_stats)
        (get team_id i.result.team_stats) (scan_rows player_id team_id items)
        (scan_rows-AreRows player_id team_id items)

  player_metric_rows-AreRows :
      (player_id team_id : Text) (items : List (SelectedMatch W))
      → AreRows (player_metric_rows player_id team_id items)
  unfolding player_metric_rows
  player_metric_rows-AreRows player_id team_id [] = (tt, refl)
  player_metric_rows-AreRows player_id team_id (i ∷ items) =
      scan_rows-AreRows player_id team_id (i ∷ items)

module _ {W : Type 0} (num : Float W) where
  attempts-Returns :
      (line : PlayerMetricRow W → StatLine W) (rows : List (PlayerMetricRow W))
      → All (λ row. HasKey (codes "attack_attempts") (line row)) rows
      → Returns IsNumber (attempts num (map line rows))
  attempts-Returns line rows h =
      sum_from-Returns num (value_at (codes "attack_attempts")) num.zero (map line rows) (
        All-map (λ l. Returns IsNumber (value_at (codes "attack_attempts") l)) line rows
          (All-mono rows (λ row has. value_at-Returns num (codes "attack_attempts") (line row) has)
            h))

  player_attempts :
      (rows : List (PlayerMetricRow W))
      → All HasAttempts rows
      → Returns IsNumber (attempts num (map player_line rows))
  player_attempts rows h = attempts-Returns player_line rows (All-mono rows (λ row has. has.0) h)

  team_attempts :
      (rows : List (PlayerMetricRow W))
      → All HasAttempts rows
      → Returns IsNumber (attempts num (map team_line rows))
  team_attempts rows h = attempts-Returns team_line rows (All-mono rows (λ row has. has.1) h)

  share_of_rows-Returns :
      (n : ℕ) (rows : List (PlayerMetricRow W) × Option MissingReason) (lineage : FeatureLineage)
      → AreRows rows
      → Returns (IsValue attack_share_recent_5) (share_of_rows num n rows lineage)
  share_of_rows-Returns n (rows, some reason) lineage h = (reason_of_player reason h.1, refl)
  share_of_rows-Returns n (rows, none) lineage h =
      Returns-bind IsNumber (IsValue attack_share_recent_5) (attempts num (map player_line rows)) _
        (player_attempts rows h.0)
        (λ numerator u.
          Returns-bind IsNumber (IsValue attack_share_recent_5) (attempts num (map team_line rows))
            _ (team_attempts rows h.0)
            (λ denominator v.
              ratio_feature-IsValue num attack_share_recent_5 numerator denominator n lineage refl))

  trend_of_sums-IsValue :
      (n : ℕ) (a b c d : W) (lineage : FeatureLineage)
      → ltb n 6 ≡ false
      → IsValue attack_share_trend_3v3 (trend_of_sums num n a b c d lineage)
  trend_of_sums-IsValue n a b c d lineage h = (ground arith, ground arith)

  trend_of_rows-Returns :
      (n : ℕ) (rows : List (PlayerMetricRow W) × Option MissingReason) (lineage : FeatureLineage)
      → AreRows rows
      → Returns (IsValue attack_share_trend_3v3) (trend_of_rows num n rows lineage)
  trend_of_rows-Returns n (rows, some reason) lineage h = (reason_of_player reason h.1, refl)
  trend_of_rows-Returns n (rows, none) lineage h =
      let recent = All-take HasAttempts 3 rows h.0 in
      let earlier = All-take HasAttempts 3 (drop 3 rows) (All-drop HasAttempts 3 rows h.0) in
      let Q = IsValue {W = W} attack_share_trend_3v3 in
      Returns-if Q (ltb n (min_samples attack_share_trend_3v3)) _ _ (refl, refl)
        (λ enough.
          Returns-bind IsNumber Q (attempts num (map team_line (take 3 rows))) _
            (team_attempts (take 3 rows) recent)
            (λ team u.
              Returns-bind IsNumber Q (attempts num (map team_line (take 3 (drop 3 rows)))) _
                (team_attempts (take 3 (drop 3 rows)) earlier)
                (λ earlier_team v.
                  Returns-bind IsNumber Q (attempts num (map player_line (take 3 rows))) _
                    (player_attempts (take 3 rows) recent)
                    (λ player w.
                      Returns-bind IsNumber Q
                        (attempts num (map player_line (take 3 (drop 3 rows)))) _
                        (player_attempts (take 3 (drop 3 rows)) earlier)
                        (λ earlier_player x.
                          trend_of_sums-IsValue n player team earlier_player earlier_team lineage
                            enough)))))

  pub features_of_player-Returns :
      (target : TargetMatch) (selected : List (SelectedMatch W)) (roster : RosterRevision)
      (player_id : Text)
      → Returns
          (λ f. AreValues (keys_of_scope (codes "player")) f.features)
          (features_of_player num target selected roster player_id)
  unfolding keys_of_scope features_of_player player_attack_share player_attack_trend
  features_of_player-Returns target selected roster player_id =
      let appearances =
        select (appears player_id roster.team_id) (team_history selected roster.team_id) in
      let lineage = lineage_of {W = W} [] (roster ∷ []) [] in
      let rows = player_metric_rows player_id roster.team_id in
      let are = player_metric_rows-AreRows {W = W} player_id roster.team_id in
      let Q : PlayerFeatures W → Type 0 =
        λ f. AreValues (keys_of_scope (codes "player")) f.features in
      Returns-bind (IsValue attack_share_recent_5) Q
        (player_attack_share num (take 5 appearances) player_id roster.team_id lineage) _
        (share_of_rows-Returns (length (take 5 appearances)) (rows (take 5 appearances)) _
          (are (take 5 appearances)))
        (λ share s.
          Returns-bind (IsValue attack_share_trend_3v3) Q
            (player_attack_trend num (take 6 appearances) player_id roster.team_id lineage) _
            (trend_of_rows-Returns (length (take 6 appearances)) (rows (take 6 appearances)) _
              (are (take 6 appearances)))
            (λ trend t. (s, (t, tt))))
