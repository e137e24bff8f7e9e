-- ===== src/Backfill/Approved.antt =====
-- What the collection gate approves.
use vlytics.Backfill.{
  CollectionGate, SourceAdapter, approved, blocked, within, approved_rate, approved_concurrency,
  is_blocked,
}
use vlytics.Prelude.{
  ◌≢◌, Bool-cases, inl, inr, ℕ, Option, true, false, ◌≡◌, ◌≤◌, ◌<◌, none, some, arith,
}

enabled :
    (g : CollectionGate) (adapter : SourceAdapter)
    → adapter.synthetic ≡ false
    → is_blocked g adapter ≡ false
    → g.bulk_collection_enabled ≡ true
enabled g adapter real open_gate = elim (Bool-cases g.bulk_collection_enabled) [
  | inl on ↦ on
  | inr off ↦ absurd (ground (arith, (rw (real, off, is_blocked) at open_gate)))
]

blocked-approved : (r : ℕ) → blocked ≢ approved r
blocked-approved r e = ground arith

within_lem : (limit value r : ℕ) → within limit value ≡ approved r → (0 < r) × (r ≤ limit)
within_lem limit value r e = ground arith

approved_rate_lem :
    (g : CollectionGate) (adapter : SourceAdapter) (rate : Option ℕ) (r : ℕ)
    → adapter.synthetic ≡ false
    → approved_rate g adapter rate ≡ approved r
    → (is_blocked g adapter ≡ false) × (0 < r) × (r ≤ g.max_requests_per_minute)
unfolding approved_rate
approved_rate_lem g adapter none r real e = elim (Bool-cases (is_blocked g adapter)) [
  | inl shut ↦ absurd (blocked-approved r (rw (shut, approved_rate) at e))
  | inr open_gate ↦
      let (least, most) =
        within_lem g.max_requests_per_minute g.max_requests_per_minute r
          (rw (open_gate, real, approved_rate) at e) in
      (open_gate, least, most)
]
approved_rate_lem g adapter (some x) r real e = elim (Bool-cases (is_blocked g adapter)) [
  | inl shut ↦ absurd (blocked-approved r (rw (shut, approved_rate) at e))
  | inr open_gate ↦
      let (least, most) =
        within_lem g.max_requests_per_minute x r (rw (open_gate, real, approved_rate) at e) in
      (open_gate, least, most)
]

approved_concurrency_lem :
    (g : CollectionGate) (adapter : SourceAdapter) (workers : Option ℕ) (w : ℕ)
    → adapter.synthetic ≡ false
    → approved_concurrency g adapter workers ≡ approved w
    → (is_blocked g adapter ≡ false) × (0 < w) × (w ≤ g.max_concurrency)
unfolding approved_concurrency
approved_concurrency_lem g adapter none w real e = elim (Bool-cases (is_blocked g adapter)) [
  | inl shut ↦ absurd (blocked-approved w (rw (shut, approved_concurrency) at e))
  | inr open_gate ↦
      let (least, most) =
        within_lem g.max_concurrency g.max_concurrency w
          (rw (open_gate, real, approved_concurrency) at e) in
      (open_gate, least, most)
]
approved_concurrency_lem g adapter (some x) w real e = elim (Bool-cases (is_blocked g adapter)) [
  | inl shut ↦ absurd (blocked-approved w (rw (shut, approved_concurrency) at e))
  | inr open_gate ↦
      let (least, most) =
        within_lem g.max_concurrency x w (rw (open_gate, real, approved_concurrency) at e) in
      (open_gate, least, most)
]

-- A real source is asked no faster and by no more workers at once than the gate allows, and only if
-- bulk collection is enabled.
approved-bounds :
    (g : CollectionGate) (adapter : SourceAdapter) (rate workers : Option ℕ) (r w : ℕ)
    → adapter.synthetic ≡ false
    → approved_rate g adapter rate ≡ approved r
    → approved_concurrency g adapter workers ≡ approved w
    → (g.bulk_collection_enabled ≡ true)
      × (0 < r)
      × (r ≤ g.max_requests_per_minute)
      × (0 < w)
      × (w ≤ g.max_concurrency)
approved-bounds g adapter rate workers r w real e f =
    let (open_gate, r_least, r_most) = approved_rate_lem g adapter rate r real e in
    let (also, w_least, w_most) = approved_concurrency_lem g adapter workers w real f in
    (enabled g adapter real open_gate, r_least, r_most, w_least, w_most)
