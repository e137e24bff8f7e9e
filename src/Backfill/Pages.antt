-- ===== src/Backfill/Pages.antt =====
-- `sync_once` of `BackfillRunner`, backend/src/vlytics/mirror/backfill.py.
use vlytics.Sync.Scope.{BackfillScope}
use vlytics.Backfill.{is_blocked, BackfillScope}
use vlytics.Backfill.Lease.{key_of, acquire, release, acquire_from, Slot}
use vlytics.Backfill.Runner.{
  append_revision, append_receipt_only, retry_later, quarantine, ◌>>=◌, finally, request_failed,
  contract_error, IngestAction, value_error, collection_blocked, lease_unavailable,
  retry_budget_exceeded, unfinished, SourceResponse, Outside, BackfillRunner, State, Outcome,
  raised, returned, retry_budget_exceeded, IngestAction, collection_blocked, unfinished,
  value_error, request_failed, contract_error,
}
use vlytics.Backfill.Fetch.{
  reading, ingest, wait_after_global_lease, cooldown, fetch_with_retry, fetch_from, reaches,
}
use vlytics.Prelude.{
  ℕ, zero, suc, Bool, Option, none, some, List, [], ◌∷◌, Text, ◌==◌, ◌+◌, text_eq, is_some, first,
  if◌then◌else◌,
}

-- cursor in seen_cursors
abbrev pub is_seen : Text → List Text → Bool
is_seen cursor seen = is_some (first (text_eq cursor) seen)

module _ {E : Type 0} (o : Outside E) where
  -- What the action of an ingested response means.
  abbrev pub accept : Option IngestAction → State E → Outcome E Unit
  accept none st = returned (tt, st)
  accept (some append_revision) st = returned (tt, st)
  accept (some append_receipt_only) st = returned (tt, st)
  accept (some retry_later) st = raised request_failed st
  accept (some quarantine) st = raised contract_error st

  -- The loop that ingests the responses of a page.
  unfoldable pub ingest_all : ℕ → List SourceResponse → State E → Outcome E ℕ
  ingest_all accepted [] st = returned (accepted, st)
  ingest_all accepted (x ∷ xs) st = do
    (action, st₁) ← ingest o x st
    (_, st₂) ← accept action st₁
    ingest_all (accepted + 1) xs st₂

  abbrev pub check_deadline : Option ℕ → State E → Outcome E Unit
  check_deadline none st = returned (tt, st)
  check_deadline (some deadline) st =
      let (now, st') = reading o o.now st in
      if reaches (some deadline) now then raised retry_budget_exceeded st' else returned (tt, st')

  -- The end of the pages, a cursor that was seen, or the next page.
  abbrev pub turn :
      (ℕ → Text → State E → Outcome E ℕ) → Option Text → List Text → ℕ → State E → Outcome E ℕ
  turn next none seen accepted st = returned (accepted, st)
  turn next (some cursor) seen accepted st =
      if is_seen cursor seen then raised contract_error st else next accepted cursor st

  -- The rounds of `sync_once` from a cursor on.
  unfoldable pub sync_from :
      ℕ
      → BackfillRunner
      → BackfillScope
      → ℕ
      → Option ℕ
      → ℕ
      → Option Text
      → List Text
      → State E
      → Outcome E ℕ
  unfolding ingest_all fetch_from
  sync_from zero r scope size deadline accepted cursor seen st = raised unfinished st
  sync_from (suc rounds) r scope size deadline accepted cursor seen st = do
    (_, st₁) ← check_deadline deadline st
    ((page, _, _), st₂) ← fetch_with_retry o r scope cursor size deadline st₁
    (more, st₃) ← ingest_all accepted page.responses st₂
    turn (λ n c. sync_from rounds r scope size deadline n (some c) (c ∷ seen)) page.next_cursor seen
        more st₃

  abbrev pub rested : BackfillRunner → State E → State E
  rested r st = if r.wait_after_global_lease then wait_after_global_lease o r.interval st else st

  -- self._scope_lease.release(scope, slot)
  abbrev pub released : BackfillRunner → BackfillScope → ℕ → State E → State E
  released r scope slot st = record st { slots = release (key_of r.lease_key scope) slot st.slots }

  -- What is done with the slot that was acquired, if one was, and `last` before it is released.
  abbrev pub hold :
      {A : Type 0}
      → BackfillRunner
      → BackfillScope
      → (State E → State E)
      → (State E → Outcome E A)
      → State E
      → Option ℕ × List Slot
      → Outcome E A
  hold r scope last body st (none, slots) = raised lease_unavailable (record st { slots = slots })
  hold r scope last body st (some slot, slots) =
      finally (λ st'. released r scope slot (last st'))
        (body (rested r (record st { slots = slots })))

  unfoldable pub leased :
      {A : Type 0}
      → BackfillRunner
      → BackfillScope
      → (State E → State E)
      → (State E → Outcome E A)
      → State E
      → Outcome E A
  unfolding acquire_from
  leased r scope last body st =
      if is_blocked r.gate r.adapter
      then raised collection_blocked st
      else hold r scope last body st (acquire (key_of r.lease_key scope) r.max_concurrency st.slots)

  unfoldable pub sync_once :
      ℕ → BackfillRunner → BackfillScope → ℕ → Option ℕ → State E → Outcome E ℕ
  unfolding leased sync_from
  sync_once rounds r scope size deadline st =
      if size == 0
      then raised value_error st
      else leased r scope (cooldown o r.interval)
          (λ st'. sync_from rounds r scope size deadline 0 none [] st') st
