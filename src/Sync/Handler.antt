-- ===== src/Sync/Handler.antt =====
-- `BackfillSyncHandler` of backend/src/vlytics/ops/sync.py on the runner of the backfill. What the
-- handler is built with is a parameter.
use vlytics.Backfill.Runner.{
  Outside, State, Outcome, BackfillRunner, raised, returned, value_error, ◌>>=◌,
}
use vlytics.Backfill.Pages.{sync_once}
use vlytics.Jobs.{Job, Result, ok, err}
use vlytics.Sync.Scope.{BackfillScope, Mapping, scope_from_payload}
use vlytics.Sync.Coverage.{CoverageItem, reconcile_coverage}
use vlytics.Prelude.{ℕ, Option, none, some, List, [], Text}

pub record CoverageReport : Type 0 where
  pub scope : BackfillScope
  pub generated_at : ℕ
  pub items : List CoverageItem

pub record BackfillSyncHandler (E : Type 0) : Type 0 where
  pub runner_factory : Job → State E → Outcome E BackfillRunner
  pub expected_codes : BackfillScope → State E → Outcome E (List Text)
  pub loaded_codes : BackfillScope → State E → Outcome E (List Text)
  pub report_sink : CoverageReport → State E → Outcome E Unit

-- A result that the handler passes on, an error as ValueError.
abbrev pub checked : {E A : Type 0} → Result A → State E → Outcome E A
checked (err e) st = raised value_error st
checked (ok a) st = returned (a, st)

module _ {E : Type 0} (o : Outside E) where
  -- What follows once the scope is known. Pages have 2 responses, the default of the runner.
  unfoldable pub synchronise :
      ℕ → BackfillSyncHandler E → BackfillScope → Job → ℕ → State E → Outcome E Unit
  unfolding sync_once reconcile_coverage
  synchronise rounds h scope job now st = do
    (runner, st) ← h.runner_factory job st
    (accepted, st) ← sync_once o rounds runner scope 2 job.deadline_at st
    (expected, st) ← h.expected_codes scope st
    (loaded, st) ← h.loaded_codes scope st
    h.report_sink
        (record {
          scope = scope;
          generated_at = now;
          items = reconcile_coverage expected loaded [] [];
        })
        st

  -- The payload is none if it is no object.
  unfoldable pub handle_payload :
      ℕ → BackfillSyncHandler E → Option Mapping → Job → ℕ → State E → Outcome E Unit
  unfolding scope_from_payload synchronise
  handle_payload rounds h none job now st = raised value_error st
  handle_payload rounds h (some payload) job now st = do
    (scope, st) ← checked (scope_from_payload payload) st
    synchronise rounds h scope job now st

  -- `read_json` reads a column of the database back; none is no object.
  unfoldable pub handle :
      (Text → Option Mapping) → ℕ → BackfillSyncHandler E → Job → ℕ → State E → Outcome E Unit
  unfolding handle_payload
  handle read_json rounds h job now st = handle_payload rounds h (read_json job.payload) job now st
