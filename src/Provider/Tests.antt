-- ===== src/Provider/Tests.antt =====
-- Calls of a provider on the process-local budget.
use vlytics.Provider.Settles.{EndsWith}
use vlytics.Provider.Billed.{Charges, Loses}
use vlytics.Provider.Charged.{predict-Charges}
use vlytics.Provider.Ledger.{ledger, ledger-IsAccount, is_moderate, predict-cap}
use vlytics.Provider.Call.{
  PredictionProvider, PredictionContext, Call, Ended, raised, returned, built, body, value,
  has_forbidden_key,
}
use vlytics.Provider.Predict.{predict}
use vlytics.Provider.{
  BudgetLedger, ProviderVariant, ProviderUsage, anthropic, immutable_model_id, reserve, settle,
  PredictionAttemptResult, AttemptStatus,
}
use vlytics.Prelude.{
  ℕ, true, Option, none, some, [], ◌∷◌, codes, ◌+◌, ◌≡◌, ◌≤◌, refl, arith, text_eq, contains,
}

abbrev variant : ProviderVariant
variant = record {
  variant_id = codes "v";
  provider = anthropic;
  requested_model_id = codes "m1";
  pinned_model_version = codes "m1";
  version_policy = immutable_model_id;
  prompt_version = codes "p";
  prompt_hash = codes "h";
  max_input_tokens = 100;
  max_output_tokens = 10;
  input_cost_per_million = 3;
  output_cost_per_million = 15;
  enabled = true;
  op003_resolved = true;
}

abbrev usage : ProviderUsage
usage = record { input_tokens = 20; output_tokens = 4 }

abbrev provider : PredictionProvider Unit ℕ
provider = record {
  provider_name = anthropic;
  variant = variant;
  is_approved_transport = true;
  prompt_template_hash = codes "h";
  build_request_document = λ c. built (codes "model" ∷ []) (some c.snapshot_bytes);
  fallback_body = λ _. codes "failed";
  sha256 = λ t. t;
  send = λ _ e. (body (codes "r"), e);
  parse_response_metadata =
      λ _. value (record { request_id = codes "i"; resolved_model_id = codes "m1"; usage = usage });
  parse_response = λ _ _. value (record { output_text = some (codes "{}"); refusal_reason = none });
  validated_output = λ _ _ _. value 7;
}

abbrev context : PredictionContext
context = record {
  snapshot_id = codes "s";
  snapshot_sha256 = codes "d";
  snapshot_bytes = codes "abc";
}

abbrev before : Call Unit BudgetLedger
before = record { outside = tt; budget = record { cap = 1000; spent = 100; reserved = 300 } }

abbrev status_of : Ended Unit BudgetLedger (PredictionAttemptResult ℕ) → Option AttemptStatus × ℕ
status_of (raised e st) = (none, st.budget.spent)
status_of (returned r st) = (some r.status, st.budget.spent)

-- 20 * 3 + 4 * 15 is added to what was spent.
succeeds :
    status_of (predict provider ledger context 5 before) ≡ (some AttemptStatus.succeeded, 220)
unfolding predict contains has_forbidden_key text_eq reserve settle
succeeds = refl

predict-Charges_example :
    EndsWith
      (Charges provider ledger (λ l. l.spent) (λ l. l.reserved) ledger-IsAccount context before)
      (Loses provider ledger (λ l. l.spent) (λ l. l.reserved) ledger-IsAccount context before)
      (predict provider ledger context 5 before)
predict-Charges_example =
    predict-Charges provider ledger (λ l. l.spent) (λ l. l.reserved) ledger-IsAccount context 5
      before

predict-cap_example :
    EndsWith
      (λ (r : PredictionAttemptResult ℕ) (st' : Call Unit BudgetLedger).
        is_moderate variant r.usage ≡ true → st'.budget.spent + st'.budget.reserved ≤ 1000)
      (λ _ _. Unit)
      (predict provider ledger context 5 before)
predict-cap_example = predict-cap provider context 5 before (omega arith)
