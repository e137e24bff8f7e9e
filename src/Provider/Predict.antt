-- ===== src/Provider/Predict.antt =====
-- The stages of `PredictionProvider.predict`, backend/src/vlytics/engine/providers/base.py.
use vlytics.Provider.{
  non_finite_json, value_error, other_error, granted, denied, reserve_error, AttemptStatus,
  FailureCode, ProviderResponseMetadata, ParsedProviderResponse, PredictionAttemptResult,
  BudgetAccount, input_policy_violation, value_error, maximum_call_cost, skipped,
  non_finite_probability, is_operational, failed, Reserved, succeeded, cost_of, invalid_json,
  timeout, budget_skipped, refusal, provider_error, config_unresolved, input_too_large,
}
use mathlib.Core.Option
use vlytics.Prelude.{
  ℕ, Bool, true, false, not, ◌||◌, Option, none, some, Text, text_eq, ltb, ◌==◌, if◌then◌else◌,
  contains, length,
}
use vlytics.Provider.Call.{
  PredictionContext, Tried, value, raises, Built, build_error, built, Sent, body, timed_out,
  send_error, PredictionProvider, Call, Ended, raised, returned, has_forbidden_key, Facts,
  no_response, version_failure, output_failure, is_caught, is_excessive, timeout_cost,
  ProviderInvocation,
}

module _ {E O S : Type 0} (p : PredictionProvider E O) (budget : BudgetAccount S)
    (context : PredictionContext) where
  abbrev pub preflight_of : Built → Text × Option FailureCode
  preflight_of build_error = (p.fallback_body context, some input_policy_violation)
  preflight_of (built keys none) = (p.fallback_body context, some input_policy_violation)
  preflight_of (built keys (some document)) =
      (document, if has_forbidden_key keys then some input_policy_violation else none)

  -- _preflight_request, without the digest
  abbrev pub preflight : Text × Option FailureCode
  preflight = preflight_of (p.build_request_document context)

  abbrev pub attempt :
      AttemptStatus → Option FailureCode → Facts → Option O → PredictionAttemptResult O
  attempt status code f output = record {
    provider = p.provider_name;
    variant_id = p.variant.variant_id;
    status = status;
    failure_code = code;
    snapshot_sha256 = context.snapshot_sha256;
    requested_model_id = p.variant.requested_model_id;
    pinned_model_version = p.variant.pinned_model_version;
    version_policy = p.variant.version_policy;
    prompt_version = p.variant.prompt_version;
    prompt_hash = p.variant.prompt_hash;
    request_hash = f.request_hash;
    response_hash = f.response_hash;
    resolved_model_id = Option.map (λ m. m.resolved_model_id) f.metadata;
    request_id = Option.map (λ m. m.request_id) f.metadata;
    usage = f.usage;
    cost = f.cost;
    output = output;
  }

  abbrev pub fail :
      AttemptStatus → FailureCode → Facts → Call E S → Ended E S (PredictionAttemptResult O)
  fail status code f st = returned (attempt status (some code) f none) st

  abbrev pub end_output : Facts → Tried O → Call E S → Ended E S (PredictionAttemptResult O)
  end_output f (value o) st = returned (attempt succeeded none f (some o)) st
  end_output f (raises e) st = elim (output_failure e) [
    | none ↦ raised e st
    | some code ↦ fail failed code f st
  ]

  abbrev pub end_text :
      ProviderResponseMetadata
      → Facts
      → Option Text
      → Option Text
      → Call E S
      → Ended E S (PredictionAttemptResult O)
  end_text m f none (some text) st =
      end_output f (p.validated_output text context m.resolved_model_id) st
  end_text m f none none st = fail failed refusal f st
  end_text m f (some reason) text st = fail failed refusal f st

  abbrev pub end_parsed :
      ProviderResponseMetadata
      → Facts
      → Tried ParsedProviderResponse
      → Call E S
      → Ended E S (PredictionAttemptResult O)
  end_parsed m f (value parsed) st = end_text m f parsed.refusal_reason parsed.output_text st
  end_parsed m f (raises e) st = if is_caught e then fail failed invalid_json f st else raised e st

  abbrev pub end_version :
      Text
      → ProviderResponseMetadata
      → Facts
      → Option FailureCode
      → Call E S
      → Ended E S (PredictionAttemptResult O)
  end_version response m f (some code) st = fail failed code f st
  end_version response m f none st = end_parsed m f (p.parse_response response m) st

  -- What follows the settlement of a response with its metadata.
  unfoldable pub end_metadata :
      Text → ProviderResponseMetadata → Facts → Call E S → Ended E S (PredictionAttemptResult O)
  unfolding version_failure output_failure
  end_metadata response m f st =
      if is_excessive p.variant m.usage
      then fail failed provider_error f st
      else end_version response m f (version_failure p.variant m.resolved_model_id) st

  abbrev pub after_settle :
      (Call E S → Ended E S (PredictionAttemptResult O))
      → Call E S
      → Bool × S
      → Ended E S (PredictionAttemptResult O)
  after_settle next st (true, s) = next (record st { budget = s })
  after_settle next st (false, s) = raised value_error (record st { budget = s })

  -- budget.settle(reserved, actual), and what follows it
  abbrev pub bill :
      ℕ
      → (Call E S → Ended E S (PredictionAttemptResult O))
      → Call E S
      → Ended E S (PredictionAttemptResult O)
  bill actual next st =
      after_settle next st (budget.settle (maximum_call_cost p.variant) actual st.budget)

  abbrev pub facts_of : Text → Text → Option ProviderResponseMetadata → Facts
  facts_of request_hash response none = record {
    request_hash = request_hash;
    response_hash = some (p.sha256 response);
    metadata = none;
    usage = none;
    cost = maximum_call_cost p.variant;
  }
  facts_of request_hash response (some m) = record {
    request_hash = request_hash;
    response_hash = some (p.sha256 response);
    metadata = some m;
    usage = some m.usage;
    cost = cost_of p.variant m.usage;
  }

  abbrev pub end_response :
      Text
      → Text
      → Tried ProviderResponseMetadata
      → Call E S
      → Ended E S (PredictionAttemptResult O)
  end_response hash response (value m) st =
      bill (cost_of p.variant m.usage) (end_metadata response m (facts_of hash response (some m)))
        st
  end_response hash response (raises non_finite_json) st =
      bill (maximum_call_cost p.variant)
        (fail failed non_finite_probability (facts_of hash response none)) st
  end_response hash response (raises other_error) st = raised other_error st
  end_response hash response (raises _) st =
      bill (maximum_call_cost p.variant) (fail failed invalid_json (facts_of hash response none)) st

  abbrev pub end_sent : Text → Sent × E → S → Ended E S (PredictionAttemptResult O)
  end_sent hash (timed_out usage, e) s =
      bill (timeout_cost p.variant usage)
        (fail failed timeout (no_response hash usage (timeout_cost p.variant usage)))
        (record { outside = e; budget = s })
  end_sent hash (send_error, e) s =
      bill (maximum_call_cost p.variant)
        (fail failed provider_error (no_response hash none (maximum_call_cost p.variant)))
        (record { outside = e; budget = s })
  end_sent hash (body response, e) s =
      end_response hash response (p.parse_response_metadata response)
        (record { outside = e; budget = s })

  -- The request is sent if the budget grants its greatest cost.
  unfoldable pub end_reserved :
      Text → ProviderInvocation → E → Reserved × S → Ended E S (PredictionAttemptResult O)
  unfolding end_metadata
  end_reserved hash call e (granted, s) = end_sent hash (p.send call e) s
  end_reserved hash call e (denied, s) =
      fail skipped budget_skipped (no_response hash none 0) (record { outside = e; budget = s })
  end_reserved hash call e (reserve_error, s) =
      raised value_error (record { outside = e; budget = s })

  -- The configuration or the transport is not approved.
  abbrev pub is_unresolved : Bool
  is_unresolved =
      not (is_operational p.variant)
      || (not (text_eq p.variant.prompt_hash p.prompt_template_hash) || not p.is_approved_transport)

  unfoldable pub end_preflight :
      ℕ → Text × Option FailureCode → Call E S → Ended E S (PredictionAttemptResult O)
  unfolding end_reserved contains
  end_preflight timeout_ms (document, some code) st =
      fail skipped code (no_response (p.sha256 document) none 0) st
  end_preflight timeout_ms (document, none) st =
      let unsent = no_response (p.sha256 document) none 0 in
      let call : ProviderInvocation = record {
        snapshot_sha256 = context.snapshot_sha256;
        snapshot_bytes = context.snapshot_bytes;
        request_body = document;
        estimated_input_tokens = length document;
        timeout_ms = timeout_ms;
      } in
      if is_unresolved
      then fail skipped config_unresolved unsent st
      else if ltb p.variant.max_input_tokens (length document)
      then fail skipped input_too_large unsent st
      else end_reserved (p.sha256 document) call st.outside
          (budget.reserve (maximum_call_cost p.variant) st.budget)

  unfoldable pub predict : ℕ → Call E S → Ended E S (PredictionAttemptResult O)
  unfolding end_preflight has_forbidden_key
  predict timeout_ms st =
      if timeout_ms == 0 then raised value_error st else end_preflight timeout_ms preflight st
