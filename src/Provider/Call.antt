-- ===== src/Provider/Call.antt =====
-- What a call of a provider takes and gives, and the choices that `predict` in
-- backend/src/vlytics/engine/providers/base.py makes on it.
use vlytics.Provider.{
  non_finite_json, json_decode_error, key_error, type_error, value_error, other_error,
  contract_error, ProviderName, ProviderVariant, immutable_model_id, FailureCode, ProviderUsage,
  ProviderResponseMetadata, ParsedProviderResponse, PyError, value_error, maximum_call_cost,
  non_finite_probability, alias_drift, cost_of, invalid_json, version_unverified, invalid_output,
  contract_error, invalid_probability_sum,
}
use vlytics.Prelude.{
  ℕ, Bool, true, false, not, ◌||◌, Option, none, some, List, [], ◌∷◌, Text, text_eq, codes, ltb,
  if◌then◌else◌, contains, lower,
}

pub record PredictionContext : Type 0 where
  pub snapshot_id : Text
  pub snapshot_sha256 : Text
  pub snapshot_bytes : Text

pub record ProviderInvocation : Type 0 where
  pub snapshot_sha256 : Text
  pub snapshot_bytes : Text
  pub request_body : Text
  pub estimated_input_tokens : ℕ
  pub timeout_ms : ℕ

pub data Tried (A : Type 0) : Type 0 where
  value : A → Tried A
  raises : PyError → Tried A

-- The document of a request, as the keys at its top and its canonical JSON, whose construction may
-- raise as well.
pub data Built : Type 0 where
  build_error : Built
  built : List Text → Option Text → Built

-- What `_send_with_wall_clock_timeout` comes to.
pub data Sent : Type 0 where
  body : Text → Sent
  timed_out : Option ProviderUsage → Sent
  send_error : Sent

-- A provider: the methods of its adapter, its transport, the digest, and the JSON and schema checks
-- of an output.
pub record PredictionProvider (E O : Type 0) : Type 0 where
  pub provider_name : ProviderName
  pub variant : ProviderVariant
  pub is_approved_transport : Bool
  pub prompt_template_hash : Text
  pub build_request_document : PredictionContext → Built
  pub fallback_body : PredictionContext → Text
  pub sha256 : Text → Text
  pub send : ProviderInvocation → E → Sent × E
  pub parse_response_metadata : Text → Tried ProviderResponseMetadata
  pub parse_response : Text → ProviderResponseMetadata → Tried ParsedProviderResponse
  pub validated_output : Text → PredictionContext → Text → Tried O

-- What a call changes: the state outside and the budget.
pub record Call (E S : Type 0) : Type 0 where
  pub outside : E
  pub budget : S

pub data Ended (E S A : Type 0) : Type 0 where
  raised : PyError → Call E S → Ended E S A
  returned : A → Call E S → Ended E S A

abbrev pub is_forbidden : Text → Bool
is_forbidden key =
    text_eq key (codes "tools")
    || (text_eq key (codes "tool_choice")
        || (text_eq key (codes "web_search")
            || (text_eq key (codes "google_search") || text_eq key (codes "grounding"))))

-- _contains_forbidden_request_capability
unfoldable pub has_forbidden_key : List Text → Bool
has_forbidden_key [] = false
has_forbidden_key (key ∷ keys) = is_forbidden (lower key) || has_forbidden_key keys

-- What is known of an attempt besides its end.
pub record Facts : Type 0 where
  pub request_hash : Text
  pub response_hash : Option Text
  pub metadata : Option ProviderResponseMetadata
  pub usage : Option ProviderUsage
  pub cost : ℕ

abbrev pub no_response : Text → Option ProviderUsage → ℕ → Facts
no_response request_hash usage cost = record {
  request_hash = request_hash;
  response_hash = none;
  metadata = none;
  usage = usage;
  cost = cost;
}

-- _version_failure
unfoldable pub version_failure : ProviderVariant → Text → Option FailureCode
version_failure v resolved = elim v.version_policy [
  | immutable_model_id ↦ if text_eq resolved v.requested_model_id then none else some alias_drift
  | _ ↦
      if text_eq resolved v.requested_model_id
      then some version_unverified
      else if not (text_eq resolved v.pinned_model_version)
      then some alias_drift
      else none
]

-- The failure for an exception of the output's checks; none if it is not caught.
unfoldable pub output_failure : PyError → Option FailureCode
output_failure non_finite_json = some non_finite_probability
output_failure json_decode_error = some invalid_json
output_failure key_error = some invalid_output
output_failure type_error = some invalid_output
output_failure value_error = some invalid_output
output_failure other_error = none
output_failure (contract_error message) =
    if contains (codes "probability mass must sum to one") message
    then some invalid_probability_sum
    else if contains (codes "finite") message
    then some non_finite_probability
    else some invalid_output

-- except (KeyError, TypeError, ValueError), which the others but one are
abbrev pub is_caught : PyError → Bool
is_caught other_error = false
is_caught _ = true

-- The usage is beyond the configured limits.
abbrev pub is_excessive : ProviderVariant → ProviderUsage → Bool
is_excessive v u = ltb v.max_input_tokens u.input_tokens || ltb v.max_output_tokens u.output_tokens

-- The cost of a call that timed out.
abbrev pub timeout_cost : ProviderVariant → Option ProviderUsage → ℕ
timeout_cost v none = maximum_call_cost v
timeout_cost v (some u) = cost_of v u
