-- ===== src/Provider.antt =====
-- `PredictionProvider.predict` of backend/src/vlytics/engine/providers/base.py, with the variants, the
-- results and the process-local budget of engine/providers/models.py. Prices are in some unit and
-- costs in millionths of it, so that nothing is divided.
mod Call
mod Predict
mod Settles
mod Billed
mod Charged
mod Ledger
mod Tests
use vlytics.Prelude.{
  ℕ, Bool, true, false, not, ◌&&◌, ◌||◌, Option, none, some, List, [], ◌∷◌, ◌++◌, Text, text_eq,
  codes, ◌+◌, ◌-◌, ◌*◌, ltb, leb, ◌==◌, if◌then◌else◌, contains, is_some, ◌≡◌, ◌≢◌, ◌≤◌,
}

pub data ProviderName : Type 0 where
  openai anthropic google : ProviderName

pub data VersionPolicy : Type 0 where
  unconfigured immutable_model_id verify_resolved_model_id : VersionPolicy

pub data AttemptStatus : Type 0 where
  succeeded failed skipped : AttemptStatus

pub data FailureCode : Type 0 where
  config_unresolved input_policy_violation input_too_large budget_skipped refusal : FailureCode
  timeout invalid_json non_finite_probability invalid_probability_sum invalid_output : FailureCode
  alias_drift version_unverified provider_error : FailureCode

pub record ProviderVariant : Type 0 where
  pub variant_id : Text
  pub provider : ProviderName
  pub requested_model_id : Text
  pub pinned_model_version : Text
  pub version_policy : VersionPolicy
  pub prompt_version : Text
  pub prompt_hash : Text
  pub max_input_tokens : ℕ
  pub max_output_tokens : ℕ
  pub input_cost_per_million : ℕ
  pub output_cost_per_million : ℕ
  pub enabled : Bool
  pub op003_resolved : Bool

abbrev pub is_operational : ProviderVariant → Bool
is_operational v =
    v.enabled
    && (v.op003_resolved
        && not (contains (codes "__UNRESOLVED") (v.requested_model_id ++ v.pinned_model_version)))

pub record ProviderUsage : Type 0 where
  pub input_tokens : ℕ
  pub output_tokens : ℕ

abbrev pub maximum_call_cost : ProviderVariant → ℕ
maximum_call_cost v =
    v.max_input_tokens * v.input_cost_per_million + v.max_output_tokens * v.output_cost_per_million

-- _cost
abbrev pub cost_of : ProviderVariant → ProviderUsage → ℕ
cost_of v u =
    u.input_tokens * v.input_cost_per_million + u.output_tokens * v.output_cost_per_million

pub record ProviderResponseMetadata : Type 0 where
  pub request_id : Text
  pub resolved_model_id : Text
  pub usage : ProviderUsage

pub record ParsedProviderResponse : Type 0 where
  pub output_text : Option Text
  pub refusal_reason : Option Text

-- An attempt; `O` are the outputs. Its latency and its detail are left out.
pub record PredictionAttemptResult (O : Type 0) : Type 0 where
  pub provider : ProviderName
  pub variant_id : Text
  pub status : AttemptStatus
  pub failure_code : Option FailureCode
  pub snapshot_sha256 : Text
  pub requested_model_id : Text
  pub pinned_model_version : Text
  pub version_policy : VersionPolicy
  pub prompt_version : Text
  pub prompt_hash : Text
  pub request_hash : Text
  pub response_hash : Option Text
  pub resolved_model_id : Option Text
  pub request_id : Option Text
  pub usage : Option ProviderUsage
  pub cost : ℕ
  pub output : Option O

-- What `__post_init__` of a result asks for, of the parts that the model has.
abbrev pub is_consistent : {O : Type 0} → PredictionAttemptResult O → Bool
is_consistent r = elim r.status [
  | succeeded ↦ not (is_some r.failure_code) && is_some r.output
  | failed ↦ is_some r.failure_code && not (is_some r.output)
  | skipped ↦ is_some r.failure_code && not (is_some r.output)
]

-- The exceptions that `predict` tells apart; `contract_error` has its message.
pub data PyError : Type 0 where
  non_finite_json json_decode_error key_error type_error value_error other_error : PyError
  contract_error : Text → PyError

-- What a reservation comes to.
pub data Reserved : Type 0 where
  granted denied reserve_error : Reserved

-- BudgetAccount; a settlement or a release returns or raises.
pub record BudgetAccount (S : Type 0) : Type 0 where
  pub reserve : ℕ → S → Reserved × S
  pub settle : ℕ → ℕ → S → Bool × S
  pub release : ℕ → S → Bool × S

-- What such an account promises: amounts that are held until they are settled.
pub record IsAccount {S : Type 0} (b : BudgetAccount S) (spent held : S → ℕ) : Type 0 where
  pub grants :
      (amount : ℕ) (s : S)
      → (b.reserve amount s).0 ≡ granted
      → (spent (b.reserve amount s).1 ≡ spent s) × (held (b.reserve amount s).1 ≡ held s + amount)
  pub denies :
      (amount : ℕ) (s : S)
      → (b.reserve amount s).0 ≢ granted
      → (spent (b.reserve amount s).1 ≡ spent s) × (held (b.reserve amount s).1 ≡ held s)
  pub settles :
      (reserved actual : ℕ) (s : S)
      → reserved ≤ held s
      → ((b.settle reserved actual s).0 ≡ true)
        × (spent (b.settle reserved actual s).1 ≡ spent s + actual)
        × (held (b.settle reserved actual s).1 + reserved ≡ held s)
  pub releases :
      (reserved : ℕ) (s : S)
      → reserved ≤ held s
      → ((b.release reserved s).0 ≡ true)
        × (spent (b.release reserved s).1 ≡ spent s)
        × (held (b.release reserved s).1 + reserved ≡ held s)

-- BudgetLedger
pub record BudgetLedger : Type 0 where
  pub cap : ℕ
  pub spent : ℕ
  pub reserved : ℕ

unfoldable pub reserve : ℕ → BudgetLedger → Reserved × BudgetLedger
reserve amount l =
    if ltb l.cap (l.spent + l.reserved + amount)
    then (denied, l)
    else (granted, record l { reserved = l.reserved + amount })

unfoldable pub settle : ℕ → ℕ → BudgetLedger → Bool × BudgetLedger
settle reserved actual l =
    if ltb l.reserved reserved
    then (false, l)
    else (true, record l { reserved = l.reserved - reserved; spent = l.spent + actual })

unfoldable pub release : ℕ → BudgetLedger → Bool × BudgetLedger
release reserved l =
    if ltb l.reserved reserved
    then (false, l)
    else (true, record l { reserved = l.reserved - reserved })
