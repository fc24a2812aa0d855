-- ===== src/Router/World.antt =====
-- What `invoke` works with (packages/llm-gateway/src/llm-router.ts), over the ledger of Ledger. The catalog, the
-- registry, the providers and the listener of usage events are what a call is given.
use vega_revenue_os.Prelude.{ℕ, String, Bool, Option, List}
use vega_revenue_os.Ledger.Charges.{Charge, Ledger}
use vega_revenue_os.Router.Catalog.{Prices, Model, Query, LatencyClass}

-- The request, as far as the router reads it.
pub record Request (D : Type 0) : Type 0 where
  pub execution_id : ℕ
  pub capability : String
  pub model_id : Option String
  pub model_family : Option String
  pub structured_output : Bool
  pub max_tokens : ℕ
  pub latency_class : Option LatencyClass
  pub cost_per_input_token_usd : Option D
  pub cost_per_output_token_usd : Option D
  pub budget : Option (Charge D)

pub record Usage : Type 0 where
  pub input_tokens : ℕ
  pub output_tokens : ℕ
  pub total_tokens : ℕ

-- `LLMProviderResult`, of which the router reads what it charges and reports.
pub record ProviderResult (D : Type 0) : Type 0 where
  pub content : String
  pub usage : Usage
  pub cost_usd : D

pub data ErrorCode : Type 0 where
  provider_not_registered budget_exhausted all_providers_failed unexpected : ErrorCode
  provider_code : String → ErrorCode

-- `LLMProviderError`; none is the provider `router`.
pub record ProviderError : Type 0 where
  pub provider_id : Option ℕ
  pub code : ErrorCode
  pub retryable : Bool
  pub submitted : Bool
  pub usage : Option Usage

-- What a provider does with a request; `crashed` is an exception of another class.
pub data ProviderAnswer (D : Type 0) : Type 0 where
  answered : ProviderResult D → ProviderAnswer D
  failed : ProviderError → ProviderAnswer D
  crashed : ProviderAnswer D

pub record Provider (D : Type 0) : Type 0 where
  -- `checkReadiness` does not throw.
  pub is_ready : Bool
  pub invoke : ℕ → Request D → ProviderAnswer D

pub data AttemptStatus : Type 0 where
  success failed_attempt blocked_budget : AttemptStatus

-- `LLMUsageEvent`, without the identities that are copied from the request and the times.
pub record UsageEvent (D : Type 0) : Type 0 where
  pub attempt : ℕ
  pub model : Model D
  pub status : AttemptStatus
  pub submitted : Bool
  pub usage_known : Bool
  pub failure : Option ErrorCode
  pub retryable : Option Bool
  pub usage : Option Usage
  pub cost_usd : Option D
  pub estimated_cost_usd : Option D

-- What one call is given. `attempt_key` is the text of the call's id and the attempt's index.
pub record RouterDeps (D : Type 0) : Type 0 where
  pub prices : Prices D
  pub locale_before : String → String → Bool
  pub models : Query D → List (Model D)
  pub registry : ℕ → Option (Provider D)
  -- The listener, if there is one, and whether it returns without an exception.
  pub listener : Option (UsageEvent D → Bool)
  pub default_capability : Option String
  pub max_attempts : Option ℕ
  pub attempt_key : ℕ → ℕ

-- The ledger, if the router has one, the requests that providers were given, with their attempts and
-- models, and the events that the listener was given.
pub record RouterWorld (D : Type 0) : Type 0 where
  pub ledger : Option (Ledger D)
  pub calls : List (ℕ × Model D)
  pub events : List (UsageEvent D)

-- How `invoke` ends; `raised` is an exception of a provider's `checkReadiness` or of the listener,
-- which is passed on.
pub data RouterEnd (D : Type 0) : Type 0 where
  result : ProviderResult D → RouterEnd D
  provider_error : ProviderError → RouterEnd D
  no_eligible_model : RouterEnd D
  ambiguous_routing : List String → RouterEnd D
  raised : RouterEnd D
