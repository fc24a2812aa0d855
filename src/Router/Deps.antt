-- ===== src/Router/Deps.antt =====
-- The reservations of a call, its usage events and its requests (packages/llm-gateway/src/llm-router.ts).
use vega_revenue_os.Prelude.{
  ℕ, String, Bool, true, false, not, ◌&&◌, ◌||◌, Option, none, some, [], ◌∷◌, ◌++◌, is_empty, ltb,
  if◌then◌else◌,
}
use vega_revenue_os.Ledger.Charges.{Charge, Ledger, try_reserve, commit_actual, release, retain}
use vega_revenue_os.Router.Catalog.{Model, Query, background}
use vega_revenue_os.Router.World.{
  ErrorCode, ProviderError, ProviderResult, Request, RouterDeps, RouterWorld, Usage, UsageEvent,
  blocked_budget, budget_exhausted, failed_attempt, success,
}

-- `PER_CALL_TOKEN_ESTIMATE`.
abbrev per_call_token_estimate : ℕ
per_call_token_estimate = 1024

abbrev or_else : {A : Type 0} → Option A → A → A
or_else none b = b
or_else (some a) b = a

abbrev pub router_error : ErrorCode → Bool → ProviderError
router_error code retryable = record {
  provider_id = none;
  code = code;
  retryable = retryable;
  submitted = false;
  usage = none;
}

module _ {D : Type 0} (deps : RouterDeps D) (request : Request D) where
  -- `request.capability || defaultCapability || 'chat'`.
  abbrev capability_of : String
  capability_of =
      if not (is_empty request.capability)
      then request.capability
      else elim deps.default_capability [
        | none ↦ "chat"
        | some text ↦ if is_empty text then "chat" else text
      ]

  unfoldable pub query_of : Query D
  query_of = record {
    capability = capability_of;
    max_tokens = request.max_tokens;
    structured_output_required = request.structured_output;
    budget = request.budget;
    latency_class = or_else request.latency_class background;
    model_family = request.model_family;
    model_id = request.model_id;
  }

  -- `providerRequest`.
  abbrev pub request_for : Model D → Request D
  request_for m = record request {
    model_id = some (or_else request.model_id m.model_id);
    cost_per_input_token_usd =
        some (or_else request.cost_per_input_token_usd m.cost_per_input_token_usd);
    cost_per_output_token_usd =
        some (or_else request.cost_per_output_token_usd m.cost_per_output_token_usd);
  }

  abbrev min : ℕ → ℕ → ℕ
  min a b = if ltb a b then a else b

  -- `estimate`.
  abbrev pub estimate_for : Model D → Charge D
  estimate_for m = record {
    cost_usd =
        deps.prices.times (or_else request.cost_per_output_token_usd m.cost_per_output_token_usd)
          request.max_tokens;
    tokens = min request.max_tokens per_call_token_estimate;
  }

  abbrev pub cost_of : Model D → Usage → D
  cost_of m u =
      deps.prices.money.plus
        (deps.prices.times (or_else request.cost_per_input_token_usd m.cost_per_input_token_usd)
          u.input_tokens)
        (deps.prices.times (or_else request.cost_per_output_token_usd m.cost_per_output_token_usd)
          u.output_tokens)

  abbrev pub reserve_in : ℕ → Model D → Ledger D → Option (Charge D) → Option (Ledger D) × Bool
  reserve_in i m l none = (some l, true)
  reserve_in i m l (some budget) =
      let asked =
        try_reserve deps.prices.money request.execution_id (deps.attempt_key i) (estimate_for m)
          budget l in
      (some asked.0, asked.1)

  -- `if (this.budgetLedger && request.budget) tryReserve(…)`.
  unfoldable pub reserve_attempt : ℕ → Model D → Option (Ledger D) → Option (Ledger D) × Bool
  unfolding try_reserve
  reserve_attempt i m none = (none, true)
  reserve_attempt i m (some l) = reserve_in i m l request.budget

  -- `this.budgetLedger?.commitActual(…)`.
  unfoldable pub commit_attempt : ℕ → Charge D → Option (Ledger D) → Option (Ledger D)
  unfolding commit_actual
  commit_attempt i charge none = none
  commit_attempt i charge (some l) =
      some (commit_actual deps.prices.money request.execution_id (deps.attempt_key i) charge l)

  -- The ledger after an `LLMProviderError`.
  unfoldable pub settle_failure :
      ℕ → Model D → ProviderError → Option (Ledger D) → Option (Ledger D)
  unfolding commit_actual release retain
  settle_failure i m e none = none
  settle_failure i m e (some l) =
      let key = deps.attempt_key i in
      some (
        if not e.submitted
        then release deps.prices.money request.execution_id key l
        else elim e.usage [
          | some u ↦
              commit_actual deps.prices.money request.execution_id key
                (record { cost_usd = cost_of m u; tokens = u.total_tokens }) l
          | none ↦ retain deps.prices.money request.execution_id key l
        ])

  -- `emitAttempt`, and whether it returns.
  unfoldable pub emit_attempt : UsageEvent D → RouterWorld D → RouterWorld D × Bool
  emit_attempt e w = elim deps.listener [
    | none ↦ (w, true)
    | some listen ↦ (record w { events = w.events ++ e ∷ [] }, listen e)
  ]

  abbrev pub blocked_event : ℕ → Model D → UsageEvent D
  blocked_event i m = record {
    attempt = i;
    model = m;
    status = blocked_budget;
    submitted = false;
    usage_known = true;
    failure = some budget_exhausted;
    retryable = some false;
    usage = none;
    cost_usd = none;
    estimated_cost_usd = some (estimate_for m).cost_usd;
  }

  abbrev pub success_event : ℕ → Model D → ProviderResult D → UsageEvent D
  success_event i m r = record {
    attempt = i;
    model = m;
    status = success;
    submitted = true;
    usage_known = true;
    failure = none;
    retryable = none;
    usage = some r.usage;
    cost_usd = some r.cost_usd;
    estimated_cost_usd = none;
  }

  abbrev is_known : {A : Type 0} → Option A → Bool
  is_known none = false
  is_known (some a) = true

  abbrev pub failure_event : ℕ → Model D → ProviderError → UsageEvent D
  failure_event i m e = record {
    attempt = i;
    model = m;
    status = failed_attempt;
    submitted = e.submitted;
    usage_known = not e.submitted || is_known e.usage;
    failure = some e.code;
    retryable = some e.retryable;
    usage = e.usage;
    cost_usd = elim e.usage [ none ↦ none | some u ↦ some (cost_of m u) ];
    estimated_cost_usd =
        if e.submitted && not (is_known e.usage) then some (estimate_for m).cost_usd else none;
  }
