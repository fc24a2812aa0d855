-- ===== src/Router/Tests.antt =====
-- Concrete calls of the router (packages/llm-gateway/src/llm-router.ts), and what the theorems state
-- of them.
use vega_revenue_os.Prelude.{
  ℕ, ◌*◌, ◌≤◌, ◌≡◌, refl, String, true, false, none, some, List, [], ◌∷◌, ◌++◌, ◌==◌, arith,
  if-cases, subst, if◌then◌else◌,
}
use mathlib.Core.Option.{some-injective}
use vega_revenue_os.Ledger.Charges.{Charge, get_accumulated}
use vega_revenue_os.Outreach.Tests.{cents}
use vega_revenue_os.Router.Catalog.{
  Prices, Model, Query, Lifecycle, LatencyClass, ranked, rank_candidates,
}
use vega_revenue_os.Router.Deps.{query_of, request_for}
use vega_revenue_os.Router.World.{
  ErrorCode, Provider, ProviderAnswer, Request, RouterDeps, RouterWorld,
}
use vega_revenue_os.Router.Invoke.{invoke}
use vega_revenue_os.Router.Tokens.{invoke-in_budget, spent_tokens, IsModest}
use vega_revenue_os.Router.Ranking.{rank_candidates-IsRanking, IsRanking, IsPriced}
use vega_revenue_os.Router.Fallback.{invoke-Fallback, Fallback}

abbrev prices : Prices ℕ
prices = record { money = cents; times = λ a n. a * n; same = λ a b. a == b }

abbrev model : String → ℕ → ℕ → Lifecycle → Model ℕ
model id provider priority lifecycle = record {
  model_id = id;
  provider_id = provider;
  family = none;
  capabilities = "chat" ∷ [];
  max_context_tokens = 8000;
  cost_per_input_token_usd = 1;
  cost_per_output_token_usd = 2;
  supports_structured_output = true;
  latency_class = LatencyClass.background;
  lifecycle = lifecycle;
  priority = priority;
}

abbrev models : List (Model ℕ)
models =
    model "b" 2 20 Lifecycle.active
    ∷ model "c" 3 5 Lifecycle.retired
    ∷ model "a" 1 10 Lifecycle.active
    ∷ []

abbrev best_first : List (Model ℕ)
best_first = model "a" 1 10 Lifecycle.active ∷ model "b" 2 20 Lifecycle.active ∷ []

abbrev budget : Charge ℕ
budget = record { cost_usd = 5000; tokens = 1500 }

abbrev request : Request ℕ
request = record {
  execution_id = 6;
  capability = "chat";
  model_id = none;
  model_family = none;
  structured_output = false;
  max_tokens = 1000;
  latency_class = none;
  cost_per_input_token_usd = none;
  cost_per_output_token_usd = none;
  budget = some budget;
}

abbrev timed_out : ProviderAnswer ℕ
timed_out = ProviderAnswer.failed (record {
  provider_id = some 1;
  code = ErrorCode.provider_code "TIMEOUT";
  retryable = true;
  submitted = false;
  usage = none;
})

abbrev hello : ProviderAnswer ℕ
hello = ProviderAnswer.answered (record {
  content = "Hello";
  usage = record { input_tokens = 100; output_tokens = 200; total_tokens = 300 };
  cost_usd = 500;
})

-- The first attempt fails before it is submitted, the others are answered.
abbrev answer : ℕ → ProviderAnswer ℕ
answer i = if i == 1 then timed_out else hello

abbrev provider : Provider ℕ
provider = record { is_ready = true; invoke = λ i r. answer i }

abbrev deps : RouterDeps ℕ
deps = record {
  prices = prices;
  locale_before = λ a b. true;
  models = λ q. models;
  registry = λ id. some provider;
  listener = some (λ e. true);
  default_capability = none;
  max_attempts = none;
  attempt_key = λ i. i;
}

abbrev world : RouterWorld ℕ
world = record { ledger = some []; calls = []; events = [] }

abbrev query : Query ℕ
query = query_of deps request

models_ranked : rank_candidates prices (λ a b. true) query models ≡ ranked best_first
unfolding rank_candidates query_of
models_ranked = refl

-- The second model is called after the failure of the first, and its tokens are charged.
invoke_charges : spent_tokens deps request (invoke deps request world).0 ≡ 300
unfolding invoke
invoke_charges = refl

prices-IsPriced : IsPriced prices (λ a b. true) (λ a. a)
prices-IsPriced = record { above = λ a b. refl; same = λ a b. refl }

rank_candidates-IsRanking_example : IsRanking prices (λ a b. true) (λ a. a) query models best_first
rank_candidates-IsRanking_example =
    rank_candidates-IsRanking prices (λ a b. true) (λ a. a) prices-IsPriced query models best_first
      models_ranked

answer-IsModest : (i : ℕ) (m : Model ℕ) → IsModest deps request m (answer i)
answer-IsModest i m =
    if-cases (IsModest deps request m) (i == 1) (λ f u e. absurd (ground arith)) (λ f. ground arith)

registry-IsModest :
    (id i : ℕ) (m : Model ℕ) (p : Provider ℕ)
    → deps.registry id ≡ some p
    → IsModest deps request m (p.invoke i (request_for deps request m))
registry-IsModest id i m p e =
    subst (λ p. IsModest deps request m (p.invoke i (request_for deps request m)))
      (some-injective provider p e) (answer-IsModest i m)

invoke-in_budget_example : spent_tokens deps request (invoke deps request world).0 ≤ 1500
unfolding get_accumulated
invoke-in_budget_example =
    invoke-in_budget deps request budget refl registry-IsModest world (omega arith)

invoke-Fallback_example :
    (cs : List (ℕ × Model ℕ)) × ((invoke deps request world).0.calls ≡ [] ++ cs)
    × Fallback deps request 0 best_first cs
invoke-Fallback_example = invoke-Fallback deps request best_first world models_ranked
