-- ===== src/Router/Invoke.antt =====
-- `invoke` (packages/llm-gateway/src/llm-router.ts).
use vega_revenue_os.Prelude.{
  ◌≡◌, refl, ◌⊎◌, inl, inr, ℕ, zero, suc, ◌+◌, false, not, Option, none, some, List, [], ◌∷◌, ◌++◌,
  any, if◌then◌else◌,
}
use vega_revenue_os.Ledger.Charges.{Charge}
use vega_revenue_os.Router.Catalog.{Model, Ranking, ranked, ambiguous, rank_candidates}
use vega_revenue_os.Router.Deps.{
  blocked_event, commit_attempt, emit_attempt, failure_event, query_of, request_for,
  reserve_attempt, router_error, settle_failure, success_event,
}
use vega_revenue_os.Router.World.{
  Provider, ProviderAnswer, ProviderError, Request, RouterDeps, RouterEnd, RouterWorld,
  all_providers_failed, ambiguous_routing, answered, budget_exhausted, crashed, failed,
  no_eligible_model, provider_error, provider_not_registered, raised, result, unexpected,
}

-- How an attempt goes on: the call ends, the next model is tried after an error, or the budget is
-- exhausted.
pub data Next (D : Type 0) : Type 0 where
  ends : RouterEnd D → Next D
  retry : ProviderError → Next D
  blocked : Next D

-- The three ways, with the equation.
pub Next-cases :
    {D : Type 0} (n : Next D)
    → ((e : RouterEnd D) × (n ≡ ends e)) ⊎ (((e : ProviderError) × (n ≡ retry e)) ⊎ (n ≡ blocked))
Next-cases (ends e) = inl (e, refl)
Next-cases (retry e) = inr (inl (e, refl))
Next-cases blocked = inr (inr refl)

-- `ordered.slice(0, n)`.
unfoldable pub take : {A : Type 0} → ℕ → List A → List A
take zero xs = []
take (suc n) [] = []
take (suc n) (x ∷ xs) = x ∷ take n xs

abbrev pub slice : {A : Type 0} → Option ℕ → List A → List A
slice none xs = xs
slice (some n) xs = take n xs

abbrev not_registered : ℕ → ProviderError
not_registered provider = record {
  provider_id = some provider;
  code = provider_not_registered;
  retryable = false;
  submitted = false;
  usage = none;
}

module _ {D : Type 0} (deps : RouterDeps D) (request : Request D) where
  -- The end of the `try`, and its `catch`. The listener stands in the `try` too: where it throws
  -- after a success, its exception is caught as an unexpected one.
  abbrev pub on_answer : ℕ → Model D → ProviderAnswer D → RouterWorld D → RouterWorld D × Next D
  on_answer i m (answered r) w =
      let charge : Charge D = record { cost_usd = r.cost_usd; tokens = r.usage.total_tokens } in
      let w' = record w { ledger = commit_attempt deps request i charge w.ledger } in
      let told = emit_attempt deps request (success_event deps request i m r) w' in
      (
        told.0,
        if told.1 then ends (result r) else ends (provider_error (router_error unexpected false)),
      )
  on_answer i m (failed e) w =
      let w' = record w { ledger = settle_failure deps request i m e w.ledger } in
      let told = emit_attempt deps request (failure_event deps request i m e) w' in
      (
        told.0,
        if not told.1
            then ends raised
            else if e.retryable
            then retry e
            else ends (provider_error e),
      )
  on_answer i m crashed w = (w, ends (provider_error (router_error unexpected false)))

  -- `provider.invoke(providerRequest)` and what follows.
  unfoldable pub call_provider : Provider D → ℕ → Model D → RouterWorld D → RouterWorld D × Next D
  unfolding commit_attempt settle_failure emit_attempt
  call_provider p i m w =
      on_answer i m (p.invoke i (request_for deps request m))
        (record w { calls = w.calls ++ (i, m) ∷ [] })

  -- The readiness, the reservation and the call.
  unfoldable pub attempt_with : Provider D → ℕ → Model D → RouterWorld D → RouterWorld D × Next D
  unfolding reserve_attempt emit_attempt call_provider
  attempt_with p i m w =
      let asked = reserve_attempt deps request i m w.ledger in
      let w' = record w { ledger = asked.0 } in
      let told = emit_attempt deps request (blocked_event deps request i m) w' in
      if not p.is_ready
      then (w, ends raised)
      else if asked.1
      then call_provider p i m w'
      else (told.0, if told.1 then blocked else ends raised)

  abbrev pub attempt_by : Option (Provider D) → ℕ → Model D → RouterWorld D → RouterWorld D × Next D
  attempt_by none i m w = (w, retry (not_registered m.provider_id))
  attempt_by (some p) i m w = attempt_with p i m w

  -- The body of the loop, for the attempt `i`.
  unfoldable pub attempt : ℕ → Model D → RouterWorld D → RouterWorld D × Next D
  unfolding attempt_with
  attempt i m w = attempt_by (deps.registry m.provider_id) i m w

  -- The loop, after `i` attempts.
  unfoldable pub attempt_all :
      ℕ → List (Model D) → List ProviderError → RouterWorld D → RouterWorld D × RouterEnd D
  unfolding attempt
  attempt_all i [] errors w =
      (w, provider_error (router_error all_providers_failed (any (λ e. e.retryable) errors)))
  attempt_all i (m ∷ ms) errors w =
      let tried = attempt (i + 1) m w in
      elim tried.1 [
        | ends e ↦ (tried.0, e)
        | retry e ↦ attempt_all (i + 1) ms (errors ++ e ∷ []) tried.0
        | blocked ↦ (tried.0, provider_error (router_error budget_exhausted false))
      ]

  abbrev pub attempt_ranked : Ranking D → RouterWorld D → RouterWorld D × RouterEnd D
  attempt_ranked (ambiguous names) w = (w, ambiguous_routing names)
  attempt_ranked (ranked []) w = (w, no_eligible_model)
  attempt_ranked (ranked (m ∷ ms)) w = attempt_all 0 (slice deps.max_attempts (m ∷ ms)) [] w

  -- `invoke`. A catalog with no model for the query is one whose ranking is empty.
  unfoldable pub invoke : RouterWorld D → RouterWorld D × RouterEnd D
  unfolding query_of rank_candidates take attempt_all
  invoke w =
      attempt_ranked
        (rank_candidates deps.prices deps.locale_before (query_of deps request)
          (deps.models (query_of deps request)))
        w
