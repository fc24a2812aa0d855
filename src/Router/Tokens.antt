-- ===== src/Router/Tokens.antt =====
-- The tokens that a call may spend (packages/llm-gateway/src/llm-router.ts,
-- packages/llm-gateway/src/execution-budget-ledger.ts).
use vega_revenue_os.Prelude.{
  ℕ, ◌+◌, ◌≤◌, ◌≡◌, refl, ap, ◌∙◌, sym, subst, Bool, true, false, Option, none, some, List, [], ◌∷◌,
  ◌++◌, arith, Bool-cases, Option-cases, inl, inr,
}
use vega_revenue_os.Ledger.Charges.{Charge, Ledger, try_reserve, retain, find}
use vega_revenue_os.Ledger.Totals.{bucket}
use vega_revenue_os.Ledger.Tokens.{
  spent, commit_within, release_within, reserve_within, refused_same,
}
use vega_revenue_os.Router.Catalog.{Model, Ranking, ranked, ambiguous, rank_candidates}
use vega_revenue_os.Router.Deps.{
  blocked_event, commit_attempt, cost_of, emit_attempt, estimate_for, failure_event, query_of,
  request_for, reserve_attempt, reserve_in, settle_failure, success_event,
}
use vega_revenue_os.Router.World.{
  Provider, ProviderAnswer, ProviderError, Request, RouterDeps, RouterWorld, Usage, UsageEvent,
  answered, crashed, failed,
}
use vega_revenue_os.Router.Invoke.{
  Next-cases, on_answer, call_provider, attempt_with, attempt_by, attempt, attempt_all,
  attempt_ranked, slice, invoke,
}

module _ {D : Type 0} (deps : RouterDeps D) (request : Request D) where
  -- What the ledger has of the request's execution, without one nothing.
  abbrev spent_option : Option (Ledger D) → ℕ
  spent_option none = 0
  spent_option (some l) = spent deps.prices.money request.execution_id l

  abbrev pub spent_tokens : RouterWorld D → ℕ
  spent_tokens w = spent_option w.ledger

  -- What an answer reports is no more than the estimate that was reserved for it.
  abbrev pub IsModest : Model D → ProviderAnswer D → Type 0
  IsModest m (answered r) = r.usage.total_tokens ≤ (estimate_for deps request m).tokens
  IsModest m (failed e) =
      (u : Usage) → e.usage ≡ some u → u.total_tokens ≤ (estimate_for deps request m).tokens
  IsModest m crashed = Unit

  -- The attempt's reservation is in the ledger.
  abbrev IsReserved : ℕ → Model D → Option (Ledger D) → Type 0
  IsReserved i m none = Unit
  IsReserved i m (some l) =
      find (deps.attempt_key i) (bucket request.execution_id l) ≡ some (estimate_for deps request m)

  emit-ledger :
      (e : UsageEvent D) (w : RouterWorld D) → (emit_attempt deps request e w).0.ledger ≡ w.ledger
  unfolding emit_attempt
  emit-ledger e w = ground arith

  commit-spent :
      (i : ℕ) (m : Model D) (c : Charge D) (o : Option (Ledger D))
      → IsReserved i m o
      → c.tokens ≤ (estimate_for deps request m).tokens
      → spent_option (commit_attempt deps request i c o) ≤ spent_option o
  unfolding commit_attempt
  commit-spent i m c none r h = omega arith
  commit-spent i m c (some l) r h =
      commit_within deps.prices.money request.execution_id (deps.attempt_key i) c
        (estimate_for deps request m) l r h

  settle-spent :
      (i : ℕ) (m : Model D) (e : ProviderError) (o : Option (Ledger D))
      → IsReserved i m o
      → IsModest m (failed e)
      → spent_option (settle_failure deps request i m e o) ≤ spent_option o
  unfolding settle_failure retain
  settle-spent i m e none r h = omega arith
  settle-spent i m e (some l) r h = elim (Bool-cases e.submitted) [
    | inl s ↦ elim (Option-cases e.usage) [
      | inl n ↦ ground arith
      | inr (u, n) ↦
          let c : Charge D = record {
            cost_usd = cost_of deps request m u;
            tokens = u.total_tokens;
          } in
          let less =
            commit_within deps.prices.money request.execution_id (deps.attempt_key i) c
              (estimate_for deps request m) l r (h u n) in
          ground arith
    ]
    | inr s ↦
        let less = release_within deps.prices.money request.execution_id (deps.attempt_key i) l in
        ground arith
  ]

  on_answer-spent :
      (i : ℕ) (m : Model D) (a : ProviderAnswer D) (w : RouterWorld D)
      → IsReserved i m w.ledger
      → IsModest m a
      → spent_option (on_answer deps request i m a w).0.ledger ≤ spent_option w.ledger
  on_answer-spent i m (answered x) w r h =
      let c : Charge D = record { cost_usd = x.cost_usd; tokens = x.usage.total_tokens } in
      let less = commit-spent i m c w.ledger r h in
      let same = ap spent_option (
        emit-ledger (success_event deps request i m x)
          (record w { ledger = commit_attempt deps request i c w.ledger })) in
      omega (arith, less, same)
  on_answer-spent i m (failed e) w r h =
      let less = settle-spent i m e w.ledger r h in
      let same = ap spent_option (
        emit-ledger (failure_event deps request i m e)
          (record w { ledger = settle_failure deps request i m e w.ledger })) in
      omega (arith, less, same)
  on_answer-spent i m crashed w r h = omega arith

  module _ (budget : Charge D) (set : request.budget ≡ some budget) where
    abbrev Fits : ℕ → Model D → Option (Ledger D) × Bool → Type 0
    Fits i m r = (spent_option r.0 ≤ budget.tokens) × (r.1 ≡ true → IsReserved i m r.0)

    asked-Fits :
        (i : ℕ) (m : Model D) (l : Ledger D) (r : Ledger D × Bool)
        → r
          ≡ try_reserve deps.prices.money request.execution_id
              (deps.attempt_key i)
              (estimate_for deps request m)
              budget
              l
        → spent_option (some l) ≤ budget.tokens
        → Fits i m (some r.0, r.1)
    asked-Fits i m l (l', true) e h =
        let (fits, kept) =
          reserve_within deps.prices.money request.execution_id (deps.attempt_key i)
            (estimate_for deps request m) budget l (sym (ap (λ r. r.1) e)) in
        let same = ap (λ r. spent deps.prices.money request.execution_id r.0) e in
        (
          omega (arith, fits, same),
          λ t. ap (λ r. find (deps.attempt_key i) (bucket request.execution_id r.0)) e ∙ kept,
        )
    asked-Fits i m l (l', false) e h =
        let same =
          ap (λ r. r.0) e
          ∙ refused_same deps.prices.money request.execution_id (deps.attempt_key i)
              (estimate_for deps request m) budget l (sym (ap (λ r. r.1) e)) in
        let spent_same = ap (spent deps.prices.money request.execution_id) same in
        (omega (arith, spent_same, h), λ t. absurd (ground arith))

    -- A reservation that is accepted fits the budget, and one that is refused changes nothing.
    reserve-Fits :
        (i : ℕ) (m : Model D) (o : Option (Ledger D))
        → spent_option o ≤ budget.tokens
        → Fits i m (reserve_attempt deps request i m o)
    unfolding reserve_attempt
    reserve-Fits i m none h = (omega (arith, h), λ t. tt)
    reserve-Fits i m (some l) h =
        let asked =
          try_reserve deps.prices.money request.execution_id (deps.attempt_key i)
            (estimate_for deps request m) budget l in
        subst (λ o. Fits i m (reserve_in deps request i m l o)) (sym set)
          (asked-Fits i m l asked refl h)

    call_provider-spent :
        (p : Provider D) (i : ℕ) (m : Model D) (w : RouterWorld D)
        → IsReserved i m w.ledger
        → IsModest m (p.invoke i (request_for deps request m))
        → spent_option (call_provider deps request p i m w).0.ledger ≤ spent_option w.ledger
    unfolding call_provider
    call_provider-spent p i m w r h =
        on_answer-spent i m (p.invoke i (request_for deps request m))
          (record w { calls = w.calls ++ (i, m) ∷ [] }) r h

    attempt_with-spent :
        (p : Provider D) (i : ℕ) (m : Model D) (w : RouterWorld D)
        → IsModest m (p.invoke i (request_for deps request m))
        → spent_option w.ledger ≤ budget.tokens
        → spent_option (attempt_with deps request p i m w).0.ledger ≤ budget.tokens
    unfolding attempt_with
    attempt_with-spent p i m w modest h =
        let (fits, kept) = reserve-Fits i m w.ledger h in
        let w' : RouterWorld D = record w {
          ledger = (reserve_attempt deps request i m w.ledger).0;
        } in
        let told = ap spent_option (emit-ledger (blocked_event deps request i m) w') in
        elim (Bool-cases (reserve_attempt deps request i m w.ledger).1) [
          | inl t ↦ let called = call_provider-spent p i m w' (kept t) modest in ground arith
          | inr f ↦ ground arith
        ]

    module _
        (modest : (id i : ℕ) (m : Model D) (p : Provider D)
          → deps.registry id ≡ some p
          → IsModest m (p.invoke i (request_for deps request m))) where
      attempt_by-spent :
          (o : Option (Provider D)) (i : ℕ) (m : Model D) (w : RouterWorld D)
          → deps.registry m.provider_id ≡ o
          → spent_option w.ledger ≤ budget.tokens
          → spent_option (attempt_by deps request o i m w).0.ledger ≤ budget.tokens
      attempt_by-spent none i m w e h = h
      attempt_by-spent (some p) i m w e h =
          attempt_with-spent p i m w (modest m.provider_id i m p e) h

      attempt_all-spent :
          (i : ℕ) (ms : List (Model D)) (errors : List ProviderError) (w : RouterWorld D)
          → spent_option w.ledger ≤ budget.tokens
          → spent_option (attempt_all deps request i ms errors w).0.ledger ≤ budget.tokens
      unfolding attempt_all attempt
      attempt_all-spent i [] errors w h = h
      attempt_all-spent i (m ∷ ms) errors w h =
          let w' = (attempt deps request (i + 1) m w).0 in
          let step = attempt_by-spent (deps.registry m.provider_id) (i + 1) m w refl h in
          elim (Next-cases (attempt deps request (i + 1) m w).1) [
            | inl (e, n) ↦ ground arith
            | inr (inl (e, n)) ↦
                let ih = attempt_all-spent (i + 1) ms (errors ++ e ∷ []) w' step in ground arith
            | inr (inr n) ↦ ground arith
          ]

      attempt_ranked-spent :
          (r : Ranking D) (w : RouterWorld D)
          → spent_option w.ledger ≤ budget.tokens
          → spent_option (attempt_ranked deps request r w).0.ledger ≤ budget.tokens
      attempt_ranked-spent (ambiguous names) w h = h
      attempt_ranked-spent (ranked []) w h = h
      attempt_ranked-spent (ranked (m ∷ ms)) w h =
          attempt_all-spent 0 (slice deps.max_attempts (m ∷ ms)) [] w h

      -- Where the request has a budget and no provider reports more tokens than the estimate of the
      -- attempt, a call leaves the tokens charged to its execution within the budget if they were so
      -- before, whatever fails and however it ends.
      pub invoke-in_budget :
          (w : RouterWorld D)
          → spent_tokens w ≤ budget.tokens
          → spent_tokens (invoke deps request w).0 ≤ budget.tokens
      unfolding invoke
      invoke-in_budget w h =
          attempt_ranked-spent
            (rank_candidates deps.prices deps.locale_before (query_of deps request)
              (deps.models (query_of deps request)))
            w h
