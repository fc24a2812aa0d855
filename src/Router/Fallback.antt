-- ===== src/Router/Fallback.antt =====
-- Which providers a call of the router calls, and in which order
-- (packages/llm-gateway/src/llm-router.ts).
use vega_revenue_os.Prelude.{
  ℕ, ◌+◌, ◌≡◌, ◌⊎◌, refl, ap, sym, subst, ◌∙◌, Bool, true, false, not, Option, none, some, List, [],
  ◌∷◌, ◌++◌, arith, any, Bool-cases, if-cases, inl, inr, if◌then◌else◌,
}
use mathlib.Core.List.{append_assoc, append-nil}
use vega_revenue_os.Router.Catalog.{Model, ranked, rank_candidates}
use vega_revenue_os.Router.Deps.{
  blocked_event, emit_attempt, failure_event, query_of, request_for, reserve_attempt, router_error,
  settle_failure,
}
use vega_revenue_os.Router.World.{
  Provider, ProviderAnswer, ProviderError, Request, RouterDeps, RouterEnd, RouterWorld, UsageEvent,
  all_providers_failed, answered, budget_exhausted, crashed, failed, no_eligible_model,
  provider_error, raised,
}
use vega_revenue_os.Router.Invoke.{
  Next, Next-cases, ends, retry, on_answer, call_provider, attempt_with, attempt_by, attempt,
  attempt_all, attempt_ranked, slice, invoke,
}

retry-inj : {D : Type 0} (f e : ProviderError) → ◌≡◌ {A = Next D} (retry f) (retry e) → f ≡ e
retry-inj f e h = ground arith

module _ {D : Type 0} (deps : RouterDeps D) (request : Request D) where
  -- The provider of the model answers the attempt by a failure after which the next one is tried.
  abbrev pub FailsOver : ℕ → Model D → Type 0
  FailsOver i m =
      (p : Provider D) × (e : ProviderError) × (deps.registry m.provider_id ≡ some p)
      × (p.invoke i (request_for deps request m) ≡ failed e)
      × (e.retryable ≡ true)

  -- The calls of the attempts after `i` on the models: each model at most once and in order, and
  -- another call only after a failure that allows one.
  pub data Fallback : ℕ → List (Model D) → List (ℕ × Model D) → Type 0 where
    no_call : {i : ℕ} {ms : List (Model D)} → Fallback i ms []
    skipped :
        {i : ℕ} {m : Model D} {ms : List (Model D)} {cs : List (ℕ × Model D)}
        → Fallback (i + 1) ms cs
        → Fallback i (m ∷ ms) cs
    last_call : {i : ℕ} {m : Model D} {ms : List (Model D)} → Fallback i (m ∷ ms) ((i + 1, m) ∷ [])
    next_call :
        {i : ℕ} {m : Model D} {ms : List (Model D)} {cs : List (ℕ × Model D)}
        → FailsOver (i + 1) m
        → Fallback (i + 1) ms cs
        → Fallback i (m ∷ ms) ((i + 1, m) ∷ cs)

  emit-calls :
      (e : UsageEvent D) (w : RouterWorld D) → (emit_attempt deps request e w).0.calls ≡ w.calls
  unfolding emit_attempt
  emit-calls e w = ground arith

  -- What an attempt adds to the calls: nothing, or its own call, and how it goes on then.
  abbrev Adds : ℕ → Model D → RouterWorld D → RouterWorld D × Next D → Type 0
  Adds i m w r =
      (r.0.calls ≡ w.calls)
      ⊎ ((r.0.calls ≡ w.calls ++ (i, m) ∷ [])
          × ((e : ProviderError) → r.1 ≡ retry e → FailsOver i m))

  on_answer-calls :
      (i : ℕ) (m : Model D) (a : ProviderAnswer D) (w : RouterWorld D)
      → (on_answer deps request i m a w).0.calls ≡ w.calls
  unfolding emit_attempt
  on_answer-calls i m (answered r) w = ground arith
  on_answer-calls i m (failed e) w = ground arith
  on_answer-calls i m crashed w = refl

  next-retry :
      (told : Bool) (f e : ProviderError)
      → ◌≡◌ {A = Next D}
          (if not told
            then ends raised
            else if f.retryable
            then retry f
            else ends (provider_error f))
          (retry e)
      → (f ≡ e) × (f.retryable ≡ true)
  next-retry false f e h = absurd (ground arith)
  next-retry true f e h = elim (Bool-cases f.retryable) [
    | inl r ↦ (retry-inj {D = D} f e (ground arith), r)
    | inr r ↦ absurd (ground arith)
  ]

  on_answer-retry :
      (i : ℕ) (m : Model D) (a : ProviderAnswer D) (w : RouterWorld D) (e : ProviderError)
      → (on_answer deps request i m a w).1 ≡ retry e
      → (a ≡ failed e) × (e.retryable ≡ true)
  on_answer-retry i m (answered r) w e h = absurd (ground arith)
  on_answer-retry i m (failed f) w e h =
      let w' = record w { ledger = settle_failure deps request i m f w.ledger } in
      let told = emit_attempt deps request (failure_event deps request i m f) w' in
      let (same, again) = next-retry told.1 f e h in
      (ap failed same, ap (λ g. g.retryable) (sym same) ∙ again)
  on_answer-retry i m crashed w e h = absurd (ground arith)

  call_provider-Adds :
      (p : Provider D) (i : ℕ) (m : Model D) (w : RouterWorld D)
      → deps.registry m.provider_id ≡ some p
      → Adds i m w (call_provider deps request p i m w)
  unfolding call_provider
  call_provider-Adds p i m w r =
      let a = p.invoke i (request_for deps request m) in
      let w' = record w { calls = w.calls ++ (i, m) ∷ [] } in
      inr (
        on_answer-calls i m a w',
        λ e h. let (same, again) = on_answer-retry i m a w' e h in (p, e, r, same, again),
      )

  attempt_with-Adds :
      (p : Provider D) (i : ℕ) (m : Model D) (w : RouterWorld D)
      → deps.registry m.provider_id ≡ some p
      → Adds i m w (attempt_with deps request p i m w)
  unfolding attempt_with
  attempt_with-Adds p i m w r =
      let asked = reserve_attempt deps request i m w.ledger in
      let w' = record w { ledger = asked.0 } in
      let told = emit_attempt deps request (blocked_event deps request i m) w' in
      if-cases (Adds i m w) (not p.is_ready) (λ a. inl refl)
        λ a.
          if-cases (Adds i m w) asked.1 (λ b. call_provider-Adds p i m w' r)
            λ b. inl (emit-calls (blocked_event deps request i m) w')

  attempt_by-Adds :
      (o : Option (Provider D)) (i : ℕ) (m : Model D) (w : RouterWorld D)
      → deps.registry m.provider_id ≡ o
      → Adds i m w (attempt_by deps request o i m w)
  attempt_by-Adds none i m w r = inl refl
  attempt_by-Adds (some p) i m w r = attempt_with-Adds p i m w r

  -- What the whole loop adds to the calls.
  abbrev Tells : ℕ → List (Model D) → RouterWorld D → RouterWorld D × RouterEnd D → Type 0
  Tells i ms w r = (cs : List (ℕ × Model D)) × (r.0.calls ≡ w.calls ++ cs) × Fallback i ms cs

  silent-Tells :
      (i : ℕ) (ms : List (Model D)) (w v : RouterWorld D) (e : RouterEnd D)
      → v.calls ≡ w.calls
      → Tells i ms w (v, e)
  silent-Tells i ms w v e h = ([], h ∙ sym (append-nil w.calls), no_call)

  stopped-Tells :
      (i : ℕ) (m : Model D) (ms : List (Model D)) (w : RouterWorld D) (r : RouterWorld D × Next D)
      (e : RouterEnd D)
      → Adds (i + 1) m w r
      → Tells i (m ∷ ms) w (r.0, e)
  stopped-Tells i m ms w r e (inl h) = silent-Tells i (m ∷ ms) w r.0 e h
  stopped-Tells i m ms w r e (inr (h, g)) = ((i + 1, m) ∷ [], h, last_call)

  continued-Tells :
      (i : ℕ) (m : Model D) (ms : List (Model D)) (w : RouterWorld D) (r : RouterWorld D × Next D)
      (e : ProviderError) (s : RouterWorld D × RouterEnd D)
      → Adds (i + 1) m w r
      → r.1 ≡ retry e
      → Tells (i + 1) ms r.0 s
      → Tells i (m ∷ ms) w s
  continued-Tells i m ms w r e s (inl h) n (cs, c, f) = (cs, c ∙ ap (λ l. l ++ cs) h, skipped f)
  continued-Tells i m ms w r e s (inr (h, g)) n (cs, c, f) = (
    (i + 1, m) ∷ cs,
    c ∙ ap (λ l. l ++ cs) h ∙ append_assoc w.calls ((i + 1, m) ∷ []) cs,
    next_call (g e n) f,
  )

  attempt_all-Tells :
      (i : ℕ) (ms : List (Model D)) (errors : List ProviderError) (w : RouterWorld D)
      → Tells i ms w (attempt_all deps request i ms errors w)
  unfolding attempt_all attempt
  attempt_all-Tells i [] errors w =
      silent-Tells i [] w w
        (provider_error
          (router_error all_providers_failed (any (λ (e : ProviderError). e.retryable) errors)))
        refl
  attempt_all-Tells i (m ∷ ms) errors w =
      let r = attempt deps request (i + 1) m w in
      let adds = attempt_by-Adds (deps.registry m.provider_id) (i + 1) m w refl in
      elim (Next-cases r.1) [
        | inl (e, n) ↦
            let end : attempt_all deps request i (m ∷ ms) errors w ≡ (r.0, e) =
              rw (n, attempt_all) in
            subst (Tells i (m ∷ ms) w) (sym end) (stopped-Tells i m ms w r e adds)
        | inr (inl (e, n)) ↦
            let s = attempt_all deps request (i + 1) ms (errors ++ e ∷ []) r.0 in
            let end : attempt_all deps request i (m ∷ ms) errors w ≡ s = rw (n, attempt_all) in
            subst (Tells i (m ∷ ms) w) (sym end) (
              continued-Tells i m ms w r e s adds n
                (attempt_all-Tells (i + 1) ms (errors ++ e ∷ []) r.0))
        | inr (inr n) ↦
            let e = provider_error (router_error budget_exhausted false) in
            let end : attempt_all deps request i (m ∷ ms) errors w ≡ (r.0, e) =
              rw (n, attempt_all) in
            subst (Tells i (m ∷ ms) w) (sym end) (stopped-Tells i m ms w r e adds)
      ]

  ranked-Tells :
      (ms : List (Model D)) (w : RouterWorld D)
      → Tells 0 (slice deps.max_attempts ms) w (attempt_ranked deps request (ranked ms) w)
  ranked-Tells [] w = silent-Tells 0 (slice deps.max_attempts []) w w no_eligible_model refl
  ranked-Tells (m ∷ ms) w = attempt_all-Tells 0 (slice deps.max_attempts (m ∷ ms)) [] w

  -- Where the ranking of the catalog's models is not ambiguous, a call gives the request to the
  -- providers of ranked models only, within the number of attempts that is set, to each at most once
  -- and in the order of the ranking, and to another one only after a failure that was reported as
  -- retryable.
  pub invoke-Fallback :
      (ms : List (Model D)) (w : RouterWorld D)
      → rank_candidates deps.prices deps.locale_before
          (query_of deps request)
          (deps.models (query_of deps request))
        ≡ ranked ms
      → (cs : List (ℕ × Model D)) × ((invoke deps request w).0.calls ≡ w.calls ++ cs)
        × Fallback 0 (slice deps.max_attempts ms) cs
  unfolding invoke
  invoke-Fallback ms w h =
      subst (λ r. Tells 0 (slice deps.max_attempts ms) w (attempt_ranked deps request r w)) (sym h)
        (ranked-Tells ms w)
