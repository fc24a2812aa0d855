-- ===== src/Tool/Performed.antt =====
-- What a performed call of a provider leaves submitted and claimable
-- (packages/tool-gateway/src/tool-gateway.ts).
use vega_revenue_os.Prelude.{
  ℕ, ◌+◌, ◌≤◌, ◌≡◌, refl, ap, ◌∙◌, sym, subst, true, false, not, Option, none, some, List, [], ◌∷◌,
  arith, if-cases,
}
use vega_revenue_os.Idempotency.Store.{RecordKey}
use vega_revenue_os.Idempotency.Claims.{chance}
use vega_revenue_os.Tool.Contract.{ToolDefinition, ToolCallResult, ToolProviderOutcome}
use vega_revenue_os.Tool.Checks.{Provider, PolicyDecision}
use vega_revenue_os.Tool.Attempts.{Tried, tried_of, has_code, result_of, retry_from}
use vega_revenue_os.Tool.Records.{ToolWorld, Run}
use vega_revenue_os.Tool.Execute.{after_loop, perform, handle_existing_claim}
use vega_revenue_os.Tool.Outcome.{ToolCall, OutcomeJson}
use vega_revenue_os.Tool.Submissions.{
  under, one_if, side_effects, writes, counts, LoopRun, retry_from-LoopRun,
}
use vega_revenue_os.Tool.Stored.{IsHonest, Stored, store_outcome-Stored}

-- The providers of the call report no submission with the code of a call that was not submitted.
abbrev pub HasHonestProviders : {V S R : Type 0} → ToolCall V S R → Type 0
HasHonestProviders {V} {S} c =
    (d : ToolDefinition S) (provider : Provider V)
    → c.ports.resolve d.provider_id d ≡ some provider
    → (i : ℕ) (o : ToolProviderOutcome V) → provider.execute i c.request ≡ some o
    → o.submitted ≡ true
    → has_code "NOT_SUBMITTED" o.error_code ≡ false

abbrev pub AllHonest : {V S R : Type 0} → List (ToolCall V S R) → Type 0
AllHonest [] = Unit
AllHonest (c ∷ cs) = HasHonestProviders c × AllHonest cs

module _ {V : Type 0} {S : Type 0} {R : Type 0} (json : OutcomeJson V R) (k : RecordKey)
    (c : ToolCall V S R) where
  -- The side effects under the key, and one more if it can be claimed.
  abbrev pub exposure : ToolWorld R → ℕ
  exposure w = side_effects k w.calls + chance json.json k w.table

  pub handle-quiet :
      (d : ToolDefinition S) (o : Option (ToolCallResult V)) (w : ToolWorld R)
      → ((handle_existing_claim json c d o w).0.table ≡ w.table)
        × ((handle_existing_claim json c d o w).0.calls ≡ w.calls)
  unfolding handle_existing_claim
  handle-quiet d none w = (ground arith, ground arith)
  handle-quiet d (some result) w = (ground arith, ground arith)

  -- From an own key that is not claimable, the count rises by one at most, and then the key stays so.
  pub record Performed (key : Option RecordKey) (w w' : ToolWorld R) : Type 0 where
    pub own : under k key ≡ true → chance json.json k w.table ≡ 0 → exposure w' ≤ exposure w + 1
    pub other : under k key ≡ false → exposure w' ≤ exposure w

  run_of : Option RecordKey → Run
  run_of key = record { key = key; rejects = c.rejects }

  writes-le :
      (d : ToolDefinition S) (run : Run) → one_if (writes k d run) ≤ one_if (under k run.key)
  writes-le d run = ground arith

  counts_exclusive :
      (d : ToolDefinition S) (run : Run) (t : Tried V)
      → one_if (counts k d run t) + one_if (not t.outcome.submitted) ≤ 1
  counts_exclusive d run t = ground arith

  counts-le :
      (d : ToolDefinition S) (run : Run) (t : Tried V)
      → one_if (counts k d run t) ≤ one_if (under k run.key)
  counts-le d run t = ground arith

  stopped-Performed :
      (d : ToolDefinition S) (run : Run) (w w' : ToolWorld R)
      → w'.table ≡ w.table
      → side_effects k w'.calls ≤ side_effects k w.calls + one_if (writes k d run)
      → Performed run.key w w'
  stopped-Performed d run w w' e h =
      let same = ap (chance json.json k) e in
      let bound = writes-le d run in
      record {
        own = λ o free. let one = ap one_if o in omega (arith, same, h, bound, one);
        other = λ o. let one = ap one_if o in omega (arith, same, h, bound, one);
      }

  stored-Performed :
      (d : ToolDefinition S) (run : Run) (t : Tried V) (w v w' : ToolWorld R)
      → v.table ≡ w.table
      → side_effects k v.calls ≤ side_effects k w.calls + one_if (counts k d run t)
      → Stored json k c run.key t v w'
      → Performed run.key w w'
  stored-Performed d run t w v w' e h stored =
      let same = ap (chance json.json k) e in
      let calls = ap (side_effects k) stored.calls in
      let bound = counts-le d run t in
      let split = counts_exclusive d run t in
      record {
        own = λ o free.
            let less = stored.own o (same ∙ free) in omega (arith, h, calls, split, less, free);
        other = λ o.
            let one = ap one_if o in
            let less = stored.other o in omega (arith, h, calls, bound, one, less, same);
      }

  pub tried-IsHonest :
      (d : ToolDefinition S) (a : Option (ToolProviderOutcome V))
      → ((o : ToolProviderOutcome V)
          → a ≡ some o
          → o.submitted ≡ true
          → has_code "NOT_SUBMITTED" o.error_code ≡ false)
      → IsHonest (tried_of d a)
  tried-IsHonest d none h = λ s. refl
  tried-IsHonest d (some o) h = h o refl

  after_loop-Performed :
      (d : ToolDefinition S) (x : PolicyDecision) (provider : Provider V) (key : Option RecordKey)
      (w : ToolWorld R) (a : ToolWorld R × Option (Tried V × ℕ))
      → ((i : ℕ) → IsHonest (tried_of d (provider.execute i c.request)))
      → LoopRun k d (run_of key) c.request provider w a
      → Performed key w (after_loop json c d x key a).0
  unfolding run_of
  after_loop-Performed d x provider key w (v, none) honest loop =
      stopped-Performed d (run_of key) w v loop.table loop.at_most
  after_loop-Performed d x provider key w (v, some (t, n)) honest loop =
      let (count, i, from) = loop.exact t n refl in
      let honest_t : IsHonest t = subst IsHonest (sym from) (honest i) in
      let result = result_of d c.request t n in
      let v' = record v { invocations = _ } in
      if-cases (λ (r : ToolWorld R × Option (ToolCallResult V)). Performed key w r.0) (c.rejects _)
        (λ h. stopped-Performed d (run_of key) w v loop.table loop.at_most)
        (λ h.
          stored-Performed d (run_of key) t w v' _ loop.table count
            (store_outcome-Stored json k c d x key t n v' honest_t))

  pub perform-Performed :
      (d : ToolDefinition S) (x : PolicyDecision) (provider : Provider V) (key : Option RecordKey)
      (w : ToolWorld R)
      → ((i : ℕ) → IsHonest (tried_of d (provider.execute i c.request)))
      → Performed key w (perform json c d x provider key w).0
  unfolding perform run_of
  perform-Performed d x provider key w honest =
      after_loop-Performed d x provider key w
        (retry_from d c.request (run_of key) provider d.max_retries 1 w) honest
        (retry_from-LoopRun k d (run_of key) c.request provider d.max_retries 1 w)
