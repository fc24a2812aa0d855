-- ===== src/Tool/Once.antt =====
-- A tool's side effect happens once under an idempotency key
-- (packages/tool-gateway/src/tool-gateway.ts).
use vega_revenue_os.Prelude.{
  ℕ, ◌+◌, ◌≤◌, ◌≡◌, refl, ap, true, false, not, Option, none, some, List, [], ◌∷◌, arith,
  Bool-cases, inl, inr, if-cases,
}
use vega_revenue_os.Idempotency.Store.{
  IdempotencyRecord, RecordKey, RecordStatus, same_key, row_of, claim, get,
}
use vega_revenue_os.Idempotency.Claims.{chance, chance-upsert, chance-same}
use vega_revenue_os.Tool.Contract.{ToolDefinition, ToolCallResult}
use vega_revenue_os.Tool.Checks.{Provider, PolicyDecision, cleared, check}
use vega_revenue_os.Tool.Attempts.{tried_of}
use vega_revenue_os.Tool.Records.{ToolWorld}
use vega_revenue_os.Tool.Execute.{
  stored_result, claim_and_perform, after_checks, execute, execute_all,
}
use vega_revenue_os.Tool.Outcome.{ToolCall, OutcomeJson, key_of}
use vega_revenue_os.Tool.Submissions.{side_effects}
use vega_revenue_os.Tool.Governed.{Checked-cases, check-IsGoverned}
use vega_revenue_os.Tool.Stored.{IsHonest}
use vega_revenue_os.Tool.Performed.{
  AllHonest, HasHonestProviders, exposure, handle-quiet, perform-Performed, tried-IsHonest,
}

module _ {V : Type 0} {S : Type 0} {R : Type 0} (json : OutcomeJson V R) (k : RecordKey)
    (c : ToolCall V S R) where
  -- A claim that is won takes the chance away.
  claimed_chance :
      (k' : RecordKey) (table : List (IdempotencyRecord R))
      → (claim json.json c.now k' table).1 ≡ true
      → (same_key k k' ≡ true
          → (chance json.json k (claim json.json c.now k' table).0 ≡ 0)
            × (chance json.json k table ≡ 1))
        × (same_key k k' ≡ false
            → chance json.json k (claim json.json c.now k' table).0 ≡ chance json.json k table)
  unfolding claim
  claimed_chance k' table h =
      let row = row_of c.now k' json.json.null RecordStatus.pending none in
      let step = chance-upsert json.json k row table in
      let same = chance-same json.json k k' table in
      ((λ o. (ground arith, ground arith)), (λ o. ground arith))

  claim_and_perform-exposure :
      (d : ToolDefinition S) (x : PolicyDecision) (provider : Provider V) (key : Option RecordKey)
      (w : ToolWorld R)
      → ((i : ℕ) → IsHonest (tried_of d (provider.execute i c.request)))
      → exposure json k c (claim_and_perform json c d x provider key w).0 ≤ exposure json k c w
  unfolding claim_and_perform
  claim_and_perform-exposure d x provider none w honest =
      (perform-Performed json k c d x provider none w honest).other refl
  claim_and_perform-exposure d x provider (some k') w honest =
      let claimed = claim json.json c.now k' w.table in
      let o = stored_result json c (get k' w.table) in
      let (e, f) = handle-quiet json k c d o w in
      let w' = record w { table = claimed.0 } in
      let performed = perform-Performed json k c d x provider (some k') w' honest in
      if-cases
        (λ (r : ToolWorld R × Option (ToolCallResult V)).
          exposure json k c r.0 ≤ exposure json k c w)
        (c.rejects _) (λ h. omega arith)
        (λ h.
          if-cases
            (λ (r : ToolWorld R × Option (ToolCallResult V)).
              exposure json k c r.0 ≤ exposure json k c w)
            (not claimed.1)
            (λ g.
              let table = ap (chance json.json k) e in
              let calls = ap (side_effects k) f in omega (arith, table, calls))
            (λ g.
              let (won, other) = claimed_chance k' w.table (ground arith) in
              elim (Bool-cases (same_key k k')) [
                | inl own ↦
                    let (after, before) = won own in
                    let bound = performed.own own after in omega (arith, bound, after, before)
                | inr own ↦
                    let same = other own in
                    let bound = performed.other own in omega (arith, bound, same)
              ]))

  cleared-exposure :
      (d : ToolDefinition S) (x : PolicyDecision) (provider : Provider V) (w : ToolWorld R)
      → ((i : ℕ) → IsHonest (tried_of d (provider.execute i c.request)))
      → exposure json k c (after_checks json c (cleared d x provider) w).0 ≤ exposure json k c w
  cleared-exposure d x provider w honest =
      if-cases
        (λ (r : ToolWorld R × Option (ToolCallResult V)).
          exposure json k c r.0 ≤ exposure json k c w)
        (c.rejects _) {x = (w, none)} (λ h. omega arith)
        (λ h. claim_and_perform-exposure d x provider (key_of json c d) _ honest)

  -- A call does not raise the count of side effects and its claimability together.
  execute-exposure :
      (w : ToolWorld R)
      → HasHonestProviders c
      → exposure json k c (execute json c w).0 ≤ exposure json k c w
  unfolding execute
  execute-exposure w honest = elim (Checked-cases (check c.request c.ports)) [
    | inl (result, e) ↦
        let same = ap (λ o. exposure json k c (after_checks json c o w).0) e in omega (arith, same)
    | inr (d, x, provider, e) ↦
        let same = ap (λ o. exposure json k c (after_checks json c o w).0) e in
        let found = (check-IsGoverned c.request c.ports d x provider e).provided in
        let bound = cleared-exposure d x provider w (λ i.
          tried-IsHonest json k c d (provider.execute i c.request) (honest d provider found i)) in
        omega (arith, same, bound)
  ]

module _ {V : Type 0} {S : Type 0} {R : Type 0} (json : OutcomeJson V R) (k : RecordKey) where
  history-exposure :
      (cs : List (ToolCall V S R)) (w : ToolWorld R)
      → AllHonest cs
      → side_effects k (execute_all json cs w).calls
          + chance json.json k (execute_all json cs w).table
        ≤ side_effects k w.calls + chance json.json k w.table
  unfolding execute_all
  history-exposure [] w h = omega arith
  history-exposure (c ∷ cs) w (h, hs) =
      let step = execute-exposure json k c w h in
      let rest = history-exposure cs (execute json c w).0 hs in omega (arith, step, rest)

  -- In any history of calls of the gateway, by any tools and whatever the ports answer, the providers
  -- throw and the tables reject, no more than one call of a provider that is not a read is submitted,
  -- or may have been, under one idempotency key, and none if the key cannot be claimed at the start;
  -- if no provider reports a submission with the code NOT_SUBMITTED.
  pub submitted_once :
      (cs : List (ToolCall V S R)) (w : ToolWorld R)
      → AllHonest cs
      → side_effects k (execute_all json cs w).calls
        ≤ side_effects k w.calls + chance json.json k w.table
  submitted_once cs w h = let all = history-exposure cs w h in omega (arith, all)
