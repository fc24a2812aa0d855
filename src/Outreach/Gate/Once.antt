-- ===== src/Outreach/Gate/Once.antt =====
-- How many sends are allowed under one key (packages/outreach/src/safety/send-safety-gate.ts,
-- packages/infrastructure/src/idempotency/postgres-idempotency-store.ts).
use vega_revenue_os.Prelude.{
  ℕ, ◌+◌, ◌≤◌, ◌≡◌, refl, ap, ◌∙◌, Bool, true, false, ◌&&◌, Option, none, some, List, [], ◌∷◌,
  if◌then◌else◌, arith,
}
use vega_revenue_os.Idempotency.Store.{
  IdempotencyRecord, RecordKey, RecordStatus, Json, same_key, set, row_of, upsert, reserve,
}
use vega_revenue_os.Idempotency.Claims.{chance, chance-upsert, chance-same}
use vega_revenue_os.Outreach.Money.{Money}
use vega_revenue_os.Outreach.Gate.Decision.{SafetyDecision, allow}
use vega_revenue_os.Outreach.Gate.Evaluate.{Ports, GateInput, GateWorld, send_key, evaluate}
use vega_revenue_os.Outreach.Gate.Effect.{is_allow, allow-IsCleared, evaluate-Effects}

-- What happens to the shared world: an evaluation, by any worker and with any answers of the ports,
-- or a result that some worker stores for a key.
pub data GateStep (D : Type 0) (L : Type 0) (R : Type 0) : Type 0 where
  evaluation : (now : ℕ) → Ports L → GateInput D → GateStep D L R
  store : (now : ℕ) → RecordKey → R → RecordStatus → Option ℕ → GateStep D L R

is_allow-to : (d : SafetyDecision) → is_allow d ≡ true → d ≡ allow
is_allow-to d h = ground arith

-- What an evaluation that ends in a decision with a table does to the chance of `k`.
table_chance :
    {R : Type 0} (json : Json R) (k : RecordKey) (now : ℕ) (k' : RecordKey) (b : Bool)
    (t t' : List (IdempotencyRecord R))
    → t' ≡ (if b then reserve json now k' t else t)
    → (b ≡ true → chance json k' t ≡ 1)
    → (if same_key k k' && b then 1 else 0) + chance json k t' ≤ chance json k t
table_chance json k now k' true t t' e free =
    let row = row_of now k' json.null RecordStatus.pending none in
    let same = chance-same json k k' t in
    let one = free refl in
    let step = ap (λ u. chance json k u) e ∙ chance-upsert json k row t in ground arith
table_chance json k now k' false t t' e free =
    let step = ap (λ u. chance json k u) e in ground arith

module _ {D : Type 0} {L : Type 0} {R : Type 0} (json : Json R) (k : RecordKey) where
  -- The failures stored for the key as not submitted.
  unfoldable pub gate_releases : List (GateStep D L R) → ℕ
  gate_releases [] = 0
  gate_releases (store now k' r RecordStatus.failed ttl ∷ xs) =
      let rest = gate_releases xs in
      elim (json.submitted r) [ some false ↦ if same_key k k' then rest + 1 else rest | _ ↦ rest ]
  gate_releases (_ ∷ xs) = gate_releases xs

module _ {D : Type 0} {L : Type 0} {R : Type 0} (usd : Money D) (json : Json R)
    (k : RecordKey) where
  -- The world after the steps, and how many of their evaluations allowed a send under the key.
  unfoldable pub run_gate : List (GateStep D L R) → GateWorld L R → GateWorld L R × ℕ
  unfolding evaluate set
  run_gate [] w = (w, 0)
  run_gate (evaluation now p i ∷ xs) w =
      let e = evaluate usd json now p i w in
      let rest = run_gate xs e.world in
      (
        rest.0,
        if same_key k (send_key i.tenant_id i.execution) && is_allow e.decision
            then rest.1 + 1
            else rest.1,
      )
  run_gate (store now k' r status ttl ∷ xs) w =
      run_gate xs (record w { table = set now k' r status ttl w.table })

  allowed_chance :
      (now : ℕ) (p : Ports L) (i : GateInput D) (w : GateWorld L R)
      → is_allow (evaluate usd json now p i w).decision ≡ true
      → chance json (send_key i.tenant_id i.execution) w.table ≡ 1
  allowed_chance now p i w h =
      let c = allow-IsCleared usd json now p i w (is_allow-to _ h) in
      let free = c.unclaimed in ground arith

  -- In any sequence of evaluations and stored results, of the key and of others and with any
  -- answers of the ports, the number of sends allowed under a key is at most the number of failures
  -- stored for it as not submitted, and one more if the key can be claimed at the start.
  pub allows_bound :
      (xs : List (GateStep D L R)) (w : GateWorld L R)
      → (run_gate xs w).1 ≤ gate_releases json k xs + chance json k w.table
  unfolding run_gate gate_releases set
  allows_bound [] w = omega arith
  allows_bound (evaluation now p i ∷ xs) w =
      let e = evaluate usd json now p i w in
      let ih = allows_bound xs e.world in
      let step =
        table_chance json k now (send_key i.tenant_id i.execution) (is_allow e.decision) w.table
          e.world.table (evaluate-Effects usd json now p i w).table (allowed_chance now p i w) in
      ground arith
  allows_bound (store now k' r RecordStatus.failed ttl ∷ xs) w =
      let row = row_of now k' r RecordStatus.failed ttl in
      let ih = allows_bound xs (record w { table = upsert row w.table }) in
      let step = chance-upsert json k row w.table in ground arith
  allows_bound (store now k' r status ttl ∷ xs) w =
      let row = row_of now k' r status ttl in
      let ih = allows_bound xs (record w { table = upsert row w.table }) in
      let step = chance-upsert json k row w.table in ground arith
