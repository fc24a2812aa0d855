-- ===== src/Ledger/Charges.antt =====
-- The ledger (packages/llm-gateway/src/execution-budget-ledger.ts). A `Map` is the list of its
-- entries in the order of insertion, which its iteration follows; keys are numbers.
use vega_revenue_os.Prelude.{
  ℕ, ◌+◌, Bool, true, false, Option, none, some, List, [], ◌∷◌, ltb, ◌==◌, if◌then◌else◌,
}
use vega_revenue_os.Outreach.Money.{Money}

-- `ExecutionBudgetCharge`, and `ExecutionBudgetLimit` with the same two amounts.
pub record Charge (D : Type 0) : Type 0 where
  pub cost_usd : D
  pub tokens : ℕ

-- `map.get`, `map.set` and `map.delete`. A key that is set again keeps its place.
module _ {A : Type 0} where
  unfoldable pub find : ℕ → List (ℕ × A) → Option A
  find k [] = none
  find k ((j, a) ∷ es) = let rest = find k es in if j == k then some a else rest

  unfoldable pub put : ℕ → A → List (ℕ × A) → List (ℕ × A)
  put k b [] = (k, b) ∷ []
  put k b ((j, a) ∷ es) = let rest = put k b es in if j == k then (k, b) ∷ es else (j, a) ∷ rest

  unfoldable pub remove : ℕ → List (ℕ × A) → List (ℕ × A)
  remove k [] = []
  remove k ((j, a) ∷ es) = let rest = remove k es in if j == k then es else (j, a) ∷ rest

abbrev pub Ledger : Type 0 → Type 0
Ledger D = List (ℕ × List (ℕ × Charge D))

abbrev pub entries : {A : Type 0} → Option (List A) → List A
entries none = []
entries (some es) = es

module _ {D : Type 0} (usd : Money D) where
  abbrev pub add : Charge D → Charge D → Charge D
  add a b = record { cost_usd = usd.plus a.cost_usd b.cost_usd; tokens = a.tokens + b.tokens }

  -- The loop of `getAccumulated`.
  unfoldable pub sum_from : Charge D → List (ℕ × Charge D) → Charge D
  sum_from total [] = total
  sum_from total ((k, c) ∷ es) = sum_from (add total c) es

  -- `getAccumulated`; an execution with no bucket has nothing.
  unfoldable pub get_accumulated : ℕ → Ledger D → Charge D
  unfolding find sum_from
  get_accumulated execution l =
      sum_from (record { cost_usd = usd.zero_usd; tokens = 0 }) (entries (find execution l))

  -- `this.bucket(executionId).set(attemptKey, charge)`, and `commitActual`.
  unfoldable pub commit_actual : ℕ → ℕ → Charge D → Ledger D → Ledger D
  unfolding find put
  commit_actual execution attempt charge l =
      put execution (put attempt charge (entries (find execution l))) l

  -- `tryReserve`.
  unfoldable pub try_reserve : ℕ → ℕ → Charge D → Charge D → Ledger D → Ledger D × Bool
  unfolding get_accumulated commit_actual
  try_reserve execution attempt estimate budget l =
      let total = add (get_accumulated execution l) estimate in
      if usd.above total.cost_usd budget.cost_usd
      then (l, false)
      else if ltb budget.tokens total.tokens
      then (l, false)
      else (commit_actual execution attempt estimate l, true)

  -- `release`.
  unfoldable pub release : ℕ → ℕ → Ledger D → Ledger D
  unfolding find put remove
  release execution attempt l = elim (find execution l) [
    | none ↦ l
    | some es ↦ put execution (remove attempt es) l
  ]

  -- `retain`, which does nothing.
  unfoldable pub retain : ℕ → ℕ → Ledger D → Ledger D
  retain execution attempt l = l
