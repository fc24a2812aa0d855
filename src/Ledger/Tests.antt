-- ===== src/Ledger/Tests.antt =====
-- A concrete ledger (packages/llm-gateway/src/execution-budget-ledger.ts), and what the theorems
-- state of it.
use vega_revenue_os.Prelude.{ℕ, ◌≡◌, refl, none, [], ◌∷◌}
use vega_revenue_os.Outreach.Tests.{cents}
use vega_revenue_os.Ledger.Charges.{Charge, Ledger, find, try_reserve}
use vega_revenue_os.Ledger.Totals.{bucket, Reserves, try_reserve_lem}

abbrev charge : ℕ → ℕ → Charge ℕ
charge cost tokens = record { cost_usd = cost; tokens = tokens }

-- The first execution has one attempt of 30 cents and 500 tokens.
abbrev ledger : Ledger ℕ
ledger = (1, (1, charge 30 500) ∷ []) ∷ []

new_attempt : find 2 (bucket 1 ledger) ≡ none
unfolding find
new_attempt = refl

try_reserve_example :
    Reserves cents 1
      (charge 80 100)
      (charge 100 1000)
      ledger
      (try_reserve cents 1 2 (charge 80 100) (charge 100 1000) ledger)
try_reserve_example = try_reserve_lem cents 1 2 (charge 80 100) (charge 100 1000) ledger new_attempt
