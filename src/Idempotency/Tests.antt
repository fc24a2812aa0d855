-- ===== src/Idempotency/Tests.antt =====
-- A concrete history of the table of keys
-- (packages/infrastructure/src/idempotency/postgres-idempotency-store.ts).
use vega_revenue_os.Prelude.{◌+◌, ◌≤◌, refl, Bool, false, Option, none, some, List, [], ◌∷◌}
use vega_revenue_os.Idempotency.Store.{
  RecordKey, RecordStatus, Json, Statement, set_record, claim_key, run_statements, releases,
}
use vega_revenue_os.Idempotency.Claims.{chance, claims_bound}

-- The results are the members `submitted` alone.
abbrev pub flags : Json (Option Bool)
flags = record {
  null = none;
  with_submitted = λ b. some b;
  submitted = λ r. r;
  submitted-with_submitted = λ b. refl;
}

abbrev first_key : RecordKey
first_key = record { tenant_id = 7; scope = 1; key = 42 }

-- Two claims, a failure that was not submitted, and two more claims.
abbrev statements : List (Statement (Option Bool))
statements =
    claim_key 10 first_key
    ∷ claim_key 11 first_key
    ∷ set_record 12 first_key (some false) RecordStatus.failed none
    ∷ claim_key 13 first_key
    ∷ claim_key 14 first_key
    ∷ []

claims_bound_example :
    (run_statements flags first_key statements []).1
    ≤ releases flags first_key statements + chance flags first_key []
claims_bound_example = claims_bound flags first_key statements []
