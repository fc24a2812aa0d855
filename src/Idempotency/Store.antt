-- ===== src/Idempotency/Store.antt =====
-- The table of idempotency keys and its three operations
-- (packages/infrastructure/src/idempotency/postgres-idempotency-store.ts). A stored result is a JSON
-- value of a type `R`, of which the SQL reads one member; each statement is one step on the table.
use vega_revenue_os.Prelude.{
  ℕ, ◌+◌, ◌*◌, Bool, true, false, ◌&&◌, ◌≡◌, Option, none, some, List, [], ◌∷◌, ◌==◌, if◌then◌else◌,
}

pub data RecordStatus : Type 0 where
  pending completed failed : RecordStatus

-- The primary key of `idempotency.keys`.
pub record RecordKey : Type 0 where
  pub tenant_id : ℕ
  pub scope : ℕ
  pub key : ℕ

unfoldable pub same_key : RecordKey → RecordKey → Bool
same_key a b = a.tenant_id == b.tenant_id && a.scope == b.scope && a.key == b.key

pub record IdempotencyRecord (R : Type 0) : Type 0 where
  pub key : RecordKey
  pub status : RecordStatus
  pub result : R
  pub expires_at : ℕ

-- What is made and read of a result: `JSON.stringify(null)`, the JSON of an object with a Boolean
-- `submitted`, and `(result->>'submitted')::boolean`, which reads back what was written.
pub record Json (R : Type 0) : Type 0 where
  pub null : R
  pub with_submitted : Bool → R
  pub submitted : R → Option Bool
  pub submitted-with_submitted : (b : Bool) → submitted (with_submitted b) ≡ some b

-- `NEVER_EXPIRE_SECONDS`.
abbrev never_expire_seconds : ℕ
never_expire_seconds = 3153600000

-- `defaultTtlSeconds` of a store that is given none.
abbrev default_ttl_seconds : ℕ
default_ttl_seconds = 86400

-- The time to live that `set` gives a row: a pending one is never pruned.
abbrev pub ttl_of : RecordStatus → Option ℕ → ℕ
ttl_of RecordStatus.pending ttl = never_expire_seconds
ttl_of _ none = default_ttl_seconds
ttl_of _ (some ttl) = ttl

module _ {R : Type 0} where
  abbrev pub row_of : (now : ℕ) → RecordKey → R → RecordStatus → Option ℕ → IdempotencyRecord R
  row_of now k result status ttl = record {
    key = k;
    status = status;
    result = result;
    expires_at = now + ttl_of status ttl * 1000;
  }

  -- `get`: the row of a key.
  unfoldable pub get : RecordKey → List (IdempotencyRecord R) → Option (IdempotencyRecord R)
  get k [] = none
  get k (r ∷ rs) = if same_key k r.key then some r else get k rs

  -- `INSERT ... ON CONFLICT DO UPDATE`: the row of the key is replaced, or a row is added.
  unfoldable pub upsert :
      IdempotencyRecord R → List (IdempotencyRecord R) → List (IdempotencyRecord R)
  upsert new [] = new ∷ []
  upsert new (r ∷ rs) = if same_key new.key r.key then new ∷ rs else r ∷ upsert new rs

  -- `set`, at the time `now`.
  unfoldable pub set :
      (now : ℕ)
      → RecordKey
      → R
      → RecordStatus
      → Option ℕ
      → List (IdempotencyRecord R)
      → List (IdempotencyRecord R)
  set now k result status ttl t = upsert (row_of now k result status ttl) t

  -- The `WHERE` of the claim: failed, and known not to have been submitted.
  abbrev pub is_reclaimable : Json R → IdempotencyRecord R → Bool
  is_reclaimable json r = elim r.status [
    | RecordStatus.failed ↦ elim (json.submitted r.result) [ some false ↦ true | _ ↦ false ]
    | _ ↦ false
  ]

  abbrev pub is_claimable : Json R → RecordKey → List (IdempotencyRecord R) → Bool
  is_claimable json k t = elim (get k t) [ none ↦ true | some r ↦ is_reclaimable json r ]

  abbrev pub reserve :
      Json R → ℕ → RecordKey → List (IdempotencyRecord R) → List (IdempotencyRecord R)
  reserve json now k t = upsert (row_of now k json.null RecordStatus.pending none) t

  -- `claim`: the table after it and `claimed`. The record `existing` that a lost claim reports is
  -- read afterwards by `get`, and left out.
  unfoldable pub claim :
      Json R
      → (now : ℕ) → RecordKey
      → List (IdempotencyRecord R)
      → List (IdempotencyRecord R) × Bool
  claim json now k t = if is_claimable json k t then (reserve json now k t, true) else (t, false)

-- A statement on the table, of any client.
pub data Statement (R : Type 0) : Type 0 where
  set_record : (now : ℕ) → RecordKey → R → RecordStatus → Option ℕ → Statement R
  claim_key : (now : ℕ) → RecordKey → Statement R

module _ {R : Type 0} (json : Json R) where
  -- The table after a sequence of statements, and how many of its claims of `k` were won.
  unfoldable pub run_statements :
      RecordKey → List (Statement R) → List (IdempotencyRecord R) → List (IdempotencyRecord R) × ℕ
  unfolding set claim
  run_statements k [] t = (t, 0)
  run_statements k (set_record now k' r status ttl ∷ xs) t =
      run_statements k xs (set now k' r status ttl t)
  run_statements k (claim_key now k' ∷ xs) t =
      let next = claim json now k' t in
      let rest = run_statements k xs next.0 in
      (rest.0, if same_key k k' && next.1 then rest.1 + 1 else rest.1)

  -- The statements that give a key free: a failure stored as not submitted.
  unfoldable pub releases : RecordKey → List (Statement R) → ℕ
  releases k [] = 0
  releases k (set_record now k' r RecordStatus.failed ttl ∷ xs) =
      let rest = releases k xs in
      elim (json.submitted r) [ some false ↦ if same_key k k' then rest + 1 else rest | _ ↦ rest ]
  releases k (_ ∷ xs) = releases k xs
