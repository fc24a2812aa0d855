-- ===== src/Idempotency/Claims.antt =====
-- How often a key can be won (packages/infrastructure/src/idempotency/postgres-idempotency-store.ts).
use vega_revenue_os.Prelude.{
  ℕ, ◌+◌, ◌≤◌, ◌≡◌, refl, ap, ◌∙◌, Bool, true, false, Option, none, some, List, [], ◌∷◌,
  if◌then◌else◌, Bool-cases, inl, inr, arith,
}
use vega_revenue_os.Idempotency.Store.{
  IdempotencyRecord, RecordKey, RecordStatus, Json, Statement, set_record, claim_key, same_key, get,
  upsert, set, claim, is_reclaimable, row_of, run_statements, releases,
}

pub same_key_refl : (k : RecordKey) → same_key k k ≡ true
unfolding same_key
same_key_refl k = ground arith

key_eq : {a b : RecordKey} → a.tenant_id ≡ b.tenant_id → a.scope ≡ b.scope → a.key ≡ b.key → a ≡ b
key_eq p q r = λ i. record { tenant_id = p i; scope = q i; key = r i }

same_key-to : (a b : RecordKey) → same_key a b ≡ true → a ≡ b
unfolding same_key
same_key-to a b h = key_eq (ground arith) (ground arith) (ground arith)

module _ {R : Type 0} where
  -- A row that is stored is the one of its key, and the only one that changes.
  pub get-upsert :
      (k : RecordKey) (r : IdempotencyRecord R) (t : List (IdempotencyRecord R))
      → get k (upsert r t) ≡ (if same_key k r.key then some r else get k t)
  unfolding get upsert
  get-upsert k r [] = refl
  get-upsert k r (x ∷ t) = elim (Bool-cases (same_key r.key x.key)) [
    | inl h ↦ let e = ap (λ q. same_key k q) (same_key-to r.key x.key h) in ground arith
    | inr h ↦
        let ih = get-upsert k r t in
        elim (Bool-cases (same_key k r.key)) [
          | inl g ↦ let e = ap (λ q. same_key q x.key) (same_key-to k r.key g) in ground arith
          | inr g ↦ ground arith
        ]
  ]

module _ {R : Type 0} (json : Json R) where
  -- Whether a claim of the key would be won, as a number.
  abbrev chance_of : Option (IdempotencyRecord R) → ℕ
  chance_of none = 1
  chance_of (some r) = if is_reclaimable json r then 1 else 0

  abbrev pub chance : RecordKey → List (IdempotencyRecord R) → ℕ
  chance k t = chance_of (get k t)

  chance_of-if :
      (b : Bool) (r : IdempotencyRecord R) (o : Option (IdempotencyRecord R))
      → chance_of (if b then some r else o)
        ≡ (if b then (if is_reclaimable json r then 1 else 0) else chance_of o)
  chance_of-if true r o = refl
  chance_of-if false r o = refl

  pub chance-upsert :
      (k : RecordKey) (r : IdempotencyRecord R) (t : List (IdempotencyRecord R))
      → chance k (upsert r t)
        ≡ (if same_key k r.key then (if is_reclaimable json r then 1 else 0) else chance k t)
  chance-upsert k r t =
      ap chance_of (get-upsert k r t) ∙ chance_of-if (same_key k r.key) r (get k t)

  pub chance-same :
      (k k' : RecordKey) (t : List (IdempotencyRecord R))
      → same_key k k' ≡ true
      → chance k t ≡ chance k' t
  chance-same k k' t h = ap (λ q. chance q t) (same_key-to k k' h)

  -- The number of claims of a key that are won in any sequence of statements, of the key and of
  -- others, is at most the number of failures stored for it as not submitted, and one more if the
  -- key can be claimed at the start.
  pub claims_bound :
      (k : RecordKey) (xs : List (Statement R)) (t : List (IdempotencyRecord R))
      → (run_statements json k xs t).1 ≤ releases json k xs + chance k t
  unfolding run_statements releases set claim
  claims_bound k [] t = omega arith
  claims_bound k (set_record now k' r RecordStatus.failed ttl ∷ xs) t =
      let row = row_of now k' r RecordStatus.failed ttl in
      let ih = claims_bound k xs (upsert row t) in let step = chance-upsert k row t in ground arith
  claims_bound k (set_record now k' r status ttl ∷ xs) t =
      let row = row_of now k' r status ttl in
      let ih = claims_bound k xs (upsert row t) in let step = chance-upsert k row t in ground arith
  claims_bound k (claim_key now k' ∷ xs) t =
      let row = row_of now k' json.null RecordStatus.pending none in
      let won = claims_bound k xs (upsert row t) in
      let lost = claims_bound k xs t in
      let step = chance-upsert k row t in let same = chance-same k k' t in ground arith
