-- ===== src/Tool/Stored.antt =====
-- What is stored for an attempt that comes back (packages/tool-gateway/src/tool-gateway.ts).
use vega_revenue_os.Prelude.{
  ℕ, ◌-◌, ◌≤◌, ◌≡◌, refl, ap, ◌∙◌, Bool, true, false, not, ◌&&◌, Option, none, some, String, List,
  arith, Bool-cases, inl, inr, if-cases, if◌then◌else◌,
}
use vega_revenue_os.Idempotency.Store.{
  IdempotencyRecord, RecordKey, same_key, row_of, is_reclaimable, completed, failed,
}
use vega_revenue_os.Idempotency.Claims.{chance, chance-upsert}
use vega_revenue_os.Tool.Contract.{
  ToolDefinition, ToolCallResult, ToolCallStatus, is_success, is_unknown,
}
use vega_revenue_os.Tool.Checks.{PolicyDecision}
use vega_revenue_os.Tool.Attempts.{
  Tried, build_result, or_code, has_code, result_of, map_outcome_status,
}
use vega_revenue_os.Tool.Records.{ToolWorld}
use vega_revenue_os.Tool.Outcome.{
  ToolCall, OutcomeJson, accept_output, record_audit, persist_claim_outcome, stored_submitted,
  store_outcome,
}
use vega_revenue_os.Tool.Submissions.{under, one_if}

-- What a provider reports as submitted has not the code of a call that was not.
abbrev pub IsHonest : {V : Type 0} → Tried V → Type 0
IsHonest t = t.outcome.submitted ≡ true → has_code "NOT_SUBMITTED" t.outcome.error_code ≡ false

module _ {V : Type 0} {S : Type 0} {R : Type 0} (json : OutcomeJson V R) (k : RecordKey)
    (c : ToolCall V S R) where
  accept-quiet :
      (d : ToolDefinition S) (x : PolicyDecision) (result : ToolCallResult V) (w : ToolWorld R)
      → ((accept_output json c d x result w).0.table ≡ w.table)
        × ((accept_output json c d x result w).0.calls ≡ w.calls)
  unfolding accept_output record_audit
  accept-quiet d x result w = (ground arith, ground arith)

  flag_of :
      (d : ToolDefinition S) (s : ToolCallStatus) (code : Option String) (retryable : Bool) (n : ℕ)
      (output : Option V)
      → has_code "NOT_SUBMITTED" code ≡ false
      → stored_submitted json c (
          build_result d c.request s
            (record {
              code = or_code code (if is_success s then "OK" else "PROVIDER_ERROR");
              retryable = retryable;
            })
            n
            output)
        ≡ true
  flag_of d ToolCallStatus.success code retryable n output h = refl
  flag_of d s none retryable n output h = refl
  flag_of d s (some code) retryable n output h = ap not h

  -- A failure is stored as submitted, unless its code says that it was not.
  pub submitted-stored :
      (d : ToolDefinition S) (t : Tried V) (n : ℕ)
      → has_code "NOT_SUBMITTED" t.outcome.error_code ≡ false
      → stored_submitted json c (result_of d c.request t n) ≡ true
  submitted-stored d t n h =
      flag_of d (map_outcome_status t.outcome t.threw) t.outcome.error_code t.outcome.retryable
        (n - 1) t.outcome.output h

  stored_row : (k' : RecordKey) (result : ToolCallResult V) → IdempotencyRecord R
  stored_row k' result =
      row_of c.now k' (json.outcome_of (stored_submitted json c result) result)
        (if is_success result.status then completed else failed) none

  stored_row-reclaimable :
      (k' : RecordKey) (result : ToolCallResult V)
      → stored_submitted json c result ≡ true
      → is_reclaimable json.json (stored_row k' result) ≡ false
  unfolding stored_row
  stored_row-reclaimable k' result h =
      let law = json.submitted-outcome_of (stored_submitted json c result) result in ground arith

  persist-own :
      (d : ToolDefinition S) (k' : RecordKey) (t : Tried V) (n : ℕ)
      (table : List (IdempotencyRecord R))
      → IsHonest t
      → same_key k k' ≡ true
      → chance json.json k table ≡ 0
      → chance json.json k (persist_claim_outcome json c k' (result_of d c.request t n) table)
        ≤ one_if (not t.outcome.submitted)
  unfolding persist_claim_outcome stored_row
  persist-own d k' t n table honest own free =
      let result = result_of d c.request t n in
      let step = chance-upsert json.json k (stored_row k' result) table in
      elim (Bool-cases t.outcome.submitted) [
        | inl s ↦
            let kept = stored_row-reclaimable k' result (submitted-stored d t n (honest s)) in
            ground arith
        | inr s ↦ ground arith
      ]

  persist-other :
      (k' : RecordKey) (result : ToolCallResult V) (table : List (IdempotencyRecord R))
      → same_key k k' ≡ false
      → chance json.json k (persist_claim_outcome json c k' result table) ≡ chance json.json k table
  unfolding persist_claim_outcome stored_row
  persist-other k' result table other =
      let step = chance-upsert json.json k (stored_row k' result) table in ground arith

  -- What is stored for an attempt that comes back: under another key nothing for this one.
  pub record Stored (key : Option RecordKey) (t : Tried V) (w w' : ToolWorld R) : Type 0 where
    pub calls : w'.calls ≡ w.calls
    pub own :
        under k key ≡ true
        → chance json.json k w.table ≡ 0
        → chance json.json k w'.table ≤ one_if (not t.outcome.submitted)
    pub other : under k key ≡ false → chance json.json k w'.table ≡ chance json.json k w.table

  unchanged-Stored :
      (key : Option RecordKey) (t : Tried V) (w w' : ToolWorld R)
      → w'.table ≡ w.table
      → w'.calls ≡ w.calls
      → Stored key t w w'
  unchanged-Stored key t w w' e f =
      let same = ap (chance json.json k) e in
      record { calls = f; own = λ h free. omega (arith, same, free); other = λ h. same }

  persisted-Stored :
      (d : ToolDefinition S) (k' : RecordKey) (t : Tried V) (n : ℕ) (w w' : ToolWorld R)
      → IsHonest t
      → w'.table ≡ persist_claim_outcome json c k' (result_of d c.request t n) w.table
      → w'.calls ≡ w.calls
      → Stored (some k') t w w'
  persisted-Stored d k' t n w w' honest e f =
      let same = ap (chance json.json k) e in
      record {
        calls = f;
        own = λ h free.
            let small = persist-own d k' t n w.table honest h free in omega (arith, same, small);
        other = λ h. same ∙ persist-other k' (result_of d c.request t n) w.table h;
      }

  pub store_outcome-Stored :
      (d : ToolDefinition S) (x : PolicyDecision) (key : Option RecordKey) (t : Tried V) (n : ℕ)
      (w : ToolWorld R)
      → IsHonest t
      → Stored key t w (store_outcome json c d x key (result_of d c.request t n) w).0
  unfolding store_outcome
  store_outcome-Stored d x none t n w honest =
      let result = result_of d c.request t n in
      let (e, f) = accept-quiet d x result w in unchanged-Stored none t w _ e f
  store_outcome-Stored d x (some k') t n w honest =
      let result = result_of d c.request t n in
      let w' = record w { table = persist_claim_outcome json c k' result w.table } in
      let (e, f) = accept-quiet d x result w' in
      if-cases (λ (r : ToolWorld R × Option (ToolCallResult V)). Stored (some k') t w r.0)
        (not (is_unknown result.status) && c.rejects _)
        (λ h. unchanged-Stored (some k') t w w refl refl)
        (λ h. persisted-Stored d k' t n w _ honest e f)
