-- ===== src/Tool/Outcome.antt =====
-- What the gateway stores and returns of an outcome: the steps 13 to 15 of `execute`
-- (packages/tool-gateway/src/tool-gateway.ts).
use vega_revenue_os.Prelude.{
  ℕ, ◌+◌, ◌≡◌, String, Bool, false, not, ◌&&◌, ◌||◌, Option, none, some, List, [], ◌∷◌, ◌++◌, ◌==◌,
  if◌then◌else◌,
}
use text.Mathlib.Text.{◌==◌ as str_eq}
use vega_revenue_os.Idempotency.Store.{IdempotencyRecord, RecordKey, Json, completed, failed, set}
use vega_revenue_os.Tool.Contract.{
  ToolDefinition, ToolCallRequest, ToolCallResult, ToolCallStatus, CallError, is_success,
  is_unknown,
}
use vega_revenue_os.Tool.Checks.{PolicyDecision, Ports}
use vega_revenue_os.Tool.Attempts.{build_result}
use vega_revenue_os.Tool.Records.{
  Invocation, AuditEntry, ToolWorld, Access, storing_outcome, completing_again, auditing,
  complete_invocation,
}

-- The JSON of stored outcomes: an object with `submitted` and `callResult`.
pub record OutcomeJson (V : Type 0) (R : Type 0) : Type 0 where
  pub json : Json R
  pub outcome_of : Bool → ToolCallResult V → R
  pub call_result : R → Option (ToolCallResult V)
  pub submitted-outcome_of :
      (b : Bool) (c : ToolCallResult V) → json.submitted (outcome_of b c) ≡ some b

-- What one call of the gateway is given: the request, the ports, which accesses reject, the time of
-- the store's statements, and the id that the audit gives, if there is an audit sink.
pub record ToolCall (V : Type 0) (S : Type 0) (R : Type 0) : Type 0 where
  pub request : ToolCallRequest V
  pub ports : Ports V S
  pub scope_of : String → String → ℕ
  pub rejects : Access → Bool
  pub now : ℕ
  pub has_audit : Bool
  pub fresh_id : ℕ

-- `invocations.set(id, record)`.
unfoldable pub put_invocation : Invocation → List Invocation → List Invocation
put_invocation new [] = new ∷ []
put_invocation new (i ∷ is) =
    if i.tool_call_id == new.tool_call_id then new ∷ is else i ∷ put_invocation new is

abbrev or_execute : Option String → String
or_execute none = "execute"
or_execute (some a) = a

abbrev pub error_code : Option CallError → Option String
error_code none = none
error_code (some e) = some e.code

module _ {V : Type 0} {S : Type 0} {R : Type 0} (json : OutcomeJson V R) (c : ToolCall V S R) where
  -- The tenant, the scope and the key of the claim, where one is made.
  abbrev pub key_of : ToolDefinition S → Option RecordKey
  key_of d = elim c.request.idempotency_key [
    | none ↦ none
    | some k ↦
        if d.idempotency_required
        then some (record {
          tenant_id = c.request.tenant_id;
          scope = c.scope_of d.tool_id (or_execute c.request.action);
          key = k;
        })
        else none
  ]

  -- Step 15.
  unfoldable pub record_audit :
      PolicyDecision → ToolCallResult V → ToolWorld R → ToolWorld R × Option (ToolCallResult V)
  record_audit x result w =
      let entry : AuditEntry = record {
        tool_call_id = c.request.tool_call_id;
        decision = x;
        status = result.status;
        attempts = result.retry_count + 1;
      } in
      let answer = some (record result { audit_id = some c.fresh_id }) in
      if not c.has_audit
      then (w, answer)
      else if c.rejects auditing
      then (w, none)
      else (record w { audit = w.audit ++ entry ∷ [] }, answer)

  abbrev pub violates : ToolDefinition S → ToolCallResult V → Bool
  violates d result = elim d.output_schema [
    | none ↦ false
    | some schema ↦ is_success result.status && not (c.ports.validate result.output schema)
  ]

  -- Steps 14 and 15.
  unfoldable pub accept_output :
      ToolDefinition S
      → PolicyDecision
      → ToolCallResult V
      → ToolWorld R
      → ToolWorld R × Option (ToolCallResult V)
  unfolding record_audit complete_invocation
  accept_output d x result w =
      let violation : CallError = record { code = "OUTPUT_SCHEMA_VIOLATION"; retryable = false } in
      if violates d result
      then (if c.rejects completing_again then (w, none) else (
        record w {
          invocations =
              complete_invocation c.request.tool_call_id ToolCallStatus.validation_error
                (some violation.code) w.invocations;
        },
        some (
            build_result d c.request ToolCallStatus.validation_error violation result.retry_count
              none),
      ))
      else record_audit x result w

  -- `persistClaimOutcome`: the flag that is stored, and the table after it.
  abbrev pub stored_submitted : ToolCallResult V → Bool
  stored_submitted result =
      is_success result.status
      || not (elim result.error [ none ↦ false | some e ↦ str_eq e.code "NOT_SUBMITTED" ])

  unfoldable pub persist_claim_outcome :
      RecordKey → ToolCallResult V → List (IdempotencyRecord R) → List (IdempotencyRecord R)
  unfolding set
  persist_claim_outcome k result t =
      if is_unknown result.status
      then t
      else set c.now k (json.outcome_of (stored_submitted result) result)
          (if is_success result.status then completed else failed) none t

  -- Steps 13 to 15.
  unfoldable pub store_outcome :
      ToolDefinition S
      → PolicyDecision
      → Option RecordKey
      → ToolCallResult V
      → ToolWorld R
      → ToolWorld R × Option (ToolCallResult V)
  unfolding persist_claim_outcome accept_output
  store_outcome d x none result w = accept_output d x result w
  store_outcome d x (some k) result w =
      if not (is_unknown result.status) && c.rejects storing_outcome
      then (w, none)
      else accept_output d x result (record w { table = persist_claim_outcome k result w.table })
