-- ===== src/Tool/Execute.antt =====
-- `execute` (packages/tool-gateway/src/tool-gateway.ts), from the logical invocation to the audit.
use vega_revenue_os.Prelude.{ℕ, false, not, Option, none, some, List, [], ◌∷◌, if◌then◌else◌}
use vega_revenue_os.Idempotency.Store.{IdempotencyRecord, RecordKey, completed, get, claim}
use vega_revenue_os.Tool.Contract.{ToolDefinition, ToolCallResult, ToolCallStatus, CallError}
use vega_revenue_os.Tool.Checks.{Provider, PolicyDecision, Checked, refused, cleared, check}
use vega_revenue_os.Tool.Attempts.{Tried, build_result, result_of, retry_from}
use vega_revenue_os.Tool.Records.{
  Invocation, ToolWorld, Run, creating_invocation, claiming, completing_invocation,
  complete_invocation,
}
use vega_revenue_os.Tool.Outcome.{
  OutcomeJson, ToolCall, error_code, key_of, put_invocation, store_outcome,
}

module _ {V : Type 0} {S : Type 0} {R : Type 0} (json : OutcomeJson V R) (c : ToolCall V S R) where
  -- The end of `executeWithRetry`, and the steps 13 to 15.
  abbrev pub after_loop :
      ToolDefinition S
      → PolicyDecision
      → Option RecordKey
      → ToolWorld R × Option (Tried V × ℕ)
      → ToolWorld R × Option (ToolCallResult V)
  after_loop d x key (w, none) = (w, none)
  after_loop d x key (w, some (t, n)) =
      let result = result_of d c.request t n in
      let w' = record w {
        invocations =
            complete_invocation c.request.tool_call_id result.status (error_code result.error)
              w.invocations;
      } in
      if c.rejects completing_invocation then (w, none) else store_outcome json c d x key result w'

  -- Steps 9 to 15, under a claimed key or none.
  unfoldable pub perform :
      ToolDefinition S
      → PolicyDecision
      → Provider V
      → Option RecordKey
      → ToolWorld R
      → ToolWorld R × Option (ToolCallResult V)
  unfolding store_outcome retry_from complete_invocation
  perform d x provider key w =
      let run : Run = record { key = key; rejects = c.rejects } in
      after_loop d x key (retry_from d c.request run provider d.max_retries 1 w)

  -- The stored result of a completed call, if it can be read.
  abbrev pub stored_result : Option (IdempotencyRecord R) → Option (ToolCallResult V)
  stored_result none = none
  stored_result (some row) = elim row.status [ completed ↦ json.call_result row.result | _ ↦ none ]

  -- `handleExistingClaim`.
  unfoldable pub handle_existing_claim :
      ToolDefinition S
      → Option (ToolCallResult V)
      → ToolWorld R
      → ToolWorld R × Option (ToolCallResult V)
  unfolding complete_invocation
  handle_existing_claim d (some result) w =
      let w' = record w {
        invocations = complete_invocation c.request.tool_call_id result.status none w.invocations;
      } in
      if c.rejects completing_invocation
      then (w, none)
      else (w', some (record result { tool_call_id = c.request.tool_call_id }))
  handle_existing_claim d none w =
      let in_flight : CallError = record { code = "DUPLICATE_IN_FLIGHT"; retryable = false } in
      let w' = record w {
        invocations =
            complete_invocation c.request.tool_call_id ToolCallStatus.outcome_unknown
              (some in_flight.code) w.invocations;
      } in
      if c.rejects completing_invocation
      then (w, none)
      else (w', some (build_result d c.request ToolCallStatus.outcome_unknown in_flight 0 none))

  -- Steps 8 to 15.
  unfoldable pub claim_and_perform :
      ToolDefinition S
      → PolicyDecision
      → Provider V
      → Option RecordKey
      → ToolWorld R
      → ToolWorld R × Option (ToolCallResult V)
  unfolding perform claim handle_existing_claim get
  claim_and_perform d x provider none w = perform d x provider none w
  claim_and_perform d x provider (some k) w =
      let claimed = claim json.json c.now k w.table in
      if c.rejects claiming
      then (w, none)
      else if not claimed.1
      then handle_existing_claim d (stored_result (get k w.table)) w
      else perform d x provider (some k) (record w { table = claimed.0 })

  abbrev new_invocation : PolicyDecision → Invocation
  new_invocation x = record {
    tool_call_id = c.request.tool_call_id;
    decision = x;
    idempotency_key = c.request.idempotency_key;
    status = none;
    error_code = none;
  }

  -- Steps 7 to 15.
  abbrev pub after_checks : Checked V S → ToolWorld R → ToolWorld R × Option (ToolCallResult V)
  after_checks (refused result) w = (w, some result)
  after_checks (cleared d x provider) w =
      if c.rejects creating_invocation
      then (w, none)
      else claim_and_perform d x provider (key_of json c d)
          (record w { invocations = put_invocation (new_invocation x) w.invocations })

  -- `execute`; none is an exception.
  unfoldable pub execute : ToolWorld R → ToolWorld R × Option (ToolCallResult V)
  unfolding check claim_and_perform put_invocation
  execute w = after_checks (check c.request c.ports) w

module _ {V : Type 0} {S : Type 0} {R : Type 0} (json : OutcomeJson V R) where
  -- A history of calls of the gateway.
  unfoldable pub execute_all : List (ToolCall V S R) → ToolWorld R → ToolWorld R
  unfolding execute
  execute_all [] w = w
  execute_all (c ∷ cs) w = execute_all cs (execute json c w).0
