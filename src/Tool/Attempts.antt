-- ===== src/Tool/Attempts.antt =====
-- `executeWithRetry` (packages/tool-gateway/src/tool-gateway.ts), over the tables of invocations and
-- attempts (packages/tool-gateway/src/in-memory-tool-invocation-repository.ts).
use vega_revenue_os.Prelude.{
  ℕ, zero, suc, ◌+◌, ◌-◌, String, Bool, true, false, not, ◌&&◌, ◌||◌, Option, none, some, [], ◌∷◌,
  ◌++◌, is_missing, if◌then◌else◌,
}
use text.Mathlib.Text.{◌==◌ as str_eq}
use vega_revenue_os.Tool.Contract.{
  ToolDefinition, ToolCallRequest, ToolCallResult, ToolCallStatus, ToolProviderOutcome, CallError,
  is_read_only, is_success, success, validation_error, provider_error, timeout, unauthorized,
  policy_denied, outcome_unknown, failed,
}
use vega_revenue_os.Tool.Checks.{Provider}
use vega_revenue_os.Tool.Records.{
  Attempt, ProviderCall, Run, ToolWorld, attempt_status, completing_attempt, creating_attempt,
  put_attempt, started_attempt,
}

abbrev pub or_code : Option String → String → String
or_code none s = s
or_code (some c) s = c

-- `outcome.errorCode === code`.
abbrev pub has_code : String → Option String → Bool
has_code code none = false
has_code code (some c) = str_eq c code

-- How an attempt came back: the outcome, and whether the provider threw.
pub record Tried (V : Type 0) : Type 0 where
  pub outcome : ToolProviderOutcome V
  pub threw : Bool

module _ {V : Type 0} where
  -- `mapOutcomeStatus`.
  unfoldable pub map_outcome_status : ToolProviderOutcome V → Bool → ToolCallStatus
  map_outcome_status o threw =
      if o.result_known && o.submitted && is_missing o.error_code
      then success
      else if o.submitted && not o.result_known
      then outcome_unknown
      else if threw && o.submitted
      then outcome_unknown
      else if has_code "TIMEOUT" o.error_code && o.submitted && not o.result_known
      then outcome_unknown
      else if has_code "TIMEOUT" o.error_code
      then timeout
      else if has_code "VALIDATION_ERROR" o.error_code
      then validation_error
      else if has_code "UNAUTHORIZED" o.error_code
      then unauthorized
      else if has_code "POLICY_DENIED" o.error_code
      then policy_denied
      else if not (is_missing o.error_code)
      then provider_error
      else failed

  module _ {S : Type 0} (d : ToolDefinition S) where
    -- The `catch` of the provider's call.
    abbrev exception_outcome : ToolProviderOutcome V
    exception_outcome = record {
      submitted = not (is_read_only d.side_effect_class);
      result_known = false;
      retryable = false;
      output = none;
      error_code = some "PROVIDER_EXCEPTION";
    }

    abbrev pub tried_of : Option (ToolProviderOutcome V) → Tried V
    tried_of none = record { outcome = exception_outcome; threw = true }
    tried_of (some o) = record { outcome = o; threw = false }

    -- `canRetry`, where `left` attempts are left after this one.
    unfoldable pub can_retry : ToolProviderOutcome V → ℕ → Bool
    can_retry o zero = false
    can_retry o (suc left) = o.retryable && (is_read_only d.side_effect_class || not o.submitted)

    module _ (r : ToolCallRequest V) where
      abbrev error_of : ToolCallStatus → CallError → Option CallError
      error_of success e = none
      error_of _ e = some e

      -- `buildResult`.
      abbrev pub build_result : ToolCallStatus → CallError → ℕ → Option V → ToolCallResult V
      build_result status e retries output = record {
        tool_call_id = r.tool_call_id;
        status = status;
        output = output;
        error = error_of status e;
        schema_valid = true;
        provider = some d.provider_id;
        retry_count = retries;
        audit_id = none;
      }

      -- The result of the attempt `n`.
      abbrev pub result_of : Tried V → ℕ → ToolCallResult V
      result_of t n =
          let status = map_outcome_status t.outcome t.threw in
          build_result status
            (record {
              code =
                  or_code t.outcome.error_code
                    (if is_success status then "OK" else "PROVIDER_ERROR");
              retryable = t.outcome.retryable;
            })
            (n - 1) t.outcome.output

      abbrev ended_attempt : Tried V → ℕ → Attempt
      ended_attempt t n = record {
        tool_call_id = r.tool_call_id;
        attempt = n;
        status = attempt_status (map_outcome_status t.outcome t.threw);
        submitted = some t.outcome.submitted;
        result_known = some t.outcome.result_known;
        retryable = some t.outcome.retryable;
      }

      module _ (run : Run) where
        abbrev pub call_of : Tried V → ℕ → ProviderCall
        call_of t n = record {
          key = run.key;
          tool_call_id = r.tool_call_id;
          attempt = n;
          reads_only = is_read_only d.side_effect_class;
          submitted = t.outcome.submitted;
        }

        module _ {R : Type 0} (provider : Provider V) where
          -- The provider's boundary, and `completeAttempt`.
          unfoldable pub cross : ℕ → Tried V → ToolWorld R → ToolWorld R × Option (Tried V)
          unfolding put_attempt map_outcome_status
          cross n t w =
              let called = record w { calls = w.calls ++ call_of t n ∷ [] } in
              if run.rejects (completing_attempt n) then (called, none) else (
                record called { attempts = put_attempt (ended_attempt t n) called.attempts },
                some t,
              )

          -- One round of the loop: none where an access rejects.
          unfoldable pub attempt_once : ℕ → ToolWorld R → ToolWorld R × Option (Tried V)
          unfolding cross put_attempt
          attempt_once n w =
              if run.rejects (creating_attempt n)
              then (w, none)
              else cross n (tried_of (provider.execute n r)) (record w {
                attempts = put_attempt (started_attempt r.tool_call_id n) w.attempts;
              })

          -- The loop from the attempt `n`, after which `left` are left.
          unfoldable pub retry_from : ℕ → ℕ → ToolWorld R → ToolWorld R × Option (Tried V × ℕ)
          unfolding attempt_once can_retry map_outcome_status
          retry_from zero n w =
              let a = attempt_once n w in
              elim a.1 [ none ↦ (a.0, none) | some t ↦ (a.0, some (t, n)) ]
          retry_from (suc left) n w =
              let a = attempt_once n w in
              elim a.1 [
                | none ↦ (a.0, none)
                | some t ↦
                    elim (not (is_success (map_outcome_status t.outcome t.threw))
                      && can_retry t.outcome (suc left)) [
                        | true ↦ retry_from left (n + 1) a.0
                        | false ↦ (a.0, some (t, n))
                      ]
              ]
