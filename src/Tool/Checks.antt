-- ===== src/Tool/Checks.antt =====
-- What the gateway checks before it stores anything: the steps 1 to 6 of `execute`
-- (packages/tool-gateway/src/tool-gateway.ts) over its ports
-- (packages/tool-gateway/src/tool-gateway-ports.ts).
use vega_revenue_os.Prelude.{
  ℕ, String, Bool, true, false, not, ◌&&◌, ◌||◌, Option, none, some, List, all, any, if◌then◌else◌,
}
use text.Mathlib.Text.{◌==◌ as str_eq}
use vega_revenue_os.Tool.Contract.{
  ToolDefinition, ToolCallRequest, ToolCallResult, ToolCallStatus, ToolProviderOutcome,
}
use vega_revenue_os.Tool.Resolution.{
  ToolResolution, ToolResolutionRef, resolved, not_found, shadowed, not_executable,
  version_required, ambiguous,
}
use vega_revenue_os.Tool.Registry.{resolve_executable}

pub data PolicyDecision : Type 0 where
  allow require_approval deny : PolicyDecision

-- `ToolPolicyDecision`.
pub record ToolPolicyDecision : Type 0 where
  pub decision : PolicyDecision
  pub capabilities : List String
  pub autonomy_allowed : Bool

-- A provider, by the number of the attempt; none is an exception that it throws.
pub record Provider (V : Type 0) : Type 0 where
  pub execute : ℕ → ToolCallRequest V → Option (ToolProviderOutcome V)

-- What the ports answer to one call. `hash_input` is the digest of the input's JSON.
pub record Ports (V : Type 0) (S : Type 0) : Type 0 where
  pub definitions : List (ToolDefinition S)
  pub evaluate : ToolCallRequest V → ToolDefinition S → ToolPolicyDecision
  pub hash_input : V → String
  pub verify : ToolCallRequest V → ToolDefinition S → String → Bool
  pub validate : Option V → S → Bool
  pub resolve : ℕ → ToolDefinition S → Option (Provider V)
  pub is_ready : ℕ → ToolDefinition S → Bool

-- How the checks end: with a result that is returned, or with what the rest of the call works on.
pub data Checked (V : Type 0) (S : Type 0) : Type 0 where
  refused : ToolCallResult V → Checked V S
  cleared : ToolDefinition S → PolicyDecision → Provider V → Checked V S

abbrev pub is_deny : PolicyDecision → Bool
is_deny deny = true
is_deny _ = false

abbrev pub asks_approval : PolicyDecision → Bool
asks_approval require_approval = true
asks_approval _ = false

abbrev is_invalid : ToolCallStatus → Bool
is_invalid ToolCallStatus.validation_error = true
is_invalid _ = false

-- `missing.length === 0`.
abbrev pub covers : List String → List String → Bool
covers granted required = all (λ c. any (λ g. str_eq g c) granted) required

-- `resolutionStatus`, and the code of the error.
abbrev resolution_status : {S : Type 0} → ToolResolution S → ToolCallStatus
resolution_status version_required = ToolCallStatus.validation_error
resolution_status not_found = ToolCallStatus.validation_error
resolution_status shadowed = ToolCallStatus.policy_denied
resolution_status ambiguous = ToolCallStatus.policy_denied
resolution_status _ = ToolCallStatus.failed

abbrev resolution_code : {S : Type 0} → ToolResolution S → String
resolution_code version_required = "RESOLUTION_VERSION_REQUIRED"
resolution_code not_found = "RESOLUTION_NOT_FOUND"
resolution_code shadowed = "RESOLUTION_SHADOWED"
resolution_code ambiguous = "RESOLUTION_AMBIGUOUS"
resolution_code (not_executable d) = "RESOLUTION_NOT_EXECUTABLE"
resolution_code (resolved d) = "RESOLUTION_RESOLVED"

module _ {V : Type 0} (r : ToolCallRequest V) where
  abbrev pub ref_of : ToolResolutionRef
  ref_of = record {
    tool_definition_id = r.tool_definition_id;
    tool_id = r.tool_id;
    version = r.tool_version;
  }

  -- `terminal`.
  abbrev pub terminal : ToolCallStatus → String → Bool → ToolCallResult V
  terminal status code retryable = record {
    tool_call_id = r.tool_call_id;
    status = status;
    output = none;
    error = some (record { code = code; retryable = retryable });
    schema_valid = not (is_invalid status);
    provider = none;
    retry_count = 0;
    audit_id = none;
  }

  module _ {S : Type 0} (p : Ports V S) where
    -- Step 6.
    abbrev check_ready : ToolDefinition S → PolicyDecision → Option (Provider V) → Checked V S
    check_ready d x none = refused (terminal ToolCallStatus.failed "NO_PROVIDER" false)
    check_ready d x (some provider) =
        if not (p.is_ready d.provider_id d)
        then refused (terminal ToolCallStatus.failed "PROVIDER_NOT_READY" true)
        else cleared d x provider

    abbrev pub accepts_input : Option S → Bool
    accepts_input none = true
    accepts_input (some schema) = p.validate (some r.input) schema

    -- Steps 4 and 5.
    abbrev check_input : ToolDefinition S → PolicyDecision → Checked V S
    check_input d x =
        if not (accepts_input d.input_schema)
        then refused (terminal ToolCallStatus.validation_error "INPUT_SCHEMA_VIOLATION" false)
        else check_ready d x (p.resolve d.provider_id d)

    abbrev pub needs_approval : ToolDefinition S → PolicyDecision → Bool
    needs_approval d x = d.required_approval || asks_approval x

    -- Steps 2 and 3.
    unfoldable pub check_policy : ToolDefinition S → ToolPolicyDecision → Checked V S
    check_policy d x =
        if is_deny x.decision
        then refused (terminal ToolCallStatus.policy_denied "POLICY_DENIED" false)
        else if not (covers x.capabilities d.required_capabilities)
        then refused (terminal ToolCallStatus.unauthorized "CAPABILITY_DENIED" false)
        else if not x.autonomy_allowed
        then refused (terminal ToolCallStatus.policy_denied "AUTONOMY_DENIED" false)
        else if needs_approval d x.decision && not (p.verify r d (p.hash_input r.input))
        then refused (terminal ToolCallStatus.policy_denied "APPROVAL_REQUIRED" false)
        else check_input d x.decision

    abbrev pub check_resolved : ToolResolution S → Checked V S
    check_resolved (resolved d) = check_policy d (p.evaluate r d)
    check_resolved other =
        refused (terminal (resolution_status other) (resolution_code other) false)

    -- Steps 1 to 6.
    unfoldable pub check : Checked V S
    unfolding check_policy resolve_executable
    check = check_resolved (resolve_executable r.tenant_id ref_of p.definitions)
