-- ===== src/Tool/Contract.antt =====
-- What tool calls are made of (packages/shared/src/contracts/tool-contract.ts). `V` is the type of JSON
-- values and `S` that of schemas. Left out are the texts of messages, the times, and the identities
-- that are only copied.
use vega_revenue_os.Prelude.{ℕ, String, Bool, true, false, Option, List}

pub data SideEffectClass : Type 0 where
  read_only reversible_write irreversible_external : SideEffectClass

pub data ToolLifecycle : Type 0 where
  draft active deprecated retired : ToolLifecycle

pub data ToolCallStatus : Type 0 where
  success validation_error provider_error timeout unauthorized policy_denied : ToolCallStatus
  outcome_unknown failed : ToolCallStatus

-- `tenant_id` is none for a global definition.
pub record ToolDefinition (S : Type 0) : Type 0 where
  pub tool_definition_id : String
  pub tool_id : String
  pub version : String
  pub tenant_id : Option ℕ
  pub input_schema : Option S
  pub output_schema : Option S
  pub required_capabilities : List String
  pub side_effect_class : SideEffectClass
  pub required_approval : Bool
  pub provider_id : ℕ
  pub enabled : Bool
  pub max_retries : ℕ
  pub idempotency_required : Bool
  pub lifecycle : ToolLifecycle

-- `ToolCallRequest`; the definition's id and the action stand in its metadata.
pub record ToolCallRequest (V : Type 0) : Type 0 where
  pub tool_call_id : ℕ
  pub tool_id : String
  pub tool_version : String
  pub tenant_id : ℕ
  pub idempotency_key : Option ℕ
  pub tool_definition_id : Option String
  pub action : Option String
  pub input : V

pub record CallError : Type 0 where
  pub code : String
  pub retryable : Bool

pub record ToolCallResult (V : Type 0) : Type 0 where
  pub tool_call_id : ℕ
  pub status : ToolCallStatus
  pub output : Option V
  pub error : Option CallError
  pub schema_valid : Bool
  pub provider : Option ℕ
  pub retry_count : ℕ
  pub audit_id : Option ℕ

pub record ToolProviderOutcome (V : Type 0) : Type 0 where
  pub submitted : Bool
  pub result_known : Bool
  pub retryable : Bool
  pub output : Option V
  pub error_code : Option String

abbrev pub is_read_only : SideEffectClass → Bool
is_read_only SideEffectClass.read_only = true
is_read_only _ = false

abbrev pub is_success : ToolCallStatus → Bool
is_success ToolCallStatus.success = true
is_success _ = false

abbrev pub is_unknown : ToolCallStatus → Bool
is_unknown ToolCallStatus.outcome_unknown = true
is_unknown _ = false

abbrev pub is_active : ToolLifecycle → Bool
is_active ToolLifecycle.active = true
is_active _ = false
