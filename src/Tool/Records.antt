-- ===== src/Tool/Records.antt =====
-- The tables of invocations and attempts
-- (packages/tool-gateway/src/in-memory-tool-invocation-repository.ts), and the world of the gateway.
use vega_revenue_os.Prelude.{
  ℕ, String, Bool, ◌&&◌, Option, none, some, List, [], ◌∷◌, ◌==◌, if◌then◌else◌,
}
use vega_revenue_os.Idempotency.Store.{IdempotencyRecord, RecordKey}
use vega_revenue_os.Tool.Contract.{ToolCallStatus, success, outcome_unknown}
use vega_revenue_os.Tool.Checks.{PolicyDecision}

-- `ToolInvocationRecord`; without a status it is in progress.
pub record Invocation : Type 0 where
  pub tool_call_id : ℕ
  pub decision : PolicyDecision
  pub idempotency_key : Option ℕ
  pub status : Option ToolCallStatus
  pub error_code : Option String

pub data AttemptStatus : Type 0 where
  started completed attempt_failed attempt_unknown : AttemptStatus

-- `ToolInvocationAttemptRecord`.
pub record Attempt : Type 0 where
  pub tool_call_id : ℕ
  pub attempt : ℕ
  pub status : AttemptStatus
  pub submitted : Option Bool
  pub result_known : Option Bool
  pub retryable : Option Bool

pub record AuditEntry : Type 0 where
  pub tool_call_id : ℕ
  pub decision : PolicyDecision
  pub status : ToolCallStatus
  pub attempts : ℕ

-- A call of a provider: the key that was claimed for it, and what came back of it.
pub record ProviderCall : Type 0 where
  pub key : Option RecordKey
  pub tool_call_id : ℕ
  pub attempt : ℕ
  pub reads_only : Bool
  pub submitted : Bool

-- The tables, and the calls of providers that were made.
pub record ToolWorld (R : Type 0) : Type 0 where
  pub table : List (IdempotencyRecord R)
  pub invocations : List Invocation
  pub attempts : List Attempt
  pub audit : List AuditEntry
  pub calls : List ProviderCall

-- The accesses to the tables that may reject.
pub data Access : Type 0 where
  creating_invocation claiming completing_invocation storing_outcome completing_again auditing :
      Access
  creating_attempt completing_attempt : ℕ → Access

-- What one call of the gateway is given besides its ports: the claimed key, and which accesses reject.
pub record Run : Type 0 where
  pub key : Option RecordKey
  pub rejects : Access → Bool

-- `completeInvocation`, of a row that is there.
unfoldable pub complete_invocation :
    ℕ → ToolCallStatus → Option String → List Invocation → List Invocation
complete_invocation id status code [] = []
complete_invocation id status code (i ∷ is) =
    let rest = complete_invocation id status code is in
    if i.tool_call_id == id
    then record i {
      status = some status;
      error_code = elim code [ none ↦ i.error_code | some c ↦ some c ];
    }
      ∷ is
    else i ∷ rest

abbrev pub started_attempt : ℕ → ℕ → Attempt
started_attempt id n = record {
  tool_call_id = id;
  attempt = n;
  status = started;
  submitted = none;
  result_known = none;
  retryable = none;
}

-- `attempts.set(key, record)`.
unfoldable pub put_attempt : Attempt → List Attempt → List Attempt
put_attempt new [] = new ∷ []
put_attempt new (a ∷ as') =
    if a.tool_call_id == new.tool_call_id && a.attempt == new.attempt
    then new ∷ as'
    else a ∷ put_attempt new as'

abbrev pub attempt_status : ToolCallStatus → AttemptStatus
attempt_status outcome_unknown = attempt_unknown
attempt_status success = completed
attempt_status _ = attempt_failed
