-- ===== src/Outreach/Gate/Decision.antt =====
-- The decisions of the gate (packages/outreach/src/safety/safety-decision.ts), without the text of
-- their reasons, and the outcomes of the approval port
-- (packages/outreach/src/ports/approval-verification-port.interface.ts).
use vega_revenue_os.Prelude.{ℕ, Option, none, some}

pub data DenialCode : Type 0 where
  invalid_tenant_context not_allowlisted suppressed : DenialCode
  approval_not_found approval_wrong_tenant approval_wrong_target approval_expired : DenialCode
  approval_rejected approval_cancelled approval_pending approval_invalid_action_type : DenialCode
  rate_limited redis_unavailable budget_send_count_exceeded budget_cost_exceeded : DenialCode
  duplicate_send invalid_content : DenialCode

pub data SafetyDecision : Type 0 where
  allow : SafetyDecision
  deny : DenialCode → SafetyDecision
  retryable : DenialCode → (retry_after_ms : ℕ) → SafetyDecision

pub data ApprovalOutcome : Type 0 where
  approved not_found wrong_tenant wrong_target expired rejected : ApprovalOutcome
  cancelled pending invalid_action_type : ApprovalOutcome

-- `approvalDenialCode`, and none for the outcome APPROVED, which it is not asked for.
unfoldable pub approval_denial_code : ApprovalOutcome → Option DenialCode
approval_denial_code approved = none
approval_denial_code not_found = some approval_not_found
approval_denial_code wrong_tenant = some approval_wrong_tenant
approval_denial_code wrong_target = some approval_wrong_target
approval_denial_code expired = some approval_expired
approval_denial_code rejected = some approval_rejected
approval_denial_code cancelled = some approval_cancelled
approval_denial_code pending = some approval_pending
approval_denial_code invalid_action_type = some approval_invalid_action_type
