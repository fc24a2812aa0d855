-- ===== src/Outreach/Execution/Status.antt =====
-- The states of a message execution and its table
-- (packages/domain/src/outreach/message-execution-status.ts).
use vega_revenue_os.Prelude.{Bool, true, false}

pub data ExecutionStatus : Type 0 where
  pending drafting pending_approval approved sending provider_accepted : ExecutionStatus
  delivery_pending delivered opened replied bounced : ExecutionStatus
  failed_pre_submission delivery_failed delivery_unknown : ExecutionStatus
  requires_reconciliation failed cancelled : ExecutionStatus

-- The rows of `MESSAGE_EXECUTION_STATE_TRANSITIONS`, read by `includes`.
unfoldable pub can_transition_execution : ExecutionStatus → ExecutionStatus → Bool
can_transition_execution pending drafting = true
can_transition_execution drafting pending_approval = true
can_transition_execution drafting failed = true
can_transition_execution pending_approval approved = true
can_transition_execution pending_approval failed = true
can_transition_execution approved sending = true
can_transition_execution sending provider_accepted = true
can_transition_execution sending failed_pre_submission = true
can_transition_execution sending delivery_unknown = true
can_transition_execution sending requires_reconciliation = true
can_transition_execution provider_accepted delivery_pending = true
can_transition_execution delivery_pending delivered = true
can_transition_execution delivery_pending delivery_failed = true
can_transition_execution delivery_pending delivery_unknown = true
can_transition_execution delivery_pending requires_reconciliation = true
can_transition_execution delivered opened = true
can_transition_execution opened replied = true
can_transition_execution _ _ = false

-- `this.status === s`, for the states that the code asks for.
abbrev pub is_sending : ExecutionStatus → Bool
is_sending sending = true
is_sending _ = false

abbrev pub is_approved : ExecutionStatus → Bool
is_approved approved = true
is_approved _ = false

abbrev pub is_pending_approval : ExecutionStatus → Bool
is_pending_approval pending_approval = true
is_pending_approval _ = false

abbrev pub is_draftable : ExecutionStatus → Bool
is_draftable drafting = true
is_draftable pending = true
is_draftable _ = false

-- The states after the provider has accepted the message, but before the recipient replied.
abbrev pub is_submitted : ExecutionStatus → Bool
is_submitted provider_accepted = true
is_submitted delivery_pending = true
is_submitted delivered = true
is_submitted opened = true
is_submitted _ = false
