-- ===== src/Approval/State.antt =====
-- The approval aggregate (packages/mission-orchestrator/src/domain/approval/approval.ts), its table
-- (approval-status.ts) and events (approval-events.ts). The risk category, the proposed action, the
-- evidence, the reasoning, the confidence, the requester and the approver's role are left out: no
-- code of the aggregate or of the verification reads them.
use vega_revenue_os.Prelude.{
  ℕ, String, Bool, true, false, not, ◌||◌, Option, none, some, List, [], ◌∷◌, is_missing,
  if◌then◌else◌,
}
use vega_revenue_os.Aggregate.{
  Stamp, AggregateRoot, Outcome, ok, fail, new_root, emit, clear_domain_events, set_version,
}
use vega_revenue_os.Mission.State.{WorkspaceBinding, is_bound}

pub data ApprovalStatus : Type 0 where
  pending approved rejected expired escalated : ApprovalStatus

-- The rows of `APPROVAL_STATE_TRANSITIONS`.
unfoldable pub can_transition_approval : ApprovalStatus → ApprovalStatus → Bool
can_transition_approval pending approved = true
can_transition_approval pending rejected = true
can_transition_approval pending expired = true
can_transition_approval pending escalated = true
can_transition_approval escalated approved = true
can_transition_approval escalated rejected = true
can_transition_approval escalated expired = true
can_transition_approval _ _ = false

-- The reason that a decision carries.
pub data DecisionReason : Type 0 where
  given : String → DecisionReason
  timeout_exceeded approval_escalated : DecisionReason

-- What is fixed when the approval is requested.
pub record ApprovalKey : Type 0 where
  pub workspace_id : Option String
  pub workspace_binding_state : Option WorkspaceBinding
  pub mission_id : ℕ
  pub sequence_id : Option ℕ
  pub task_id : Option ℕ
  pub execution_id : Option ℕ
  pub action_type : String
  pub timeout_seconds : ℕ
  pub idempotency_key : ℕ
  pub correlation_id : ℕ

pub data ApprovalEvent : Type 0 where
  approval_requested : (approval_id : ℕ) → ApprovalKey → ApprovalEvent
  approval_status_changed :
      (approval_id mission_id : ℕ) → ApprovalStatus → Option ℕ → DecisionReason → ApprovalEvent

pub data ApprovalError : Type 0 where
  workspace_required : ApprovalError
  cannot_transition : ApprovalStatus → ApprovalStatus → ApprovalError

pub record Approval : Type 0 where
  pub root : AggregateRoot ApprovalEvent
  pub key : ApprovalKey
  pub status : ApprovalStatus
  pub decided_by : Option ℕ
  pub decision_reason : Option DecisionReason
  pub created_at : ℕ
  pub updated_at : ℕ

pub data ApprovalCreated : Type 0 where
  created : Approval → ApprovalCreated
  refused : ApprovalError → ApprovalCreated

-- The constructor, for properties without a status, a decision or times.
unfoldable pub new_approval : ℕ → ℕ → ApprovalKey → ℕ → Approval
new_approval tenant id key now = record {
  root = new_root tenant id;
  key = key;
  status = pending;
  decided_by = none;
  decision_reason = none;
  created_at = now;
  updated_at = now;
}

-- `Approval.create`, for the same.
unfoldable pub create_approval : ℕ → ℕ → ApprovalKey → Stamp → ApprovalCreated
unfolding new_approval
create_approval tenant id key s =
    if not (is_bound key.workspace_binding_state) || is_missing key.workspace_id
    then refused workspace_required
    else (let a = new_approval tenant id key s.now in
        created (record a { root = emit s (approval_requested id key) a.root }))

-- `Approval.reconstitute`, of a snapshot that has every property.
unfoldable pub reconstitute_approval : Approval → ℕ → Approval
reconstitute_approval a version = record a {
  root = clear_domain_events (set_version version a.root);
}

-- `transition`.
unfoldable pub transition :
    ApprovalStatus → Option ℕ → DecisionReason → Stamp → Approval → Approval × Outcome ApprovalError
unfolding can_transition_approval
transition to by why s a =
    if not (can_transition_approval a.status to)
    then (a, fail (cannot_transition a.status to))
    else (
      record a {
        status = to;
        decided_by = by;
        decision_reason = some why;
        updated_at = s.now;
        root = emit s (approval_status_changed a.root.id a.key.mission_id to by why) a.root;
      },
      ok,
    )

pub data Command : Type 0 where
  approve reject : ℕ → String → Command
  expire escalate : Command

-- `approve`, `reject`, `expire` and `escalate`.
unfoldable pub run : Command → Stamp → Approval → Approval × Outcome ApprovalError
unfolding transition
run (approve by why) s a = transition approved (some by) (given why) s a
run (reject by why) s a = transition rejected (some by) (given why) s a
run expire s a = transition expired none timeout_exceeded s a
run escalate s a = transition escalated none approval_escalated s a

-- A history of commands, the refused ones among them.
unfoldable pub run_all : List (Command × Stamp) → Approval → Approval
run_all [] a = a
run_all ((c, s) ∷ cs) a = run_all cs (run c s a).0
