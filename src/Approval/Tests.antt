-- ===== src/Approval/Tests.antt =====
-- Concrete approvals (packages/mission-orchestrator/src/domain/approval), and what the theorems
-- state of them.
use vega_revenue_os.Prelude.{
  ℕ, ◌≡◌, ◌↔◌, refl, Option, none, some, List, [], ◌∷◌, ◌==◌, is_blank, if◌then◌else◌,
}
use vega_revenue_os.Aggregate.{Stamp}
use vega_revenue_os.Mission.State.{WorkspaceBinding}
use vega_revenue_os.Idempotency.Store.{get}
use vega_revenue_os.Idempotency.Tests.{flags}
use vega_revenue_os.Outreach.Gate.Decision.{ApprovalOutcome, allow}
use vega_revenue_os.Outreach.Gate.Evaluate.{evaluate, request_of}
use vega_revenue_os.Outreach.Gate.Tests.{ports, input, world}
use vega_revenue_os.Outreach.Tests.{cents}
use vega_revenue_os.Approval.State.{Approval, ApprovalStatus, Command, run_all}
use vega_revenue_os.Approval.Decisions.{IsAccounted, decided_for_good, history-IsAccounted}
use vega_revenue_os.Approval.Verify.{IsFor, verify, verify_iff}
use vega_revenue_os.Approval.Gate.{allowed_send_is_approved}

abbrev stamp : Stamp
stamp = record { event_id = 900; correlation_id = 901; now = 1000 }

abbrev approval : ApprovalStatus → Option ℕ → Approval
approval status by = record {
  root = record { tenant_id = 7; id = 9; version = 1; loaded_version = some 1; domain_events = [] };
  key = record {
    workspace_id = some "w";
    workspace_binding_state = some WorkspaceBinding.workspace_bound;
    mission_id = 1;
    sequence_id = some 4;
    task_id = none;
    execution_id = some 6;
    action_type = "OUTREACH_EMAIL_SEND";
    timeout_seconds = 60;
    idempotency_key = 42;
    correlation_id = 901;
  };
  status = status;
  decided_by = by;
  decision_reason = none;
  created_at = 100;
  updated_at = 100;
}

abbrev commands : List (Command × Stamp)
commands =
    (Command.escalate, stamp)
    ∷ (Command.approve 3 "fine", stamp)
    ∷ (Command.reject 4 "too late", stamp)
    ∷ (Command.expire, stamp)
    ∷ []

decided_for_good_example :
    run_all commands (approval ApprovalStatus.approved (some 3))
    ≡ approval ApprovalStatus.approved (some 3)
decided_for_good_example =
    decided_for_good commands (approval ApprovalStatus.approved (some 3)) refl

pending-IsAccounted : IsAccounted (approval ApprovalStatus.pending none)
pending-IsAccounted = record { decider = λ e. cc; logged = refl }

history-IsAccounted_example : IsAccounted (run_all commands (approval ApprovalStatus.pending none))
history-IsAccounted_example =
    history-IsAccounted commands (approval ApprovalStatus.pending none) pending-IsAccounted

-- A repository with one approval, under the id 9.
abbrev load : ℕ → ℕ → Option Approval
load tenant id = if id == 9 then some (approval ApprovalStatus.approved (some 3)) else none

verify_iff_example :
    (verify load 1000 7 (request_of input) ≡ ApprovalOutcome.approved)
    ↔ ((a : Approval) × (load 7 9 ≡ some a) × IsFor 1000 7 (request_of input) a)
verify_iff_example = verify_iff load 1000 7 (request_of input)

allowed :
    (evaluate cents flags 1000 (record ports { verify = verify load 1000 }) input world).decision
    ≡ allow
unfolding evaluate verify is_blank get
allowed = refl

allowed_send_is_approved_example :
    (a : Approval) × (load 7 9 ≡ some a) × IsFor 1000 7 (request_of input) a
allowed_send_is_approved_example =
    allowed_send_is_approved cents flags 1000 load ports input world allowed
