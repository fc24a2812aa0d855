-- ===== src/Approval/Gate.antt =====
-- The gate over the verification of approvals (packages/outreach/src/safety/send-safety-gate.ts,
-- packages/mission-orchestrator/src/infrastructure/approval-verification-adapter.ts).
use vega_revenue_os.Prelude.{ℕ, ◌≡◌, Option, some}
use vega_revenue_os.Idempotency.Store.{Json}
use vega_revenue_os.Outreach.Money.{Money}
use vega_revenue_os.Outreach.Gate.Decision.{allow}
use vega_revenue_os.Outreach.Gate.Evaluate.{Ports, GateInput, GateWorld, request_of, evaluate}
use vega_revenue_os.Outreach.Gate.Effect.{allow-IsCleared}
use vega_revenue_os.Approval.State.{Approval}
use vega_revenue_os.Approval.Verify.{verify, IsFor, verify_iff}

-- With the approvals of a repository, a send that the gate allows has an approval in it that is
-- approved, of the tenant, for the send's idempotency key and action, for no other execution or
-- sequence, and not past its time.
pub allowed_send_is_approved :
    {D : Type 0} {L : Type 0} {R : Type 0} (usd : Money D) (json : Json R) (now : ℕ)
    (load : ℕ → ℕ → Option Approval) (p : Ports L) (i : GateInput D) (w : GateWorld L R)
    → (evaluate usd json now (record p { verify = verify load now }) i w).decision ≡ allow
    → (a : Approval) × (load i.tenant_id i.approval_id ≡ some a)
      × IsFor now i.tenant_id (request_of i) a
allowed_send_is_approved usd json now load p i w h =
    let cleared = allow-IsCleared usd json now (record p { verify = verify load now }) i w h in
    (verify_iff load now i.tenant_id (request_of i)).0 cleared.approved
