-- ===== src/Approval/Verify.antt =====
-- The verification of an approval
-- (packages/mission-orchestrator/src/infrastructure/approval-verification-adapter.ts).
use text.Mathlib.Text.{◌==◌ as str_eq}
use vega_revenue_os.Prelude.{
  ℕ, ◌+◌, ◌*◌, ◌≡◌, ◌↔◌, Bool, true, false, not, Option, none, some, ◌==◌, ltb, if◌then◌else◌,
  arith, Option-cases, inl, inr,
}
use vega_revenue_os.Outreach.Gate.Decision.{
  ApprovalOutcome, not_found, wrong_tenant, wrong_target, invalid_action_type,
}
use vega_revenue_os.Outreach.Gate.Evaluate.{ApprovalRequest}
use vega_revenue_os.Approval.State.{Approval, ApprovalStatus}

-- `approval.x !== undefined && approval.x !== request.x`
abbrev pub differs : Option ℕ → ℕ → Bool
differs none x = false
differs (some y) x = not (y == x)

-- `Date.now() > createdAt + timeoutSeconds * 1000`
abbrev pub is_late : ℕ → Approval → Bool
is_late now a = ltb (a.created_at + a.key.timeout_seconds * 1000) now

-- The last tests, on the status.
unfoldable pub status_outcome : ℕ → Approval → ApprovalOutcome
status_outcome now a = elim a.status [
  | ApprovalStatus.rejected ↦ ApprovalOutcome.rejected
  | ApprovalStatus.escalated ↦ ApprovalOutcome.pending
  | ApprovalStatus.pending ↦ ApprovalOutcome.pending
  | ApprovalStatus.expired ↦ ApprovalOutcome.expired
  | ApprovalStatus.approved ↦
      if is_late now a then ApprovalOutcome.expired else ApprovalOutcome.approved
]

-- What follows once the approval is loaded.
unfoldable pub verify_loaded : ℕ → ℕ → ApprovalRequest → Approval → ApprovalOutcome
unfolding status_outcome
verify_loaded now tenant r a =
    if not (a.root.tenant_id == tenant)
    then wrong_tenant
    else if differs a.key.execution_id r.execution_id
    then wrong_target
    else if differs a.key.sequence_id r.sequence_id
    then wrong_target
    else if not (a.key.idempotency_key == r.idempotency_key)
    then wrong_target
    else if not (str_eq a.key.action_type r.action_type)
    then invalid_action_type
    else status_outcome now a

-- `verify`, where `load` is `approvalRepository.load` for a tenant and an id.
unfoldable pub verify :
    (ℕ → ℕ → Option Approval) → (now tenant : ℕ) → ApprovalRequest → ApprovalOutcome
unfolding verify_loaded
verify load now tenant r = elim (load tenant r.approval_id) [
  | none ↦ not_found
  | some a ↦ verify_loaded now tenant r a
]

-- An approval that lets the requested send happen.
pub record IsFor (now tenant : ℕ) (r : ApprovalRequest) (a : Approval) : Type 0 where
  pub tenant_id : a.root.tenant_id ≡ tenant
  pub execution : differs a.key.execution_id r.execution_id ≡ false
  pub sequence : differs a.key.sequence_id r.sequence_id ≡ false
  pub idempotency_key : a.key.idempotency_key ≡ r.idempotency_key
  pub action_type : str_eq a.key.action_type r.action_type ≡ true
  pub status : a.status ≡ ApprovalStatus.approved
  pub in_time : is_late now a ≡ false

verify-IsFor :
    (now tenant : ℕ) (r : ApprovalRequest) (a : Approval)
    → verify_loaded now tenant r a ≡ ApprovalOutcome.approved
    → IsFor now tenant r a
unfolding verify_loaded status_outcome
verify-IsFor now tenant r a h = ground arith

IsFor-verify :
    (now tenant : ℕ) (r : ApprovalRequest) (a : Approval)
    → IsFor now tenant r a
    → verify_loaded now tenant r a ≡ ApprovalOutcome.approved
unfolding verify_loaded status_outcome
IsFor-verify now tenant r a h = ground arith

-- The approvals port answers APPROVED exactly if an approval is stored under the requested id that
-- belongs to the tenant, names the execution's idempotency key and the action, names no other
-- execution or sequence, and is approved and not past its time.
pub verify_iff :
    (load : ℕ → ℕ → Option Approval) (now tenant : ℕ) (r : ApprovalRequest)
    → (verify load now tenant r ≡ ApprovalOutcome.approved)
      ↔ ((a : Approval) × (load tenant r.approval_id ≡ some a) × IsFor now tenant r a)
unfolding verify
verify_iff load now tenant r = elim (Option-cases (load tenant r.approval_id)) [
  | inl h ↦ (λ done. cc (rw (h, verify) at done), λ (a, found, w). cc (found, h))
  | inr (b, h) ↦ (
    λ done. (b, h, verify-IsFor now tenant r b (rw (h, verify) at done)),
    λ (a, found, w). rw (found, verify) (IsFor-verify now tenant r a w),
  )
]
