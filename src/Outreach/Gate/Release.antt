-- ===== src/Outreach/Gate/Release.antt =====
-- What the send service does with a decision of the gate other than ALLOW
-- (packages/outreach/src/application/outreach-execution.service.ts), for the table of keys.
use vega_revenue_os.Prelude.{ℕ, Bool, false, none}
use vega_revenue_os.Idempotency.Store.{RecordStatus, Json, set}
use vega_revenue_os.Outreach.Execution.State.{Execution}
use vega_revenue_os.Outreach.Gate.Decision.{SafetyDecision, allow, deny, retryable, duplicate_send}
use vega_revenue_os.Outreach.Gate.Evaluate.{GateWorld, send_key}

module _ {L : Type 0} {R : Type 0} (json : Json R) (now : ℕ) where
  -- `markIdempotencyFailed(ctx, execution, submitted)`.
  unfoldable pub mark_idempotency_failed : ℕ → Execution → Bool → GateWorld L R → GateWorld L R
  unfolding set
  mark_idempotency_failed tenant x submitted w = record w {
    table =
        set now (send_key tenant x) (json.with_submitted submitted) RecordStatus.failed none
          w.table;
  }

  -- The branches of `doExecuteApprovedSend` on a decision: a duplicate leaves the table as it is,
  -- every other denial and every retry stores a failure.
  unfoldable pub settle : ℕ → Execution → SafetyDecision → GateWorld L R → GateWorld L R
  unfolding mark_idempotency_failed
  settle tenant x allow w = w
  settle tenant x (deny duplicate_send) w = w
  settle tenant x (deny code) w = mark_idempotency_failed tenant x false w
  settle tenant x (retryable code ms) w = mark_idempotency_failed tenant x false w
