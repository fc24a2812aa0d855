-- ===== src/Outreach/Send/Response.antt =====
-- `recordResponse` (packages/outreach/src/application/outreach-execution.service.ts), and any history
-- of calls of the service.
use vega_revenue_os.Prelude.{ℕ, Bool, true, false, Option, none, some, List, [], ◌∷◌}
use vega_revenue_os.Outreach.Effect.{pure, ◌>>=◌, ◌>>◌}
use vega_revenue_os.Outreach.Execution.Status.{
  ExecutionStatus, provider_accepted, delivery_pending, delivered,
}
use vega_revenue_os.Outreach.Execution.State.{Execution}
use vega_revenue_os.Outreach.Execution.Commands.{mark_delivered, mark_opened, mark_replied}
use vega_revenue_os.Outreach.Send.World.{
  Call, SendWorld, load_execution, save_execution, ensure_same_tenant,
}
use vega_revenue_os.Outreach.Send.Duplicate.{when}
use vega_revenue_os.Outreach.Send.Steps.{Step}
use vega_revenue_os.Outreach.Send.Execute.{execute_approved_send}

pub data ResponseType : Type 0 where
  opened replied : ResponseType

abbrev is_replied : ResponseType → Bool
is_replied opened = false
is_replied replied = true

abbrev is_awaiting : ExecutionStatus → Bool
is_awaiting provider_accepted = true
is_awaiting delivery_pending = true
is_awaiting _ = false

abbrev is_delivered : ExecutionStatus → Bool
is_delivered delivered = true
is_delivered _ = false

module _ {D : Type 0} {L : Type 0} {R : Type 0} (k : Call D L R) where
  -- What the response makes of the execution; the results of the commands are not looked at.
  unfoldable pub respond : ResponseType → Execution → Execution
  unfolding mark_delivered mark_opened mark_replied
  respond type x =
      let y = when (is_awaiting x.status) (mark_delivered none (k.stamp 0)) x in
      let z = when (is_delivered y.status) (mark_opened (k.stamp 1)) y in
      when (is_replied type) (mark_replied (k.stamp 2)) z

  abbrev pub respond_and_save : ResponseType → Option Execution → Step k (Unit {0})
  respond_and_save type none = pure tt
  respond_and_save type (some x) = do
    ensure_same_tenant k.ctx x.root.tenant_id
    y ← save_execution k.ctx (respond type x)
    pure tt

  -- `recordResponse`.
  unfoldable pub record_response : ℕ → ResponseType → Step k (Unit {0})
  unfolding load_execution ensure_same_tenant save_execution respond
  record_response id type = do loaded ← load_execution k.ctx id; respond_and_save type loaded

-- A call of the service by any worker, with any context and any answers of the ports.
pub data ServiceCall (D : Type 0) (L : Type 0) (R : Type 0) : Type 0 where
  execute : Call D L R → (id approval_id : ℕ) → ServiceCall D L R
  response : Call D L R → (id : ℕ) → ResponseType → ServiceCall D L R

module _ {D : Type 0} {L : Type 0} {R : Type 0} where
  unfoldable pub serve : ServiceCall D L R → SendWorld D L R → SendWorld D L R
  unfolding execute_approved_send record_response
  serve (execute k id approval_id) w = (execute_approved_send k id approval_id w).0
  serve (response k id type) w = (record_response k id type w).0

  -- The world after the calls, one after the other.
  unfoldable pub serve_all : List (ServiceCall D L R) → SendWorld D L R → SendWorld D L R
  unfolding serve
  serve_all [] w = w
  serve_all (c ∷ cs) w = serve_all cs (serve c w)
