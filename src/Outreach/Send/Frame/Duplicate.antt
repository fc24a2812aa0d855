-- ===== src/Outreach/Send/Frame/Duplicate.antt =====
-- What the handling of a duplicate changes
-- (packages/outreach/src/application/outreach-execution.service.ts).
use vega_revenue_os.Prelude.{not, ◌&&◌, ℕ, String, Bool, true, false, Option, none, some}
use vega_revenue_os.Aggregate.{Stamp}
use vega_revenue_os.Idempotency.Store.{IdempotencyRecord, RecordStatus}
use vega_revenue_os.Outreach.Effect.{Any}
use vega_revenue_os.Outreach.Execution.State.{Execution}
use vega_revenue_os.Outreach.Execution.Command.{Command, run}
use vega_revenue_os.Outreach.Execution.Commands.{mark_delivery_unknown}
use vega_revenue_os.Outreach.Send.World.{
  failed, not_found_after_duplicate, outcome_unknown, Call, SendWorld,
}
use vega_revenue_os.Outreach.Send.Duplicate.{
  save_and_answer, recover_completed, resolve_pending, require_reconciliation, resolve_record,
  resolve_status, get_record, handle_duplicate_send, result_from_execution, when,
  advance_to_delivery_pending, stale_claim, unproven, text_or, is_positive_terminal,
  is_expired_idempotency, is_in_flight, has_submission_attempt,
}
use vega_revenue_os.Outreach.Send.Frame
use vega_revenue_os.Outreach.Send.Frame.{IsFrame, IfSome}

module _ {D : Type 0} {L : Type 0} {R : Type 0} (k : Call D L R) {id : ℕ} {P : Execution → Type 0}
    {T : SendWorld D L R → SendWorld D L R → Type 0} (frame : IsFrame k.ctx id P T) where
  save_and_answer-Kept : (x : Execution) → P x → Frame.Kept k frame Any (save_and_answer k x id)
  save_and_answer-Kept x p =
      Frame.bind-Kept k frame Any Any (Frame.save_authoritative-Kept k frame x p)
        (λ y h. Frame.pure-Kept k frame (result_from_execution x id))

  pub when-Kept :
      (b : Bool) (c : Command) (s : Stamp) (x : Execution) → P x → P (when b (run c s) x)
  when-Kept true c s x p = frame.command c s x p
  when-Kept false c s x p = p

  advance_to_delivery_pending-Kept :
      (p i : Option String) (s : Stamp) (x : Execution)
      → P x
      → P (advance_to_delivery_pending p i s x)
  unfolding advance_to_delivery_pending run
  advance_to_delivery_pending-Kept p i s x h = when-Kept _ Command.mark_delivery_pending s _ (
      when-Kept _ (Command.mark_provider_accepted p i none) s _
        (when-Kept _ Command.mark_sending s x h))

  recover_completed-Kept :
      (r : IdempotencyRecord R) (x : Execution)
      → P x
      → Frame.Kept k frame Any (recover_completed k r id x)
  unfolding recover_completed
  recover_completed-Kept r x p =
      Frame.if-Kept k frame Any _
        (save_and_answer-Kept _ (advance_to_delivery_pending-Kept _ _ (k.stamp 6) x p))
        (Frame.pure-Kept k frame _)

  resolve_pending-Kept :
      (r : IdempotencyRecord R) (x : Execution)
      → P x
      → Frame.Kept k frame Any (resolve_pending k r id x)
  unfolding resolve_pending run
  resolve_pending-Kept r x p =
      let stays = Frame.pure-Kept k frame (result_from_execution x id) in
      let s = k.stamp 6 in
      Frame.if-Kept k frame Any (is_positive_terminal x.status) stays (
        Frame.if-Kept k frame Any (not (is_expired_idempotency k.now r))
          (Frame.pure-Kept k frame (failed id outcome_unknown))
          (Frame.if-Kept k frame Any (is_in_flight x.status && has_submission_attempt x)
            (save_and_answer-Kept (mark_delivery_unknown stale_claim s x).0
              (frame.command (Command.mark_delivery_unknown stale_claim) s x p))
            stays))

  require_reconciliation-Kept :
      (reason : Option String) (x : Execution)
      → P x
      → Frame.Kept k frame Any (require_reconciliation k reason id x)
  unfolding require_reconciliation run
  require_reconciliation-Kept reason x p = Frame.if-Kept k frame Any _ (Frame.pure-Kept k frame _) (
      save_and_answer-Kept _ (
        frame.command (Command.mark_requires_reconciliation (text_or reason unproven)) (k.stamp 6) x
          p))

  resolve_status-Kept :
      (x : Execution) (r : IdempotencyRecord R) (status : RecordStatus)
      → P x
      → Frame.Kept k frame Any (resolve_status k id x r status)
  resolve_status-Kept x r RecordStatus.completed p = recover_completed-Kept r x p
  resolve_status-Kept x r RecordStatus.pending p = resolve_pending-Kept r x p
  resolve_status-Kept x r RecordStatus.failed p =
      require_reconciliation-Kept (k.json.reason r.result) x p

  resolve_record-Kept :
      (x : Execution) (o : Option (IdempotencyRecord R))
      → P x
      → Frame.Kept k frame Any (resolve_record k id x o)
  resolve_record-Kept x none p = require_reconciliation-Kept none x p
  resolve_record-Kept x (some r) p = resolve_status-Kept x r r.status p

  get_record-Kept : (local : Execution) → Frame.Kept k frame Any (get_record k local)
  unfolding get_record
  get_record-Kept local = record { at = λ w. (frame.self w, tt) }

  pub handle_duplicate_send-Kept :
      (local : Execution) → Frame.Kept k frame Any (handle_duplicate_send k local id)
  unfolding handle_duplicate_send
  handle_duplicate_send-Kept local =
      Frame.bind-Kept k frame Any Any (get_record-Kept local) λ existing h.
        Frame.bind-Kept k frame (IfSome P) Any (Frame.load_execution-Kept k frame) λ o g.
          Frame.bind-Kept k frame P Any
            (Frame.found-Kept k frame (failed id not_found_after_duplicate) o g)
            λ x p. resolve_record-Kept x existing p
