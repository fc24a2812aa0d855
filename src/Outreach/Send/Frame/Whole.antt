-- ===== src/Outreach/Send/Frame/Whole.antt =====
-- What a whole call changes (packages/outreach/src/application/outreach-execution.service.ts): what
-- holds from the gate's evaluation on holds of the call.
use vega_revenue_os.Prelude.{
  ℕ, ◌≡◌, Bool, true, false, Option, none, some, arith, if◌then◌else◌, ◌==◌,
}
use vega_revenue_os.Outreach.Effect.{
  Any, Ends, bind-Ends, catch_conflict, catch_conflict-Ends, body, body-Keeps, pure, found, throw,
  guard, ◌>>=◌,
}
use vega_revenue_os.Outreach.Execution.Status.{is_pending_approval, is_approved, is_sending}
use vega_revenue_os.Outreach.Execution.State.{Execution, non_retryable, rate_limited}
use vega_revenue_os.Outreach.Execution.Commands.{approve, mark_sending}
use vega_revenue_os.Outreach.Execution.Command.{Command, run}
use vega_revenue_os.Outreach.Sequence.State.{Sequence}
use vega_revenue_os.Outreach.Campaign.State.{Campaign}
use vega_revenue_os.Outreach.Gate.Decision.{SafetyDecision, allow, deny, retryable, duplicate_send}
use vega_revenue_os.Outreach.Gate.Effect.{is_allow}
use vega_revenue_os.Outreach.Send.World.{
  Call, SendWorld, SendResult, completed, failed, denied, not_ready, execution_not_found,
  sequence_not_found, campaign_not_found, step_not_found, recovery_failed, not_found_after_conflict,
  conflict_persisted, at_status, load_sequence, load_campaign, ensure_same_tenant,
}
use vega_revenue_os.Outreach.Send.Recovery.{recover_and_verify_recipient}
use vega_revenue_os.Outreach.Send.Duplicate.{is_positive_terminal, is_terminal_failure, error_or}
use vega_revenue_os.Outreach.Send.Steps.{Step, find_step, ready_to_send}
use vega_revenue_os.Outreach.Send.Execute.{
  ask_and_act, do_execute_approved_send, load_sendable, Sendable, continue_send,
  execute_approved_send, on_decision, resolve_from_authoritative_state, send_loaded, send_ready,
}
use vega_revenue_os.Outreach.Send.Attempt.{Loaded}
use vega_revenue_os.Outreach.Send.Response.{
  ResponseType, respond, respond_and_save, record_response,
}
use vega_revenue_os.Outreach.Send.Frame
use vega_revenue_os.Outreach.Send.Frame.{IsFrame, Kept, IfSome}
use vega_revenue_os.Outreach.Send.Frame.Duplicate
use vega_revenue_os.Outreach.Send.Frame.Answer

module _ {D : Type 0} {L : Type 0} {R : Type 0} (k : Call D L R) {id : ℕ} {P : Execution → Type 0}
    {T : SendWorld D L R → SendWorld D L R → Type 0} (frame : IsFrame k.ctx id P T) where
  found-Any-Kept : {A : Type 0} (e : SendResult) (o : Option A) → Kept k frame Any (found e o)
  found-Any-Kept e none = record { at = λ w. (frame.self w, tt) }
  found-Any-Kept e (some a) = record { at = λ w. (frame.self w, tt) }

  guard-Kept : (b : Bool) (e : SendResult) → Kept k frame Any (guard b e)
  guard-Kept true e = record { at = λ w. (frame.self w, tt) }
  guard-Kept false e = record { at = λ w. (frame.self w, tt) }

  pure_P-Kept : (x : Execution) → P x → Kept k frame P (pure x)
  pure_P-Kept x p = record { at = λ w. (frame.self w, p) }

  ready_to_send-Kept :
      (approval : ℕ) (x : Execution) → P x → Kept k frame P (ready_to_send k id approval x)
  unfolding ready_to_send run
  ready_to_send-Kept approval x p =
      Frame.bind-Kept k frame P P
        (Frame.if-Kept k frame P (is_pending_approval x.status)
          (Answer.checked-Kept k frame (approve approval (k.stamp 0) x)
            (frame.command (Command.approve approval) (k.stamp 0) x p))
          (pure_P-Kept x p))
        λ y q.
          Frame.bind-Kept k frame P P
            (Frame.if-Kept k frame P (is_approved y.status)
              (Answer.checked-Kept k frame (mark_sending (k.stamp 1) y)
                (frame.command Command.mark_sending (k.stamp 1) y q))
              (pure_P-Kept y q))
            λ z r.
              Frame.bind-Kept k frame Any P
                (guard-Kept (is_sending z.status) (failed id (not_ready z.status)))
                λ u h. pure_P-Kept z r

  load_sequence-Kept : (q : ℕ) → Kept k frame Any (load_sequence k.ctx q)
  unfolding load_sequence
  load_sequence-Kept q = record { at = λ w. (frame.self w, tt) }

  load_campaign-Kept : (c : ℕ) → Kept k frame Any (load_campaign k.ctx c)
  unfolding load_campaign
  load_campaign-Kept c = record { at = λ w. (frame.self w, tt) }

  throw-Kept : {A : Type 0} → Kept k frame Any (throw {A = A})
  throw-Kept = record { at = λ w. (frame.self w, tt) }

  ensure_same_tenant-Kept : (tenant : ℕ) → Kept k frame Any (ensure_same_tenant k.ctx tenant)
  unfolding ensure_same_tenant
  ensure_same_tenant-Kept tenant =
      Frame.if-Kept k frame Any (k.ctx.tenant_id == tenant) (Frame.pure-Kept k frame tt) throw-Kept

  sendable-Kept : (s : Sendable D) → P s.execution → Kept k frame (λ s. P s.execution) (pure s)
  sendable-Kept s p = record { at = λ w. (frame.self w, p) }

  pub load_sendable-Kept :
      (approval : ℕ) → Kept k frame (λ s. P s.execution) (load_sendable k id approval)
  unfolding load_sendable
  load_sendable-Kept approval =
      let Q : Sendable D → Type 0 = λ s. P s.execution in
      Frame.bind-Kept k frame (IfSome P) Q (Frame.load_execution-Kept k frame) λ o h.
        Frame.bind-Kept k frame P Q (Frame.found-Kept k frame (failed id execution_not_found) o h)
          λ x p. Frame.bind-Kept k frame Any Q (ensure_same_tenant-Kept x.root.tenant_id) λ u h.
            Frame.bind-Kept k frame Any Q (load_sequence-Kept x.key.sequence_id) λ o h.
              Frame.bind-Kept k frame Any Q (found-Any-Kept (failed id sequence_not_found) o) λ q h.
                Frame.bind-Kept k frame Any Q (ensure_same_tenant-Kept q.root.tenant_id) λ u h.
                  Frame.bind-Kept k frame Any Q (load_campaign-Kept x.key.campaign_id) λ o h.
                    Frame.bind-Kept k frame Any Q (found-Any-Kept (failed id campaign_not_found) o)
                      λ c h.
                        Frame.bind-Kept k frame Any Q (ensure_same_tenant-Kept c.root.tenant_id)
                          λ u h.
                            sendable-Kept (record { sequence = q; campaign = c; execution = x }) p

  respond-Kept : (type : ResponseType) (x : Execution) → P x → P (respond k type x)
  unfolding respond run
  respond-Kept type x p = Duplicate.when-Kept k frame _ Command.mark_replied (k.stamp 2) _ (
      Duplicate.when-Kept k frame _ Command.mark_opened (k.stamp 1) _
        (Duplicate.when-Kept k frame _ (Command.mark_delivered none) (k.stamp 0) x p))

  respond_and_save-Kept :
      (type : ResponseType) (o : Option Execution)
      → IfSome P o
      → Kept k frame Any (respond_and_save k type o)
  respond_and_save-Kept type none p = Frame.pure-Kept k frame tt
  respond_and_save-Kept type (some x) p =
      Frame.bind-Kept k frame Any Any (ensure_same_tenant-Kept x.root.tenant_id) λ u h.
        Frame.bind-Kept k frame P Any
          (Frame.save_execution-Kept k frame (respond k type x) (respond-Kept type x p))
          λ y g. Frame.pure-Kept k frame tt

  pub record_response-Kept : (type : ResponseType) → Kept k frame Any (record_response k id type)
  unfolding record_response
  record_response-Kept type =
      Frame.bind-Kept k frame (IfSome P) Any (Frame.load_execution-Kept k frame)
        λ o h. respond_and_save-Kept type o h

  pub resolve-Kept :
      (approval : ℕ) → Kept k frame Any (resolve_from_authoritative_state k id approval)
  unfolding resolve_from_authoritative_state
  resolve-Kept approval =
      Frame.bind-Kept k frame (IfSome P) Any (Frame.load_execution-Kept k frame) λ o h.
        Frame.bind-Kept k frame P Any
          (Frame.found-Kept k frame (failed id not_found_after_conflict) o h)
          λ x p.
            catch_conflict-Ends SendResult T T T frame.compose (λ u v t. t) Any
              (Duplicate.handle_duplicate_send-Kept k frame x)
              (Frame.pure-Kept k frame (failed id conflict_persisted))

  -- A decision other than ALLOW.
  pub on_refusal-Kept :
      (approval : ℕ) (l : Loaded D) (x : Execution) (d : SafetyDecision)
      → P x
      → is_allow d ≡ false
      → Kept k frame Any (on_decision k id approval l x d)
  unfolding on_decision
  on_refusal-Kept approval l x allow p h = absurd (ground arith)
  on_refusal-Kept approval l x (deny duplicate_send) p h =
      Duplicate.handle_duplicate_send-Kept k frame x
  on_refusal-Kept approval l x (deny code) p h =
      Frame.bind-Kept k frame Any Any
        (Frame.fail_and_release-Kept k frame non_retryable (k.denial_text code)
          (some (k.denial_code code)) x p)
        λ u g. Frame.pure-Kept k frame (failed id (denied code))
  on_refusal-Kept approval l x (retryable code ms) p h =
      Frame.bind-Kept k frame Any Any
        (Frame.fail_and_release-Kept k frame rate_limited (k.retry_text code) none x p)
        λ u g. Frame.pure-Kept k frame (SendResult.retryable id (some ms))

  -- `V` holds from the gate's evaluation on.
  module _ (V : SendWorld D L R → SendWorld D L R → Type 0)
      (before : (u v w : SendWorld D L R) → T u v → V v w → V u w)
      (after : (u v w : SendWorld D L R) → V u v → T v w → V u w)
      (weaken : (u v : SendWorld D L R) → T u v → V u v) (approval : ℕ)
      (asked : (l : Loaded D) (x : Execution)
        → P x
        → Ends V Any (ask_and_act k id approval l x)) where
    first :
        {A B : Type 0} {m : Step k A} {f : A → Step k B} (Q : A → Type 0) (O : B → Type 0)
        → Kept k frame Q m
        → ((a : A) → Q a → Ends V O (f a))
        → Ends V O (m >>= f)
    first = bind-Ends SendResult T V V before weaken

    choose :
        {A : Type 0} {m n : Step k A} (b : Bool)
        → Ends V Any m
        → Ends V Any n
        → Ends V Any (if b then m else n)
    choose true h g = h
    choose false h g = g

    weak : {A : Type 0} {m : Step k A} → Kept k frame Any m → Ends V Any m
    weak h = record { at = λ w. (weaken w _ (h.at w).0, (h.at w).1) }

    send_ready-Ends :
        (q : Sequence) (c : Campaign D) (x : Execution)
        → P x
        → Ends V Any (send_ready k id approval q c x)
    unfolding send_ready
    send_ready-Ends q c x p = first P Any (ready_to_send-Kept approval x p) λ y r.
        first Any Any
          (found-Any-Kept (failed id step_not_found) (find_step y.key.step_number q.key.steps))
          λ step g.
            first Any Any
              (found-Any-Kept (failed id recovery_failed) (recover_and_verify_recipient k y))
              λ address f.
                let l : Loaded D = record {
                  sequence = q;
                  campaign = c;
                  step = step;
                  recipient_address = address;
                } in
                asked l y r

    send_loaded-Ends :
        (q : Sequence) (c : Campaign D) (x : Execution)
        → P x
        → Ends V Any (send_loaded k id approval q c x)
    unfolding send_loaded
    send_loaded-Ends q c x p =
        choose (is_positive_terminal x.status) (weak (Frame.pure-Kept k frame (completed id none)))
          (choose (is_terminal_failure x.status)
            (weak
              (Frame.pure-Kept k frame (failed id (error_or x.last_error (at_status x.status)))))
            (send_ready-Ends q c x p))

    do_execute-Ends : Ends V Any (do_execute_approved_send k id approval)
    unfolding do_execute_approved_send
    do_execute-Ends =
        first (λ s. P s.execution) Any (load_sendable-Kept approval)
          λ s p. send_loaded-Ends s.sequence s.campaign s.execution p

    resolved-Keeps :
        (m : Step k SendResult) (w : SendWorld D L R)
        → Ends V Any m
        → V w (body (catch_conflict m (resolve_from_authoritative_state k id approval)) w).0
    resolved-Keeps m w h =
        let all =
          catch_conflict-Ends SendResult V T V after (λ u v t. t) Any h (resolve-Kept approval) in
        body-Keeps SendResult V (catch_conflict m (resolve_from_authoritative_state k id approval))
          w (all.at w).0

    -- The whole call, a refused save included.
    pub execute-Keeps : (w : SendWorld D L R) → V w (execute_approved_send k id approval w).0
    unfolding execute_approved_send
    execute-Keeps w = resolved-Keeps (do_execute_approved_send k id approval) w do_execute-Ends

    -- The same of a call that goes on from what it has loaded, in any later world.
    pub continue-Keeps :
        (s : Sendable D) (w : SendWorld D L R)
        → P s.execution
        → V w (continue_send k id approval s w).0
    unfolding continue_send
    continue-Keeps s w p =
        resolved-Keeps (send_loaded k id approval s.sequence s.campaign s.execution) w
          (send_loaded-Ends s.sequence s.campaign s.execution p)
