-- ===== src/Outreach/Send/Execute.antt =====
-- `executeApprovedSend` (packages/outreach/src/application/outreach-execution.service.ts).
use vega_revenue_os.Prelude.{ℕ, Option, none, some, if◌then◌else◌}
use vega_revenue_os.Aggregate.{Outcome, ok, fail}
use vega_revenue_os.Outreach.Effect.{pure, ◌>>=◌, ◌>>◌, throw, found, body, catch_conflict}
use vega_revenue_os.Outreach.Execution.State.{
  Execution, ExecutionError, non_retryable, rate_limited,
}
use vega_revenue_os.Outreach.Execution.Commands.{mark_provider_attempt}
use vega_revenue_os.Outreach.Sequence.State.{Sequence}
use vega_revenue_os.Outreach.Campaign.State.{Campaign}
use vega_revenue_os.Outreach.Gate.Decision.{SafetyDecision, allow, deny, duplicate_send}
use vega_revenue_os.Outreach.Gate.Evaluate.{GateInput, Evaluated, evaluate}
use vega_revenue_os.Outreach.Send.World.{
  SendResult, Provider, Call, completed, retryable, failed, execution_not_found, sequence_not_found,
  campaign_not_found, step_not_found, not_found_after_conflict, conflict_persisted, recovery_failed,
  no_provider, at_status, denied, load_execution, load_sequence, load_campaign, ensure_same_tenant,
}
use vega_revenue_os.Outreach.Send.Recovery.{recover_and_verify_recipient}
use vega_revenue_os.Outreach.Send.Duplicate.{
  is_positive_terminal, is_terminal_failure, error_or, handle_duplicate_send,
}
use vega_revenue_os.Outreach.Send.Steps.{
  action_type_for_channel, find_step, Step, ready_to_send, fail_and_release,
}
use vega_revenue_os.Outreach.Send.Attempt.{Loaded, send_attempt}

-- What a call has loaded.
pub record Sendable (D : Type 0) : Type 0 where
  pub sequence : Sequence
  pub campaign : Campaign D
  pub execution : Execution

module _ {D : Type 0} {L : Type 0} {R : Type 0} (k : Call D L R) (id : ℕ) (approval_id : ℕ) where
  -- `markProviderAttempt` throws where it fails.
  abbrev pub attempted : Execution × Outcome ExecutionError → Step k Execution
  attempted (x, ok) = pure x
  attempted (x, fail e) = throw

  abbrev pub send_by : Option (Provider D) → Loaded D → Execution → Step k SendResult
  send_by none l x = do
    fail_and_release k non_retryable "No provider available for channel" (some "NO_PROVIDER") x
    pure (failed id no_provider)
  send_by (some provider) l x = do
    y ← attempted (mark_provider_attempt provider.provider_id k.now x)
    send_attempt k id approval_id provider l y

  -- The gate has allowed the send.
  unfoldable pub send_allowed : Loaded D → Execution → Step k SendResult
  unfolding fail_and_release mark_provider_attempt send_attempt
  send_allowed l x = send_by (k.select l.step.channel) l x

  abbrev pub gate_input : Loaded D → Execution → GateInput D
  gate_input l x = record {
    tenant_id = k.ctx.tenant_id;
    campaign = l.campaign;
    execution = x;
    recipient_address = l.recipient_address;
    approval_id = approval_id;
    action_type = action_type_for_channel l.step.channel;
    estimated_cost_usd = k.cost_estimate l.step.channel;
  }

  -- `safetyGate.evaluate`, which changes the campaign that it is given.
  unfoldable pub ask_gate : Loaded D → Execution → Step k (Evaluated D L R)
  unfolding evaluate
  ask_gate l x w =
      let e = evaluate k.usd k.json.json k.now k.ports (gate_input l x) w.gate in
      pure e (record w { gate = e.world })

  unfoldable pub on_decision : Loaded D → Execution → SafetyDecision → Step k SendResult
  unfolding handle_duplicate_send fail_and_release send_allowed
  on_decision l x allow = send_allowed l x
  on_decision l x (deny duplicate_send) = handle_duplicate_send k x id
  on_decision l x (deny code) = do
    fail_and_release k non_retryable (k.denial_text code) (some (k.denial_code code)) x
    pure (failed id (denied code))
  on_decision l x (SafetyDecision.retryable code ms) = do
    fail_and_release k rate_limited (k.retry_text code) none x
    pure (retryable id (some ms))

  -- The gate is asked, and what it decides is done.
  unfoldable pub ask_and_act : Loaded D → Execution → Step k SendResult
  unfolding ask_gate on_decision
  ask_and_act l x = do
    e ← ask_gate l x
    on_decision (record l { campaign = e.campaign }) x e.decision

  -- The change to SENDING, the step and the recipient.
  unfoldable pub send_ready : Sequence → Campaign D → Execution → Step k SendResult
  unfolding ready_to_send find_step recover_and_verify_recipient ask_and_act
  send_ready q c x = do
    y ← ready_to_send k id approval_id x
    step ← found (failed id step_not_found) (find_step y.key.step_number q.key.steps)
    address ← found (failed id recovery_failed) (recover_and_verify_recipient k y)
    ask_and_act (record { sequence = q; campaign = c; step = step; recipient_address = address }) y

  -- From the loaded execution on: the early answers of the states that never send again.
  unfoldable pub send_loaded : Sequence → Campaign D → Execution → Step k SendResult
  unfolding send_ready
  send_loaded q c x =
      if is_positive_terminal x.status
      then pure (completed id none)
      else if is_terminal_failure x.status
      then pure (failed id (error_or x.last_error (at_status x.status)))
      else send_ready q c x

  -- The loads of `doExecuteApprovedSend`.
  unfoldable pub load_sendable : Step k (Sendable D)
  unfolding load_execution load_sequence load_campaign ensure_same_tenant
  load_sendable = do
    loaded ← load_execution k.ctx id
    x ← found (failed id execution_not_found) loaded
    ensure_same_tenant k.ctx x.root.tenant_id
    sequence ← load_sequence k.ctx x.key.sequence_id
    q ← found (failed id sequence_not_found) sequence
    ensure_same_tenant k.ctx q.root.tenant_id
    campaign ← load_campaign k.ctx x.key.campaign_id
    c ← found (failed id campaign_not_found) campaign
    ensure_same_tenant k.ctx c.root.tenant_id
    pure (record { sequence = q; campaign = c; execution = x })

  -- `doExecuteApprovedSend`.
  unfoldable pub do_execute_approved_send : Step k SendResult
  unfolding load_sendable send_loaded
  do_execute_approved_send = load_sendable >>= λ s. send_loaded s.sequence s.campaign s.execution

  -- `resolveFromAuthoritativeState`.
  unfoldable pub resolve_from_authoritative_state : Step k SendResult
  unfolding load_execution handle_duplicate_send
  resolve_from_authoritative_state = do
    loaded ← load_execution k.ctx id
    x ← found (failed id not_found_after_conflict) loaded
    catch_conflict (handle_duplicate_send k x id) (pure (failed id conflict_persisted))

  -- `executeApprovedSend`.
  unfoldable pub execute_approved_send : Step k SendResult
  unfolding do_execute_approved_send resolve_from_authoritative_state
  execute_approved_send =
      body (catch_conflict do_execute_approved_send resolve_from_authoritative_state)

  -- What is left of `executeApprovedSend` after its loads.
  unfoldable pub continue_send : Sendable D → Step k SendResult
  unfolding send_loaded resolve_from_authoritative_state
  continue_send s = body (
      catch_conflict (send_loaded s.sequence s.campaign s.execution)
        resolve_from_authoritative_state)
