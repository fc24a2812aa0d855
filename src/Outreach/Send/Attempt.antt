-- ===== src/Outreach/Send/Attempt.antt =====
-- The attempt to send a message and the provider's answer
-- (packages/outreach/src/application/outreach-execution.service.ts).
use vega_revenue_os.Prelude.{ℕ, String, Option, none, some, [], ◌∷◌, ◌++◌, if◌then◌else◌}
use vega_revenue_os.Outreach.Step.{SequenceStep}
use vega_revenue_os.Outreach.Effect.{pure, ◌>>=◌, ◌>>◌, throw, update}
use vega_revenue_os.Outreach.Execution.State.{Execution, MessageDraft, rate_limited}
use vega_revenue_os.Outreach.Execution.Commands.{
  mark_provider_accepted, mark_delivery_pending, mark_delivery_unknown,
}
use vega_revenue_os.Outreach.Sequence.State.{Sequence}
use vega_revenue_os.Outreach.Campaign.State.{Campaign}
use vega_revenue_os.Outreach.Send.World.{
  SendResult, SendRequest, ProviderStatus, ProviderResult, Provider, Call, retryable, failed,
  reported, save_execution, save_campaign,
}
use vega_revenue_os.Outreach.Send.Duplicate.{text_or}
use vega_revenue_os.Outreach.Send.Steps.{
  is_retryable, classification_or, ms_or_default, Step, checked, fail_and_release,
  mark_idempotency_completed, advance_sequence,
}

abbrev body_of : Option MessageDraft → String
body_of none = ""
body_of (some draft) = draft.body

abbrev subject_of : Option MessageDraft → Option String
subject_of none = none
subject_of (some draft) = draft.subject

abbrev cta_of : Option MessageDraft → Option String
cta_of none = none
cta_of (some draft) = draft.cta

-- `messageId ?? id`.
abbrev id_or : Option ℕ → ℕ → ℕ
id_or none id = id
id_or (some given) id = given

abbrev pub ambiguous_text : String
ambiguous_text = "Provider submission outcome is ambiguous"

abbrev pub ambiguous_reason : String
ambiguous_reason = "Provider submission outcome is ambiguous; reconciliation required"

-- What a call has loaded and recovered when it asks the gate.
pub record Loaded (D : Type 0) : Type 0 where
  pub sequence : Sequence
  pub campaign : Campaign D
  pub step : SequenceStep
  pub recipient_address : String

module _ {D : Type 0} {L : Type 0} {R : Type 0} (k : Call D L R) (id : ℕ) (approval_id : ℕ) where
  abbrev pub request_for : Loaded D → Execution → SendRequest
  request_for l x = record {
    idempotency_key = x.key.idempotency_key;
    execution_id = x.root.id;
    tenant_id = k.ctx.tenant_id;
    campaign_id = l.campaign.root.id;
    sequence_id = x.key.sequence_id;
    message_id = id_or x.message_id x.root.id;
    recipient_address = l.recipient_address;
    subject = subject_of x.draft;
    body = body_of x.draft;
    cta = cta_of x.draft;
    channel = l.step.channel;
  }

  abbrev pub answered : Option (ProviderResult D) → Step k (ProviderResult D)
  answered none = throw
  answered (some result) = pure result

  abbrev pub hand_over : SendRequest → Step k (Unit {0})
  hand_over request = update λ w. record w { sent = w.sent ++ (k.ctx, request) ∷ [] }

  -- `provider.send`: the request is sent, whatever the answer or exception.
  unfoldable pub submit : Provider D → SendRequest → Step k (ProviderResult D)
  submit provider request = do hand_over request; answered (provider.send request)

  -- The provider has the message.
  unfoldable pub on_accepted : Loaded D → Execution → ProviderResult D → Step k SendResult
  unfolding mark_provider_accepted mark_delivery_pending save_execution save_campaign
      mark_idempotency_completed advance_sequence
  on_accepted l x result = do
    y ← checked k id (
        mark_provider_accepted result.provider_message_id result.internet_message_id
          result.provider_error_code (k.stamp 2) x)
    z ← save_execution k.ctx (mark_delivery_pending (k.stamp 3) y).0
    c ← save_campaign k.ctx l.campaign
    mark_idempotency_completed k z result
    advance_sequence k l.sequence z

  unfoldable pub on_failed : Execution → ProviderResult D → Step k SendResult
  unfolding fail_and_release
  on_failed x result = do
    fail_and_release k (classification_or result.retry_classification)
        (text_or result.provider_error_message "Provider reported failure")
        result.provider_error_code x
    if is_retryable result.retry_classification
        then pure (retryable id result.retry_after_ms)
        else pure (failed id (reported (text_or result.provider_error_message "Provider failure")))

  unfoldable pub on_rate_limited : Execution → ProviderResult D → Step k SendResult
  unfolding fail_and_release
  on_rate_limited x result = do
    fail_and_release k rate_limited "Rate limited" result.provider_error_code x
    pure (retryable id (some (ms_or_default result.retry_after_ms)))

  -- The key stays pending.
  unfoldable pub on_ambiguous : Execution → ProviderResult D → Step k SendResult
  unfolding mark_delivery_unknown save_execution
  on_ambiguous x result = do
    y ←
        save_execution k.ctx
          (mark_delivery_unknown (text_or result.provider_error_message ambiguous_text) (k.stamp 2)
            x).0
    pure (failed id (reported (text_or result.provider_error_message ambiguous_reason)))

  -- The branches on the answer's status, of which its type has no other.
  abbrev pub on_status :
      Loaded D → Execution → ProviderResult D → ProviderStatus → Step k SendResult
  on_status l x result ProviderStatus.provider_accepted = on_accepted l x result
  on_status l x result ProviderStatus.accepted = on_accepted l x result
  on_status l x result ProviderStatus.delivered = on_accepted l x result
  on_status l x result ProviderStatus.failed = on_failed x result
  on_status l x result ProviderStatus.rate_limited = on_rate_limited x result
  on_status l x result ProviderStatus.ambiguous = on_ambiguous x result

  abbrev pub correct_spend : Loaded D → ProviderResult D → Loaded D
  correct_spend l result = record l {
    campaign = record l.campaign {
      spent_cost_usd =
          k.correct l.campaign.spent_cost_usd result.cost_usd (k.cost_estimate l.step.channel);
    };
  }

  -- From the recorded attempt on: it is stored, the request is sent, the answer is dealt with.
  unfoldable pub send_attempt : Provider D → Loaded D → Execution → Step k SendResult
  unfolding save_execution submit on_accepted on_failed on_rate_limited on_ambiguous
  send_attempt provider l y = do
    z ← save_execution k.ctx y
    result ← submit provider (request_for l z)
    on_status (correct_spend l result) z result result.status
