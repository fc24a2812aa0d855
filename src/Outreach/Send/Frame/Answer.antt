-- ===== src/Outreach/Send/Frame/Answer.antt =====
-- What the parts after the gate's decision change
-- (packages/outreach/src/application/outreach-execution.service.ts): a second relation holds where a
-- request may have been sent.
use vega_revenue_os.Prelude.{ℕ, ◌+◌, Option, none, some, [], ◌∷◌, ◌++◌, length, ltb}
use vega_revenue_os.Aggregate.{Stamp, Outcome, ok, fail}
use vega_revenue_os.Outreach.Effect.{Any, Ends, bind-Ends}
use vega_revenue_os.Outreach.Execution.State.{
  Execution, ExecutionError, non_retryable, rate_limited,
}
use vega_revenue_os.Outreach.Execution.Commands.{
  mark_provider_attempt, mark_provider_accepted, mark_delivery_pending, mark_delivery_unknown,
}
use vega_revenue_os.Outreach.Execution.Command as Command
use vega_revenue_os.Outreach.Execution.Command.{run}
use vega_revenue_os.Outreach.Sequence.State.{Sequence, SequenceError}
use vega_revenue_os.Outreach.Sequence.Commands.{complete_step}
use vega_revenue_os.Outreach.Campaign.State.{Campaign}
use vega_revenue_os.Outreach.Send.World.{
  Call, SendWorld, SendResult, ProviderStatus, ProviderResult, Provider, completed, retryable,
  failed, reported, no_provider, load_campaign,
}
use vega_revenue_os.Outreach.Send.Duplicate.{text_or}
use vega_revenue_os.Outreach.Send.Steps.{
  Step, checked, is_retryable, ms_or_default, mark_idempotency_completed, complete_campaign,
  following_due_at, save_advanced, advance_sequence,
}
use vega_revenue_os.Outreach.Send.Execute.{attempted, send_allowed, send_by}
use vega_revenue_os.Outreach.Send.Attempt.{
  Loaded, ambiguous_reason, ambiguous_text, answered, correct_spend, hand_over, on_accepted,
  on_ambiguous, on_failed, on_rate_limited, on_status, request_for, send_attempt, submit,
}
use vega_revenue_os.Outreach.Send.Frame
use vega_revenue_os.Outreach.Send.Frame.{IsFrame, Kept}

module _ {D : Type 0} {L : Type 0} {R : Type 0} (k : Call D L R) {id : ℕ} {P : Execution → Type 0}
    {T : SendWorld D L R → SendWorld D L R → Type 0} (frame : IsFrame k.ctx id P T) where
  mark_idempotency_completed-Kept :
      (x : Execution) (result : ProviderResult D)
      → Kept k frame Any (mark_idempotency_completed k x result)
  unfolding mark_idempotency_completed
  mark_idempotency_completed-Kept x result = record { at = λ w. (frame.keys _ w, tt) }

  pub checked-Kept :
      (r : Execution × Outcome ExecutionError) → P r.0 → Kept k frame P (checked k id r)
  checked-Kept (x, ok) p = record { at = λ w. (frame.self w, p) }
  checked-Kept (x, fail e) p = record { at = λ w. (frame.self w, tt) }

  load_campaign-Kept : (c : ℕ) → Kept k frame Any (load_campaign k.ctx c)
  unfolding load_campaign
  load_campaign-Kept c = record { at = λ w. (frame.self w, tt) }

  complete_campaign-Kept : (o : Option (Campaign D)) → Kept k frame Any (complete_campaign k o)
  complete_campaign-Kept none = Frame.pure-Kept k frame tt
  complete_campaign-Kept (some c) =
      Frame.bind-Kept k frame Any Any (Frame.save_campaign-Kept k frame _)
        λ c' h. Frame.pure-Kept k frame tt

  save_advanced-Kept :
      (x : Execution) (r : Sequence × Outcome SequenceError)
      → Kept k frame Any (save_advanced k x r)
  save_advanced-Kept x (q, ok) = Frame.save_sequence-Kept k frame q
  save_advanced-Kept x (q, fail e) = record { at = λ w. (frame.self w, tt) }

  advance_sequence-Kept : (q : Sequence) (x : Execution) → Kept k frame Any (advance_sequence k q x)
  unfolding advance_sequence
  advance_sequence-Kept q x =
      Frame.bind-Kept k frame Any Any (load_campaign-Kept q.key.campaign_id) λ c h.
        Frame.bind-Kept k frame Any Any
          (save_advanced-Kept x (complete_step x.root.id (following_due_at k q) (k.stamp 4) q))
          λ q' g.
            Frame.bind-Kept k frame Any Any
              (Frame.if-Kept k frame Any (ltb (q.current_step_index + 1) (length q.key.steps))
                (Frame.pure-Kept k frame tt) (complete_campaign-Kept c))
              λ u f. Frame.pure-Kept k frame (completed x.root.id (following_due_at k q))

  on_accepted-Kept :
      (l : Loaded D) (x : Execution) (result : ProviderResult D) (approval : ℕ)
      → P x
      → Kept k frame Any (on_accepted k id approval l x result)
  unfolding on_accepted run
  on_accepted-Kept l x result approval p =
      Frame.bind-Kept k frame P Any
        (checked-Kept
          (mark_provider_accepted result.provider_message_id result.internet_message_id
            result.provider_error_code (k.stamp 2) x)
          (frame.command
            (Command.mark_provider_accepted result.provider_message_id result.internet_message_id
              result.provider_error_code)
            (k.stamp 2) x p))
        λ y q.
          Frame.bind-Kept k frame P Any
            (Frame.save_execution-Kept k frame (mark_delivery_pending (k.stamp 3) y).0
              (frame.command Command.mark_delivery_pending (k.stamp 3) y q))
            λ z r.
              Frame.bind-Kept k frame Any Any (Frame.save_campaign-Kept k frame l.campaign) λ c h.
                Frame.bind-Kept k frame Any Any (mark_idempotency_completed-Kept z result)
                  λ u g. advance_sequence-Kept l.sequence z

  on_failed-Kept :
      (x : Execution) (result : ProviderResult D) (approval : ℕ)
      → P x
      → Kept k frame Any (on_failed k id approval x result)
  unfolding on_failed
  on_failed-Kept x result approval p =
      Frame.bind-Kept k frame Any Any (Frame.fail_and_release-Kept k frame _ _ _ x p) λ u h.
        Frame.if-Kept k frame Any (is_retryable result.retry_classification)
          (Frame.pure-Kept k frame (retryable id result.retry_after_ms))
          (Frame.pure-Kept k frame
            (failed id (reported (text_or result.provider_error_message "Provider failure"))))

  on_rate_limited-Kept :
      (x : Execution) (result : ProviderResult D) (approval : ℕ)
      → P x
      → Kept k frame Any (on_rate_limited k id approval x result)
  unfolding on_rate_limited
  on_rate_limited-Kept x result approval p =
      Frame.bind-Kept k frame Any Any
        (Frame.fail_and_release-Kept k frame rate_limited "Rate limited" result.provider_error_code
          x p)
        λ u h. Frame.pure-Kept k frame (retryable id (some (ms_or_default result.retry_after_ms)))

  on_ambiguous-Kept :
      (x : Execution) (result : ProviderResult D) (approval : ℕ)
      → P x
      → Kept k frame Any (on_ambiguous k id approval x result)
  unfolding on_ambiguous run
  on_ambiguous-Kept x result approval p =
      let why = text_or result.provider_error_message ambiguous_text in
      Frame.bind-Kept k frame P Any
        (Frame.save_execution-Kept k frame (mark_delivery_unknown why (k.stamp 2) x).0
          (frame.command (Command.mark_delivery_unknown why) (k.stamp 2) x p))
        λ y h.
          Frame.pure-Kept k frame
            (failed id (reported (text_or result.provider_error_message ambiguous_reason)))

  pub on_status-Kept :
      (l : Loaded D) (x : Execution) (result : ProviderResult D) (status : ProviderStatus)
      (approval : ℕ)
      → P x
      → Kept k frame Any (on_status k id approval l x result status)
  on_status-Kept l x result ProviderStatus.provider_accepted a p = on_accepted-Kept l x result a p
  on_status-Kept l x result ProviderStatus.accepted a p = on_accepted-Kept l x result a p
  on_status-Kept l x result ProviderStatus.delivered a p = on_accepted-Kept l x result a p
  on_status-Kept l x result ProviderStatus.failed a p = on_failed-Kept x result a p
  on_status-Kept l x result ProviderStatus.rate_limited a p = on_rate_limited-Kept x result a p
  on_status-Kept l x result ProviderStatus.ambiguous a p = on_ambiguous-Kept x result a p

  -- `U` holds where a request for the execution may have been sent.
  module _ (U : SendWorld D L R → SendWorld D L R → Type 0)
      (before : (u v w : SendWorld D L R) → T u v → U v w → U u w)
      (after : (u v w : SendWorld D L R) → U u v → T v w → U u w)
      (weaken : (u v : SendWorld D L R) → T u v → U u v)
      (sends : (l : Loaded D) (x : Execution) (approval : ℕ) (w : SendWorld D L R)
        → P x
        → U w (record w { sent = w.sent ++ (k.ctx, request_for k id approval l x) ∷ [] }))
      (approval : ℕ) where
    answered-Kept : (o : Option (ProviderResult D)) → Kept k frame Any (answered k id approval o)
    answered-Kept none = record { at = λ w. (frame.self w, tt) }
    answered-Kept (some result) = Frame.pure-Kept k frame result

    hand_over-Ends :
        (l : Loaded D) (x : Execution)
        → P x
        → Ends U Any (hand_over k id approval (request_for k id approval l x))
    hand_over-Ends l x p = record { at = λ w. (sends l x approval w p, tt) }

    submit-Ends :
        (provider : Provider D) (l : Loaded D) (x : Execution)
        → P x
        → Ends U Any (submit k id approval provider (request_for k id approval l x))
    unfolding submit
    submit-Ends provider l x p =
        bind-Ends SendResult U T U after (λ u v h. h) Any Any (hand_over-Ends l x p)
          λ u h. answered-Kept (provider.send (request_for k id approval l x))

    send_attempt-Ends :
        (provider : Provider D) (l : Loaded D) (x : Execution)
        → P x
        → Ends U Any (send_attempt k id approval provider l x)
    unfolding send_attempt
    send_attempt-Ends provider l x p =
        bind-Ends SendResult T U U before weaken P Any (Frame.save_execution-Kept k frame x p)
          λ z q.
            bind-Ends SendResult U T U after (λ u v h. h) Any Any (submit-Ends provider l z q)
              λ result h.
                on_status-Kept (correct_spend k id approval l result) z result result.status
                  approval q

    attempted-Kept :
        (r : Execution × Outcome ExecutionError)
        → P r.0
        → Kept k frame P (attempted k id approval r)
    attempted-Kept (x, ok) p = record { at = λ w. (frame.self w, p) }
    attempted-Kept (x, fail e) p = record { at = λ w. (frame.self w, tt) }

    weak : {A : Type 0} {m : Step k A} (Q : A → Type 0) → Ends T Q m → Ends U Q m
    weak Q h = record { at = λ w. (weaken w _ (h.at w).0, (h.at w).1) }

    send_by-Ends :
        (o : Option (Provider D)) (l : Loaded D) (x : Execution)
        → P x
        → Ends U Any (send_by k id approval o l x)
    unfolding run
    send_by-Ends none l x p = weak Any (
        Frame.bind-Kept k frame Any Any
          (Frame.fail_and_release-Kept k frame non_retryable "No provider available for channel"
            (some "NO_PROVIDER") x p)
          λ u h. Frame.pure-Kept k frame (failed id no_provider))
    send_by-Ends (some provider) l x p =
        let s : Stamp = record { event_id = 0; correlation_id = 0; now = k.now } in
        bind-Ends SendResult T U U before weaken P Any
          (attempted-Kept (mark_provider_attempt provider.provider_id k.now x)
            (frame.command (Command.mark_provider_attempt provider.provider_id) s x p))
          λ y q. send_attempt-Ends provider l y q

    -- After the gate's ALLOW, the second relation holds.
    pub send_allowed-Ends :
        (l : Loaded D) (x : Execution) → P x → Ends U Any (send_allowed k id approval l x)
    unfolding send_allowed
    send_allowed-Ends l x p = send_by-Ends (k.select l.step.channel) l x p
