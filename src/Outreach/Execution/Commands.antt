-- ===== src/Outreach/Execution/Commands.antt =====
-- The commands of a message execution (packages/domain/src/outreach/message-execution.ts). What a
-- command assigns before its transition stays assigned when the transition fails.
use vega_revenue_os.Prelude.{
  ℕ, ◌+◌, String, Bool, true, false, not, ◌||◌, Option, some, is_missing, if◌then◌else◌,
}
use vega_revenue_os.Aggregate.{Stamp, Outcome, ok, fail}
use vega_revenue_os.Outreach.Execution.Status.{
  drafting, pending_approval, approved, sending, provider_accepted, delivery_pending, delivered,
  opened, replied, bounced, failed_pre_submission, delivery_failed, delivery_unknown,
  requires_reconciliation, failed, cancelled, is_sending, is_approved, is_pending_approval,
  is_draftable, is_submitted,
}
use vega_revenue_os.Outreach.Execution.State.{
  Execution, ExecutionError, draft_not_settable, not_approvable, not_rejectable, not_sending,
  MessageDraft, RetryClassification, non_retryable, transition, changed, drafting_started,
  draft_created, sending_to_provider, awaiting_confirmation, message_delivered, message_opened,
  recipient_replied, reconciled_delivered, approved_via, provider_accepted_as, rejected,
  bounced_for, post_acceptance_failure, failed_before_submission, delivery_failed_for, failed_for,
  outcome_unknown, needs_reconciliation, reconciled_failed, cancelled_for,
}

abbrev pub Done : Type 0
Done = Execution × Outcome ExecutionError

unfoldable pub start_drafting : Stamp → Execution → Done
unfolding transition
start_drafting s x = transition drafting drafting_started s x

unfoldable pub set_draft : ℕ → MessageDraft → Stamp → Execution → Done
unfolding transition
set_draft message_id draft s x =
    if not (is_draftable x.status)
    then (x, fail draft_not_settable)
    else transition pending_approval draft_created s
        (record x { message_id = some message_id; draft = some draft })

unfoldable pub approve : ℕ → Stamp → Execution → Done
unfolding transition
approve approval_id s x =
    if not (is_pending_approval x.status)
    then (x, fail not_approvable)
    else transition approved (approved_via approval_id) s
        (record x { approval_id = some approval_id })

unfoldable pub reject : String → Stamp → Execution → Done
unfolding transition
reject why s x =
    if not (is_pending_approval x.status)
    then (x, fail not_rejectable)
    else transition failed (rejected why) s (record x { last_error = some why })

unfoldable pub mark_sending : Stamp → Execution → Done
unfolding transition
mark_sending s x = transition sending sending_to_provider s x

-- `markProviderAttempt` throws unless the execution is SENDING, and emits no event.
unfoldable pub mark_provider_attempt : ℕ → ℕ → Execution → Done
mark_provider_attempt provider_id now x =
    if not (is_sending x.status) then (x, fail not_sending) else (
      record x { provider_id = some provider_id; attempts = x.attempts + 1; updated_at = now },
      ok,
    )

unfoldable pub mark_provider_accepted :
    Option String → Option String → Option String → Stamp → Execution → Done
unfolding transition
mark_provider_accepted provider_message_id internet_message_id code s x =
    transition provider_accepted (provider_accepted_as provider_message_id) s (record x {
      provider_message_id = provider_message_id;
      internet_message_id = internet_message_id;
      provider_error_code = code;
      provider_accepted_at = some s.now;
    })

unfoldable pub mark_delivery_pending : Stamp → Execution → Done
unfolding transition
mark_delivery_pending s x = transition delivery_pending awaiting_confirmation s x

-- `if (internetMessageId) this.internetMessageId = internetMessageId`.
abbrev given_or : Option String → Option String → Option String
given_or given old = if is_missing given then old else given

unfoldable pub mark_delivered : Option String → Stamp → Execution → Done
unfolding transition
mark_delivered internet_message_id s x = transition delivered message_delivered s (record x {
  internet_message_id = given_or internet_message_id x.internet_message_id;
  delivered_at = some s.now;
})

unfoldable pub mark_opened : Stamp → Execution → Done
unfolding transition
mark_opened s x = transition opened message_opened s x

unfoldable pub mark_replied : Stamp → Execution → Done
unfolding transition
mark_replied s x = transition replied recipient_replied s x

unfoldable pub mark_bounced : String → Stamp → Execution → Done
unfolding transition
mark_bounced why s x = transition bounced (bounced_for why) s (record x { last_error = some why })

abbrev pub is_non_retryable : RetryClassification → Bool
is_non_retryable non_retryable = true
is_non_retryable _ = false

-- What `markFailed` assigns first.
abbrev noted : RetryClassification → String → Option String → ℕ → Execution → Execution
noted c why code now x = record x {
  retry_classification = some c;
  last_error = some why;
  provider_error_code = code;
  failed_at = some now;
}

unfoldable pub mark_failed : RetryClassification → String → Option String → Stamp → Execution → Done
unfolding transition
mark_failed c why code s x =
    let y = noted c why code s.now x in
    if not (is_non_retryable c)
    then (if is_sending x.status || is_approved x.status
        then (record y { updated_at = s.now }, ok)
        else transition requires_reconciliation (post_acceptance_failure why) s y)
    else if is_sending x.status || is_approved x.status
    then transition failed_pre_submission (failed_before_submission why) s y
    else if is_submitted x.status
    then transition delivery_failed (delivery_failed_for why) s
        (record y { delivery_failed_at = some s.now })
    else transition failed (failed_for why) s y

unfoldable pub mark_delivery_unknown : String → Stamp → Execution → Done
unfolding transition
mark_delivery_unknown why s x =
    transition delivery_unknown (outcome_unknown why) s (record x { last_error = some why })

unfoldable pub mark_requires_reconciliation : String → Stamp → Execution → Done
unfolding transition
mark_requires_reconciliation why s x =
    transition requires_reconciliation (needs_reconciliation why) s
      (record x { last_error = some why })

-- `markReconciledDelivered` asks for no state.
unfoldable pub mark_reconciled_delivered : Option String → Stamp → Execution → Done
mark_reconciled_delivered internet_message_id s x =
    let y = record x {
      internet_message_id = given_or internet_message_id x.internet_message_id;
      provider_message_id = given_or internet_message_id x.provider_message_id;
      status = delivered;
      delivered_at = some s.now;
      updated_at = s.now;
    } in
    (record y { root = changed x.status delivered reconciled_delivered s y }, ok)

-- `markReconciledFailed` asks for no state.
unfoldable pub mark_reconciled_failed : String → Stamp → Execution → Done
mark_reconciled_failed why s x =
    let y = record x {
      last_error = some why;
      failed_at = some s.now;
      updated_at = s.now;
      status = failed;
    } in
    (record y { root = changed x.status failed (reconciled_failed why) s y }, ok)

unfoldable pub cancel : String → Stamp → Execution → Done
unfolding transition
cancel why s x = transition cancelled (cancelled_for why) s x

unfoldable pub record_retry_after : ℕ → Execution → Execution
record_retry_after ms x = record x { retry_after_ms = some ms }
