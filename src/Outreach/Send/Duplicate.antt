-- ===== src/Outreach/Send/Duplicate.antt =====
-- How the send service answers when the key of a send is already claimed, or a save was refused
-- (packages/outreach/src/application/outreach-execution.service.ts).
use vega_revenue_os.Prelude.{
  ℕ, String, Bool, true, false, not, ◌&&◌, ◌||◌, Option, none, some, is_some, leb, ltb,
  if◌then◌else◌,
}
use vega_revenue_os.Aggregate.{Stamp}
use vega_revenue_os.Idempotency.Store.{IdempotencyRecord, RecordStatus, get}
use vega_revenue_os.Outreach.Effect.{M, value, pure, ◌>>=◌, found, read, catch_conflict}
use vega_revenue_os.Outreach.Execution.Status.{
  ExecutionStatus, provider_accepted, delivery_pending, delivered, opened, replied, bounced,
  failed_pre_submission, delivery_failed, delivery_unknown, requires_reconciliation, cancelled,
  is_sending, is_approved,
}
use vega_revenue_os.Outreach.Execution.State.{Execution}
use vega_revenue_os.Outreach.Execution.Commands.{
  mark_sending, mark_provider_accepted, mark_delivery_pending, mark_delivery_unknown,
  mark_requires_reconciliation,
}
use vega_revenue_os.Outreach.Gate.Evaluate.{send_key}
use vega_revenue_os.Outreach.Send.World.{
  SendFailure, SendResult, Call, SendWorld, completed, failed, not_found_after_duplicate,
  outcome_unknown, reconciliation_required, at_status, reported, load_execution, save_execution,
}

-- `isPositiveTerminal`.
abbrev pub is_positive_terminal : ExecutionStatus → Bool
is_positive_terminal provider_accepted = true
is_positive_terminal delivery_pending = true
is_positive_terminal delivered = true
is_positive_terminal opened = true
is_positive_terminal replied = true
is_positive_terminal _ = false

-- `isTerminalFailure`, and `terminalFailureStates` of `doExecuteApprovedSend`.
abbrev pub is_terminal_failure : ExecutionStatus → Bool
is_terminal_failure failed_pre_submission = true
is_terminal_failure delivery_failed = true
is_terminal_failure delivery_unknown = true
is_terminal_failure requires_reconciliation = true
is_terminal_failure ExecutionStatus.failed = true
is_terminal_failure cancelled = true
is_terminal_failure bounced = true
is_terminal_failure _ = false

abbrev is_unresolved : ExecutionStatus → Bool
is_unresolved delivery_unknown = true
is_unresolved requires_reconciliation = true
is_unresolved _ = false

-- `shouldRecoverToDeliveryPending`.
abbrev should_recover_to_delivery_pending : ExecutionStatus → Bool
should_recover_to_delivery_pending a =
    not (is_positive_terminal a) && not (is_terminal_failure a) && not (is_unresolved a)

-- `execution.status === 'SENDING' || execution.status === 'APPROVED'`
abbrev pub is_in_flight : ExecutionStatus → Bool
is_in_flight a = is_sending a || is_approved a

abbrev is_provider_accepted : ExecutionStatus → Bool
is_provider_accepted provider_accepted = true
is_provider_accepted _ = false

-- `attemptedSubmission`: `hasSubmissionAttempt`, written out.
abbrev pub has_submission_attempt : Execution → Bool
has_submission_attempt x = ltb 0 x.attempts || is_some x.provider_id

-- `isExpiredIdempotency`; a row of the table always has the time at which it expires.
abbrev pub is_expired_idempotency : {R : Type 0} → (now : ℕ) → IdempotencyRecord R → Bool
is_expired_idempotency now r = leb r.expires_at now

-- `lastError ?? reason`.
abbrev pub error_or : Option String → SendFailure → SendFailure
error_or none reason = reason
error_or (some text) reason = reported text

-- `resultFromExecution`, of an execution that is not null.
unfoldable pub result_from_execution : Execution → ℕ → SendResult
result_from_execution x id =
    if is_positive_terminal x.status
    then completed id none
    else if is_in_flight x.status
    then failed id (error_or x.last_error outcome_unknown)
    else elim x.status [
      | requires_reconciliation ↦ failed id reconciliation_required
      | _ ↦ failed id (error_or x.last_error (at_status x.status))
    ]

-- `if (condition) command`, where the code does not look at the command's result.
abbrev pub when : {A B : Type 0} → Bool → (A → A × B) → A → A
when true f a = (f a).0
when false f a = a

-- `advanceToDeliveryPending`.
unfoldable pub advance_to_delivery_pending :
    Option String → Option String → Stamp → Execution → Execution
unfolding mark_sending mark_provider_accepted mark_delivery_pending
advance_to_delivery_pending provider_message_id internet_message_id s x =
    let y = when (is_approved x.status) (mark_sending s) x in
    let z =
      when (is_sending y.status)
        (mark_provider_accepted provider_message_id internet_message_id none s) y in
    when (is_provider_accepted z.status) (mark_delivery_pending s) z

abbrev pub stale_claim : String
stale_claim =
    "Prior submission attempt reached the provider before the idempotency claim expired; outcome unknown"

abbrev pub unproven : String
unproven = "Idempotency record exists but does not prove the submission was not sent"

-- `reason ?? …`.
abbrev pub text_or : Option String → String → String
text_or none text = text
text_or (some given) text = given

module _ {D : Type 0} {L : Type 0} {R : Type 0} {E : Type 0} (k : Call D L R) where
  -- `saveAuthoritative`. No caller reads the execution that it returns.
  unfoldable pub save_authoritative : Execution → ℕ → M (SendWorld D L R) E Execution
  unfolding save_execution load_execution
  save_authoritative x id =
      catch_conflict (save_execution k.ctx x)
        (do newer ← load_execution k.ctx id; pure (elim newer [ none ↦ x | some y ↦ y ]))

  -- A command of the reloaded execution, saved, and the answer by the reloaded execution.
  abbrev pub save_and_answer : Execution → ℕ → M (SendWorld D L R) E SendResult
  save_and_answer x id = do newer ← save_authoritative x id; pure (result_from_execution x id)

  -- The record is COMPLETED.
  unfoldable pub recover_completed :
      IdempotencyRecord R → ℕ → Execution → M (SendWorld D L R) E SendResult
  unfolding save_authoritative result_from_execution advance_to_delivery_pending
  recover_completed r id x =
      if should_recover_to_delivery_pending x.status
      then save_and_answer
          (advance_to_delivery_pending (k.json.provider_message_id r.result)
            (k.json.internet_message_id r.result) (k.stamp 6) x)
          id
      else pure (result_from_execution x id)

  -- The record is PENDING.
  unfoldable pub resolve_pending :
      IdempotencyRecord R → ℕ → Execution → M (SendWorld D L R) E SendResult
  unfolding save_authoritative result_from_execution mark_delivery_unknown
  resolve_pending r id x =
      if is_positive_terminal x.status
      then pure (result_from_execution x id)
      else if not (is_expired_idempotency k.now r)
      then pure (failed id outcome_unknown)
      else if is_in_flight x.status && has_submission_attempt x
      then save_and_answer (mark_delivery_unknown stale_claim (k.stamp 6) x).0 id
      else pure (result_from_execution x id)

  -- The record is FAILED or missing: the branch of a failure that was not submitted and the last one
  -- do the same.
  unfoldable pub require_reconciliation :
      Option String → ℕ → Execution → M (SendWorld D L R) E SendResult
  unfolding save_authoritative result_from_execution mark_requires_reconciliation
  require_reconciliation reason id x =
      if is_terminal_failure x.status || is_positive_terminal x.status
      then pure (result_from_execution x id)
      else save_and_answer (mark_requires_reconciliation (text_or reason unproven) (k.stamp 6) x).0
          id

  abbrev pub resolve_status :
      ℕ → Execution → IdempotencyRecord R → RecordStatus → M (SendWorld D L R) E SendResult
  resolve_status id x r RecordStatus.completed = recover_completed r id x
  resolve_status id x r RecordStatus.pending = resolve_pending r id x
  resolve_status id x r RecordStatus.failed = require_reconciliation (k.json.reason r.result) id x

  abbrev pub resolve_record :
      ℕ → Execution → Option (IdempotencyRecord R) → M (SendWorld D L R) E SendResult
  resolve_record id x none = require_reconciliation none id x
  resolve_record id x (some r) = resolve_status id x r r.status

  unfoldable pub get_record : Execution → M (SendWorld D L R) E (Option (IdempotencyRecord R))
  unfolding get
  get_record local w = (w, value (get (send_key k.ctx.tenant_id local) w.gate.table))

module _ {D : Type 0} {L : Type 0} {R : Type 0} (k : Call D L R) where
  -- `handleDuplicateSendIdempotency`, for the key of the execution at hand.
  unfoldable pub handle_duplicate_send : Execution → ℕ → M (SendWorld D L R) SendResult SendResult
  unfolding get_record load_execution recover_completed resolve_pending require_reconciliation
  handle_duplicate_send local id = do
    existing ← read (λ w. get (send_key k.ctx.tenant_id local) w.gate.table)
    reloaded ← load_execution k.ctx id
    x ← found (failed id not_found_after_duplicate) reloaded
    resolve_record k id x existing
