-- ===== src/Outreach/Send/Steps.antt =====
-- The parts of `executeApprovedSend`
-- (packages/outreach/src/application/outreach-execution.service.ts). The stamps of a call are numbered
-- by the commands that take them: the approval 0, the change to SENDING 1, the command on the decision
-- or the answer 2, the wait for the delivery 3, the completed step 4, the completed campaign 5 and the
-- command on a duplicate 6.
use vega_revenue_os.Prelude.{
  ℕ, ◌+◌, String, Bool, true, false, Option, none, some, List, [], ◌∷◌, get_elem?, length, ltb,
  ◌==◌, if◌then◌else◌,
}
use vega_revenue_os.Aggregate.{Outcome, ok, fail}
use vega_revenue_os.Idempotency.Store.{RecordStatus, set}
use vega_revenue_os.Outreach.Step.{SequenceStep}
use vega_revenue_os.Outreach.Effect.{M, pure, ◌>>=◌, ◌>>◌, answer, guard, update}
use vega_revenue_os.Outreach.Execution.Status.{is_sending, is_approved, is_pending_approval}
use vega_revenue_os.Outreach.Execution.State.{
  Channel, Execution, ExecutionError, RetryClassification, non_retryable,
}
use vega_revenue_os.Outreach.Execution.Commands.{approve, mark_sending, mark_failed}
use vega_revenue_os.Outreach.Sequence.State.{Sequence, SequenceError}
use vega_revenue_os.Outreach.Sequence.Commands.{complete_step}
use vega_revenue_os.Outreach.Campaign.State.{Campaign}
use vega_revenue_os.Outreach.Campaign.Commands.{Command, run}
use vega_revenue_os.Outreach.Gate.Evaluate.{send_key}
use vega_revenue_os.Outreach.Gate.Release.{mark_idempotency_failed}
use vega_revenue_os.Outreach.Send.World.{
  SendResult, ProviderResult, Call, SendWorld, completed, failed, not_ready, command_failed,
  sequence_failed, load_campaign, save_execution, save_sequence, save_campaign,
}

-- `actionTypeForChannel`.
abbrev pub action_type_for_channel : Channel → String
action_type_for_channel Channel.email = "OUTREACH_EMAIL_SEND"
action_type_for_channel Channel.linkedin = "OUTREACH_LINKEDIN_SEND"
action_type_for_channel Channel.calendar = "OUTREACH_CALENDAR_CREATE"

-- `sequence.steps.find((s) => s.stepNumber === execution.stepNumber)`
unfoldable pub find_step : ℕ → List SequenceStep → Option SequenceStep
find_step n [] = none
find_step n (s ∷ ss) = if s.step_number == n then some s else find_step n ss

abbrev pub is_retryable : Option RetryClassification → Bool
is_retryable (some RetryClassification.retryable) = true
is_retryable (some RetryClassification.rate_limited) = true
is_retryable _ = false

-- `classification ?? 'NON_RETRYABLE'`.
abbrev pub classification_or : Option RetryClassification → RetryClassification
classification_or none = non_retryable
classification_or (some c) = c

abbrev default_retry_ms : ℕ
default_retry_ms = 60000

abbrev pub ms_or_default : Option ℕ → ℕ
ms_or_default none = default_retry_ms
ms_or_default (some ms) = ms

module _ {D : Type 0} {L : Type 0} {R : Type 0} (k : Call D L R) where
  abbrev pub Step : Type 0 → Type 0
  Step A = M (SendWorld D L R) SendResult A

  -- `markIdempotencyFailed(ctx, execution, false)`.
  unfoldable pub release_key : Execution → Step (Unit {0})
  unfolding mark_idempotency_failed
  release_key x = update λ w. record w {
    gate = mark_idempotency_failed k.json.json k.now k.ctx.tenant_id x false w.gate;
  }

  -- `markIdempotencyCompleted`.
  unfoldable pub mark_idempotency_completed : Execution → ProviderResult D → Step (Unit {0})
  unfolding set
  mark_idempotency_completed x result = update λ w. record w {
    gate = record w.gate {
      table =
          set k.now (send_key k.ctx.tenant_id x)
            (k.json.completed_of result.provider_message_id result.internet_message_id)
            RecordStatus.completed none w.gate.table;
    };
  }

  -- The result of a command that the code checks: a failure is the answer.
  abbrev pub checked : ℕ → Execution × Outcome ExecutionError → Step Execution
  checked id (x, ok) = pure x
  checked id (x, fail e) = answer (failed id (command_failed e))

  -- `approve` and `markSending`, as far as the execution needs them.
  unfoldable pub ready_to_send : ℕ → ℕ → Execution → Step Execution
  unfolding approve mark_sending
  ready_to_send id approval_id x = do
    y ←
        if is_pending_approval x.status
        then checked id (approve approval_id (k.stamp 0) x)
        else pure x
    z ← if is_approved y.status then checked id (mark_sending (k.stamp 1) y) else pure y
    guard (is_sending z.status) (failed id (not_ready z.status))
    pure z

  -- `markFailed`, the save, and the key given free.
  unfoldable pub fail_and_release :
      RetryClassification → String → Option String → Execution → Step (Unit {0})
  unfolding mark_failed save_execution release_key
  fail_and_release c why code x = do
    y ← save_execution k.ctx (mark_failed c why code (k.stamp 2) x).0
    release_key y

  -- The due time of the step after the current one, and whether there is one.
  abbrev pub following_due_at : Sequence → Option ℕ
  following_due_at q = elim (get_elem? q.key.steps (q.current_step_index + 1)) [
    | none ↦ none
    | some step ↦ some (k.next_due_at k.now step.delay_ms)
  ]

  abbrev pub complete_campaign : Option (Campaign D) → Step (Unit {0})
  complete_campaign none = pure tt
  complete_campaign (some c) = do
    c' ← save_campaign k.ctx (run Command.complete (k.stamp 5) c).0
    pure tt

  -- The sequence after `completeStep`, whose failure is the answer.
  abbrev pub save_advanced : Execution → Sequence × Outcome SequenceError → Step Sequence
  save_advanced x (q, ok) = save_sequence k.ctx q
  save_advanced x (q, fail e) = answer (failed x.root.id (sequence_failed e))

  -- `advanceSequence`.
  unfoldable pub advance_sequence : Sequence → Execution → Step SendResult
  unfolding load_campaign complete_step save_sequence save_campaign run
  advance_sequence q x = do
    c ← load_campaign k.ctx q.key.campaign_id
    let due = following_due_at q
    let done = complete_step x.root.id due (k.stamp 4) q
    q' ← elim done.1 [
      | ok ↦ save_sequence k.ctx done.0
      | fail e ↦ answer (failed x.root.id (sequence_failed e))
    ]
    if ltb (q.current_step_index + 1) (length q.key.steps) then pure tt else complete_campaign c
    pure (completed x.root.id due)
