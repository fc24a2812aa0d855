-- ===== src/Outreach/Execution/State.antt =====
-- The aggregate of one message to one recipient, its events and its constructors
-- (packages/domain/src/outreach/message-execution.ts,
-- packages/domain/src/outreach/message-execution-events.ts,
-- packages/domain/src/outreach/value-objects/message-draft.ts).
use vega_revenue_os.Prelude.{ℕ, String, Option, none, some, is_empty, if◌then◌else◌}
use vega_revenue_os.Aggregate.{
  Stamp, AggregateRoot, Outcome, ok, fail, new_root, emit, clear_domain_events, set_version,
}
use vega_revenue_os.Outreach.Recipient.{ProtectionState, RecipientError, assert_snapshot}
use vega_revenue_os.Outreach.Execution.Status.{ExecutionStatus, pending, can_transition_execution}

pub data Channel : Type 0 where
  email linkedin calendar : Channel

-- Of a draft the code reads the subject, the body and the call to action; its tone, claims and
-- evidence are left out.
pub record MessageDraft : Type 0 where
  pub subject : Option String
  pub body : String
  pub cta : Option String

pub data RetryClassification : Type 0 where
  retryable non_retryable rate_limited : RetryClassification

-- The reason that a change of status carries, one constructor for each text in the code.
pub data Reason : Type 0 where
  drafting_started draft_created sending_to_provider awaiting_confirmation : Reason
  message_delivered message_opened recipient_replied reconciled_delivered : Reason
  approved_via : ℕ → Reason
  provider_accepted_as : Option String → Reason
  rejected bounced_for post_acceptance_failure failed_before_submission : String → Reason
  delivery_failed_for failed_for outcome_unknown needs_reconciliation : String → Reason
  reconciled_failed cancelled_for : String → Reason

pub data ExecutionEvent : Type 0 where
  execution_created :
      (execution_id campaign_id sequence_id step_number idempotency_key : ℕ) → ExecutionEvent
  status_changed :
      (execution_id campaign_id sequence_id : ℕ) (from to : ExecutionStatus) (reason : Reason)
      (provider_message_id : Option String)
      → ExecutionEvent

-- The errors of `MessageExecutionInvariantError`, and what `create` throws for a recipient.
pub data ExecutionError : Type 0 where
  contact_required draft_not_settable not_approvable not_rejectable not_sending : ExecutionError
  cannot_transition : ExecutionStatus → ExecutionStatus → ExecutionError
  bad_recipient : RecipientError → ExecutionError

-- What is fixed when the execution is created.
pub record ExecutionKey : Type 0 where
  pub workspace_id : ℕ
  pub campaign_id : ℕ
  pub sequence_id : ℕ
  pub step_number : ℕ
  pub lead_id : ℕ
  pub contact_id : String
  pub recipient_fingerprint : Option String
  pub recipient_ciphertext : Option String
  pub recipient_protection_state : ProtectionState
  pub channel : Channel
  pub idempotency_key : ℕ

pub record Execution : Type 0 where
  pub root : AggregateRoot ExecutionEvent
  pub key : ExecutionKey
  pub status : ExecutionStatus
  pub message_id : Option ℕ
  pub draft : Option MessageDraft
  pub approval_id : Option ℕ
  pub provider_id : Option ℕ
  pub provider_message_id : Option String
  pub internet_message_id : Option String
  pub attempts : ℕ
  pub last_error : Option String
  pub retry_classification : Option RetryClassification
  pub retry_after_ms : Option ℕ
  pub provider_error_code : Option String
  pub provider_accepted_at : Option ℕ
  pub delivered_at : Option ℕ
  pub delivery_failed_at : Option ℕ
  pub failed_at : Option ℕ
  pub created_at : ℕ
  pub updated_at : ℕ

-- The constructor as `create` calls it: of the optional properties only the ones of the key are
-- given.
unfoldable pub new_execution : ℕ → ℕ → ExecutionKey → ℕ → Execution
new_execution tenant id key now = record {
  root = new_root tenant id;
  key = key;
  status = pending;
  message_id = none;
  draft = none;
  approval_id = none;
  provider_id = none;
  provider_message_id = none;
  internet_message_id = none;
  attempts = 0;
  last_error = none;
  retry_classification = none;
  retry_after_ms = none;
  provider_error_code = none;
  provider_accepted_at = none;
  delivered_at = none;
  delivery_failed_at = none;
  failed_at = none;
  created_at = now;
  updated_at = now;
}

pub data ExecutionCreated : Type 0 where
  created : Execution → ExecutionCreated
  thrown : ExecutionError → ExecutionCreated

abbrev start_of : Execution → Stamp → Execution
start_of x s = record x {
  root =
      emit s
        (execution_created x.root.id x.key.campaign_id x.key.sequence_id x.key.step_number
          x.key.idempotency_key)
        x.root;
}

-- `OutreachMessageExecution.create`; `id` is the one given, or the new UUID.
unfoldable pub create_execution : ℕ → ℕ → ExecutionKey → Stamp → ExecutionCreated
unfolding new_execution assert_snapshot
create_execution tenant id key s =
    if is_empty key.contact_id
    then thrown contact_required
    else elim (assert_snapshot key.recipient_protection_state key.recipient_fingerprint
        key.recipient_ciphertext) [
          | some e ↦ thrown (bad_recipient e)
          | none ↦ created (start_of (new_execution tenant id key s.now) s)
        ]

-- `OutreachMessageExecution.reconstitute`, of a snapshot that has every property.
unfoldable pub reconstitute_execution : Execution → ℕ → Execution
reconstitute_execution x version = record x {
  root = clear_domain_events (set_version version x.root);
}

-- `this.applyEvent(new Events.MessageExecutionStatusChanged(…))`.
abbrev pub changed :
    ExecutionStatus → ExecutionStatus → Reason → Stamp → Execution → AggregateRoot ExecutionEvent
changed from to why s x =
    emit s
      (status_changed x.root.id x.key.campaign_id x.key.sequence_id from to why
        x.provider_message_id)
      x.root

-- `transition`.
unfoldable pub transition :
    ExecutionStatus → Reason → Stamp → Execution → Execution × Outcome ExecutionError
unfolding can_transition_execution
transition to why s x =
    if can_transition_execution x.status to
    then (record x { status = to; updated_at = s.now; root = changed x.status to why s x }, ok)
    else (x, fail (cannot_transition x.status to))
