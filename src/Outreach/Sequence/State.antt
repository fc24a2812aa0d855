-- ===== src/Outreach/Sequence/State.antt =====
-- The sequence aggregate: states and table (packages/domain/src/outreach/sequence-status.ts), events
-- (packages/domain/src/outreach/sequence-events.ts) and constructors
-- (packages/domain/src/outreach/sequence.ts).
use vega_revenue_os.Prelude.{
  ℕ, String, Bool, true, false, Option, none, some, List, [], ◌∷◌, is_empty, if◌then◌else◌, length,
}
use text.Mathlib.Text.{◌==◌ as str_eq}
use vega_revenue_os.Aggregate.{
  Stamp, AggregateRoot, Outcome, ok, fail, new_root, emit, clear_domain_events, set_version,
}
use vega_revenue_os.Outreach.Recipient.{ProtectionState, RecipientError, assert_snapshot}
use vega_revenue_os.Outreach.Step.{SequenceStep}

pub data SequenceStatus : Type 0 where
  draft pending_approval approved running waiting paused completed cancelled failed : SequenceStatus

-- The rows of `SEQUENCE_STATE_TRANSITIONS`.
unfoldable pub can_transition_sequence : SequenceStatus → SequenceStatus → Bool
can_transition_sequence draft pending_approval = true
can_transition_sequence draft cancelled = true
can_transition_sequence pending_approval approved = true
can_transition_sequence pending_approval cancelled = true
can_transition_sequence approved running = true
can_transition_sequence approved cancelled = true
can_transition_sequence running waiting = true
can_transition_sequence running paused = true
can_transition_sequence running completed = true
can_transition_sequence running cancelled = true
can_transition_sequence running failed = true
can_transition_sequence waiting running = true
can_transition_sequence waiting paused = true
can_transition_sequence waiting completed = true
can_transition_sequence waiting cancelled = true
can_transition_sequence waiting failed = true
can_transition_sequence paused running = true
can_transition_sequence paused cancelled = true
can_transition_sequence _ _ = false

pub data SequenceReason : Type 0 where
  submitted sequence_started all_steps_completed sequence_resumed : SequenceReason
  awaiting_response response_or_timeout : SequenceReason
  given rejected : String → SequenceReason

pub data SequenceEvent : Type 0 where
  sequence_created : (sequence_id campaign_id lead_id step_count : ℕ) → SequenceEvent
  status_changed :
      (sequence_id campaign_id : ℕ) (from to : SequenceStatus) (reason : SequenceReason)
      (decided_by : Option ℕ)
      → SequenceEvent
  step_started : (sequence_id campaign_id step_number execution_id : ℕ) → SequenceEvent
  step_completed :
      (sequence_id campaign_id step_number execution_id : ℕ)
      (next_step_number next_due_at : Option ℕ)
      → SequenceEvent
  step_failed :
      (sequence_id campaign_id step_number execution_id : ℕ) (reason : String) (retryable : Bool)
      → SequenceEvent
  workflow_linked : (sequence_id workflow_id : ℕ) → SequenceEvent

-- The errors of `SequenceInvariantError`. `type_error` is the TypeError of reading `stepNumber` of a
-- step that is not there.
pub data SequenceError : Type 0 where
  contact_required fingerprint_mismatch no_steps : SequenceError
  not_running no_more_steps too_early already_linked type_error : SequenceError
  cannot_transition : SequenceStatus → SequenceStatus → SequenceError
  bad_recipient : RecipientError → SequenceError

-- What is fixed when a sequence is created.
pub record SequenceKey : Type 0 where
  pub workspace_id : ℕ
  pub campaign_id : ℕ
  pub lead_id : ℕ
  pub contact_id : String
  pub recipient_fingerprint : Option String
  pub recipient_ciphertext : Option String
  pub recipient_protection_state : ProtectionState
  pub steps : List SequenceStep

-- A workflow's id is a number that is not falsy, so `none` is the only one missing.
pub record Sequence : Type 0 where
  pub root : AggregateRoot SequenceEvent
  pub key : SequenceKey
  pub status : SequenceStatus
  pub current_step_index : ℕ
  pub next_due_at : Option ℕ
  pub response_deadline_at : Option ℕ
  pub workflow_id : Option ℕ
  pub workflow_started_at : Option ℕ
  pub created_at : ℕ
  pub updated_at : ℕ

pub data SequenceCreated : Type 0 where
  created : Sequence → SequenceCreated
  thrown : SequenceError → SequenceCreated

-- The constructor as `create` calls it, at the first step.
unfoldable pub new_sequence : ℕ → ℕ → SequenceKey → ℕ → Sequence
new_sequence tenant id key now = record {
  root = new_root tenant id;
  key = key;
  status = draft;
  current_step_index = 0;
  next_due_at = none;
  response_deadline_at = none;
  workflow_id = none;
  workflow_started_at = none;
  created_at = now;
  updated_at = now;
}

-- `campaignRecipientFingerprint !== undefined && … !== recipientFingerprint`
unfoldable pub fingerprints_differ : Option String → Option String → Bool
fingerprints_differ none own = false
fingerprints_differ (some f) none = true
fingerprints_differ (some f) (some g) = if str_eq f g then false else true

abbrev announce : Stamp → Sequence → Sequence
announce s q = record q {
  root =
      emit s (sequence_created q.root.id q.key.campaign_id q.key.lead_id (length q.key.steps))
        q.root;
}

abbrev has_steps : List SequenceStep → Bool
has_steps [] = false
has_steps (x ∷ xs) = true

-- `OutreachSequence.create`.
unfoldable pub create_sequence : ℕ → ℕ → SequenceKey → Option String → Stamp → SequenceCreated
unfolding new_sequence assert_snapshot fingerprints_differ
create_sequence tenant id key campaign_fingerprint s =
    if is_empty key.contact_id
    then thrown contact_required
    else elim (assert_snapshot key.recipient_protection_state key.recipient_fingerprint
        key.recipient_ciphertext) [
          | some e ↦ thrown (bad_recipient e)
          | none ↦
              if fingerprints_differ campaign_fingerprint key.recipient_fingerprint
              then thrown fingerprint_mismatch
              else if has_steps key.steps
              then created (announce s (new_sequence tenant id key s.now))
              else thrown no_steps
        ]

-- `OutreachSequence.reconstitute`, of a snapshot that has every property.
unfoldable pub reconstitute_sequence : Sequence → ℕ → Sequence
reconstitute_sequence q version = record q {
  root = clear_domain_events (set_version version q.root);
}

-- `transition`.
unfoldable pub transition :
    SequenceStatus → SequenceReason → Option ℕ → Stamp → Sequence → Sequence × Outcome SequenceError
unfolding can_transition_sequence
transition to why by s q =
    if can_transition_sequence q.status to
    then (
      record q {
        status = to;
        updated_at = s.now;
        root = emit s (status_changed q.root.id q.key.campaign_id q.status to why by) q.root;
      },
      ok,
    )
    else (q, fail (cannot_transition q.status to))
