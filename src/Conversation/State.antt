-- ===== src/Conversation/State.antt =====
-- The conversation aggregate: states and table (packages/domain/src/conversation/conversation-status.ts),
-- events (packages/domain/src/conversation/conversation-events.ts), constructors and `transitionTo`
-- (packages/domain/src/conversation/conversation.ts). A confidence is a value of a parameter type.
use vega_revenue_os.Prelude.{ℕ, String, Bool, true, false, Option, none, List, [], if◌then◌else◌}
use vega_revenue_os.Aggregate.{
  Stamp, AggregateRoot, Outcome, ok, fail, new_root, emit, clear_domain_events, set_version,
}

pub data ConversationStatus : Type 0 where
  pending awaiting_reply classified follow_up_scheduled escalated : ConversationStatus
  disqualified opted_out closed failed : ConversationStatus

-- The rows of `CONVERSATION_STATE_TRANSITIONS`.
unfoldable pub can_transition_conversation : ConversationStatus → ConversationStatus → Bool
can_transition_conversation pending awaiting_reply = true
can_transition_conversation pending classified = true
can_transition_conversation pending opted_out = true
can_transition_conversation pending failed = true
can_transition_conversation awaiting_reply classified = true
can_transition_conversation awaiting_reply opted_out = true
can_transition_conversation awaiting_reply failed = true
can_transition_conversation classified classified = true
can_transition_conversation classified follow_up_scheduled = true
can_transition_conversation classified escalated = true
can_transition_conversation classified disqualified = true
can_transition_conversation classified opted_out = true
can_transition_conversation classified closed = true
can_transition_conversation follow_up_scheduled awaiting_reply = true
can_transition_conversation follow_up_scheduled escalated = true
can_transition_conversation follow_up_scheduled closed = true
can_transition_conversation follow_up_scheduled failed = true
can_transition_conversation escalated closed = true
can_transition_conversation escalated failed = true
can_transition_conversation _ _ = false

pub data ReplyIntent : Type 0 where
  positive negative question opt_out meeting_request uncertain : ReplyIntent

pub data NextActionType : Type 0 where
  follow_up escalate disqualify schedule_meeting_deferred close : NextActionType

pub data Disposition : Type 0 where
  qualified disqualified opted_out no_action : Disposition

-- `IntentClassification`, without the references to evidence, which nothing here reads.
pub record IntentClassification (D : Type 0) : Type 0 where
  pub intent : ReplyIntent
  pub confidence : D
  pub reason : String

-- `NextBestAction`.
pub record NextBestAction : Type 0 where
  pub action_type : NextActionType
  pub reason : String
  pub requires_approval : Bool
  pub suggested_follow_up : Option String

-- `ReplyMessage`, without the headers and the rich body, which are only stored.
pub record ReplyMessage : Type 0 where
  pub id : ℕ
  pub provider_message_id : String
  pub channel : String
  pub content : String
  pub received_at : ℕ

-- The classes of events that the aggregate emits, with their payloads.
pub data ConversationEvent (D : Type 0) : Type 0 where
  conversation_started :
      (conversation_id lead_id : ℕ) (channel : String) (execution_id : Option ℕ)
      → ConversationEvent D
  reply_received :
      (conversation_id reply_message_id : ℕ) (provider_message_id channel snippet : String)
      → ConversationEvent D
  intent_classified :
      (conversation_id : ℕ) (intent : ReplyIntent) (confidence : D) (reason : String)
      → ConversationEvent D
  follow_up_scheduled :
      (conversation_id : ℕ) (action_type : NextActionType) (reason : String) → ConversationEvent D
  conversation_closed :
      (conversation_id : ℕ) (disposition : Disposition) (reason : String) → ConversationEvent D
  opt_out_recorded : (conversation_id lead_id : ℕ) (channel : String) → ConversationEvent D

pub data ConversationError : Type 0 where
  reply_after_opt_out action_after_opt_out : ConversationError
  cannot_classify : ConversationStatus → ConversationError
  cannot_transition : ConversationStatus → ConversationStatus → ConversationError

-- What is fixed when a conversation is created.
pub record ConversationKey : Type 0 where
  pub workspace_id : ℕ
  pub lead_id : ℕ
  pub channel : String
  pub recipient_address : Option String
  pub campaign_id : Option ℕ
  pub sequence_id : Option ℕ
  pub execution_id : Option ℕ

pub record Conversation (D : Type 0) : Type 0 where
  pub root : AggregateRoot (ConversationEvent D)
  pub key : ConversationKey
  pub status : ConversationStatus
  pub messages : List ReplyMessage
  pub latest_intent : Option ReplyIntent
  pub latest_confidence : Option D
  pub next_action : Option NextActionType
  pub escalated_reason : Option String
  pub has_opted_out : Bool
  pub created_at : ℕ
  pub updated_at : ℕ

module _ {D : Type 0} where
  -- The constructor, for properties without a status, messages, an outcome or times.
  abbrev new_conversation : ℕ → ℕ → ConversationKey → ℕ → Conversation D
  new_conversation tenant id key now = record {
    root = new_root tenant id;
    key = key;
    status = pending;
    messages = [];
    latest_intent = none;
    latest_confidence = none;
    next_action = none;
    escalated_reason = none;
    has_opted_out = false;
    created_at = now;
    updated_at = now;
  }

  -- `Conversation.create`, for the same.
  unfoldable pub create : ℕ → ℕ → ConversationKey → Stamp → Conversation D
  create tenant id key s =
      let c = new_conversation tenant id key s.now in
      record c {
        root = emit s (conversation_started id key.lead_id key.channel key.execution_id) c.root;
      }

  -- `Conversation.reconstitute`, of a snapshot that has every property.
  unfoldable pub reconstitute : Conversation D → ℕ → Conversation D
  reconstitute c version = record c { root = clear_domain_events (set_version version c.root) }

  -- `transitionTo`.
  unfoldable pub transition_to :
      ConversationStatus
      → ConversationEvent D
      → Stamp
      → Conversation D
      → Conversation D × Outcome ConversationError
  unfolding can_transition_conversation
  transition_to to event s c =
      if can_transition_conversation c.status to
      then (record c { status = to; root = emit s event c.root }, ok)
      else (c, fail (cannot_transition c.status to))
