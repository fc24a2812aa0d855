-- ===== src/Conversation/Commands.antt =====
-- The commands of a conversation (packages/domain/src/conversation/conversation.ts). `toLowerCase`,
-- which reads the tables of Unicode, is a parameter. A text is a list of code points.
use vega_revenue_os.Prelude.{
  ℕ, zero, suc, String, Bool, true, false, ◌&&◌, ◌||◌, some, [], ◌∷◌, ◌++◌, if◌then◌else◌,
}
use Prim.Native.Char.{code}
use vega_revenue_os.Prelude.{◌==◌}
use vega_revenue_os.Aggregate.{Stamp, Outcome, ok, fail}
use vega_revenue_os.Conversation.State.{
  ConversationStatus, ConversationError, ConversationEvent, Conversation, ReplyMessage,
  IntentClassification, NextBestAction, NextActionType, Disposition, transition_to,
  reply_after_opt_out, action_after_opt_out, cannot_classify, reply_received, intent_classified,
  conversation_closed, opt_out_recorded,
}

-- `text.startsWith(part)`.
starts_with : String → String → Bool
starts_with String.[] s = true
starts_with (String.◌∷◌ c t) String.[] = false
starts_with (String.◌∷◌ c t) (String.◌∷◌ d s) = code c == code d && starts_with t s

-- `text.includes(part)`.
unfoldable pub includes : String → String → Bool
unfolding starts_with
includes part String.[] = starts_with part String.[]
includes part (String.◌∷◌ c s) = starts_with part (String.◌∷◌ c s) || includes part s

-- `text.slice(0, n)`.
unfoldable pub slice : ℕ → String → String
slice zero s = String.[]
slice (suc n) String.[] = String.[]
slice (suc n) (String.◌∷◌ c s) = String.◌∷◌ c (slice n s)

unfoldable pub asks_opt_out : (String → String) → String → Bool
unfolding includes
asks_opt_out lower content =
    includes "unsubscribe" (lower content) || includes "opt out" (lower content)

-- The target of `decideAction`.
unfoldable pub target_of : NextActionType → ConversationStatus
target_of NextActionType.follow_up = ConversationStatus.follow_up_scheduled
target_of NextActionType.escalate = ConversationStatus.escalated
target_of NextActionType.disqualify = ConversationStatus.disqualified
target_of NextActionType.close = ConversationStatus.closed
target_of NextActionType.schedule_meeting_deferred = ConversationStatus.follow_up_scheduled

abbrev is_unclassifiable : ConversationStatus → Bool
is_unclassifiable ConversationStatus.opted_out = true
is_unclassifiable ConversationStatus.disqualified = true
is_unclassifiable _ = false

module _ {D : Type 0} where
  -- What follows a transition that is made: nothing where it was refused.
  abbrev after :
      Conversation D × Outcome ConversationError
      → (Conversation D → Conversation D)
      → Conversation D × Outcome ConversationError
  after (c, ok) f = (f c, ok)
  after (c, fail e) f = (c, fail e)

  abbrev store_reply : ReplyMessage → Stamp → Conversation D → Conversation D
  store_reply m s c = record c { messages = c.messages ++ m ∷ []; updated_at = s.now }

  -- The branch of `recordReply` for an opt-out: the transition's result is not read.
  unfoldable pub record_opt_out : ReplyMessage → Stamp → Conversation D → Conversation D
  unfolding transition_to
  record_opt_out m s c =
      let event : ConversationEvent D = opt_out_recorded c.root.id c.key.lead_id c.key.channel in
      let moved = (transition_to ConversationStatus.opted_out event s c).0 in
      store_reply m s (record moved { has_opted_out = true })

  -- `recordReply`.
  unfoldable pub record_reply :
      (String → String)
      → ReplyMessage
      → Stamp
      → Conversation D
      → Conversation D × Outcome ConversationError
  unfolding transition_to record_opt_out asks_opt_out slice
  record_reply lower m s c =
      let event : ConversationEvent D =
        reply_received c.root.id m.id m.provider_message_id m.channel (slice 200 m.content) in
      if c.has_opted_out
      then (c, fail reply_after_opt_out)
      else if asks_opt_out lower m.content
      then (record_opt_out m s c, ok)
      else after (transition_to ConversationStatus.classified event s c) (store_reply m s)

  -- `classifyIntent`.
  unfoldable pub classify_intent :
      IntentClassification D → Stamp → Conversation D → Conversation D × Outcome ConversationError
  unfolding transition_to
  classify_intent i s c =
      let event = intent_classified c.root.id i.intent i.confidence i.reason in
      if is_unclassifiable c.status
      then (c, fail (cannot_classify c.status))
      else after (transition_to ConversationStatus.classified event s c) λ d. record d {
        latest_intent = some i.intent;
        latest_confidence = some i.confidence;
        updated_at = s.now;
      }

  -- `case 'ESCALATE'` assigns the reason before the transition.
  abbrev note_reason : NextBestAction → NextActionType → Conversation D → Conversation D
  note_reason a NextActionType.escalate c = record c { escalated_reason = some a.reason }
  note_reason a _ c = c

  -- `decideAction`.
  unfoldable pub decide_action :
      NextBestAction → Stamp → Conversation D → Conversation D × Outcome ConversationError
  unfolding transition_to target_of
  decide_action a s c =
      let event : ConversationEvent D =
        ConversationEvent.follow_up_scheduled c.root.id a.action_type a.reason in
      if c.has_opted_out
      then (c, fail action_after_opt_out)
      else after (transition_to (target_of a.action_type) event s (note_reason a a.action_type c))
          λ d. record d { next_action = some a.action_type; updated_at = s.now }

  -- `close`.
  unfoldable pub close :
      Disposition → String → Stamp → Conversation D → Conversation D × Outcome ConversationError
  unfolding transition_to
  close disposition why s c =
      let event : ConversationEvent D = conversation_closed c.root.id disposition why in
      after (transition_to ConversationStatus.closed event s c) λ d. record d { updated_at = s.now }
