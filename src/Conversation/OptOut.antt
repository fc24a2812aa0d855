-- ===== src/Conversation/OptOut.antt =====
-- Opt-outs and the states that a conversation reaches
-- (packages/domain/src/conversation/conversation.ts).
use vega_revenue_os.Prelude.{
  ℕ, ◌≡◌, refl, String, Bool, true, false, List, [], ◌∷◌, arith, length-append,
}
use vega_revenue_os.Aggregate.{Stamp, ok}
use vega_revenue_os.Aggregate.Log.{IsLogged}
use vega_revenue_os.Conversation.State.{
  Conversation, ConversationStatus, ConversationKey, ReplyMessage, NextBestAction, create,
  transition_to, can_transition_conversation,
}
use vega_revenue_os.Conversation.Commands.{asks_opt_out, target_of, record_opt_out}
use vega_revenue_os.Conversation.Commands
use vega_revenue_os.Conversation.Command.{Command, run, run_all}

abbrev pub is_reached : ConversationStatus → Bool
is_reached ConversationStatus.awaiting_reply = false
is_reached ConversationStatus.failed = false
is_reached _ = true

abbrev is_opted_out : ConversationStatus → Bool
is_opted_out ConversationStatus.opted_out = true
is_opted_out _ = false

module _ {D : Type 0} (lower : String → String) where
  -- The parts of a conversation that matter after an opt-out.
  pub record Keeps (c d : Conversation D) : Type 0 where
    pub opted_out : d.has_opted_out ≡ true
    pub messages : d.messages ≡ c.messages
    pub next_action : d.next_action ≡ c.next_action
    pub reason : d.escalated_reason ≡ c.escalated_reason

  run-Keeps :
      (k : Command D) (s : Stamp) (c d : Conversation D) → Keeps c d → Keeps c (run lower k s d).0
  unfolding run Commands.record_reply Commands.classify_intent Commands.decide_action Commands.close
      transition_to
  run-Keeps (Command.record_reply m) s c d h = grind arith
  run-Keeps (Command.classify_intent i) s c d h = grind arith
  run-Keeps (Command.decide_action a) s c d h = grind arith
  run-Keeps (Command.close x why) s c d h = grind arith

  history-Keeps :
      (ks : List (Command D × Stamp)) (c d : Conversation D)
      → Keeps c d
      → Keeps c (run_all lower ks d)
  unfolding run_all
  history-Keeps [] c d h = h
  history-Keeps ((k, s) ∷ ks) c d h = history-Keeps ks c (run lower k s d).0 (run-Keeps k s c d h)

  -- Once the recipient has opted out, no history of commands stores a further message, decides an
  -- action or an escalation, or takes the opt-out back.
  pub opted_out_for_good :
      (ks : List (Command D × Stamp)) (c : Conversation D)
      → c.has_opted_out ≡ true
      → Keeps c (run_all lower ks c)
  opted_out_for_good ks c h =
      history-Keeps ks c c
        (record { opted_out = h; messages = refl; next_action = refl; reason = refl })

  -- What every conversation keeps that was created and has had any commands.
  pub record IsSound (c : Conversation D) : Type 0 where
    pub logged : IsLogged c.root
    pub reached : is_reached c.status ≡ true
    pub marked : is_opted_out c.status ≡ true → c.has_opted_out ≡ true

  reply-IsSound :
      (m : ReplyMessage) (s : Stamp) (c : Conversation D)
      → IsSound c
      → IsSound (Commands.record_reply lower m s c).0
  unfolding Commands.record_reply record_opt_out transition_to can_transition_conversation
  reply-IsSound m s c h = grind (arith, length-append)

  action-IsSound :
      (a : NextBestAction) (s : Stamp) (c : Conversation D)
      → IsSound c
      → IsSound (Commands.decide_action a s c).0
  unfolding Commands.decide_action transition_to can_transition_conversation target_of
  action-IsSound a s c h = grind (arith, length-append)

  run-IsSound :
      (k : Command D) (s : Stamp) (c : Conversation D) → IsSound c → IsSound (run lower k s c).0
  unfolding run Commands.classify_intent Commands.close transition_to can_transition_conversation
  run-IsSound (Command.record_reply m) s c h = reply-IsSound m s c h
  run-IsSound (Command.classify_intent i) s c h = grind (arith, length-append)
  run-IsSound (Command.decide_action a) s c h = action-IsSound a s c h
  run-IsSound (Command.close x why) s c h = grind (arith, length-append)

  history-run-IsSound :
      (ks : List (Command D × Stamp)) (c : Conversation D)
      → IsSound c
      → IsSound (run_all lower ks c)
  unfolding run_all
  history-run-IsSound [] c h = h
  history-run-IsSound ((k, s) ∷ ks) c h =
      history-run-IsSound ks (run lower k s c).0 (run-IsSound k s c h)

  -- After any history of commands of a new conversation its version counts the unsaved events, it is
  -- marked as opted out if its status is OPTED_OUT, and its status is neither AWAITING_REPLY nor
  -- FAILED.
  pub history-IsSound :
      (tenant id : ℕ) (key : ConversationKey) (s : Stamp) (ks : List (Command D × Stamp))
      → IsSound (run_all lower ks (create {D = D} tenant id key s))
  unfolding create
  history-IsSound tenant id key s ks =
      history-run-IsSound ks (create {D = D} tenant id key s)
        (record { logged = refl; reached = refl; marked = λ h. absurd (ground arith) })

  -- Where the table has no way to OPTED_OUT, a reply that asks to opt out is answered with success
  -- and marks the conversation as opted out, but its status and events stay as they were.
  pub opt_out_unrecorded :
      (m : ReplyMessage) (s : Stamp) (c : Conversation D)
      → c.has_opted_out ≡ false
      → asks_opt_out lower m.content ≡ true
      → can_transition_conversation c.status ConversationStatus.opted_out ≡ false
      → ((run lower (Command.record_reply m) s c).1 ≡ ok)
        × ((run lower (Command.record_reply m) s c).0.has_opted_out ≡ true)
        × ((run lower (Command.record_reply m) s c).0.status ≡ c.status)
        × ((run lower (Command.record_reply m) s c).0.root ≡ c.root)
  unfolding run Commands.record_reply record_opt_out transition_to
  opt_out_unrecorded m s c h g f = (ground arith, ground arith, ground arith, ground arith)
