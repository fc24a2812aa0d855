-- ===== src/Conversation/Command.antt =====
-- Histories of the commands of a conversation (packages/domain/src/conversation/conversation.ts).
use vega_revenue_os.Prelude.{String, List, [], ◌∷◌}
use vega_revenue_os.Aggregate.{Stamp, Outcome}
use vega_revenue_os.Conversation.State.{
  Conversation, ConversationError, ReplyMessage, IntentClassification, NextBestAction, Disposition,
}
use vega_revenue_os.Conversation.Commands

pub data Command (D : Type 0) : Type 0 where
  record_reply : ReplyMessage → Command D
  classify_intent : IntentClassification D → Command D
  decide_action : NextBestAction → Command D
  close : Disposition → String → Command D

module _ {D : Type 0} (lower : String → String) where
  unfoldable pub run :
      Command D → Stamp → Conversation D → Conversation D × Outcome ConversationError
  unfolding Commands.record_reply Commands.classify_intent Commands.decide_action Commands.close
  run (record_reply m) s c = Commands.record_reply lower m s c
  run (classify_intent i) s c = Commands.classify_intent i s c
  run (decide_action a) s c = Commands.decide_action a s c
  run (close d why) s c = Commands.close d why s c

  -- A history of commands, the refused ones among them.
  unfoldable pub run_all : List (Command D × Stamp) → Conversation D → Conversation D
  unfolding run
  run_all [] c = c
  run_all ((k, s) ∷ ks) c = run_all ks (run k s c).0
