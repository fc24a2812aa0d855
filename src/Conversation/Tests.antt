-- ===== src/Conversation/Tests.antt =====
-- Concrete conversations (packages/domain/src/conversation/conversation.ts), and what the theorems
-- state of them.
use vega_revenue_os.Prelude.{ℕ, ◌≡◌, refl, String, true, false, none, some, List, [], ◌∷◌}
use vega_revenue_os.Aggregate.{Stamp}
use vega_revenue_os.Outreach.Tests.{stamp}
use vega_revenue_os.Conversation.State.{
  Conversation, ConversationKey, ConversationStatus, ReplyMessage, ReplyIntent, NextActionType,
  create,
}
use vega_revenue_os.Conversation.Command.{Command, run, run_all}
use vega_revenue_os.Conversation.OptOut.{Keeps, IsSound, opted_out_for_good, history-IsSound}

abbrev key : ConversationKey
key = record {
  workspace_id = 2;
  lead_id = 5;
  channel = "email";
  recipient_address = none;
  campaign_id = some 3;
  sequence_id = some 4;
  execution_id = some 6;
}

abbrev reply : String → ReplyMessage
reply text = record {
  id = 70;
  provider_message_id = "m";
  channel = "email";
  content = text;
  received_at = 900;
}

-- Texts that are in lower case.
abbrev lower : String → String
lower s = s

abbrev start : Conversation ℕ
start = create 7 1 key stamp

-- A question is answered by a follow-up.
abbrev question : List (Command ℕ × Stamp)
question =
    (Command.record_reply (reply "how?"), stamp)
    ∷ (
      Command.classify_intent
          (record { intent = ReplyIntent.question; confidence = 82; reason = "Question" }),
      stamp,
    )
    ∷ (
      Command.decide_action (record {
        action_type = NextActionType.follow_up;
        reason = "Answer";
        requires_approval = false;
        suggested_follow_up = none;
      }),
      stamp,
    )
    ∷ []

abbrev answered : Conversation ℕ
answered = run_all lower question start

abbrev leave : ReplyMessage
leave = reply "please unsubscribe"

abbrev left : Conversation ℕ
left = (run lower (Command.record_reply leave) stamp answered).0

answered_status : answered.status ≡ ConversationStatus.follow_up_scheduled
unfolding run_all create
answered_status = refl

-- The next ordinary reply is refused and not stored.
next_reply_lost : (run lower (Command.record_reply (reply "and when?")) stamp answered).0 ≡ answered
unfolding run_all create run
next_reply_lost = refl

left_opted_out : left.has_opted_out ≡ true
unfolding run_all create run
left_opted_out = refl

opted_out_for_good_example : Keeps lower left (run_all lower question left)
opted_out_for_good_example = opted_out_for_good lower question left left_opted_out

history-IsSound_example : IsSound lower answered
history-IsSound_example = history-IsSound lower 7 1 key stamp question
