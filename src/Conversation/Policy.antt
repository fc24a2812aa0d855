-- ===== src/Conversation/Policy.antt =====
-- The classifier of replies (packages/conversation/src/infrastructure/deterministic-intent-classifier.ts)
-- and the policy of next actions
-- (packages/conversation/src/infrastructure/in-memory-next-best-action-policy.ts). A confidence is a
-- value of a parameter type; `toLowerCase` is a parameter.
use vega_revenue_os.Prelude.{
  ℕ, ◌≤◌, ◌≡◌, ◌⊎◌, String, Bool, true, false, not, ◌||◌, Option, none, some, List, [], ◌∷◌, any,
  ltb, arith, if◌then◌else◌,
}
use vega_revenue_os.Conversation.State.{
  Conversation, ReplyIntent, IntentClassification, NextBestAction, NextActionType,
}
use vega_revenue_os.Conversation.Commands.{includes}

-- The numbers that are compared: `hundredths 85` is the literal 0.85, and `below a b` is `a < b`.
pub record Confidences (D : Type 0) : Type 0 where
  pub hundredths : ℕ → D
  pub below : D → D → Bool

abbrev pub is_opt_out : ReplyIntent → Bool
is_opt_out ReplyIntent.opt_out = true
is_opt_out _ = false

abbrev pub known_intent : Option ReplyIntent → ReplyIntent
known_intent none = ReplyIntent.uncertain
known_intent (some i) = i

abbrev action : NextActionType → String → Bool → Option String → NextBestAction
action type why approval text = record {
  action_type = type;
  reason = why;
  requires_approval = approval;
  suggested_follow_up = text;
}

abbrev escalation : String → NextBestAction
escalation why = action NextActionType.escalate why true none

module _ {D : Type 0} (numbers : Confidences D) where
  -- `isHighConfidence`, with its default threshold.
  unfoldable pub is_high_confidence : D → Bool
  is_high_confidence confidence = not (numbers.below confidence (numbers.hundredths 85))

  -- `requiresEscalation`, with its default threshold.
  unfoldable pub requires_escalation : ReplyIntent → D → Bool
  requires_escalation intent confidence =
      numbers.below confidence (numbers.hundredths 60) || is_opt_out intent

  abbrev classified_as : ReplyIntent → ℕ → String → IntentClassification D
  classified_as intent n why = record {
    intent = intent;
    confidence = numbers.hundredths n;
    reason = why;
  }

  -- `DeterministicIntentClassifier.classify`.
  unfoldable pub classify : (String → String) → String → IntentClassification D
  unfolding includes
  classify lower content =
      let has = λ (words : List String). any (λ word. includes word (lower content)) words in
      if has ("unsubscribe" ∷ "opt out" ∷ "stop" ∷ [])
      then classified_as ReplyIntent.opt_out 99 "Explicit opt-out language detected"
      else if has ("meeting" ∷ "book a time" ∷ "calendar" ∷ [])
      then classified_as ReplyIntent.meeting_request 92 "Meeting scheduling language detected"
      else if has ("not interested" ∷ "no thanks" ∷ "wrong" ∷ "remove" ∷ [])
      then classified_as ReplyIntent.negative 90 "Negative/disqualifying language detected"
      else if has ("interested" ∷ "yes" ∷ "tell me more" ∷ "pricing" ∷ [])
      then classified_as ReplyIntent.positive 88 "Positive engagement language detected"
      else if has ("?" ∷ "how" ∷ "what" ∷ "question" ∷ [])
      then classified_as ReplyIntent.question 82 "Question language detected"
      else classified_as ReplyIntent.uncertain 55 "Unable to classify deterministically"

  -- The actions for a reply that neither needs an escalation nor waits for more autonomy.
  unfoldable pub action_for : Option ReplyIntent → D → NextBestAction
  unfolding is_high_confidence
  action_for (some ReplyIntent.meeting_request) confidence =
      action NextActionType.schedule_meeting_deferred
        "Prospect requested a meeting; scheduling is deferred to a later phase" true none
  action_for (some ReplyIntent.positive) confidence =
      action NextActionType.follow_up "Positive reply; continue nurture sequence" false
        (some "Send a follow-up with more details")
  action_for (some ReplyIntent.negative) confidence =
      action NextActionType.disqualify "Negative reply" false none
  action_for (some ReplyIntent.question) confidence =
      action NextActionType.follow_up "Answer the question and continue" false
        (some "Draft an answer to the question")
  action_for _ confidence =
      if not (is_high_confidence confidence)
      then escalation "Intent confidence below autonomous threshold"
      else escalation "Unhandled intent"

  abbrev pub confidence_of : Option D → D
  confidence_of none = numbers.hundredths 0
  confidence_of (some d) = d

  -- `InMemoryNextBestActionPolicy.decide`.
  unfoldable pub decide : Conversation D → ℕ → NextBestAction
  unfolding requires_escalation action_for
  decide c autonomy_level =
      let confidence = confidence_of c.latest_confidence in
      if is_opt_out (known_intent c.latest_intent)
      then action NextActionType.close "Prospect opted out" false none
      else if requires_escalation (known_intent c.latest_intent) confidence
      then escalation "Low confidence reply classification"
      else if ltb autonomy_level 2
      then escalation "Autonomy level requires human review"
      else action_for c.latest_intent confidence

  -- An action that needs no approval closes the conversation after an opt-out, or answers a reply that
  -- was classified with a confidence not below 0.6, at an autonomy level of 2 or more.
  pub decide_unreviewed :
      (c : Conversation D) (autonomy_level : ℕ)
      → (decide c autonomy_level).requires_approval ≡ false
      → (c.latest_intent ≡ some ReplyIntent.opt_out)
        ⊎ ((numbers.below (confidence_of c.latest_confidence) (numbers.hundredths 60) ≡ false)
            × (2 ≤ autonomy_level))
  unfolding decide requires_escalation action_for
  decide_unreviewed c autonomy_level h = ground arith
