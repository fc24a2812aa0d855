-- ===== src/Outreach/Tests.antt =====
-- Concrete executions, campaigns and sequences (packages/domain/src/outreach), and what the
-- theorems state of them.
use vega_revenue_os.Prelude.{
  ℕ, ◌+◌, ◌<◌, ◌≡◌, ◌≢◌, refl, true, none, some, List, [], ◌∷◌, length, ltb, arith,
}
use vega_revenue_os.Aggregate.{Stamp}
use vega_revenue_os.Outreach.Money.{Money}
use vega_revenue_os.Outreach.Step.{SequenceStep}
use vega_revenue_os.Outreach.Recipient.{ProtectionState}
use vega_revenue_os.Outreach.Execution.Status.{ExecutionStatus, bounced, cancelled}
use vega_revenue_os.Outreach.Execution.State.{
  Channel, Execution, ExecutionKey, RetryClassification, new_execution,
}
use vega_revenue_os.Outreach.Execution.Command
use vega_revenue_os.Outreach.Execution.Command.{run_all}
use vega_revenue_os.Outreach.Execution.Safety.{IsApproved, is_past, history_safe, never_sent_again}
use vega_revenue_os.Outreach.Campaign.State.{Campaign, CampaignStatus}
use vega_revenue_os.Outreach.Campaign.Commands.{record_spend}
use vega_revenue_os.Outreach.Campaign.Budget.{IsInBudget, Spends, record_spend_lem}
use vega_revenue_os.Outreach.Sequence.State.{SequenceKey, new_sequence}
use vega_revenue_os.Outreach.Sequence.Command as SequenceCommand
use vega_revenue_os.Outreach.Sequence.Progress.{IsOnTrack, NoTypeError, outcomes, history-IsOnTrack}

abbrev pub stamp : Stamp
stamp = record { event_id = 900; correlation_id = 901; now = 1000 }

-- Cents.
abbrev pub cents : Money ℕ
cents = record { zero_usd = 0; plus = λ a b. a + b; above = λ a b. ltb b a }

abbrev pub execution_key : ExecutionKey
execution_key = record {
  workspace_id = 2;
  campaign_id = 3;
  sequence_id = 4;
  step_number = 1;
  lead_id = 5;
  contact_id = "c";
  recipient_fingerprint = some "h1.k.f";
  recipient_ciphertext = some "e1";
  recipient_protection_state = ProtectionState.protected;
  channel = Channel.email;
  idempotency_key = 42;
}

abbrev pub execution : ExecutionStatus → ℕ → Execution
execution status attempts = record {
  root = record { tenant_id = 7; id = 6; version = 2; loaded_version = some 2; domain_events = [] };
  key = execution_key;
  status = status;
  message_id = some 8;
  draft = some (record { subject = some "Hello"; body = "Hi"; cta = none });
  approval_id = some 9;
  provider_id = some 11;
  provider_message_id = some "first";
  internet_message_id = none;
  attempts = attempts;
  last_error = none;
  retry_classification = none;
  retry_after_ms = none;
  provider_error_code = none;
  provider_accepted_at = none;
  delivered_at = none;
  delivery_failed_at = none;
  failed_at = none;
  created_at = 0;
  updated_at = 0;
}

abbrev sends : List (Command.Command × Stamp)
sends =
    (Command.start_drafting, stamp)
    ∷ (Command.approve 9, stamp)
    ∷ (Command.mark_sending, stamp)
    ∷ (Command.mark_provider_attempt 11, stamp)
    ∷ (Command.mark_failed RetryClassification.rate_limited "slow" none, stamp)
    ∷ (Command.mark_bounced "no such box", stamp)
    ∷ []

history_safe_example :
    let x = run_all sends (new_execution 7 6 execution_key 0) in
    IsApproved x × (x.status ≢ bounced) × (x.status ≢ cancelled)
history_safe_example = history_safe sends 7 6 execution_key 0

never_sent_again_example :
    (is_past (run_all sends (execution ExecutionStatus.delivered 1)).status ≡ true)
    × ((run_all sends (execution ExecutionStatus.delivered 1)).attempts ≡ 1)
never_sent_again_example = never_sent_again sends (execution ExecutionStatus.delivered 1) refl

abbrev pub step : ℕ → SequenceStep
step n = record {
  step_number = n;
  channel = Channel.email;
  delay_ms = 1000;
  requires_approval = true;
  template_ref = none;
  objective = none;
}

-- Two messages and a dollar at most, with one message sent for 40 cents.
abbrev pub campaign : Campaign ℕ
campaign = record {
  root = record { tenant_id = 7; id = 3; version = 1; loaded_version = some 1; domain_events = [] };
  key = record {
    workspace_id = 2;
    mission_id = none;
    lead_id = 5;
    contact_id = "c";
    recipient_fingerprint = some "h1.k.f";
    recipient_protection_state = ProtectionState.protected;
    channel = Channel.email;
    steps = step 1 ∷ [];
    max_send_count = some 2;
    max_cost_usd = some 100;
  };
  status = CampaignStatus.running;
  sent_count = 1;
  spent_cost_usd = 40;
  created_at = 0;
  updated_at = 0;
}

record_spend_example : Spends cents 1 50 campaign (record_spend cents 1 50 campaign)
record_spend_example = record_spend_lem cents 1 50 campaign

campaign-IsInBudget : IsInBudget cents campaign
campaign-IsInBudget = record { count = omega arith; cost = refl }

abbrev pub sequence_key : SequenceKey
sequence_key = record {
  workspace_id = 2;
  campaign_id = 3;
  lead_id = 5;
  contact_id = "c";
  recipient_fingerprint = some "h1.k.f";
  recipient_ciphertext = some "e1";
  recipient_protection_state = ProtectionState.protected;
  steps = step 1 ∷ step 2 ∷ [];
}

abbrev commands : List (SequenceCommand.Command × Stamp)
commands =
    (SequenceCommand.submit_for_approval, stamp)
    ∷ (SequenceCommand.approve 1 "fine", stamp)
    ∷ (SequenceCommand.start, stamp)
    ∷ (SequenceCommand.complete_step 6 none, stamp)
    ∷ (SequenceCommand.complete_step 7 none, stamp)
    ∷ (SequenceCommand.complete_step 8 none, stamp)
    ∷ []

some_steps : 0 < length sequence_key.steps
some_steps = omega arith

history-IsOnTrack_example :
    let q = new_sequence 7 4 sequence_key 0 in
    IsOnTrack (SequenceCommand.run_all commands q) × NoTypeError (outcomes commands q)
history-IsOnTrack_example = history-IsOnTrack commands 7 4 sequence_key 0 some_steps
