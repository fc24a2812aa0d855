-- ===== src/Outreach/Send/Tests.antt =====
-- Concrete calls of the send service
-- (packages/outreach/src/application/outreach-execution.service.ts), and what the theorems state of
-- them.
use vega_revenue_os.Prelude.{
  is_blank, ℕ, ◌+◌, ◌-◌, ◌≤◌, ◌≡◌, refl, Bool, true, Option, none, some, List, [], ◌∷◌, arith,
}
use vega_revenue_os.Idempotency.Store.{upsert, same_key}
use vega_revenue_os.Idempotency.Tests.{flags}
use vega_revenue_os.Outreach.Repository.{Context, find_row}
use vega_revenue_os.Outreach.Execution.Status.{ExecutionStatus}
use vega_revenue_os.Outreach.Execution.State.{Execution}
use vega_revenue_os.Outreach.Sequence.State.{Sequence, SequenceStatus}
use vega_revenue_os.Outreach.Gate.Limits.{RateAnswer}
use vega_revenue_os.Outreach.Gate.Evaluate.{Ports}
use vega_revenue_os.Outreach.Gate.Tests.{ports}
use vega_revenue_os.Outreach.Tests.{cents, stamp, step, execution, campaign, sequence_key}
use vega_revenue_os.Outreach.Send.World.{
  Call, SendWorld, SendJson, Provider, ProviderResult, ProviderStatus,
}
use vega_revenue_os.Outreach.Send.Attempt.{Loaded, send_attempt}
use vega_revenue_os.Outreach.Send.Response.{ServiceCall, ResponseType, execute, response, serve_all}
use vega_revenue_os.Outreach.Send.Audit.{sends, allows, sends_allowed}
use vega_revenue_os.Outreach.Send.Closed.{IsClosed, IsClosed-sends_nothing}
use vega_revenue_os.Outreach.Send.Touches.{sends_to}
use vega_revenue_os.Outreach.Send.Execute.{Sendable, continue_send}
use vega_revenue_os.Outreach.Send.Stale.{stale_sends_nothing}
use vega_revenue_os.Outreach.Send.Interleaving.{Action, begin, resume, respond_to, act_all, idle}
use vega_revenue_os.Outreach.Send.Answered.{sent_exactly_once}
use vega_revenue_os.Outreach.Send.Accepted.{IsCurrent}

abbrev context : Context
context = record { tenant_id = 7; workspace_id = 2 }

abbrev send_json : SendJson (Option Bool)
send_json = record {
  json = flags;
  completed_of = λ p i. some true;
  provider_message_id = λ r. none;
  internet_message_id = λ r. none;
  reason = λ r. none;
  submitted-completed_of = λ p i. refl;
}

abbrev accepted : ProviderResult ℕ
accepted = record {
  provider_message_id = some "m";
  internet_message_id = none;
  status = ProviderStatus.accepted;
  retry_classification = none;
  retry_after_ms = none;
  provider_error_code = none;
  provider_error_message = none;
  cost_usd = 12;
}

-- A call with a provider that answers in the given way, under the given ports.
abbrev call_with : Option (ProviderResult ℕ) → Ports ℕ → Call ℕ ℕ (Option Bool)
call_with result gate_ports = record {
  ctx = context;
  now = 5000;
  stamp = λ n. stamp;
  usd = cents;
  correct = λ spent actual estimated. spent + actual - estimated;
  json = send_json;
  ports = gate_ports;
  cost_estimate = λ channel. 10;
  select = λ channel. some (record { provider_id = 11; send = λ request. result });
  next_due_at = λ base delay. base + delay;
  recover_email = λ tenant ciphertext. some "a@b.example";
  fingerprint_email = λ tenant email version. some "h1.k.f";
  denial_text = λ code. "Safety gate denied";
  retry_text = λ code. "Later";
  denial_code = λ code. "CODE";
}

abbrev call : Call ℕ ℕ (Option Bool)
call = call_with (some accepted) ports

abbrev sequence : Sequence
sequence = record {
  root = record { tenant_id = 7; id = 4; version = 3; loaded_version = some 3; domain_events = [] };
  key = sequence_key;
  status = SequenceStatus.running;
  current_step_index = 0;
  next_due_at = none;
  response_deadline_at = none;
  workflow_id = none;
  workflow_started_at = none;
  created_at = 0;
  updated_at = 0;
}

abbrev world_with : Execution → SendWorld ℕ ℕ (Option Bool)
world_with x = record {
  gate = record { limits = 0; table = []; audit = [] };
  executions = x ∷ [];
  sequences = sequence ∷ [];
  campaigns = campaign ∷ [];
  sent = [];
}

abbrev approved_world : SendWorld ℕ ℕ (Option Bool)
approved_world = world_with (execution ExecutionStatus.pending_approval 0)

abbrev calls : List (ServiceCall ℕ ℕ (Option Bool))
calls = execute call 6 9 ∷ execute call 6 9 ∷ response call 6 ResponseType.replied ∷ []

-- Two calls and a response: one request.
calls_send_once : sends 6 (serve_all calls approved_world).sent ≡ 1
unfolding serve_all sends is_blank
calls_send_once = refl

-- The provider throws after it was handed the message; the next call meets a rate limit, and stores
-- that nothing was submitted; the third sends the message again.
abbrev limited_ports : Ports ℕ
limited_ports = record ports {
  limiter = λ tenant channel limit seconds n. (n, RateAnswer.refused 9000);
}

abbrev resent_calls : List (ServiceCall ℕ ℕ (Option Bool))
resent_calls =
    execute (call_with none ports) 6 9
    ∷ execute (call_with none limited_ports) 6 9
    ∷ execute call 6 9
    ∷ []

resent_twice : sends 6 (serve_all resent_calls approved_world).sent ≡ 2
unfolding serve_all sends is_blank upsert same_key
resent_twice = refl

nothing_sent : sends 6 approved_world.sent ≤ allows 6 approved_world.gate.audit
unfolding sends allows
nothing_sent = omega arith

-- Two workers load the execution before either goes on; the save of the second is refused.
abbrev overlapping : List (Action ℕ ℕ (Option Bool))
overlapping =
    begin call 6 9
    ∷ begin call 6 9
    ∷ resume 0
    ∷ resume 0
    ∷ respond_to call 6 ResponseType.replied
    ∷ []

overlapping-sends_once : sends 6 (act_all overlapping (idle approved_world)).world.sent ≡ 1
unfolding act_all sends is_blank upsert same_key
overlapping-sends_once = refl

sends_allowed_example :
    sends 6 (act_all overlapping (idle approved_world)).world.sent
    ≤ allows 6 (act_all overlapping (idle approved_world)).world.gate.audit
sends_allowed_example = sends_allowed 6 overlapping approved_world nothing_sent

-- The execution as it was loaded with version 2, and its row after the other worker's saves.
abbrev saved_since : Execution
saved_since =
    let x = execution ExecutionStatus.sending 1 in record x { root = record x.root { version = 5 } }

abbrev moved_world : SendWorld ℕ ℕ (Option Bool)
moved_world = world_with saved_since

abbrev loaded_before : Sendable ℕ
loaded_before = record {
  sequence = sequence;
  campaign = campaign;
  execution = execution ExecutionStatus.pending_approval 0;
}

-- The gate allows the second send as well, and the save before it is refused.
allowed_but_stale : allows 6 (continue_send call 6 9 loaded_before moved_world).0.gate.audit ≡ 1
unfolding continue_send allows is_blank upsert same_key
allowed_but_stale = refl

stale_sends_nothing_example :
    (continue_send call 6 9 loaded_before moved_world).0.sent ≡ moved_world.sent
stale_sends_nothing_example =
    stale_sends_nothing call 6 9 2 loaded_before moved_world
      (record { in_row = refl; loaded = refl }) ((λ mine e. ground arith), tt)

abbrev delivered_world : SendWorld ℕ ℕ (Option Bool)
delivered_world = world_with (execution ExecutionStatus.delivered 1)

delivered-IsClosed : IsClosed context 6 delivered_world
unfolding find_row
delivered-IsClosed = record {
  row = execution ExecutionStatus.delivered 1;
  stored = refl;
  past = refl;
}

IsClosed-sends_nothing_example :
    IsClosed context 6 (serve_all calls delivered_world)
    × (sends_to context 6 (serve_all calls delivered_world).sent
        ≡ sends_to context 6 delivered_world.sent)
IsClosed-sends_nothing_example =
    IsClosed-sends_nothing calls context 6 delivered_world delivered-IsClosed

abbrev sending_world : SendWorld ℕ ℕ (Option Bool)
sending_world = world_with (execution ExecutionStatus.sending 0)

abbrev sending_now : Execution
sending_now = execution ExecutionStatus.sending 1

sending-IsCurrent : IsCurrent call 6 sending_now sending_world.executions
unfolding find_row
sending-IsCurrent = record {
  row = execution ExecutionStatus.sending 0;
  stored = refl;
  in_row = refl;
  version = refl;
  sending = refl;
}

abbrev provider : Provider ℕ
provider = record { provider_id = 11; send = λ request. some accepted }

abbrev loaded : Loaded ℕ
loaded = record {
  sequence = sequence;
  campaign = campaign;
  step = step 1;
  recipient_address = "a@b.example";
}

sent_exactly_once_example :
    sends_to context 6
      (serve_all calls (send_attempt call 6 9 provider loaded sending_now sending_world).0).sent
    ≡ sends_to context 6 sending_world.sent + 1
sent_exactly_once_example =
    sent_exactly_once call 6 9 provider loaded sending_now accepted sending_world calls
      sending-IsCurrent refl refl
