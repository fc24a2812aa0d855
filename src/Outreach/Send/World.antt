-- ===== src/Outreach/Send/World.antt =====
-- What the send service works on (packages/outreach/src/application/outreach-execution.service.ts):
-- the tables, the world of the gate and the requests that providers were sent, each with the context
-- that came with it, what a call is given
-- from outside, and the service's access to the repositories.
use vega_revenue_os.Prelude.{
  ℕ, String, true, ◌&&◌, ◌||◌, ◌≡◌, Option, some, List, ◌==◌, if◌then◌else◌,
}
use vega_revenue_os.Aggregate.{Stamp}
use vega_revenue_os.Idempotency.Store.{Json}
use vega_revenue_os.Outreach.Money.{Money}
use vega_revenue_os.Outreach.Effect.{Result, M, pure, throw, value, conflict, thrown}
use vega_revenue_os.Outreach.Repository.{
  Context, Stored, Saved, load, save, saved, stale, mismatched,
}
use vega_revenue_os.Outreach.Execution.Status.{ExecutionStatus}
use vega_revenue_os.Outreach.Execution.State.{
  Channel, Execution, ExecutionEvent, ExecutionError, RetryClassification, reconstitute_execution,
}
use vega_revenue_os.Outreach.Campaign.State.{Campaign, CampaignEvent, reconstitute_campaign}
use vega_revenue_os.Outreach.Sequence.State.{
  Sequence, SequenceEvent, SequenceError, reconstitute_sequence,
}
use vega_revenue_os.Outreach.Gate.Decision.{DenialCode}
use vega_revenue_os.Outreach.Gate.Evaluate.{Ports, GateWorld}

-- The reason of a FAILED result, one constructor for each text in the code.
pub data SendFailure : Type 0 where
  execution_not_found sequence_not_found campaign_not_found step_not_found : SendFailure
  not_found_after_duplicate not_found_after_conflict conflict_persisted : SendFailure
  recovery_failed no_provider outcome_unknown reconciliation_required : SendFailure
  at_status not_ready : ExecutionStatus → SendFailure
  command_failed : ExecutionError → SendFailure
  sequence_failed : SequenceError → SendFailure
  denied : DenialCode → SendFailure
  reported : String → SendFailure

-- `ExecuteSendResult`.
pub data SendResult : Type 0 where
  completed : (execution_id : ℕ) (next_due_at : Option ℕ) → SendResult
  retryable : (execution_id : ℕ) (retry_after_ms : Option ℕ) → SendResult
  failed : (execution_id : ℕ) → SendFailure → SendResult

-- `ProviderSendRequest`.
pub record SendRequest : Type 0 where
  pub idempotency_key : ℕ
  pub execution_id : ℕ
  pub tenant_id : ℕ
  pub campaign_id : ℕ
  pub sequence_id : ℕ
  pub message_id : ℕ
  pub recipient_address : String
  pub subject : Option String
  pub body : String
  pub cta : Option String
  pub channel : Channel

pub data ProviderStatus : Type 0 where
  provider_accepted accepted delivered failed rate_limited ambiguous : ProviderStatus

-- `ProviderSendResult`.
pub record ProviderResult (D : Type 0) : Type 0 where
  pub provider_message_id : Option String
  pub internet_message_id : Option String
  pub status : ProviderStatus
  pub retry_classification : Option RetryClassification
  pub retry_after_ms : Option ℕ
  pub provider_error_code : Option String
  pub provider_error_message : Option String
  pub cost_usd : D

-- A provider as it answers at one call; none is an exception that it throws.
pub record Provider (D : Type 0) : Type 0 where
  pub provider_id : ℕ
  pub send : SendRequest → Option (ProviderResult D)

-- The JSON that the service stores with a key, and reads back. `with_submitted` of `json` makes that
-- of a failure, which is given no reason.
pub record SendJson (R : Type 0) : Type 0 where
  pub json : Json R
  pub completed_of : (provider_message_id internet_message_id : Option String) → R
  pub provider_message_id : R → Option String
  pub internet_message_id : R → Option String
  pub reason : R → Option String
  pub submitted-completed_of : (p i : Option String) → json.submitted (completed_of p i) ≡ some true

-- What one call of the service is given: the answers of its ports, and the clock and the new event
-- ids as the stamps of its commands, in the order of the code.
pub record Call (D : Type 0) (L : Type 0) (R : Type 0) : Type 0 where
  pub ctx : Context
  pub now : ℕ
  pub stamp : ℕ → Stamp
  pub usd : Money D
  -- `campaign.spentCostUsd += result.costUsd - estimatedCost`
  pub correct : (spent actual estimated : D) → D
  pub json : SendJson R
  pub ports : Ports L
  pub cost_estimate : Channel → D
  pub select : Channel → Option (Provider D)
  pub next_due_at : (base delay_ms : ℕ) → ℕ
  -- `recoverEmailForSend` and `fingerprintEmailForVersion`; none is an exception.
  pub recover_email : ℕ → String → Option String
  pub fingerprint_email : ℕ → String → String → Option String
  -- The texts `Safety gate denied: …`, those of a retry's reasons, and those of the codes.
  pub denial_text : DenialCode → String
  pub retry_text : DenialCode → String
  pub denial_code : DenialCode → String

pub record SendWorld (D : Type 0) (L : Type 0) (R : Type 0) : Type 0 where
  pub gate : GateWorld L R
  pub executions : List Execution
  pub sequences : List Sequence
  pub campaigns : List (Campaign D)
  pub sent : List (Context × SendRequest)

-- The table `outreach.message_executions`, with its primary key and its index on idempotency keys.
abbrev pub executions_table : Stored ExecutionEvent Execution
executions_table = record {
  root = λ x. x.root;
  with_root = λ r x. record x { root = r };
  workspace_id = λ x. x.key.workspace_id;
  reconstitute = reconstitute_execution;
  clashes = λ x y.
      x.root.tenant_id == y.root.tenant_id
      && (x.root.id == y.root.id
          || x.key.workspace_id == y.key.workspace_id
            && x.key.idempotency_key == y.key.idempotency_key);
}

abbrev pub sequences_table : Stored SequenceEvent Sequence
sequences_table = record {
  root = λ q. q.root;
  with_root = λ r q. record q { root = r };
  workspace_id = λ q. q.key.workspace_id;
  reconstitute = reconstitute_sequence;
  clashes = λ p q. p.root.tenant_id == q.root.tenant_id && p.root.id == q.root.id;
}

abbrev pub campaigns_table : {D : Type 0} → Stored CampaignEvent (Campaign D)
campaigns_table = record {
  root = λ c. c.root;
  with_root = λ r c. record c { root = r };
  workspace_id = λ c. c.key.workspace_id;
  reconstitute = reconstitute_campaign;
  clashes = λ c d. c.root.tenant_id == d.root.tenant_id && c.root.id == d.root.id;
}

-- A save of one of the tables, as it ends: `put` writes the table back.
abbrev pub store_saved : {W E A : Type 0} → (List A → W → W) → W → Saved A → W × Result E A
store_saved put w (saved rows x) = (put rows w, value x)
store_saved put w stale = (w, conflict)
store_saved put w mismatched = (w, thrown)

module _ {D : Type 0} {L : Type 0} {R : Type 0} {E : Type 0} (ctx : Context) where
  unfoldable pub load_execution : ℕ → M (SendWorld D L R) E (Option Execution)
  unfolding load reconstitute_execution
  load_execution id w = (w, value (load executions_table ctx id w.executions))

  unfoldable pub load_sequence : ℕ → M (SendWorld D L R) E (Option Sequence)
  unfolding load reconstitute_sequence
  load_sequence id w = (w, value (load sequences_table ctx id w.sequences))

  unfoldable pub load_campaign : ℕ → M (SendWorld D L R) E (Option (Campaign D))
  unfolding load reconstitute_campaign
  load_campaign id w = (w, value (load campaigns_table ctx id w.campaigns))

  unfoldable pub save_execution : Execution → M (SendWorld D L R) E Execution
  unfolding save
  save_execution x w =
      store_saved (λ rows w'. record w' { executions = rows }) w
        (save executions_table ctx x w.executions)

  unfoldable pub save_sequence : Sequence → M (SendWorld D L R) E Sequence
  unfolding save
  save_sequence q w =
      store_saved (λ rows w'. record w' { sequences = rows }) w
        (save sequences_table ctx q w.sequences)

  unfoldable pub save_campaign : Campaign D → M (SendWorld D L R) E (Campaign D)
  unfolding save
  save_campaign c w =
      store_saved (λ rows w'. record w' { campaigns = rows }) w
        (save campaigns_table ctx c w.campaigns)

  -- `ensureSameTenant`.
  unfoldable pub ensure_same_tenant : ℕ → M (SendWorld D L R) E (Unit {0})
  ensure_same_tenant tenant = if ctx.tenant_id == tenant then pure tt else throw
