-- ===== src/Outreach/Gate/Evaluate.antt =====
-- The gate (packages/outreach/src/safety/send-safety-gate.ts). The allowlist, the suppression list,
-- the approvals and the rate limiter are ports, which an evaluation takes as functions.
use vega_revenue_os.Prelude.{
  ℕ, String, Bool, false, not, ◌&&◌, Option, none, some, List, [], ◌∷◌, ◌++◌, is_blank, ◌==◌,
  if◌then◌else◌,
}
use vega_revenue_os.Idempotency.Store.{IdempotencyRecord, RecordKey, Json, claim}
use vega_revenue_os.Outreach.Money.{Money}
use vega_revenue_os.Outreach.Execution.State.{Channel, Execution, MessageDraft}
use vega_revenue_os.Outreach.Campaign.State.{Campaign}
use vega_revenue_os.Outreach.Campaign.Commands.{record_spend, over_count, over_cost}
use vega_revenue_os.Outreach.Gate.Decision.{
  DenialCode, SafetyDecision, ApprovalOutcome, allow, deny, retryable, approval_denial_code,
  invalid_tenant_context, not_allowlisted, suppressed, budget_send_count_exceeded,
  budget_cost_exceeded, duplicate_send, invalid_content,
}
use vega_revenue_os.Outreach.Gate.Limits.{RateLimitConfig, RateLimiter, check_rate_limits}

-- What the approvals port is asked.
pub record ApprovalRequest : Type 0 where
  pub approval_id : ℕ
  pub campaign_id : ℕ
  pub sequence_id : ℕ
  pub execution_id : ℕ
  pub idempotency_key : ℕ
  pub recipient_fingerprint : Option String
  pub action_type : String

-- The ports as they answer at one evaluation. A tenant comes first.
pub record Ports (L : Type 0) : Type 0 where
  pub is_allowlisted : ℕ → Channel → String → Bool
  pub is_suppressed : ℕ → String → Bool
  pub verify : ℕ → ApprovalRequest → ApprovalOutcome
  pub limiter : RateLimiter L
  pub rate_limit_config : Option RateLimitConfig

pub record GateInput (D : Type 0) : Type 0 where
  pub tenant_id : ℕ
  pub campaign : Campaign D
  pub execution : Execution
  pub recipient_address : String
  pub approval_id : ℕ
  pub action_type : String
  pub estimated_cost_usd : D

-- What the evaluations share: the limiter's state, the table of idempotency keys, and the audit
-- log, of which an entry is kept as its execution and decision.
pub record GateWorld (L : Type 0) (R : Type 0) : Type 0 where
  pub limits : L
  pub table : List (IdempotencyRecord R)
  pub audit : List (ℕ × SafetyDecision)

-- An evaluation's end: the campaign object as it is left, the world and the decision.
pub record Evaluated (D : Type 0) (L : Type 0) (R : Type 0) : Type 0 where
  pub campaign : Campaign D
  pub world : GateWorld L R
  pub decision : SafetyDecision

-- `IDEMPOTENCY_SCOPE`, as a number.
abbrev send_scope : ℕ
send_scope = 1

abbrev pub send_key : ℕ → Execution → RecordKey
send_key tenant x = record { tenant_id = tenant; scope = send_scope; key = x.key.idempotency_key }

abbrev pub request_of : {D : Type 0} → GateInput D → ApprovalRequest
request_of i = record {
  approval_id = i.approval_id;
  campaign_id = i.campaign.root.id;
  sequence_id = i.execution.key.sequence_id;
  execution_id = i.execution.root.id;
  idempotency_key = i.execution.key.idempotency_key;
  recipient_fingerprint = i.execution.key.recipient_fingerprint;
  action_type = i.action_type;
}

-- The tenant check of step 1, passed.
abbrev pub is_same_tenant : {D : Type 0} → GateInput D → Bool
is_same_tenant i =
    i.tenant_id == i.campaign.root.tenant_id && i.tenant_id == i.execution.root.tenant_id

-- Step 8, passed: there is a draft whose body is not blank.
abbrev pub has_content : Option MessageDraft → Bool
has_content none = false
has_content (some draft) = not (is_blank draft.body)

-- `checkBudget`.
unfoldable pub check_budget : {D : Type 0} → Money D → Campaign D → D → Option DenialCode
check_budget usd c cost =
    if over_count c 1
    then some budget_send_count_exceeded
    else if over_cost usd c cost
    then some budget_cost_exceeded
    else none

module _ {D : Type 0} {L : Type 0} {R : Type 0} (usd : Money D) (json : Json R) (now : ℕ) where
  -- `deny`, `retryable` and the end of `evaluate`: the decision goes to the audit log.
  abbrev decide : GateInput D → SafetyDecision → Campaign D → GateWorld L R → Evaluated D L R
  decide i d c w = record {
    campaign = c;
    world = record w { audit = w.audit ++ (i.execution.root.id, d) ∷ [] };
    decision = d;
  }

  -- Step 9.
  unfoldable pub reserve_send : GateInput D → Campaign D → GateWorld L R → Evaluated D L R
  unfolding claim
  reserve_send i c w =
      let claimed = claim json now (send_key i.tenant_id i.execution) w.table in
      let w' = record w { table = claimed.0 } in
      if claimed.1 then decide i allow c w' else decide i (deny duplicate_send) c w'

  -- Steps 7 and 8, with the world after the rate limits were asked.
  unfoldable pub spend_and_reserve : GateInput D → GateWorld L R → Evaluated D L R
  unfolding check_budget record_spend reserve_send
  spend_and_reserve i w = elim (check_budget usd i.campaign i.estimated_cost_usd) [
    | some code ↦ decide i (deny code) i.campaign w
    | none ↦
        let c = (record_spend usd 1 i.estimated_cost_usd i.campaign).0 in
        if not (has_content i.execution.draft)
        then decide i (deny invalid_content) c w
        else reserve_send i c w
  ]

  -- Step 6 and what follows.
  unfoldable pub limit_and_send : Ports L → GateInput D → GateWorld L R → Evaluated D L R
  unfolding check_rate_limits spend_and_reserve
  limit_and_send p i w =
      let asked =
        check_rate_limits p.limiter i.tenant_id i.execution.key.channel now p.rate_limit_config
          w.limits in
      let w' = record w { limits = asked.0 } in
      elim asked.1 [
        | some r ↦ decide i (retryable r.code r.retry_after_ms) i.campaign w'
        | none ↦ spend_and_reserve i w'
      ]

  -- `evaluate`.
  unfoldable pub evaluate : Ports L → GateInput D → GateWorld L R → Evaluated D L R
  unfolding approval_denial_code limit_and_send
  evaluate p i w =
      if not (is_same_tenant i)
      then decide i (deny invalid_tenant_context) i.campaign w
      else if not (p.is_allowlisted i.tenant_id i.execution.key.channel i.recipient_address)
      then decide i (deny not_allowlisted) i.campaign w
      else if p.is_suppressed i.tenant_id i.recipient_address
      then decide i (deny suppressed) i.campaign w
      else elim (approval_denial_code (p.verify i.tenant_id (request_of i))) [
        | some code ↦ decide i (deny code) i.campaign w
        | none ↦ limit_and_send p i w
      ]
