-- ===== src/Outreach/Gate/Effect.antt =====
-- When the gate allows a send and what an evaluation leaves behind
-- (packages/outreach/src/safety/send-safety-gate.ts).
use vega_revenue_os.Prelude.{
  ℕ, ◌+◌, ◌≡◌, ◌↔◌, Bool, true, false, none, [], ◌∷◌, ◌++◌, if◌then◌else◌, arith,
}
use vega_revenue_os.Idempotency.Store.{Json, is_claimable, reserve, claim}
use vega_revenue_os.Outreach.Money.{Money}
use vega_revenue_os.Outreach.Campaign.Commands.{record_spend, over_count, over_cost}
use vega_revenue_os.Outreach.Gate.Decision.{
  SafetyDecision, ApprovalOutcome, allow, deny, approval_denial_code, duplicate_send,
  invalid_content,
}
use vega_revenue_os.Outreach.Gate.Limits.{check_rate_limits}
use vega_revenue_os.Outreach.Gate.Evaluate.{
  Ports, GateInput, GateWorld, Evaluated, send_key, request_of, is_same_tenant, has_content,
  check_budget, reserve_send, spend_and_reserve, limit_and_send, evaluate,
}

abbrev pub is_allow : SafetyDecision → Bool
is_allow allow = true
is_allow _ = false

-- The decisions before which the campaign's spend is recorded.
abbrev is_after_spend : SafetyDecision → Bool
is_after_spend allow = true
is_after_spend (deny duplicate_send) = true
is_after_spend (deny invalid_content) = true
is_after_spend _ = false

module _ {D : Type 0} {L : Type 0} {R : Type 0} (usd : Money D) (json : Json R) (now : ℕ) where
  -- Every check of the gate, passed, and the key free.
  pub record IsCleared (p : Ports L) (i : GateInput D) (w : GateWorld L R) : Type 0 where
    pub tenant : is_same_tenant i ≡ true
    pub allowlisted :
        p.is_allowlisted i.tenant_id i.execution.key.channel i.recipient_address ≡ true
    pub unsuppressed : p.is_suppressed i.tenant_id i.recipient_address ≡ false
    pub approved : p.verify i.tenant_id (request_of i) ≡ ApprovalOutcome.approved
    pub in_limits :
        (check_rate_limits p.limiter i.tenant_id i.execution.key.channel now p.rate_limit_config
          w.limits).1
        ≡ none
    pub in_count : over_count i.campaign 1 ≡ false
    pub in_cost : over_cost usd i.campaign i.estimated_cost_usd ≡ false
    pub content : has_content i.execution.draft ≡ true
    pub unclaimed : is_claimable json (send_key i.tenant_id i.execution) w.table ≡ true

  IsCleared-allow :
      (p : Ports L) (i : GateInput D) (w : GateWorld L R)
      → IsCleared p i w
      → (evaluate usd json now p i w).decision ≡ allow
  unfolding evaluate limit_and_send spend_and_reserve reserve_send check_budget approval_denial_code
      record_spend claim
  IsCleared-allow p i w h = ground arith

  pub allow-IsCleared :
      (p : Ports L) (i : GateInput D) (w : GateWorld L R)
      → (evaluate usd json now p i w).decision ≡ allow
      → IsCleared p i w
  unfolding evaluate limit_and_send spend_and_reserve reserve_send check_budget approval_denial_code
      record_spend claim
  allow-IsCleared p i w h = ground arith

  -- An evaluation allows the send exactly if every check passes, the rate limits and the budget
  -- included, and the execution's idempotency key can be claimed.
  pub evaluate_allows_iff :
      (p : Ports L) (i : GateInput D) (w : GateWorld L R)
      → (evaluate usd json now p i w).decision ≡ allow ↔ IsCleared p i w
  evaluate_allows_iff p i w = (allow-IsCleared p i w, IsCleared-allow p i w)

  -- What an evaluation leaves: the table with the key reserved, or as it was; the campaign with one
  -- send more and its estimated cost, or as it was; and one entry more in the audit log.
  pub record Effects (i : GateInput D) (w : GateWorld L R) (e : Evaluated D L R) : Type 0 where
    pub table : e.world.table ≡ (
        if is_allow e.decision
        then reserve json now (send_key i.tenant_id i.execution) w.table
        else w.table)
    pub campaign : e.campaign ≡ (
        if is_after_spend e.decision
        then record i.campaign {
          sent_count = i.campaign.sent_count + 1;
          spent_cost_usd = usd.plus i.campaign.spent_cost_usd i.estimated_cost_usd;
        }
        else i.campaign)
    pub audit : e.world.audit ≡ w.audit ++ (i.execution.root.id, e.decision) ∷ []

  -- Whatever the ports answer, an evaluation reserves the key exactly if it allows the send, records
  -- the spend exactly if it allows the send or denies it for its content or as a duplicate, and
  -- writes its decision to the audit log once.
  pub evaluate-Effects :
      (p : Ports L) (i : GateInput D) (w : GateWorld L R)
      → Effects i w (evaluate usd json now p i w)
  unfolding evaluate limit_and_send spend_and_reserve reserve_send check_budget approval_denial_code
      record_spend claim
  evaluate-Effects p i w = ground arith
