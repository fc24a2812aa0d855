-- ===== src/Outreach/Campaign/Commands.antt =====
-- The commands of a campaign (packages/domain/src/outreach/campaign.ts).
use vega_revenue_os.Prelude.{
  ℕ, ◌+◌, String, Bool, true, false, none, some, List, [], ◌∷◌, ltb, if◌then◌else◌,
}
use vega_revenue_os.Aggregate.{Stamp, Outcome}
use vega_revenue_os.Outreach.Money.{Money}
use vega_revenue_os.Outreach.Campaign.State.{
  Campaign, CampaignError, CampaignStatus, transition, submitted, campaign_started,
  campaign_resumed, campaign_completed, given, rejected,
}

pub data Command : Type 0 where
  submit_for_approval start resume complete : Command
  approve reject : ℕ → String → Command
  pause cancel : String → Command

module _ {D : Type 0} where
  -- The commands that only move the campaign: `submitForApproval`, `approve`, `reject`, `start`,
  -- `pause`, `resume`, `complete` and `cancel`.
  unfoldable pub run : Command → Stamp → Campaign D → Campaign D × Outcome CampaignError
  unfolding transition
  run submit_for_approval s c = transition CampaignStatus.pending_approval submitted none s c
  run (approve by why) s c = transition CampaignStatus.approved (given why) (some by) s c
  run (reject by why) s c = transition CampaignStatus.cancelled (rejected why) (some by) s c
  run start s c = transition CampaignStatus.running campaign_started none s c
  run (pause why) s c = transition CampaignStatus.paused (given why) none s c
  run resume s c = transition CampaignStatus.running campaign_resumed none s c
  run complete s c = transition CampaignStatus.completed campaign_completed none s c
  run (cancel why) s c = transition CampaignStatus.cancelled (given why) none s c

  -- `budget.maxSendCount !== undefined && sentCount + n > budget.maxSendCount`
  abbrev pub over_count : Campaign D → ℕ → Bool
  over_count c n = elim c.key.max_send_count [
    | none ↦ false
    | some max ↦ ltb max (c.sent_count + n)
  ]

  -- `budget.maxCostUsd !== undefined && spentCostUsd + cost > budget.maxCostUsd`
  abbrev pub over_cost : Money D → Campaign D → D → Bool
  over_cost usd c cost = elim c.key.max_cost_usd [
    | none ↦ false
    | some max ↦ usd.above (usd.plus c.spent_cost_usd cost) max
  ]

  -- `recordSpend`.
  unfoldable pub record_spend : Money D → ℕ → D → Campaign D → Campaign D × Bool
  record_spend usd n cost c =
      if over_count c n then (c, false) else if over_cost usd c cost then (c, false) else (
        record c { sent_count = c.sent_count + n; spent_cost_usd = usd.plus c.spent_cost_usd cost },
        true,
      )

  -- A history of spends, the refused ones among them.
  unfoldable pub spend_all : Money D → List (ℕ × D) → Campaign D → Campaign D
  spend_all usd [] c = c
  spend_all usd ((n, cost) ∷ ns) c = spend_all usd ns (record_spend usd n cost c).0
