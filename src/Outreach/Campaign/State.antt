-- ===== src/Outreach/Campaign/State.antt =====
-- The campaign aggregate: states and table (packages/domain/src/outreach/campaign-status.ts), events
-- (packages/domain/src/outreach/campaign-events.ts) and constructors
-- (packages/domain/src/outreach/campaign.ts).
use vega_revenue_os.Prelude.{
  ℕ, String, Bool, true, false, Option, none, some, List, [], ◌∷◌, is_empty, if◌then◌else◌,
}
use vega_revenue_os.Aggregate.{
  Stamp, AggregateRoot, Outcome, ok, fail, new_root, emit, clear_domain_events, set_version,
}
use vega_revenue_os.Outreach.Recipient.{ProtectionState, RecipientError, assert_protected_recipient}
use vega_revenue_os.Outreach.Execution.State.{Channel}
use vega_revenue_os.Outreach.Step.{SequenceStep}
use vega_revenue_os.Outreach.Money.{Money}

pub data CampaignStatus : Type 0 where
  draft pending_approval approved running paused completed cancelled : CampaignStatus

-- The rows of `CAMPAIGN_STATE_TRANSITIONS`.
unfoldable pub can_transition_campaign : CampaignStatus → CampaignStatus → Bool
can_transition_campaign draft pending_approval = true
can_transition_campaign draft cancelled = true
can_transition_campaign pending_approval approved = true
can_transition_campaign pending_approval cancelled = true
can_transition_campaign approved running = true
can_transition_campaign approved cancelled = true
can_transition_campaign running paused = true
can_transition_campaign running completed = true
can_transition_campaign running cancelled = true
can_transition_campaign paused running = true
can_transition_campaign paused cancelled = true
can_transition_campaign _ _ = false

pub data CampaignReason : Type 0 where
  submitted campaign_started campaign_resumed campaign_completed : CampaignReason
  given rejected : String → CampaignReason

pub data CampaignEvent : Type 0 where
  campaign_created :
      (campaign_id : ℕ) (mission_id : Option ℕ) (lead_id : ℕ) (channel : Channel) → CampaignEvent
  status_changed :
      (campaign_id : ℕ) (from to : CampaignStatus) (reason : CampaignReason) (decided_by : Option ℕ)
      → CampaignEvent

pub data CampaignError : Type 0 where
  contact_required no_steps : CampaignError
  cannot_transition : CampaignStatus → CampaignStatus → CampaignError
  bad_recipient : RecipientError → CampaignError

-- What is fixed when a campaign is created.
pub record CampaignKey (D : Type 0) : Type 0 where
  pub workspace_id : ℕ
  pub mission_id : Option ℕ
  pub lead_id : ℕ
  pub contact_id : String
  pub recipient_fingerprint : Option String
  pub recipient_protection_state : ProtectionState
  pub channel : Channel
  pub steps : List SequenceStep
  pub max_send_count : Option ℕ
  pub max_cost_usd : Option D

pub record Campaign (D : Type 0) : Type 0 where
  pub root : AggregateRoot CampaignEvent
  pub key : CampaignKey D
  pub status : CampaignStatus
  pub sent_count : ℕ
  pub spent_cost_usd : D
  pub created_at : ℕ
  pub updated_at : ℕ

pub data CampaignCreated (D : Type 0) : Type 0 where
  created : Campaign D → CampaignCreated D
  thrown : CampaignError → CampaignCreated D

abbrev has_steps : List SequenceStep → Bool
has_steps [] = false
has_steps (x ∷ xs) = true

module _ {D : Type 0} where
  -- The constructor as `create` calls it, with nothing sent or spent.
  unfoldable pub new_campaign : Money D → ℕ → ℕ → CampaignKey D → ℕ → Campaign D
  new_campaign usd tenant id key now = record {
    root = new_root tenant id;
    key = key;
    status = draft;
    sent_count = 0;
    spent_cost_usd = usd.zero_usd;
    created_at = now;
    updated_at = now;
  }

  abbrev announce : Stamp → Campaign D → Campaign D
  announce s c = record c {
    root = emit s (campaign_created c.root.id c.key.mission_id c.key.lead_id c.key.channel) c.root;
  }

  -- `OutreachCampaign.create`.
  unfoldable pub create_campaign : Money D → ℕ → ℕ → CampaignKey D → Stamp → CampaignCreated D
  unfolding new_campaign assert_protected_recipient
  create_campaign usd tenant id key s =
      if is_empty key.contact_id
      then thrown contact_required
      else elim (assert_protected_recipient key.recipient_protection_state
          key.recipient_fingerprint) [
            | some e ↦ thrown (bad_recipient e)
            | none ↦
                if has_steps key.steps
                then created (announce s (new_campaign usd tenant id key s.now))
                else thrown no_steps
          ]

  -- `OutreachCampaign.reconstitute`, of a snapshot that has every property.
  unfoldable pub reconstitute_campaign : Campaign D → ℕ → Campaign D
  reconstitute_campaign c version = record c {
    root = clear_domain_events (set_version version c.root);
  }

  -- `transition`.
  unfoldable pub transition :
      CampaignStatus
      → CampaignReason
      → Option ℕ
      → Stamp
      → Campaign D
      → Campaign D × Outcome CampaignError
  unfolding can_transition_campaign
  transition to why by s c =
      if can_transition_campaign c.status to
      then (
        record c {
          status = to;
          updated_at = s.now;
          root = emit s (status_changed c.root.id c.status to why by) c.root;
        },
        ok,
      )
      else (c, fail (cannot_transition c.status to))
