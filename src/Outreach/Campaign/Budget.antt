-- ===== src/Outreach/Campaign/Budget.antt =====
-- The budget of a campaign, and its commands (packages/domain/src/outreach/campaign.ts).
use vega_revenue_os.Prelude.{
  ℕ, ◌+◌, ◌≤◌, ◌≡◌, ◌⊎◌, refl, ◌∙◌, if-cases, Bool, true, false, inl, inr, Option, none, some, List,
  [], ◌∷◌, arith, length, length-append,
}
use vega_revenue_os.Aggregate.{Stamp, Outcome, ok, fail}
use vega_revenue_os.Outreach.Money.{Money}
use vega_revenue_os.Outreach.Campaign.State.{
  Campaign, CampaignStatus, CampaignReason, CampaignError, can_transition_campaign, transition,
}
use vega_revenue_os.Outreach.Campaign.Commands.{
  Command, run, record_spend, spend_all, over_count, over_cost,
}

module _ {D : Type 0} (usd : Money D) where
  -- What has been sent and spent is not above a limit that is set.
  abbrev pub InCount : Option ℕ → ℕ → Type 0
  InCount none n = Unit
  InCount (some max) n = n ≤ max

  abbrev pub InCost : Option D → D → Type 0
  InCost none spent = Unit
  InCost (some max) spent = usd.above spent max ≡ false

  pub record IsInBudget (c : Campaign D) : Type 0 where
    pub count : InCount c.key.max_send_count c.sent_count
    pub cost : InCost c.key.max_cost_usd c.spent_cost_usd

  record_spend-IsInBudget :
      (n : ℕ) (cost : D) (c : Campaign D) → IsInBudget c → IsInBudget (record_spend usd n cost c).0
  unfolding record_spend
  record_spend-IsInBudget n cost c h = ground arith

  InCount-of :
      (c : Campaign D) (n : ℕ)
      → over_count c n ≡ false
      → InCount c.key.max_send_count (c.sent_count + n)
  InCount-of c n h = ground arith

  not-InCount :
      (c : Campaign D) (n : ℕ)
      → over_count c n ≡ true
      → ¬ InCount c.key.max_send_count (c.sent_count + n)
  not-InCount c n h = ground arith

  InCost-of :
      (c : Campaign D) (cost : D)
      → over_cost usd c cost ≡ false
      → InCost c.key.max_cost_usd (usd.plus c.spent_cost_usd cost)
  InCost-of c cost h = ground arith

  not-InCost :
      (c : Campaign D) (cost : D)
      → over_cost usd c cost ≡ true
      → ¬ InCost c.key.max_cost_usd (usd.plus c.spent_cost_usd cost)
  not-InCost c cost h = ground arith

  -- The outcome of a spend: the totals with it are within the limits and stored, or they are not and
  -- nothing is.
  abbrev pub Spends : ℕ → D → Campaign D → Campaign D × Bool → Type 0
  Spends n cost c (c', done) =
      let spent = usd.plus c.spent_cost_usd cost in
      (done ≡ true)
        × InCount c.key.max_send_count (c.sent_count + n)
        × InCost c.key.max_cost_usd spent
        × (c' ≡ record c { sent_count = c.sent_count + n; spent_cost_usd = spent })
      ⊎ (done ≡ false)
        × ¬ (InCount c.key.max_send_count (c.sent_count + n) × InCost c.key.max_cost_usd spent)
        × (c' ≡ c)

  -- `recordSpend` answers true exactly if the new totals are within the limits that are set, and then
  -- it has stored them; it answers false exactly if they are not, and changes nothing.
  pub record_spend_lem :
      (n : ℕ) (cost : D) (c : Campaign D) → Spends n cost c (record_spend usd n cost c)
  unfolding record_spend
  record_spend_lem n cost c =
      if-cases (Spends n cost c) (over_count c n)
        (λ a. inr (refl, (λ w. not-InCount c n a w.0), refl))
        λ a.
          if-cases (Spends n cost c) (over_cost usd c cost)
            (λ b. inr (refl, (λ w. not-InCost c cost b w.1), refl))
            λ b. inl (refl, InCount-of c n a, InCost-of c cost b, refl)

  -- No series of spends takes a campaign that is within its budget over it.
  pub spend_all-IsInBudget :
      (ns : List (ℕ × D)) (c : Campaign D) → IsInBudget c → IsInBudget (spend_all usd ns c)
  unfolding spend_all
  spend_all-IsInBudget [] c h = h
  spend_all-IsInBudget ((n, cost) ∷ ns) c h =
      spend_all-IsInBudget ns (record_spend usd n cost c).0 (record_spend-IsInBudget n cost c h)

-- What a command does: it moves the campaign along the table, keeps the money and the version's
-- count of events, or is refused and changes nothing.
abbrev pub IsLawful : {D : Type 0} → Campaign D → Campaign D × Outcome CampaignError → Type 0
IsLawful c (c', ok) =
    (can_transition_campaign c.status c'.status ≡ true)
    × (c'.sent_count ≡ c.sent_count)
    × (c'.spent_cost_usd ≡ c.spent_cost_usd)
    × (c'.root.version ≡ c.root.version + 1)
    × (length c'.root.domain_events ≡ length c.root.domain_events + 1)
IsLawful c (c', fail e) = c' ≡ c

transition-IsLawful :
    {D : Type 0} (to : CampaignStatus) (why : CampaignReason) (by : Option ℕ) (s : Stamp)
    (c : Campaign D)
    → IsLawful c (transition to why by s c)
unfolding transition
transition-IsLawful to why by s c =
    if-cases (IsLawful c) (can_transition_campaign c.status to)
      (λ h. (h, refl, refl, refl, length-append c.root.domain_events (_ ∷ []) ∙ omega arith))
      (λ _. refl)

-- Every command of a campaign moves it along the table, with one event and one version more and
-- the money as it was, or it fails and changes nothing.
pub run-IsLawful : {D : Type 0} (x : Command) (s : Stamp) (c : Campaign D) → IsLawful c (run x s c)
unfolding run
run-IsLawful Command.submit_for_approval s c = transition-IsLawful _ _ _ s c
run-IsLawful (Command.approve by why) s c = transition-IsLawful _ _ _ s c
run-IsLawful (Command.reject by why) s c = transition-IsLawful _ _ _ s c
run-IsLawful Command.start s c = transition-IsLawful _ _ _ s c
run-IsLawful (Command.pause why) s c = transition-IsLawful _ _ _ s c
run-IsLawful Command.resume s c = transition-IsLawful _ _ _ s c
run-IsLawful Command.complete s c = transition-IsLawful _ _ _ s c
run-IsLawful (Command.cancel why) s c = transition-IsLawful _ _ _ s c
