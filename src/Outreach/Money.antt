-- ===== src/Outreach/Money.antt =====
-- Amounts of dollars (packages/domain/src/outreach/campaign.ts). The source computes with
-- JavaScript's floating-point numbers, so their type and the operations that the code makes on them
-- are a parameter, with no law assumed.
use vega_revenue_os.Prelude.{Bool}

pub record Money (D : Type 0) : Type 0 where
  pub zero_usd : D
  pub plus : D → D → D
  -- `a > b`
  pub above : D → D → Bool
