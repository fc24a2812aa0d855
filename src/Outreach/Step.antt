-- ===== src/Outreach/Step.antt =====
-- A step of a campaign or a sequence (packages/domain/src/outreach/value-objects/sequence-step.ts).
use vega_revenue_os.Prelude.{ℕ, Bool, Option, String}
use vega_revenue_os.Outreach.Execution.State.{Channel}

pub record SequenceStep : Type 0 where
  pub step_number : ℕ
  pub channel : Channel
  pub delay_ms : ℕ
  pub requires_approval : Bool
  pub template_ref : Option String
  pub objective : Option String
