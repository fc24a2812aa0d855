-- ===== src/Outreach/Execution/Command.antt =====
-- The commands of a message execution as data, and histories of them
-- (packages/domain/src/outreach/message-execution.ts).
use vega_revenue_os.Prelude.{ℕ, String, Option, List, [], ◌∷◌}
use vega_revenue_os.Aggregate.{Stamp, ok}
use vega_revenue_os.Outreach.Execution.State.{Execution, MessageDraft, RetryClassification}
use vega_revenue_os.Outreach.Execution.Commands
use vega_revenue_os.Outreach.Execution.Commands.{Done}

pub data Command : Type 0 where
  start_drafting mark_sending mark_delivery_pending mark_opened mark_replied : Command
  set_draft : ℕ → MessageDraft → Command
  approve mark_provider_attempt record_retry_after : ℕ → Command
  mark_provider_accepted : Option String → Option String → Option String → Command
  mark_delivered mark_reconciled_delivered : Option String → Command
  mark_failed : RetryClassification → String → Option String → Command
  reject mark_bounced mark_delivery_unknown mark_requires_reconciliation : String → Command
  mark_reconciled_failed cancel : String → Command

unfoldable pub run : Command → Stamp → Execution → Done
unfolding Commands.start_drafting Commands.mark_sending Commands.mark_delivery_pending
    Commands.mark_opened Commands.mark_replied Commands.set_draft Commands.approve
    Commands.mark_provider_attempt Commands.record_retry_after Commands.mark_provider_accepted
    Commands.mark_delivered Commands.mark_reconciled_delivered Commands.mark_failed Commands.reject
    Commands.mark_bounced Commands.mark_delivery_unknown Commands.mark_requires_reconciliation
    Commands.mark_reconciled_failed Commands.cancel
run start_drafting s x = Commands.start_drafting s x
run mark_sending s x = Commands.mark_sending s x
run mark_delivery_pending s x = Commands.mark_delivery_pending s x
run mark_opened s x = Commands.mark_opened s x
run mark_replied s x = Commands.mark_replied s x
run (set_draft id draft) s x = Commands.set_draft id draft s x
run (approve id) s x = Commands.approve id s x
run (mark_provider_attempt id) s x = Commands.mark_provider_attempt id s.now x
run (record_retry_after ms) s x = (Commands.record_retry_after ms x, ok)
run (mark_provider_accepted a b c) s x = Commands.mark_provider_accepted a b c s x
run (mark_delivered id) s x = Commands.mark_delivered id s x
run (mark_reconciled_delivered id) s x = Commands.mark_reconciled_delivered id s x
run (mark_failed c why code) s x = Commands.mark_failed c why code s x
run (reject why) s x = Commands.reject why s x
run (mark_bounced why) s x = Commands.mark_bounced why s x
run (mark_delivery_unknown why) s x = Commands.mark_delivery_unknown why s x
run (mark_requires_reconciliation why) s x = Commands.mark_requires_reconciliation why s x
run (mark_reconciled_failed why) s x = Commands.mark_reconciled_failed why s x
run (cancel why) s x = Commands.cancel why s x

-- A history of commands, the failed ones among them.
unfoldable pub run_all : List (Command × Stamp) → Execution → Execution
run_all [] x = x
run_all ((c, s) ∷ cs) x = run_all cs (run c s x).0
