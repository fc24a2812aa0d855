-- ===== src/Outreach/Sequence/Command.antt =====
-- The commands of a sequence as data, and histories of them
-- (packages/domain/src/outreach/sequence.ts).
use vega_revenue_os.Prelude.{ℕ, String, Bool, Option, List, [], ◌∷◌}
use vega_revenue_os.Aggregate.{Stamp}
use vega_revenue_os.Outreach.Sequence.State.{Sequence}
use vega_revenue_os.Outreach.Sequence.Commands
use vega_revenue_os.Outreach.Sequence.Commands.{Done}

pub data Command : Type 0 where
  submit_for_approval start resume continue_after_response : Command
  approve reject : ℕ → String → Command
  start_step : ℕ → ℕ → Command
  complete_step : ℕ → Option ℕ → Command
  fail_step : ℕ → String → Bool → Command
  pause cancel : String → Command
  wait_for_response link_workflow : ℕ → Command

unfoldable pub run : Command → Stamp → Sequence → Done
unfolding Commands.submit_for_approval Commands.start Commands.resume
    Commands.continue_after_response Commands.approve Commands.reject Commands.start_step
    Commands.complete_step Commands.fail_step Commands.pause Commands.cancel
    Commands.wait_for_response Commands.link_workflow
run submit_for_approval s q = Commands.submit_for_approval s q
run start s q = Commands.start s q
run resume s q = Commands.resume s q
run continue_after_response s q = Commands.continue_after_response s q
run (approve by why) s q = Commands.approve by why s q
run (reject by why) s q = Commands.reject by why s q
run (start_step id at_time) s q = Commands.start_step id at_time s q
run (complete_step id due) s q = Commands.complete_step id due s q
run (fail_step id why again) s q = Commands.fail_step id why again s q
run (pause why) s q = Commands.pause why s q
run (cancel why) s q = Commands.cancel why s q
run (wait_for_response deadline) s q = Commands.wait_for_response deadline s q
run (link_workflow id) s q = Commands.link_workflow id s q

-- A history of commands, the failed ones among them.
unfoldable pub run_all : List (Command × Stamp) → Sequence → Sequence
run_all [] q = q
run_all ((c, s) ∷ cs) q = run_all cs (run c s q).0
