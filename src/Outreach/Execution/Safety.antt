-- ===== src/Outreach/Execution/Safety.antt =====
-- Message executions over a history of commands
-- (packages/domain/src/outreach/message-execution.ts).
use vega_revenue_os.Prelude.{
  ℕ, String, ◌<◌, ◌≡◌, ◌≢◌, ◌∙◌, refl, Bool, true, false, Option, some, is_some, List, [], ◌∷◌,
  arith, length-append,
}
use vega_revenue_os.Aggregate.{Stamp, ok}
use vega_revenue_os.Aggregate.Log.{IsLogged}
use vega_revenue_os.Outreach.Execution.Status.{
  ExecutionStatus, pending, drafting, pending_approval, approved, sending, bounced, cancelled,
  is_sending, is_approved,
}
use vega_revenue_os.Outreach.Execution.State.{Execution, ExecutionKey, new_execution}
use vega_revenue_os.Outreach.Execution.Commands
use vega_revenue_os.Outreach.Execution.Command.{Command, run, run_all, mark_provider_attempt}

-- An execution that is approved, is being sent or was handed to a provider has an approval.
pub record IsApproved (x : Execution) : Type 0 where
  pub to_send : is_approved x.status ≡ true → is_some x.approval_id ≡ true
  pub in_flight : is_sending x.status ≡ true → is_some x.approval_id ≡ true
  pub attempted : 0 < x.attempts → is_some x.approval_id ≡ true

run-IsApproved : (c : Command) (s : Stamp) (x : Execution) → IsApproved x → IsApproved (run c s x).0
unfolding run
run-IsApproved (mark_provider_attempt id) s x h = ground arith
run-IsApproved c s x h = ground arith

-- A state that the code never enters: no row of the table leads to it.
abbrev pub is_dead : ExecutionStatus → Bool
is_dead bounced = true
is_dead cancelled = true
is_dead _ = false

run-dead :
    (c : Command) (s : Stamp) (x : Execution)
    → is_dead x.status ≡ false
    → is_dead (run c s x).0.status ≡ false
unfolding run
run-dead (mark_provider_attempt id) s x h = ground arith
run-dead c s x h = ground arith

run_all-safe :
    (cs : List (Command × Stamp)) (x : Execution)
    → IsApproved x
    → is_dead x.status ≡ false
    → IsApproved (run_all cs x) × (is_dead (run_all cs x).status ≡ false)
unfolding run_all
run_all-safe [] x h k = (h, k)
run_all-safe ((c, s) ∷ cs) x h k =
    run_all-safe cs (run c s x).0 (run-IsApproved c s x h) (run-dead c s x k)

not_dead : (a : ExecutionStatus) → is_dead a ≡ false → (a ≢ bounced) × (a ≢ cancelled)
not_dead a h = ground arith

new-IsApproved :
    (tenant id : ℕ) (key : ExecutionKey) (now : ℕ) → IsApproved (new_execution tenant id key now)
unfolding new_execution
new-IsApproved tenant id key now = ground arith

-- No history of commands of a new execution takes it to an approved state, to SENDING or to a
-- provider attempt without an approval, or to BOUNCED or CANCELLED at all.
pub history_safe :
    (cs : List (Command × Stamp)) (tenant id : ℕ) (key : ExecutionKey) (now : ℕ)
    → let x = run_all cs (new_execution tenant id key now) in
      IsApproved x × (x.status ≢ bounced) × (x.status ≢ cancelled)
unfolding new_execution
history_safe cs tenant id key now =
    let (h, alive) =
      run_all-safe cs (new_execution tenant id key now) (new-IsApproved tenant id key now) refl in
    let (b, c) = not_dead _ alive in (h, b, c)

-- The states from which nothing is sent again: SENDING is behind them.
abbrev pub is_past : ExecutionStatus → Bool
is_past pending = false
is_past drafting = false
is_past pending_approval = false
is_past approved = false
is_past sending = false
is_past _ = true

pub run-past :
    (c : Command) (s : Stamp) (x : Execution)
    → is_past x.status ≡ true
    → (is_past (run c s x).0.status ≡ true) × ((run c s x).0.attempts ≡ x.attempts)
unfolding run
run-past (mark_provider_attempt id) s x h = ground arith
run-past c s x h = ground arith

-- Once an execution has left SENDING, no history of commands, an operator's reconciliations among
-- them, brings it back to SENDING or adds a provider attempt.
pub never_sent_again :
    (cs : List (Command × Stamp)) (x : Execution)
    → is_past x.status ≡ true
    → (is_past (run_all cs x).status ≡ true) × ((run_all cs x).attempts ≡ x.attempts)
unfolding run_all
never_sent_again [] x h = (h, refl)
never_sent_again ((c, s) ∷ cs) x h =
    let (p, a) = run-past c s x h in let (q, b) = never_sent_again cs (run c s x).0 p in (q, b ∙ a)

run-IsLogged :
    (c : Command) (s : Stamp) (x : Execution) → IsLogged x.root → IsLogged (run c s x).0.root
unfolding run
run-IsLogged (mark_provider_attempt id) s x h = grind (arith, length-append)
run-IsLogged c s x h = grind (arith, length-append)

-- Where the version is the loaded one and one more for each uncommitted event, it is so after any
-- history of commands.
pub run_all-IsLogged :
    (cs : List (Command × Stamp)) (x : Execution) → IsLogged x.root → IsLogged (run_all cs x).root
unfolding run_all
run_all-IsLogged [] x h = h
run_all-IsLogged ((c, s) ∷ cs) x h = run_all-IsLogged cs (run c s x).0 (run-IsLogged c s x h)

-- `markProviderAccepted` outside SENDING fails and leaves the status, and has by then replaced the
-- provider's message id, the internet message id and the time of acceptance.
pub mark_provider_accepted_overwrites :
    (a b code : Option String) (s : Stamp) (x : Execution)
    → x.status ≢ sending
    → let (y, r) = Commands.mark_provider_accepted a b code s x in
      (r ≢ ok)
      × (y.status ≡ x.status)
      × (y.provider_message_id ≡ a)
      × (y.internet_message_id ≡ b)
      × (y.provider_accepted_at ≡ some s.now)
unfolding Commands.mark_provider_accepted
mark_provider_accepted_overwrites a b code s x h = ground arith
