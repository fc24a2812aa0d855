-- ===== src/Outreach/Send/Identity.antt =====
-- A command and a reload leave an execution the one that it is
-- (packages/domain/src/outreach/message-execution.ts,
-- packages/outreach/src/infrastructure/postgres-message-execution-repository.ts).
use vega_revenue_os.Prelude.{ℕ, ◌≡◌, true, some, List, arith, Option-cases, inl, inr}
use vega_revenue_os.Aggregate.{Stamp}
use vega_revenue_os.Outreach.Repository.{Context, is_row, find_row, load}
use vega_revenue_os.Outreach.Repository.Rows.{find_row-IsRow}
use vega_revenue_os.Outreach.Execution.State.{Execution, reconstitute_execution}
use vega_revenue_os.Outreach.Execution.Command.{Command, run}
use vega_revenue_os.Outreach.Send.World.{executions_table}

pub run-id : (c : Command) (s : Stamp) (x : Execution) → (run c s x).0.root.id ≡ x.root.id
unfolding run
run-id (Command.mark_provider_attempt p) s x = ground arith
run-id c s x = ground arith

run-tenant :
    (c : Command) (s : Stamp) (x : Execution) → (run c s x).0.root.tenant_id ≡ x.root.tenant_id
unfolding run
run-tenant (Command.mark_provider_attempt p) s x = ground arith
run-tenant c s x = ground arith

run-workspace :
    (c : Command) (s : Stamp) (x : Execution) → (run c s x).0.key.workspace_id ≡ x.key.workspace_id
unfolding run
run-workspace (Command.mark_provider_attempt p) s x = ground arith
run-workspace c s x = ground arith

-- A command leaves the row of an execution the same.
pub run-row :
    (ctx : Context) (id : ℕ) (c : Command) (s : Stamp) (x : Execution)
    → is_row executions_table ctx id (run c s x).0 ≡ is_row executions_table ctx id x
run-row ctx id c s x =
    let i = run-id c s x in let t = run-tenant c s x in let w = run-workspace c s x in ground arith

pub load-IsRow :
    (ctx : Context) (id : ℕ) (x : Execution) (rows : List Execution)
    → load executions_table ctx id rows ≡ some x
    → is_row executions_table ctx id x ≡ true
unfolding load reconstitute_execution
load-IsRow ctx id x rows e = elim (Option-cases (find_row executions_table ctx id rows)) [
  | inl n ↦ absurd (ground arith)
  | inr (r, n) ↦ let h = find_row-IsRow executions_table ctx id r rows n in ground arith
]

pub IsRow-id :
    (ctx : Context) (id : ℕ) (x : Execution)
    → is_row executions_table ctx id x ≡ true
    → x.root.id ≡ id
IsRow-id ctx id x h = ground arith

pub load-id :
    (ctx : Context) (id : ℕ) (x : Execution) (rows : List Execution)
    → load executions_table ctx id rows ≡ some x
    → x.root.id ≡ id
load-id ctx id x rows e = let h = load-IsRow ctx id x rows e in ground arith

pub run-loaded :
    (c : Command) (s : Stamp) (x : Execution)
    → (run c s x).0.root.loaded_version ≡ x.root.loaded_version
unfolding run
run-loaded (Command.mark_provider_attempt p) s x = ground arith
run-loaded c s x = ground arith
