-- ===== src/Mission/Engine/World.antt =====
-- What `MissionExecutionEngine` works with
-- (packages/mission-orchestrator/src/workflow/mission-execution-engine.ts): its dependencies, and the
-- row of one mission, on which other writers act between the engine's own calls. The agents, the
-- planner, the registry, the resolver of workspaces and the services of approvals and compensations
-- are parameters, as they answer at the call.
use vega_revenue_os.Prelude.{ℕ, String, Bool, Option, List}
use vega_revenue_os.Aggregate.{Stamp, DomainEvent}
use vega_revenue_os.Mission.State.{Mission, MissionEvent}
use vega_revenue_os.Mission.Command.{Command}

pub record TenantContext : Type 0 where
  pub tenant_id : ℕ
  pub workspace_id : Option String
  pub correlation_id : ℕ

-- `TaskContract`, less what the engine does not read.
pub record TaskContract : Type 0 where
  pub task_id : ℕ
  pub plan_id : Option ℕ
  pub agent_id : String
  pub agent_version : ℕ
  pub task_type : ℕ
  pub required_capability : Option String
  pub input : ℕ
  pub depends_on : List ℕ
  pub deadline : Option ℕ
  pub approval_gate_id : Option ℕ

-- `PlanContract`: its phases are the lists of their tasks.
pub record PlanContract : Type 0 where
  pub plan_id : ℕ
  pub version : ℕ
  pub phases : List (List TaskContract)

pub data ExecutionStatus : Type 0 where
  pending running awaiting_approval paused completed failed cancelled timed_out : ExecutionStatus
  requires_reconciliation : ExecutionStatus

-- `AIExecutionResult` with its `ExecutionOutcome`, whose lists no code of the engine reads.
pub record ExecutionResult : Type 0 where
  pub execution_id : ℕ
  pub status : ExecutionStatus
  pub outcome : ℕ
  pub summary : String

-- `AIExecutionRequest`, less the constants and the mission's own contract.
pub record ExecutionRequest : Type 0 where
  pub execution_id : ℕ
  pub tenant_id : ℕ
  pub mission_id : ℕ
  pub task_id : ℕ
  pub agent_id : String
  pub agent_version : ℕ
  pub task_type : ℕ
  pub target : ℕ
  pub capabilities : List String
  pub workspace_id : String
  pub deadline : Option ℕ

pub record ApprovalRequest : Type 0 where
  pub mission_id : ℕ
  pub task_id : ℕ
  pub execution_id : ℕ
  pub action_type : ℕ
  pub requested_by : String

pub record CompensationRequest : Type 0 where
  pub mission_id : ℕ
  pub task_id : ℕ
  pub action_type : ℕ

-- The dependencies. None, and false, stand for an exception; `stamp i j` is the `j`-th stamp of the
-- engine's `i`-th group of commands.
pub record Dependencies : Type 0 where
  pub stamp : ℕ → ℕ → Stamp
  pub execution_id : ℕ → ℕ
  pub task_key : (task_id plan_id : ℕ) → ℕ
  pub actor : ℕ → ℕ
  pub plan : Mission → Option PlanContract
  pub supports : String → ℕ → Option String → Bool
  pub resolve_workspace : ℕ → Option String
  pub execute : ExecutionRequest → Option ExecutionResult
  pub publish : DomainEvent MissionEvent → Bool
  pub request_approval : ApprovalRequest → Bool
  pub compensate : CompensationRequest → Bool
  -- The texts `approval:…`, `Awaiting approval for task …`, `Task … failed: …` and
  -- `No runnable tasks remain and not all tasks completed`.
  pub gate_of : ℕ → ℕ
  pub awaiting_text : ℕ → String
  pub failed_text : ℕ → String → String
  pub no_runnable_text : String

-- The commands that another writer runs on the mission and saves at once.
abbrev pub Batch : Type 0
Batch = List (Command × Stamp)

-- The mission's row, what the other writers do before each of the engine's reads and writes of it,
-- the number of groups of commands so far, and what was handed to the ports.
pub record EngineWorld : Type 0 where
  pub stored : Mission
  pub others : List Batch
  pub tick : ℕ
  pub published : List (DomainEvent MissionEvent)
  pub executed : List ExecutionRequest
  pub approvals : List ApprovalRequest
  pub compensations : List CompensationRequest
