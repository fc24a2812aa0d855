-- ===== src/Lib.antt =====
-- The core of the revenue system: missions that plan and run tasks, and outreach that sends messages.
--
-- Aggregate models packages/domain/src/aggregate/aggregate-root.ts and the result of a command: a
-- version, the version that was loaded, and the events not yet saved. Every aggregate below holds
-- one `root` and changes its version by `emit` only.
--
-- Mission models packages/domain/src/mission. Mission.Status has the two tables, Mission.Task a task
-- (mission-task.ts), Mission.State the aggregate, `create`, `reconstitute` and `transitionTo`
-- (mission.ts). Mission.Transitions, Mission.Planning and Mission.Tasks have one function for each
-- command, under its name; Mission.Command makes them one type, so that a history is a list.
-- Mission.Graph is `validateTaskGraph`: its child Checks has the first two loops and Search the
-- depth-first search, the others serve its proof. The search recurs on fuel, one unit for each task and
-- one more, since a visit that goes deeper has its id on the stack. Mission.Effect is a relation of
-- what a command may do, by which the histories of commands are treated.
--
-- Mission.Engine models MissionExecutionEngine
-- (packages/mission-orchestrator/src/workflow/mission-execution-engine.ts) over one mission's row, as
-- PostgresMissionRepository saves it under its version. World has the dependencies and the commands
-- that other writers save before each of the engine's reads and writes; Store `loadMission` and
-- `saveAndPublish`, Plans the planning, Steps the selection and the run of a task, Results what is
-- done with its result, Execute the operations. Evolves says how a row may change, Does is the logic by
-- which parts of the engine are treated, and Saves, Works, Linear and History apply it; Selection and
-- Again are about single tasks. The loop of `executeMission` recurs on its own bound of 1000
-- iterations, that of `saveAndPublish` on its attempts.
--
-- Outreach models packages/domain/src/outreach and the check before a send. Outreach.Execution is one
-- message (message-execution.ts), Outreach.Campaign a campaign with its budget (campaign.ts) and
-- Outreach.Sequence a sequence of steps (sequence.ts), each with State for the aggregate and
-- Commands for its commands. Outreach.Gate is SendSafetyGate.evaluate
-- (packages/outreach/src/safety/send-safety-gate.ts) over the table of keys of Idempotency, and what
-- OutreachExecutionService.doExecuteApprovedSend does to that table on a refusal; its child
-- Redis is RedisRateLimiter.isAllowed (packages/infrastructure/src/cache/redis-cache.ts), of which
-- the counters of the gate's scope are modelled.
--
-- Outreach.Effect is the monad of asynchronous code: a step on a world that ends in a value, an early
-- return, a ConcurrencyConflictError or another exception, and keeps what it did before. Its record
-- Ends is the logic by which parts of such code are treated one by one. Outreach.Repository models
-- `load` and `save` of the repositories of executions, campaigns and sequences
-- (packages/outreach/src/infrastructure), with the compare-and-swap on the version.
--
-- Outreach.Send models OutreachExecutionService
-- (packages/outreach/src/application/outreach-execution.service.ts). World has the tables, the gate's
-- world, the requests sent, and what a call is given from outside; Recovery the recipient's address,
-- Duplicate `handleDuplicateSendIdempotency`, Steps, Attempt and Execute `executeApprovedSend`, and
-- Response `recordResponse` with the histories of calls, in which a call runs from its start to its end
-- and any provider may throw. Interleaving has the histories of calls that overlap: a call is cut after
-- its loads, other workers go on, and a save is refused when no row has the loaded
-- version any more. Frame shows, for each part of the code, that it keeps a relation between worlds that the
-- single accesses keep; Audit, Touches and Apart apply it. Calm treats a call for
-- an execution that has been answered, Moved and Stale one whose execution another worker has saved since
-- its loads.
--
-- Approval models packages/mission-orchestrator/src/domain/approval and the adapter that verifies an
-- approval for the gate (packages/mission-orchestrator/src/infrastructure), over a repository that is
-- a function from a tenant and an id.
--
-- Idempotency models packages/infrastructure/src/idempotency/postgres-idempotency-store.ts: a table
-- of rows, and `get`, `set` and `claim` as single steps on it, as each is one SQL statement. A
-- stored result is a JSON value of a parameter type, of which `submitted` can be read.
--
-- Ledger models packages/llm-gateway/src/execution-budget-ledger.ts: the charges of each execution as
-- lists in the order in which a `Map` iterates.
--
-- Router models packages/llm-gateway/src/llm-router.ts. Catalog has the models and `rankCandidates`,
-- Sorting the lists that it goes through, Ranking the specification of it, which does not use its tests,
-- World what a call is given, Deps its reservations over the ledger and its usage events, Invoke the loop
-- over the ranked models. The catalog, the registry, the providers and the usage listener are
-- functions that a call is given. An `LLMProviderError` is a value, and so is every other exception.
--
-- Conversation models packages/domain/src/conversation: State has the aggregate and its table,
-- Commands `recordReply`, `classifyIntent`, `decideAction` and `close`. Policy models the classifier of
-- replies and the policy of next actions (packages/conversation/src/infrastructure). `toLowerCase` is
-- a parameter.
--
-- Tool models packages/tool-gateway/src. Contract has the types of
-- packages/shared/src/contracts/tool-contract.ts, Resolution `resolveToolDefinition`, Registry the
-- registry in memory, Checks the first six steps of `execute`, Attempts its retry loop over the tables of
-- Records, Outcome and Execute the other steps over the table of Idempotency. The loop recurs on the
-- attempts that are left, which `maxRetries` gives. An access to a table may reject at each point.
-- Submissions counts what the loop submits, Stored what is stored of it,
-- and Performed and Once put them together.
--
-- A command takes its state and a `Stamp`, which holds the event id, the correlation id and the time
-- that `new Date()` reads, and gives the state and an outcome. Objects that the code changes in
-- place are returned, also where the command fails after it has assigned something. Identifiers are
-- numbers and dates their time values. Amounts of money are a parameter with no law, since the code
-- computes with floating-point numbers. The allowlist, the suppression list, the approvals and the
-- rate limiter are functions that an evaluation of the gate takes.
--
-- Not modelled: fields that no command reads, the texts of reasons in a decision of the gate, a port
-- of the gate that rejects (but for the limiter), `prepareDraft`, calls of the send service that are
-- cut elsewhere than after their loads (what follows the loads is one step), the conversation service, the tables
-- in which the mission repository keeps plans and tasks, leads, agents, the adapters
-- of model providers, the other repositories, the HTTP and workflow applications.
pub mod Aggregate
pub mod Approval
pub mod Conversation
pub mod Idempotency
pub mod Ledger
pub mod Mission
pub mod Outreach
pub mod Prelude
pub mod Router
pub mod Tool
