-- ===== src/Lib.antt =====
-- Verification of the CHANTER Operator's durable mission graphs and mission journals.
--
-- A mission graph is a small dependency graph of child missions that a founder approves by its
-- exact hash and that the Operator then runs, node by node, with every state change recorded in an
-- append-only journal. The program's parts that are modelled here, and how they interact:
--
-- - apps/backend/src/missions/missionGraphJournal.ts: the store. MissionGraph/Records.antt has
--   the rows, MissionGraph/States.antt the two state machines, MissionGraph/Journal.antt the tables
--   (`Tables`), the object (`Journal`) and appendEvent; Journal/Order the listing queries,
--   Journal/Transitions transitionGraph, transitionNode, appendAuditEvent and
--   appendAuthoritativeReplayEvent, Journal/Insert insertGraph. A savepoint is `with_savepoint`.
--   The keys and CHECK clauses are those of apps/backend/src/db/schema.ts: a row that breaks one
--   makes the write throw. Columns of JSON text hold the value that JSON.parse gives back.
-- - apps/backend/src/missions/missionGraphCompiler.ts and missionActionRegistry.ts: pure
--   compilation. MissionGraph/Compiled.antt has the compiled document, the child identities and the
--   child envelopes, MissionGraph/Registry.antt the registered actions, MissionGraph/Compiler.antt
--   the tests of the fields, Compiler/Nodes parseNode and the tests of the dependencies,
--   Compiler/Cycle detectCycle and Compiler/Compile compileMissionGraph. Compiler/Traced says where
--   an accepted graph comes from, which Sealed and Ordered build on.
-- - apps/backend/src/missions/missionGraphService.ts: the authority over graphs. MissionGraph/
--   Service.antt has its fields and guards, Service/Nodes applyChildOutcome and
--   recordChildDispatchError, Service/Dispatch dispatchNode, executeChildMission,
--   recoverRunningNode, syncNodeFromChildTruth and terminateGraphForNode, Service/Scheduler
--   runScheduler, Service/Approval approveGraph, Service/Recovery resumeGraph, Service/Cancellation
--   cancelGraph, Service/Submission submitGraph, Service/Views the views that they return.
-- - apps/backend/src/missions/genericMissionJournal.ts: the journal of the missions below a graph.
--   Missions/States.antt and Records.antt have its state machine and rows, Missions/Journal.antt the
--   tables and insertTransition, Journal/Transitions initialize and transition, Journal/Calls the
--   client. The table operator_missions
--   holds the columns that the journal reads.
-- - apps/backend/src/agentic/agenticPlanJournal.ts, with the states of agenticMissionContract.ts:
--   the durable records of agentic plans. Agentic/States.antt has the two state machines,
--   Agentic/Records.antt and Inputs.antt the rows and the arguments, Agentic/Journal.antt the tables
--   and the events of AgenticPlanJournal, Journal/Missions, Nodes and Insert its methods,
--   Journal/Calls its client, Agentic/Workers.antt the store of worker records and
--   Agentic/Workers/Claims.antt its claims, and
--   Agentic/Usage.antt the store of provider usage. Agentic/Workers/World.antt is a table that any
--   number of worker stores share, each with the claims it holds, under any interleaving of calls.
-- - apps/backend/src/services/stateTransitions.ts: the states of tasks and steps (Tasks.antt).
-- - apps/backend/src/integrity/auditScanner.ts and integrityChecker.ts: the scan of the audit log
--   (Tasks/Scanner.antt) and the check of the rows against it (Tasks/Integrity.antt). The audit
--   file is the text that is read from it.
--
-- The service writes only through the journal, so what every journal write keeps, every operation
-- keeps: Journal/Rule states that rule (`IsKept`, and `IsAppended` for the writes that change no
-- row) once for the journal's methods, Service/Rule, NodeRules, ControlRules, CallRules and
-- SubmissionRules carry it through the service. A property that needs more than
-- the allowed transitions names a policy for the graph's (`approves_by_approval`). Journal/Calls and
-- Service/Calls are the clients: any sequence of calls, where a call that throws lets the next one
-- follow. The agentic journal is built the same way, with Agentic/Journal/Rule and Calls. What the
-- journals share stands in Prelude: Numbering has the events numbered for each owner, Order the
-- sorting of the listing queries.
--
-- Methods are functions from a state to a result and a new state (Prelude/Exec.antt): a throw is
-- the value `err`, and it leaves what was written before it, unless withTransaction or a savepoint
-- rolls the tables back. Prelude/Exec/Rules.antt and Exec/Returns.antt have the proof rules.
--
-- Bounds and fuel: the scheduler's loop runs at most nodeCount + 1 rounds, as in the source. The
-- loop of detectCycle has one round more than there are nodes: where it is called the nodes have
-- distinct identifiers and name no dependency twice, so a node enters the queue once at most, when
-- its last dependency is deleted, and the last round finds the queue empty (Cycle/Rounds). A node
-- is dropped from the compiled list only with an error (Nodes/Parsed), so that the cycle check is
-- reached by every graph that passes.
--
-- Parameters, since their code is not in the repository or belongs to another authority: the child
-- missions with their own state (`Platform`), and the contracts of chanter-agent-runtime, the
-- AutoPoster schedule input, SHA-256, JSON and Date.parse (MissionGraph/Contracts.antt). The clock
-- is a sequence of readings, the identifier factory a sequence of identifiers. The observation
-- scheduler is a log of the jobs handed to it. The agentic documents that the plan journal carries
-- for other components are JSON values, its identifiers come from a sequence.
--
-- Not modelled: the HTTP surface, the frontend, the tools, the other authorities under
-- apps/backend/src (os, platform, safeCommit, and of agentic the services above the plan journal)
-- and the services of the two mission lanes below the graph.

pub mod Prelude
pub mod Json
pub mod MissionGraph
pub mod Missions
pub mod Agentic
pub mod Tasks
