-- ===== src/Agentic/States.antt =====
-- The closed state machines of plans and their nodes: the state types of
-- apps/backend/src/agentic/agenticMissionContract.ts and the transition tables of
-- apps/backend/src/agentic/agenticPlanJournal.ts.
use chanter_operator.Prelude.{Bool, true, false, String}

pub data PlanState : Type 0 where
  compiled approval_required approved running awaiting_authority completed : PlanState
  failed_recoverable reconciliation_required failed_terminal cancelled : PlanState

pub data NodeState : Type 0 where
  blocked ready running completed failed_recoverable : NodeState
  reconciliation_required failed_terminal cancelled : NodeState

-- The row of ALLOWED_PLAN_TRANSITIONS for each state.
unfoldable pub allowed_plan_transition : PlanState → PlanState → Bool
allowed_plan_transition PlanState.compiled PlanState.approval_required = true
allowed_plan_transition PlanState.compiled PlanState.cancelled = true
allowed_plan_transition PlanState.approval_required PlanState.approved = true
allowed_plan_transition PlanState.approval_required PlanState.cancelled = true
allowed_plan_transition PlanState.approval_required PlanState.failed_terminal = true
allowed_plan_transition PlanState.approved PlanState.running = true
allowed_plan_transition PlanState.approved PlanState.cancelled = true
allowed_plan_transition PlanState.approved PlanState.failed_terminal = true
allowed_plan_transition PlanState.running PlanState.awaiting_authority = true
allowed_plan_transition PlanState.running PlanState.completed = true
allowed_plan_transition PlanState.running PlanState.failed_recoverable = true
allowed_plan_transition PlanState.running PlanState.reconciliation_required = true
allowed_plan_transition PlanState.running PlanState.failed_terminal = true
allowed_plan_transition PlanState.running PlanState.cancelled = true
allowed_plan_transition PlanState.awaiting_authority PlanState.running = true
allowed_plan_transition PlanState.awaiting_authority PlanState.failed_recoverable = true
allowed_plan_transition PlanState.awaiting_authority PlanState.reconciliation_required = true
allowed_plan_transition PlanState.awaiting_authority PlanState.failed_terminal = true
allowed_plan_transition PlanState.awaiting_authority PlanState.cancelled = true
allowed_plan_transition PlanState.failed_recoverable PlanState.running = true
allowed_plan_transition PlanState.failed_recoverable PlanState.reconciliation_required = true
allowed_plan_transition PlanState.failed_recoverable PlanState.failed_terminal = true
allowed_plan_transition PlanState.failed_recoverable PlanState.cancelled = true
allowed_plan_transition PlanState.reconciliation_required PlanState.running = true
allowed_plan_transition PlanState.reconciliation_required PlanState.failed_recoverable = true
allowed_plan_transition PlanState.reconciliation_required PlanState.failed_terminal = true
allowed_plan_transition PlanState.reconciliation_required PlanState.cancelled = true
allowed_plan_transition _ _ = false

-- The row of ALLOWED_NODE_TRANSITIONS for each state.
unfoldable pub allowed_node_transition : NodeState → NodeState → Bool
allowed_node_transition NodeState.blocked NodeState.ready = true
allowed_node_transition NodeState.blocked NodeState.cancelled = true
allowed_node_transition NodeState.blocked NodeState.failed_terminal = true
allowed_node_transition NodeState.ready NodeState.running = true
allowed_node_transition NodeState.ready NodeState.cancelled = true
allowed_node_transition NodeState.ready NodeState.failed_terminal = true
allowed_node_transition NodeState.running NodeState.completed = true
allowed_node_transition NodeState.running NodeState.failed_recoverable = true
allowed_node_transition NodeState.running NodeState.reconciliation_required = true
allowed_node_transition NodeState.running NodeState.failed_terminal = true
allowed_node_transition NodeState.running NodeState.cancelled = true
allowed_node_transition NodeState.failed_recoverable NodeState.ready = true
allowed_node_transition NodeState.failed_recoverable NodeState.running = true
allowed_node_transition NodeState.failed_recoverable NodeState.reconciliation_required = true
allowed_node_transition NodeState.failed_recoverable NodeState.failed_terminal = true
allowed_node_transition NodeState.failed_recoverable NodeState.cancelled = true
allowed_node_transition NodeState.reconciliation_required NodeState.running = true
allowed_node_transition NodeState.reconciliation_required NodeState.completed = true
allowed_node_transition NodeState.reconciliation_required NodeState.failed_recoverable = true
allowed_node_transition NodeState.reconciliation_required NodeState.failed_terminal = true
allowed_node_transition NodeState.reconciliation_required NodeState.cancelled = true
allowed_node_transition _ _ = false

-- The text that stands for a state in a row, a message or an event type.
abbrev pub plan_state_name : PlanState → String
plan_state_name PlanState.compiled = "compiled"
plan_state_name PlanState.approval_required = "approval_required"
plan_state_name PlanState.approved = "approved"
plan_state_name PlanState.running = "running"
plan_state_name PlanState.awaiting_authority = "awaiting_authority"
plan_state_name PlanState.completed = "completed"
plan_state_name PlanState.failed_recoverable = "failed_recoverable"
plan_state_name PlanState.reconciliation_required = "reconciliation_required"
plan_state_name PlanState.failed_terminal = "failed_terminal"
plan_state_name PlanState.cancelled = "cancelled"

abbrev pub node_state_name : NodeState → String
node_state_name NodeState.blocked = "blocked"
node_state_name NodeState.ready = "ready"
node_state_name NodeState.running = "running"
node_state_name NodeState.completed = "completed"
node_state_name NodeState.failed_recoverable = "failed_recoverable"
node_state_name NodeState.reconciliation_required = "reconciliation_required"
node_state_name NodeState.failed_terminal = "failed_terminal"
node_state_name NodeState.cancelled = "cancelled"

abbrev pub same_plan_state : PlanState → PlanState → Bool
same_plan_state PlanState.compiled PlanState.compiled = true
same_plan_state PlanState.approval_required PlanState.approval_required = true
same_plan_state PlanState.approved PlanState.approved = true
same_plan_state PlanState.running PlanState.running = true
same_plan_state PlanState.awaiting_authority PlanState.awaiting_authority = true
same_plan_state PlanState.completed PlanState.completed = true
same_plan_state PlanState.failed_recoverable PlanState.failed_recoverable = true
same_plan_state PlanState.reconciliation_required PlanState.reconciliation_required = true
same_plan_state PlanState.failed_terminal PlanState.failed_terminal = true
same_plan_state PlanState.cancelled PlanState.cancelled = true
same_plan_state _ _ = false

abbrev pub same_node_state : NodeState → NodeState → Bool
same_node_state NodeState.blocked NodeState.blocked = true
same_node_state NodeState.ready NodeState.ready = true
same_node_state NodeState.running NodeState.running = true
same_node_state NodeState.completed NodeState.completed = true
same_node_state NodeState.failed_recoverable NodeState.failed_recoverable = true
same_node_state NodeState.reconciliation_required NodeState.reconciliation_required = true
same_node_state NodeState.failed_terminal NodeState.failed_terminal = true
same_node_state NodeState.cancelled NodeState.cancelled = true
same_node_state _ _ = false

-- AGENTIC_NODE_TERMINAL_STATES
abbrev pub is_terminal_node : NodeState → Bool
is_terminal_node NodeState.completed = true
is_terminal_node NodeState.failed_terminal = true
is_terminal_node NodeState.cancelled = true
is_terminal_node _ = false

-- The plan states that no row of the table leaves.
abbrev pub is_terminal_plan : PlanState → Bool
is_terminal_plan PlanState.completed = true
is_terminal_plan PlanState.failed_terminal = true
is_terminal_plan PlanState.cancelled = true
is_terminal_plan _ = false
