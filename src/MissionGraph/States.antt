-- ===== src/MissionGraph/States.antt =====
-- The closed state machines of graphs and nodes: the state types and the transition tables of
-- apps/backend/src/missions/missionGraphJournal.ts.
use chanter_operator.Prelude.{Bool, true, false, String}

pub data GraphState : Type 0 where
  approval_required approved running completed failed_recoverable failed_terminal cancelled :
      GraphState

pub data NodeState : Type 0 where
  blocked ready running completed failed_recoverable failed_terminal cancelled : NodeState

-- The row of allowedGraphTransitions for each state.
unfoldable pub allowed_graph_transition : GraphState → GraphState → Bool
allowed_graph_transition GraphState.approval_required GraphState.approved = true
allowed_graph_transition GraphState.approval_required GraphState.cancelled = true
allowed_graph_transition GraphState.approved GraphState.running = true
allowed_graph_transition GraphState.approved GraphState.cancelled = true
allowed_graph_transition GraphState.running GraphState.completed = true
allowed_graph_transition GraphState.running GraphState.failed_recoverable = true
allowed_graph_transition GraphState.running GraphState.failed_terminal = true
allowed_graph_transition GraphState.running GraphState.cancelled = true
allowed_graph_transition GraphState.failed_recoverable GraphState.running = true
allowed_graph_transition GraphState.failed_recoverable GraphState.failed_terminal = true
allowed_graph_transition GraphState.failed_recoverable GraphState.cancelled = true
allowed_graph_transition _ _ = false

-- The row of allowedNodeTransitions for each state.
unfoldable pub allowed_node_transition : NodeState → NodeState → Bool
allowed_node_transition NodeState.blocked NodeState.ready = true
allowed_node_transition NodeState.blocked NodeState.cancelled = true
allowed_node_transition NodeState.ready NodeState.running = true
allowed_node_transition NodeState.ready NodeState.cancelled = true
allowed_node_transition NodeState.running NodeState.completed = true
allowed_node_transition NodeState.running NodeState.failed_recoverable = true
allowed_node_transition NodeState.running NodeState.failed_terminal = true
allowed_node_transition NodeState.failed_recoverable NodeState.running = true
allowed_node_transition NodeState.failed_recoverable NodeState.failed_terminal = true
allowed_node_transition NodeState.failed_recoverable NodeState.cancelled = true
allowed_node_transition _ _ = false

-- The text that stands for a state in a row, a message or an event type.
abbrev pub graph_state_name : GraphState → String
graph_state_name GraphState.approval_required = "approval_required"
graph_state_name GraphState.approved = "approved"
graph_state_name GraphState.running = "running"
graph_state_name GraphState.completed = "completed"
graph_state_name GraphState.failed_recoverable = "failed_recoverable"
graph_state_name GraphState.failed_terminal = "failed_terminal"
graph_state_name GraphState.cancelled = "cancelled"

abbrev pub node_state_name : NodeState → String
node_state_name NodeState.blocked = "blocked"
node_state_name NodeState.ready = "ready"
node_state_name NodeState.running = "running"
node_state_name NodeState.completed = "completed"
node_state_name NodeState.failed_recoverable = "failed_recoverable"
node_state_name NodeState.failed_terminal = "failed_terminal"
node_state_name NodeState.cancelled = "cancelled"

abbrev pub same_graph_state : GraphState → GraphState → Bool
same_graph_state GraphState.approval_required GraphState.approval_required = true
same_graph_state GraphState.approved GraphState.approved = true
same_graph_state GraphState.running GraphState.running = true
same_graph_state GraphState.completed GraphState.completed = true
same_graph_state GraphState.failed_recoverable GraphState.failed_recoverable = true
same_graph_state GraphState.failed_terminal GraphState.failed_terminal = true
same_graph_state GraphState.cancelled GraphState.cancelled = true
same_graph_state _ _ = false

abbrev pub same_node_state : NodeState → NodeState → Bool
same_node_state NodeState.blocked NodeState.blocked = true
same_node_state NodeState.ready NodeState.ready = true
same_node_state NodeState.running NodeState.running = true
same_node_state NodeState.completed NodeState.completed = true
same_node_state NodeState.failed_recoverable NodeState.failed_recoverable = true
same_node_state NodeState.failed_terminal NodeState.failed_terminal = true
same_node_state NodeState.cancelled NodeState.cancelled = true
same_node_state _ _ = false

-- The states that the service treats as final.
abbrev pub is_final_graph : GraphState → Bool
is_final_graph GraphState.completed = true
is_final_graph GraphState.cancelled = true
is_final_graph GraphState.failed_terminal = true
is_final_graph _ = false

abbrev pub is_final_node : NodeState → Bool
is_final_node NodeState.completed = true
is_final_node NodeState.cancelled = true
is_final_node NodeState.failed_terminal = true
is_final_node _ = false
