-- ===== src/MissionGraph/Service/Dispatch.antt =====
-- Driving a node's child mission: executeChildMission, dispatchNode, recoverRunningNode,
-- syncNodeFromChildTruth, assertNoChildAwaitingReconciliation and terminateGraphForNode of
-- apps/backend/src/missions/missionGraphService.ts.
use chanter_operator.Prelude.{
  ◌+◌, String, Bool, false, not, ◌&&◌, ◌||◌, Option, none, some, List, [], ◌∷◌, map, ◌==◌,
  if◌then◌else◌, any, or_else, find, template, join,
}
use chanter_operator.Prelude.Exec.{
  Exec, Thrown, other_error, refusal, pure, throw, ◌>>=◌, ◌>>◌, done, ensure, or_throw, for_each,
  try_catch, with_transaction,
}
use chanter_operator.MissionGraph.States.{GraphState, NodeState, same_node_state}
use chanter_operator.MissionGraph.Records.{GraphRecord, NodeRecord, EventInput, NodeTransitionInput}
use chanter_operator.MissionGraph.Contracts.{Validation, valid, invalid}
use chanter_operator.MissionGraph.Compiled.{
  CompiledGraph, CompiledNode, ChildEnvelope, child_envelope,
}
use chanter_operator.MissionGraph.Journal.{require_node}
use chanter_operator.MissionGraph.Journal.Order.{list_nodes}
use chanter_operator.MissionGraph.Journal.Transitions.{transition_graph, transition_node}
use chanter_operator.MissionGraph.Service.{
  Service, Platform, ChildMission, Boundary, actor_id, on_journal, on_children, read_children,
  timestamp, restore_service, inject_failure, child_reference,
}
use chanter_operator.MissionGraph.Service.Nodes.{
  node_input, child_mission_evidence, apply_child_outcome, record_child_dispatch_error,
}

abbrev envelope_refusal : String → Thrown
envelope_refusal message = refusal message 409 (some "GRAPH_CHILD_ENVELOPE_INVALID")

unfoldable pub validated : {W : Type 0} → Validation → Exec W ChildEnvelope
validated (valid envelope) = pure envelope
validated (invalid none) = throw (envelope_refusal "The reconstructed child envelope is invalid.")
validated (invalid (some first)) = throw (envelope_refusal first.message)

abbrev pub in_states : Option String → List String → Bool
in_states none states = false
in_states (some state) states = any (λ s. s == state) states

abbrev ready_input : NodeRecord → String → NodeTransitionInput
ready_input node time =
    node_input
      (elim node.depends_on [
        | [] ↦ "The node has no dependencies."
        | d ∷ ds ↦ template ("Every dependency completed: " ∷ join ", " (d ∷ ds) ∷ "." ∷ [])
      ])
      (map (λ d. template ("node:" ∷ d ∷ [])) node.depends_on) time

abbrev running_input : NodeRecord → String → NodeTransitionInput
running_input node time =
    record (node_input
      (if node.product == "auto_poster"
        then "The node was dispatched to the reviewed AutoPoster schedule-draft mission spine."
        else "The node was dispatched to the Phase 2C generic mission spine.")
      (child_mission_evidence node.child_mission_id) time) { attempts = some (node.attempts + 1) }

abbrev reconciliation_refusal : String → Thrown
reconciliation_refusal node_id =
    refusal
      (template (
        "Node " ∷ node_id ∷ " dispatched a request whose downstream outcome was never observed. "
        ∷ "Reconcile it explicitly before any resume." ∷ []))
      409 (some "RECOVERY_RECONCILIATION_REQUIRED")

abbrev unreachable_input : NodeRecord → String → NodeTransitionInput
unreachable_input failed time =
    node_input
      (template (
        "Node " ∷ failed.node_id
        ∷ " failed terminally; this node can never satisfy its dependencies." ∷ []))
      (template ("node:" ∷ failed.node_id ∷ []) ∷ []) time

abbrev terminated_input : NodeRecord → String → EventInput
terminated_input failed time = record {
  actor = actor_id;
  reason = template (
      "Node " ∷ failed.node_id ∷ " failed terminally; the graph terminates deterministically."
      ∷ []);
  timestamp = time;
  evidence_references =
      template ("node:" ∷ failed.node_id ∷ [])
      ∷ template ("child-mission:" ∷ failed.child_mission_id ∷ [])
      ∷ [];
  typed_error = some (
      or_else failed.typed_error (record {
        code = "GRAPH_NODE_FAILED_TERMINAL";
        message = template ("Node " ∷ failed.node_id ∷ " failed terminally." ∷ []);
      }));
}

-- The states from which a node that cannot run any more is cancelled.
abbrev pub is_cancellable : NodeRecord → Bool
is_cancellable node =
    same_node_state node.status NodeState.blocked
    || same_node_state node.status NodeState.ready
    || same_node_state node.status NodeState.failed_recoverable

module _ {W : Type 0} (p : Platform W) where
  -- The compiled node of the immutable document that the graph's row carries.
  unfoldable pub find_compiled_node :
      GraphRecord → NodeRecord → Exec (Service W) (CompiledGraph × CompiledNode)
  find_compiled_node graph node = do
    compiled ← or_throw (other_error "SyntaxError") (p.parse_compiled graph.compiled_graph_json)
    compiled_node ←
        or_throw
          (envelope_refusal
            (template ("The immutable compiled graph has no node " ∷ node.node_id ∷ "." ∷ [])))
          (find (λ entry. entry.node_id == node.node_id) compiled.nodes)
    pure (compiled, compiled_node)

  -- The body of executeChildMission's try block.
  unfoldable pub drive_child : GraphRecord → NodeRecord → Exec (Service W) (Unit {0})
  drive_child graph node = do
    (compiled, compiled_node) ← find_compiled_node graph node
    envelope ← validated (p.validate_envelope (child_envelope compiled compiled_node))
    on_children (p.create_mission envelope)
    inject_failure Boundary.after_child_mission_created graph.graph_id (some node.node_id)
    mission ← on_children (p.approve_child (child_reference node) (or_else graph.approved_by ""))
    apply_child_outcome graph node.node_id mission

  unfoldable pub execute_child_mission : GraphRecord → NodeRecord → Exec (Service W) (Unit {0})
  execute_child_mission graph node =
      try_catch (drive_child graph node) (record_child_dispatch_error graph node.node_id)

  unfoldable pub dispatch_node : GraphRecord → NodeRecord → Exec (Service W) (Unit {0})
  dispatch_node graph node = do
    ready_time ← timestamp
    on_journal
        (transition_node graph.graph_id node.node_id NodeState.ready (ready_input node ready_time))
    running_time ← timestamp
    on_journal (
        transition_node graph.graph_id node.node_id NodeState.running
          (running_input node running_time))
    inject_failure Boundary.after_node_running_persistence graph.graph_id (some node.node_id)
    current ← on_journal (require_node graph.graph_id node.node_id)
    execute_child_mission graph current

  unfoldable pub assert_not_awaiting : NodeRecord → Exec (Service W) (Unit {0})
  assert_not_awaiting node = do
    exists ← read_children (p.has_mission (child_reference node))
    if exists
        then (read_children (p.get_mission (child_reference node)) >>= λ mission.
            ensure (not (in_states mission.execution_state ("reconciliation_required" ∷ [])))
              (reconciliation_refusal node.node_id))
        else done

  unfoldable pub assert_no_child_awaiting_reconciliation : GraphRecord → Exec (Service W) (Unit {0})
  assert_no_child_awaiting_reconciliation graph = do
    nodes ← on_journal (list_nodes graph.graph_id)
    for_each nodes assert_not_awaiting

  abbrev may_resume : ChildMission → Bool
  may_resume mission = any (λ a. a == "Resume safely") mission.next_permitted_actions

  -- The branch for a child that was interrupted or failed recoverably.
  unfoldable pub recover_interrupted :
      GraphRecord → NodeRecord → ChildMission → Exec (Service W) (Unit {0})
  recover_interrupted graph node first = do
    mission ←
        (if may_resume first
          then pure first
          else on_children (p.reconcile_child (child_reference node)))
    resumed ←
        (if in_states mission.execution_state
              ("downstream_result_observed" ∷ "failed_recoverable" ∷ [])
            && may_resume mission
          then on_children (p.resume_child (child_reference node))
          else pure mission)
    apply_child_outcome graph node.node_id resumed

  -- The body of recoverRunningNode's try block.
  unfoldable pub recover_existing : GraphRecord → NodeRecord → Exec (Service W) (Unit {0})
  recover_existing graph node = do
    mission ← read_children (p.get_mission (child_reference node))
    let state = mission.execution_state
    if in_states state ("approval_required" ∷ [])
        then (on_children (p.approve_child (child_reference node) (or_else graph.approved_by ""))
            >>= apply_child_outcome graph node.node_id)
        else (if in_states state ("completed" ∷ [])
            then apply_child_outcome graph node.node_id mission
            else (if in_states state
                  ("approved" ∷ "downstream_result_observed" ∷ "result_persisted" ∷ [])
                then (on_children (p.resume_child (child_reference node))
                    >>= apply_child_outcome graph node.node_id)
                else (if in_states state (
                      "execution_started" ∷ "downstream_request_prepared" ∷ "failed_recoverable"
                      ∷ [])
                    then recover_interrupted graph node mission
                    else apply_child_outcome graph node.node_id mission)))

  unfoldable pub recover_running_node : GraphRecord → NodeRecord → Exec (Service W) (Unit {0})
  recover_running_node graph node = do
    exists ← read_children (p.has_mission (child_reference node))
    if exists
        then try_catch (recover_existing graph node)
            (record_child_dispatch_error graph node.node_id)
        else execute_child_mission graph node

  -- The body of syncNodeFromChildTruth's try block.
  unfoldable pub sync_existing : GraphRecord → NodeRecord → Exec (Service W) (Unit {0})
  sync_existing graph node = do
    exists ← read_children (p.has_mission (child_reference node))
    if exists
        then (read_children (p.get_mission (child_reference node)) >>= λ mission.
            if in_states mission.execution_state (
              "completed" ∷ "failed_terminal" ∷ "failed_recoverable" ∷ "reconciliation_required"
              ∷ [])
            then apply_child_outcome graph node.node_id mission
            else done)
        else done

  unfoldable pub sync_node_from_child_truth : GraphRecord → NodeRecord → Exec (Service W) (Unit {0})
  sync_node_from_child_truth graph node =
      try_catch (sync_existing graph node) (record_child_dispatch_error graph node.node_id)

module _ {W : Type 0} where
  unfoldable pub cancel_if_open :
      GraphRecord → NodeTransitionInput → NodeRecord → Exec (Service W) (Unit {0})
  cancel_if_open graph input node =
      if is_cancellable node
      then (on_journal (transition_node graph.graph_id node.node_id NodeState.cancelled input)
          >> done)
      else done

  unfoldable pub terminate_graph_for_node : GraphRecord → NodeRecord → Exec (Service W) (Unit {0})
  terminate_graph_for_node graph failed = do
    time ← timestamp
    with_transaction restore_service do
      nodes ← on_journal (list_nodes graph.graph_id)
      for_each nodes (cancel_if_open graph (unreachable_input failed time))
      on_journal (
            transition_graph graph.graph_id GraphState.failed_terminal
              (terminated_input failed time) none)
          >> done
