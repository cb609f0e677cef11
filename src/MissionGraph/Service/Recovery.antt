-- ===== src/MissionGraph/Service/Recovery.antt =====
-- resumeGraph of apps/backend/src/missions/missionGraphService.ts.
use chanter_operator.Prelude.{
  ◌+◌, String, false, not, ◌&&◌, none, some, [], ◌∷◌, if◌then◌else◌, or_else, template, truthy,
  trim, leb,
}
use chanter_operator.Prelude.Exec.{Exec, refusal, ◌>>=◌, ◌>>◌, done, ensure, for_each}
use chanter_operator.MissionGraph.States.{
  GraphState, NodeState, same_graph_state, graph_state_name, is_final_graph,
}
use chanter_operator.MissionGraph.Records.{GraphRecord, NodeRecord, NodeTransitionInput}
use chanter_operator.MissionGraph.Journal.{require_graph, require_node}
use chanter_operator.MissionGraph.Journal.Order.{list_nodes}
use chanter_operator.MissionGraph.Journal.Transitions.{transition_graph, transition_node}
use chanter_operator.MissionGraph.Service.{
  Service, Platform, actor_id, max_node_attempts, on_journal, timestamp,
}
use chanter_operator.MissionGraph.Service.Nodes.{node_input, child_mission_evidence}
use chanter_operator.MissionGraph.Service.Dispatch.{
  recover_running_node, assert_no_child_awaiting_reconciliation,
}
use chanter_operator.MissionGraph.Service.Scheduler.{run_scheduler, has_status}
use chanter_operator.MissionGraph.Service.Views.{GraphView, build_view}
use chanter_operator.MissionGraph.Service.Control.{event_input, assert_graph_integrity}

abbrev exhausted_input : NodeRecord → String → NodeTransitionInput
exhausted_input node time =
    record (node_input "The bounded graph-level dispatch budget for this node is exhausted." []
      time) {
        typed_error = some (
            some (record {
              code = "GRAPH_NODE_ATTEMPTS_EXHAUSTED";
              message =
                  template
                    ("Node " ∷ node.node_id ∷ " exhausted its 3 bounded dispatch attempts." ∷ []);
            }));
      }

abbrev retry_input : NodeRecord → String → NodeTransitionInput
retry_input node time =
    record (node_input "Operator claimed one bounded node recovery attempt."
      (child_mission_evidence node.child_mission_id) time) {
        attempts = some (node.attempts + 1);
        typed_error = some none;
      }

module _ {W : Type 0} (p : Platform W) where
  -- One round of resumeGraph's recovery pass.
  unfoldable pub recover_node : GraphRecord → NodeRecord → Exec (Service W) (Unit {0})
  recover_node current node =
      if has_status NodeState.running node
      then recover_running_node p current node
      else (if has_status NodeState.failed_recoverable node
          then (if leb max_node_attempts node.attempts
              then (timestamp >>= λ time.
                  on_journal (
                    transition_node current.graph_id node.node_id NodeState.failed_terminal
                      (exhausted_input node time))
                  >> done)
              else (timestamp >>= λ time.
                  on_journal (
                    transition_node current.graph_id node.node_id NodeState.running
                      (retry_input node time))
                  >> (on_journal (require_node current.graph_id node.node_id)
                      >>= recover_running_node p current)))
          else done)

  unfoldable pub claim_recovery : GraphRecord → Exec (Service W) (Unit {0})
  claim_recovery graph =
      if same_graph_state graph.status GraphState.failed_recoverable
      then (timestamp >>= λ time.
          on_journal (
            transition_graph graph.graph_id GraphState.running
              (event_input actor_id
                "Operator claimed one bounded graph recovery pass under the durable approval."
                (template ("approval:" ∷ or_else graph.approved_by "" ∷ []) ∷ []) time)
              none)
          >> done)
      else done

  unfoldable pub resume_graph : String → Exec (Service W) GraphView
  resume_graph id = do
    graph ← on_journal (require_graph (trim id))
    ensure (not (same_graph_state graph.status GraphState.approval_required)) (
        refusal "Mission graph is awaiting approval; resume cannot bypass approval." 409
          (some "OPERATOR_GRAPH_APPROVAL_REQUIRED"))
    ensure (not (is_final_graph graph.status)) (
        refusal
          (template (
            "Mission graph cannot resume from terminal status "
            ∷ graph_state_name graph.status
            ∷ "."
            ∷ []))
          409 (some "OPERATOR_GRAPH_RECOVERY_NOT_PERMITTED"))
    assert_graph_integrity p graph
    ensure (truthy graph.approved_by && truthy graph.approved_graph_hash) (
        refusal "Mission graph approval is missing; recovery cannot bypass approval." 409
          (some "OPERATOR_GRAPH_APPROVAL_REQUIRED"))
    assert_no_child_awaiting_reconciliation p graph
    claim_recovery graph
    current ← on_journal (require_graph graph.graph_id)
    nodes ← on_journal (list_nodes graph.graph_id)
    for_each nodes (recover_node current)
    run_scheduler p graph.graph_id
    after ← on_journal (require_graph graph.graph_id)
    build_view p after false
