-- ===== src/MissionGraph/Service/Cancellation.antt =====
-- cancelGraph of apps/backend/src/missions/missionGraphService.ts.
use chanter_operator.Prelude.{
  String, false, not, Option, none, some, [], ◌∷◌, ◌==◌, if◌then◌else◌, any, template, trim,
  slice_to,
}
use chanter_operator.Prelude.Exec.{Exec, refusal, ◌>>=◌, ◌>>◌, ensure, for_each, with_transaction}
use chanter_operator.Json.{Json}
use chanter_operator.MissionGraph.States.{GraphState, NodeState, is_final_graph}
use chanter_operator.MissionGraph.Journal.{require_graph}
use chanter_operator.MissionGraph.Journal.Order.{list_nodes}
use chanter_operator.MissionGraph.Journal.Transitions.{transition_graph}
use chanter_operator.MissionGraph.Service.{
  Service, Platform, on_journal, timestamp, restore_service, assert_contains_no_protected_value,
}
use chanter_operator.MissionGraph.Service.Nodes.{node_input}
use chanter_operator.MissionGraph.Service.Dispatch.{cancel_if_open}
use chanter_operator.MissionGraph.Service.Scheduler.{has_status}
use chanter_operator.MissionGraph.Service.Views.{GraphView, build_view}
use chanter_operator.MissionGraph.Service.Control.{trimmed, is_actor, event_input, terminal_refusal}

module _ {W : Type 0} (p : Platform W) where
  abbrev cancel_reason : Option Json → String
  cancel_reason value =
      if trimmed value == ""
      then "A human cancelled the mission graph before completion."
      else slice_to 500 (trimmed value)

  unfoldable pub cancel_graph : String → Option Json → Option Json → Exec (Service W) GraphView
  cancel_graph id cancelled_by_value reason_value = do
    let cancelled_by = trimmed cancelled_by_value
    ensure (is_actor cancelled_by)
        (refusal "cancelledBy is required and must be at most 120 characters." 400 none)
    assert_contains_no_protected_value (cancelled_by ∷ [])
    let reason = cancel_reason reason_value
    assert_contains_no_protected_value (reason ∷ [])
    graph ← on_journal (require_graph (trim id))
    ensure (not (is_final_graph graph.status)) (terminal_refusal "cancelled" graph.status)
    nodes ← on_journal (list_nodes graph.graph_id)
    ensure (not (any (has_status NodeState.running) nodes)) (
        refusal "Mission graph has a running node; recover or complete it before cancelling." 409
          (some "OPERATOR_GRAPH_CANCEL_BLOCKED"))
    time ← timestamp
    with_transaction restore_service do
      for_each nodes
          (cancel_if_open graph (record (node_input reason [] time) { actor = cancelled_by }))
      on_journal (
          transition_graph graph.graph_id GraphState.cancelled
            (event_input cancelled_by reason (template ("cancellation:" ∷ cancelled_by ∷ []) ∷ [])
              time)
            none)
    after ← on_journal (require_graph graph.graph_id)
    build_view p after false
