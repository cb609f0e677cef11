-- ===== src/MissionGraph/Service/Approval.antt =====
-- approveGraph of apps/backend/src/missions/missionGraphService.ts.
use chanter_operator.Prelude.{
  String, Bool, true, false, not, ◌&&◌, ◌||◌, Option, none, some, [], ◌∷◌, ◌==◌, if◌then◌else◌,
  template, trim, same_text,
}
use chanter_operator.Prelude.Exec.{Exec, Thrown, refusal, ◌>>=◌, ◌>>◌, done, ensure}
use chanter_operator.Json.{Json}
use chanter_operator.MissionGraph.States.{GraphState, same_graph_state}
use chanter_operator.MissionGraph.Records.{GraphRecord}
use chanter_operator.MissionGraph.Journal.{require_graph}
use chanter_operator.MissionGraph.Journal.Transitions.{transition_graph, append_audit_event}
use chanter_operator.MissionGraph.Service.{
  Service, Platform, Boundary, on_journal, timestamp, inject_failure,
  assert_contains_no_protected_value,
}
use chanter_operator.MissionGraph.Service.Scheduler.{run_scheduler}
use chanter_operator.MissionGraph.Service.Views.{GraphView, build_view}
use chanter_operator.MissionGraph.Service.Control.{
  trimmed, is_graph_hash, is_actor, event_input, graph_evidence, terminal_refusal,
  assert_graph_integrity,
}

abbrev binding_refusal : Thrown
binding_refusal =
    refusal "Replay approval identity does not match the durable approval binding." 409
      (some "OPERATOR_GRAPH_APPROVAL_BINDING_MISMATCH")

abbrev pub is_closed_to_approval : GraphState → Bool
is_closed_to_approval status =
    same_graph_state status GraphState.cancelled
    || same_graph_state status GraphState.failed_terminal

module _ {W : Type 0} (p : Platform W) where
  -- A replay of the approval of a completed graph returns its result.
  unfoldable pub replay_completed : GraphRecord → String → Exec (Service W) GraphView
  replay_completed graph approved_by = do
    time ← timestamp
    on_journal (
        append_audit_event graph.graph_id "graph_approval_replayed" none (
          event_input approved_by
            "Exact approval replay returned the existing authoritative graph result without execution."
            (graph_evidence graph) time))
    current ← on_journal (require_graph graph.graph_id)
    build_view p current true

  -- Any other replay runs the scheduler where the graph is approved or running.
  unfoldable pub replay_unfinished : GraphRecord → Exec (Service W) GraphView
  replay_unfinished graph = do
    (if same_graph_state graph.status GraphState.approved
          || same_graph_state graph.status GraphState.running
        then run_scheduler p graph.graph_id
        else done)
    current ← on_journal (require_graph graph.graph_id)
    build_view p current true

  -- approveGraph's branch for a graph that was approved before.
  unfoldable pub replay_approval : GraphRecord → String → String → Exec (Service W) GraphView
  replay_approval graph approved_by supplied_hash = do
    ensure
        (same_text graph.approved_by approved_by
          && same_text graph.approved_graph_hash supplied_hash)
        binding_refusal
    if same_graph_state graph.status GraphState.completed
        then replay_completed graph approved_by
        else replay_unfinished graph

  -- approveGraph's branch for a graph that waits for its approval.
  unfoldable pub first_approval : GraphRecord → String → Exec (Service W) GraphView
  first_approval graph approved_by = do
    approved_at ← timestamp
    on_journal (
        transition_graph graph.graph_id GraphState.approved
          (event_input approved_by
            "Founder control approval was durably bound to the exact compiled graph hash."
            (template ("approval:" ∷ approved_by ∷ [])
              ∷ template ("graph-sha256:" ∷ graph.graph_hash ∷ [])
              ∷ [])
            approved_at)
          (some (record {
            approved_by = approved_by;
            approved_at = some approved_at;
            approved_graph_hash = some graph.graph_hash;
          })))
    inject_failure Boundary.after_graph_approval_persistence graph.graph_id none
    run_scheduler p graph.graph_id
    current ← on_journal (require_graph graph.graph_id)
    build_view p current false

  unfoldable pub approve_graph : String → Option Json → Option Json → Exec (Service W) GraphView
  approve_graph id approved_by_value graph_hash_value = do
    let approved_by = trimmed approved_by_value
    ensure (is_actor approved_by)
        (refusal "approvedBy is required and must be at most 120 characters." 400 none)
    assert_contains_no_protected_value (approved_by ∷ [])
    let supplied_hash = trimmed graph_hash_value
    ensure (is_graph_hash supplied_hash) (
        refusal "graphHash is required and must be the exact 64-hex compiled graph hash." 400
          (some "OPERATOR_GRAPH_APPROVAL_HASH_REQUIRED"))
    graph ← on_journal (require_graph (trim id))
    assert_graph_integrity p graph
    ensure (supplied_hash == graph.graph_hash) (
        refusal "The supplied graph hash does not match the immutable compiled graph." 409
          (some "OPERATOR_GRAPH_APPROVAL_HASH_MISMATCH"))
    ensure (not (is_closed_to_approval graph.status)) (terminal_refusal "approved" graph.status)
    if same_graph_state graph.status GraphState.approval_required
        then first_approval graph approved_by
        else replay_approval graph approved_by supplied_hash
