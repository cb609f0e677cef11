-- ===== src/MissionGraph/Service/Nodes.antt =====
-- One node of a graph: dispatch, the child's outcome, recovery and termination, as in
-- apps/backend/src/missions/missionGraphService.ts.
use chanter_operator.Prelude.{
  String, Bool, ◌&&◌, none, some, List, [], ◌∷◌, ◌==◌, if◌then◌else◌, or_else, template,
}
use chanter_operator.Prelude.Exec.{
  Exec, Thrown, operator_error, other_error, OperatorError, throw, modify, ◌>>=◌, ◌>>◌, done,
  ensure,
}
use chanter_operator.MissionGraph.States.{NodeState, same_node_state}
use chanter_operator.MissionGraph.Records.{GraphRecord, NodeRecord, NodeTransitionInput}
use chanter_operator.MissionGraph.Journal.{require_node}
use chanter_operator.MissionGraph.Journal.Transitions.{transition_node}
use chanter_operator.MissionGraph.Registry.{Lane}
use chanter_operator.MissionGraph.Service.{
  Service, ChildMission, ChildOutcome, Boundary, actor_id, on_journal, timestamp, inject_failure,
  is_terminal_code,
}

abbrev pub child_mission_evidence : String → List String
child_mission_evidence id = template ("child-mission:" ∷ id ∷ []) ∷ []

abbrev pub node_input : String → List String → String → NodeTransitionInput
node_input reason evidence time = record {
  actor = actor_id;
  reason = reason;
  timestamp = time;
  evidence_references = evidence;
  attempts = none;
  result_status = none;
  result_summary = none;
  typed_error = none;
}

abbrev pub is_running : NodeRecord → Bool
is_running node = same_node_state node.status NodeState.running

-- The input of the transition that a child's outcome asks for.
abbrev pub completed_input : ChildMission → String → NodeTransitionInput
completed_input mission time = record {
  actor = actor_id;
  reason = elim mission.lane [
    | Lane.autoposter_legacy ↦
        "The AutoPoster child mission completed with one authoritative unapproved scheduled queue draft."
    | Lane.generic ↦ "The child mission completed with an authoritative durable result."
  ];
  timestamp = time;
  evidence_references = mission.evidence_references;
  attempts = none;
  result_status = some (some mission.status);
  result_summary = some mission.result_summary;
  typed_error = some none;
}

abbrev pub failed_terminal_input : ChildMission → String → NodeTransitionInput
failed_terminal_input mission time = record {
  actor = actor_id;
  reason = "The child mission reached a deterministic terminal failure.";
  timestamp = time;
  evidence_references = child_mission_evidence mission.mission_id;
  attempts = none;
  result_status = some (some mission.status);
  result_summary = none;
  typed_error = some (
      some (
        or_else mission.typed_error (record {
          code = "GRAPH_CHILD_FAILED_TERMINAL";
          message = "The child mission failed terminally without a typed error.";
        })));
}

abbrev pub unresolved_input : ChildMission → String → NodeTransitionInput
unresolved_input mission time = record {
  actor = actor_id;
  reason =
      "The child mission has not produced an authoritative result yet; a bounded recovery is required.";
  timestamp = time;
  evidence_references = child_mission_evidence mission.mission_id;
  attempts = none;
  result_status = some (some mission.status);
  result_summary = none;
  typed_error = some (
      some (
        or_else mission.typed_error (record {
          code = "GRAPH_CHILD_EXECUTION_UNRESOLVED";
          message = template (
              "The child mission is in durable state "
              ∷ or_else mission.execution_state "unknown"
              ∷ " and needs recovery."
              ∷ []);
        })));
}

abbrev pub dispatch_error_input : Bool → OperatorError → NodeRecord → String → NodeTransitionInput
dispatch_error_input terminal e node time = record {
  actor = actor_id;
  reason =
      if terminal
      then "The child mission refused the dispatch with a deterministic binding conflict."
      else "The child mission dispatch failed recoverably; a bounded recovery is required.";
  timestamp = time;
  evidence_references = child_mission_evidence node.child_mission_id;
  attempts = none;
  result_status = none;
  result_summary = none;
  typed_error =
      some (
        some (record { code = or_else e.code "GRAPH_CHILD_DISPATCH_FAILED"; message = e.message }));
}

module _ {W : Type 0} where
  -- observationScheduler.onAutoPosterNodeCompleted, where a scheduler is configured.
  unfoldable pub schedule_observation : String → NodeRecord → Exec (Service W) (Unit {0})
  schedule_observation id node = modify λ s.
      if node.product == "auto_poster" && s.observation_scheduler
      then record s { observations = (id, node.node_id) ∷ s.observations }
      else s

  unfoldable pub record_outcome :
      GraphRecord → NodeRecord → ChildMission → ChildOutcome → String → Exec (Service W) (Unit {0})
  record_outcome graph node mission ChildOutcome.completed time =
      on_journal (
        transition_node graph.graph_id node.node_id NodeState.completed
          (completed_input mission time))
      >> inject_failure Boundary.after_node_completed_persistence graph.graph_id (some node.node_id)
      >> schedule_observation graph.graph_id node
  record_outcome graph node mission ChildOutcome.failed_terminal time =
      on_journal (
        transition_node graph.graph_id node.node_id NodeState.failed_terminal
          (failed_terminal_input mission time))
      >> done
  record_outcome graph node mission ChildOutcome.unresolved time =
      on_journal (
        transition_node graph.graph_id node.node_id NodeState.failed_recoverable
          (unresolved_input mission time))
      >> done

  unfoldable pub apply_child_outcome :
      GraphRecord → String → ChildMission → Exec (Service W) (Unit {0})
  apply_child_outcome graph node_id mission = do
    node ← on_journal (require_node graph.graph_id node_id)
    if is_running node
        then timestamp >>= record_outcome graph node mission mission.outcome
        else done

  unfoldable pub record_child_dispatch_error :
      GraphRecord → String → Thrown → Exec (Service W) (Unit {0})
  record_child_dispatch_error graph node_id (other_error text) = throw (other_error text)
  record_child_dispatch_error graph node_id (operator_error e) = do
    node ← on_journal (require_node graph.graph_id node_id)
    ensure (is_running node) (operator_error e)
    time ← timestamp
    let terminal = is_terminal_code e.code
    on_journal (
          transition_node graph.graph_id node_id
            (if terminal then NodeState.failed_terminal else NodeState.failed_recoverable)
            (dispatch_error_input terminal e node time))
        >> done
