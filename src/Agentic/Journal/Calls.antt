-- ===== src/Agentic/Journal/Calls.antt =====
-- Clients of AgenticPlanJournal (apps/backend/src/agentic/agenticPlanJournal.ts): any sequence of
-- calls of its state-changing methods, where a call that throws lets the next one follow.
use chanter_operator.Prelude.{String, List, [], ◌∷◌}
use chanter_operator.Agentic.States.{PlanState, NodeState}
use chanter_operator.Agentic.Records.{NodeEvidence, ArtifactWriteRecord}
use chanter_operator.Agentic.Inputs.{MissionUpdateInput, NodeTransitionInput, MissionInsertInput}
use chanter_operator.Agentic.Journal.{Journal}
use chanter_operator.Agentic.Journal.Missions.{transition_mission, update_mission}
use chanter_operator.Agentic.Journal.Nodes.{
  transition_node, append_node_audit_event, record_node_evidence, record_artifact_write,
}
use chanter_operator.Agentic.Journal.Insert.{insert_mission}
use chanter_operator.Agentic.Journal.Rule.{
  IsKept, Keeps-transition_mission, Keeps-update_mission, Keeps-transition_node,
  Keeps-append_node_audit_event, Keeps-record_node_evidence, Keeps-record_artifact_write,
  Keeps-insert_mission,
}

pub data Call : Type 0 where
  inserts : MissionInsertInput → Call
  moves_mission : String → PlanState → MissionUpdateInput → Call
  updates_mission : String → MissionUpdateInput → String → Call
  moves_node : String → String → NodeState → NodeTransitionInput → Call
  audits_node : String → String → String → NodeTransitionInput → Call
  records_evidence : String → String → String → List NodeEvidence → String → Call
  records_artifact : ArtifactWriteRecord → Call

unfoldable pub step : Call → Journal → Journal
step (inserts input) j = (insert_mission input j).1
step (moves_mission id to o) j = (transition_mission id to o j).1
step (updates_mission id o event_type) j = (update_mission id o event_type j).1
step (moves_node plan_id node_id to o) j = (transition_node plan_id node_id to o j).1
step (audits_node plan_id node_id event_type o) j =
    (append_node_audit_event plan_id node_id event_type o j).1
step (records_evidence mission_id plan_id node_id evidence timestamp) j =
    (record_node_evidence mission_id plan_id node_id evidence timestamp j).1
step (records_artifact row) j = (record_artifact_write row j).1

unfoldable pub run : List Call → Journal → Journal
run [] j = j
run (c ∷ cs) j = run cs (step c j)

module _ {P : Journal → Type 0} (kept : IsKept P) where
  step-keeps : (c : Call) (j : Journal) → P j → P (step c j)
  unfolding step
  step-keeps (inserts input) = (Keeps-insert_mission kept input).at
  step-keeps (moves_mission id to o) = (Keeps-transition_mission kept id to o).at
  step-keeps (updates_mission id o event_type) = (Keeps-update_mission kept id o event_type).at
  step-keeps (moves_node plan_id node_id to o) =
      (Keeps-transition_node kept plan_id node_id to o).at
  step-keeps (audits_node plan_id node_id event_type o) =
      (Keeps-append_node_audit_event kept plan_id node_id event_type o).at
  step-keeps (records_evidence mission_id plan_id node_id evidence timestamp) =
      (Keeps-record_node_evidence kept mission_id plan_id node_id evidence timestamp).at
  step-keeps (records_artifact row) = (Keeps-record_artifact_write kept row).at

  pub run-keeps : (cs : List Call) (j : Journal) → P j → P (run cs j)
  unfolding run
  run-keeps [] j h = h
  run-keeps (c ∷ cs) j h = run-keeps cs (step c j) (step-keeps c j h)
