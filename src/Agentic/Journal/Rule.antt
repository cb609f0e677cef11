-- ===== src/Agentic/Journal/Rule.antt =====
-- One proof rule for all methods of AgenticPlanJournal
-- (apps/backend/src/agentic/agenticPlanJournal.ts): what every write keeps, the methods keep.
use chanter_operator.Prelude.{◌≡◌, String, true, Option, none, some, List}
use chanter_operator.Prelude.Exec.{Exec}
use chanter_operator.Prelude.Exec.Rules.{
  Keeps, keeps_rules, Keeps-guarded, Keeps-bind, Keeps-with_transaction,
}
use chanter_operator.Agentic.States.{
  PlanState, NodeState, allowed_plan_transition, allowed_node_transition,
}
use chanter_operator.Agentic.Records.{
  NodeRecord, PlanEdge, EvidenceRecord, NodeEvidence, ArtifactWriteRecord, PlanNode,
}
use chanter_operator.Agentic.Inputs.{
  EventDraft, MissionUpdateInput, NodeTransitionInput, MissionInsertInput,
}
use chanter_operator.Agentic.Journal.{
  Journal, restore, with_savepoint, get_mission, require_mission, get_node, require_node, next_id,
  append_event_as, append_event, get_artifact_write,
}
use chanter_operator.Agentic.Journal.Missions.{
  apply_mission_fields, move_mission, record_plan_transition, transition_mission_internal,
  transition_mission, update_mission,
}
use chanter_operator.Agentic.Journal.Nodes.{
  move_node, record_node_transition, transition_node, audit_node, append_node_audit_event,
  insert_evidence, record_node_evidence, insert_artifact, write_or_compare, record_artifact_write,
}
use chanter_operator.Agentic.Journal.Insert.{
  insert_mission_row, insert_node_row, insert_edge_row, insert_mission, mission_row, node_row,
}

-- A property of the journal that each single write keeps, a change of state where its transition is
-- allowed.
pub record IsKept (P : Journal → Type 0) : Type 0 where
  pub rollback : (before after : Journal) → P before → P after → P (restore before after)
  pub draw : Keeps P next_id
  pub event : (event_id : String) (draft : EventDraft) → Keeps P (append_event_as event_id draft)
  pub mission_insert :
      (schema_version : String) (input : MissionInsertInput)
      → Keeps P (insert_mission_row schema_version (mission_row input))
  pub node_insert :
      (input : MissionInsertInput) (n : PlanNode) → Keeps P (insert_node_row (node_row input n))
  pub edge_insert : (row : PlanEdge) → Keeps P (insert_edge_row row)
  pub evidence_insert : (row : EvidenceRecord) → Keeps P (insert_evidence row)
  pub artifact_insert : (row : ArtifactWriteRecord) → Keeps P (insert_artifact row)
  pub mission_fields : (id : String) (o : MissionUpdateInput) → Keeps P (apply_mission_fields id o)
  pub mission_move :
      (id : String) (from to : PlanState) (timestamp : String)
      → allowed_plan_transition from to ≡ true
      → Keeps P (move_mission id from to timestamp)
  pub node_audit :
      (plan_id node_id : String) (o : NodeTransitionInput) (current : NodeRecord)
      → Keeps P (audit_node plan_id node_id o current)
  pub node_move :
      (plan_id node_id : String) (to : NodeState) (o : NodeTransitionInput) (current : NodeRecord)
      → allowed_node_transition current.state to ≡ true
      → Keeps P (move_node plan_id node_id to o current)

module _ {P : Journal → Type 0} (kept : IsKept P) where
  Keeps-require_mission : (id : String) → Keeps P (require_mission id)
  unfolding require_mission get_mission
  Keeps-require_mission id = search keeps_rules

  Keeps-require_node : (plan_id node_id : String) → Keeps P (require_node plan_id node_id)
  unfolding require_node get_node
  Keeps-require_node plan_id node_id = search keeps_rules

  Keeps-with_savepoint : {A : Type 0} (m : Exec Journal A) → Keeps P m → Keeps P (with_savepoint m)
  unfolding with_savepoint
  Keeps-with_savepoint m k = Keeps-with_transaction restore m kept.rollback k

  Keeps-append_event : (draft : EventDraft) → Keeps P (append_event draft)
  unfolding append_event
  Keeps-append_event draft = Keeps-bind _ _ kept.draw (λ event_id. kept.event event_id draft)

  Keeps-mission_row :
      (schema_version : String) (input : MissionInsertInput)
      → Keeps P (insert_mission_row schema_version (mission_row input))
  Keeps-mission_row = kept.mission_insert

  Keeps-node_row :
      (input : MissionInsertInput) (n : PlanNode) → Keeps P (insert_node_row (node_row input n))
  Keeps-node_row = kept.node_insert

  Keeps-edge_row : (row : PlanEdge) → Keeps P (insert_edge_row row)
  Keeps-edge_row = kept.edge_insert

  Keeps-evidence : (row : EvidenceRecord) → Keeps P (insert_evidence row)
  Keeps-evidence = kept.evidence_insert

  Keeps-artifact : (row : ArtifactWriteRecord) → Keeps P (insert_artifact row)
  Keeps-artifact = kept.artifact_insert

  Keeps-fields : (id : String) (o : MissionUpdateInput) → Keeps P (apply_mission_fields id o)
  Keeps-fields = kept.mission_fields

  Keeps-move_mission :
      (id : String) (from to : PlanState) (timestamp : String)
      → allowed_plan_transition from to ≡ true
      → Keeps P (move_mission id from to timestamp)
  Keeps-move_mission = kept.mission_move

  Keeps-audit_node :
      (plan_id node_id : String) (o : NodeTransitionInput) (current : NodeRecord)
      → Keeps P (audit_node plan_id node_id o current)
  Keeps-audit_node = kept.node_audit

  Keeps-move_node :
      (plan_id node_id : String) (to : NodeState) (o : NodeTransitionInput) (current : NodeRecord)
      → allowed_node_transition current.state to ≡ true
      → Keeps P (move_node plan_id node_id to o current)
  Keeps-move_node = kept.node_move

ruleset write_rules = (
  keeps_rules, Keeps-require_mission, Keeps-require_node, Keeps-with_savepoint, Keeps-append_event,
  Keeps-mission_row, Keeps-node_row, Keeps-edge_row, Keeps-evidence, Keeps-artifact, Keeps-fields,
  Keeps-move_mission, Keeps-audit_node, Keeps-move_node,
)

module _ {P : Journal → Type 0} (kept : IsKept P) where
  Keeps-transition_mission_internal :
      (id : String) (to : PlanState) (o : MissionUpdateInput)
      → Keeps P (transition_mission_internal id to o)
  unfolding transition_mission_internal record_plan_transition
  Keeps-transition_mission_internal id to o =
      Keeps-bind (require_mission id) _ (Keeps-require_mission kept id) λ current.
        Keeps-guarded (allowed_plan_transition current.status to) _ _
          λ allowed. search write_rules depth 14

  pub Keeps-transition_mission :
      (id : String) (to : PlanState) (o : MissionUpdateInput) → Keeps P (transition_mission id to o)
  unfolding transition_mission
  Keeps-transition_mission id to o =
      Keeps-with_savepoint kept _ (Keeps-transition_mission_internal id to o)

  pub Keeps-update_mission :
      (id : String) (o : MissionUpdateInput) (event_type : String)
      → Keeps P (update_mission id o event_type)
  unfolding update_mission
  Keeps-update_mission id o event_type = search write_rules depth 14

  pub Keeps-transition_node :
      (plan_id node_id : String) (to : NodeState) (o : NodeTransitionInput)
      → Keeps P (transition_node plan_id node_id to o)
  unfolding transition_node record_node_transition
  Keeps-transition_node plan_id node_id to o = Keeps-with_savepoint kept _ (
      Keeps-bind (require_node plan_id node_id) _ (Keeps-require_node kept plan_id node_id)
        λ current.
          Keeps-guarded (allowed_node_transition current.state to) _ _
            λ allowed. search write_rules depth 14)

  pub Keeps-append_node_audit_event :
      (plan_id node_id event_type : String) (o : NodeTransitionInput)
      → Keeps P (append_node_audit_event plan_id node_id event_type o)
  unfolding append_node_audit_event
  Keeps-append_node_audit_event plan_id node_id event_type o = search write_rules depth 14

  pub Keeps-record_node_evidence :
      (mission_id plan_id node_id : String) (evidence : List NodeEvidence) (timestamp : String)
      → Keeps P (record_node_evidence mission_id plan_id node_id evidence timestamp)
  unfolding record_node_evidence
  Keeps-record_node_evidence mission_id plan_id node_id evidence timestamp = search write_rules

  Keeps-write_or_compare :
      (row : ArtifactWriteRecord) (o : Option ArtifactWriteRecord)
      → Keeps P (write_or_compare row o)
  unfolding write_or_compare
  Keeps-write_or_compare row none = kept.artifact_insert row
  Keeps-write_or_compare row (some existing) = search keeps_rules

  pub Keeps-record_artifact_write :
      (row : ArtifactWriteRecord) → Keeps P (record_artifact_write row)
  unfolding record_artifact_write get_artifact_write
  Keeps-record_artifact_write row = search (keeps_rules, Keeps-write_or_compare)

  pub Keeps-insert_mission : (input : MissionInsertInput) → Keeps P (insert_mission input)
  unfolding insert_mission
  Keeps-insert_mission input = search (write_rules, Keeps-transition_mission_internal) depth 14
