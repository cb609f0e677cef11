-- ===== src/Agentic/Journal/Insert.antt =====
-- insertMission of apps/backend/src/agentic/agenticPlanJournal.ts.
use chanter_operator.Prelude.{
  String, Bool, not, ◌&&◌, ◌||◌, none, some, List, [], ◌∷◌, ◌++◌, ◌==◌, template, any, leb,
}
use chanter_operator.Prelude.Exec.{Exec, gets, modify, ◌>>=◌, ◌>>◌, ensure, for_each}
use chanter_operator.Json.{null}
use chanter_operator.Agentic.States.{PlanState, NodeState}
use chanter_operator.Agentic.Records.{MissionRecord, NodeRecord, PlanEdge, PlanNode, Scope}
use chanter_operator.Agentic.Inputs.{
  MissionInsertInput, MissionUpdateInput, CompiledEdge, EventDraft,
}
use chanter_operator.Agentic.Journal.{
  Journal, with_savepoint, mission_is, node_is, append_event, constraint,
}
use chanter_operator.Agentic.Journal.Missions.{transition_mission_internal}

abbrev pub mission_row : MissionInsertInput → MissionRecord
mission_row input = record {
  mission_id = input.intent.mission_id;
  trace_id = input.intent.trace_id;
  workspace_id = input.intent.workspace_id;
  actor_id = input.intent.actor_id;
  objective = input.intent.objective;
  intent_hash = input.intent.intent_hash;
  intent = input.intent.document;
  context_bundle_id = input.context_bundle_id;
  context_bundle = input.context_bundle;
  plan_id = input.plan.plan_id;
  plan_hash = input.plan.plan_hash;
  plan = input.plan.document;
  routing = input.routing;
  status = PlanState.compiled;
  execution_approved_by = none;
  execution_approved_at = none;
  execution_approved_plan_hash = none;
  candidate_hash = none;
  candidate_markdown = none;
  candidate_approved_by = none;
  candidate_approved_at = none;
  approved_candidate_hash = none;
  candidate_approval_expires_at = none;
  candidate_authority_revision = none;
  artifact_hash = none;
  artifact_name = none;
  value_observation = null;
  exception_state = input.exception_state;
  typed_error = none;
  requested_at = input.intent.requested_at;
  created_at = input.timestamp;
  updated_at = input.timestamp;
}

-- The state of a node with the given dependencies.
abbrev pub initial_state : List String → NodeState
initial_state [] = NodeState.ready
initial_state (d ∷ ds) = NodeState.blocked

abbrev pub node_row : MissionInsertInput → PlanNode → NodeRecord
node_row input n = record {
  plan_id = input.plan.plan_id;
  node_id = n.node_id;
  mission_id = input.intent.mission_id;
  node_type = n.node_type;
  capability_id = n.capability_id;
  worker_kind = n.worker_kind;
  provider_binding_id = n.provider_binding_id;
  depends_on = n.dependency_ids;
  input_refs = n.input_refs;
  authority_requirement = n.authority_requirement;
  budget = n.budget;
  deadline_offset_ms = n.deadline_offset_ms;
  attempt_limit = n.attempt_limit;
  reconciliation_mode = n.reconciliation_mode;
  evidence_policy = n.evidence_policy;
  payload_hash = n.payload_hash;
  state = initial_state n.dependency_ids;
  attempts = 0;
  lease_owner = none;
  lease_expires_at = none;
  deadline_at = none;
  idempotency_key = input.idempotency_key_for n.node_id;
  output = null;
  output_hash = none;
  cost = none;
  latency_ms = none;
  reconciliation_outcome = none;
  reconciled_at = none;
  typed_error = none;
  started_at = none;
  completed_at = none;
  created_at = input.timestamp;
  updated_at = input.timestamp;
}

-- The keys mission_id and trace_id, and the CHECK clause on schema_version.
abbrev pub mission_row_fits : String → MissionRecord → Journal → Bool
mission_row_fits schema_version row j =
    schema_version == "chanter.agentic-work.v1"
    && not (any (λ m. m.mission_id == row.mission_id || m.trace_id == row.trace_id) j.missions)

unfoldable pub insert_mission_row : String → MissionRecord → Exec Journal (Unit {0})
insert_mission_row schema_version row =
    gets (mission_row_fits schema_version row)
    >>= (λ fits. ensure fits (constraint "operator_agentic_missions"))
    >> modify (λ j. record j { db = record (j.db) { missions = j.missions ++ row ∷ [] } })

-- The key (plan_id, node_id), the reference to the mission, and the CHECK clause on attempt_limit.
abbrev pub node_row_fits : NodeRecord → Journal → Bool
node_row_fits row j =
    not (any (node_is row.plan_id row.node_id) j.nodes)
    && any (mission_is row.mission_id) j.missions
    && leb 1 row.attempt_limit

unfoldable pub insert_node_row : NodeRecord → Exec Journal (Unit {0})
insert_node_row row =
    gets (node_row_fits row)
    >>= (λ fits. ensure fits (constraint "operator_agentic_plan_nodes"))
    >> modify (λ j. record j { db = record (j.db) { nodes = j.nodes ++ row ∷ [] } })

abbrev pub edge_row : String → CompiledEdge → PlanEdge
edge_row plan_id e = record {
  plan_id = plan_id;
  from_node_id = e.from_node_id;
  to_node_id = e.to_node_id;
}

abbrev pub edge_is : PlanEdge → PlanEdge → Bool
edge_is row e =
    e.plan_id == row.plan_id && e.from_node_id == row.from_node_id && e.to_node_id == row.to_node_id

-- The key, and the references to both nodes.
abbrev pub edge_row_fits : PlanEdge → Journal → Bool
edge_row_fits row j =
    not (any (edge_is row) j.edges)
    && any (node_is row.plan_id row.from_node_id) j.nodes
    && any (node_is row.plan_id row.to_node_id) j.nodes

unfoldable pub insert_edge_row : PlanEdge → Exec Journal (Unit {0})
insert_edge_row row =
    gets (edge_row_fits row)
    >>= (λ fits. ensure fits (constraint "operator_agentic_plan_edges"))
    >> modify (λ j. record j { db = record (j.db) { edges = j.edges ++ row ∷ [] } })

abbrev pub compiled_draft : MissionInsertInput → EventDraft
compiled_draft input = record {
  mission_id = input.intent.mission_id;
  plan_id = input.plan.plan_id;
  scope = Scope.mission;
  node_id = none;
  event_type = "mission_compiled";
  previous_state = none;
  new_state = some "compiled";
  actor = input.intent.actor_id;
  reason = "Intent, verified context, and a deterministic plan were compiled and persisted.";
  timestamp = input.timestamp;
  evidence_references = some (
      template ("intent-sha256:" ∷ input.intent.intent_hash ∷ [])
      ∷ template ("context-bundle:" ∷ input.context_bundle_id ∷ [])
      ∷ template ("plan-sha256:" ∷ input.plan.plan_hash ∷ [])
      ∷ []);
  typed_error = none;
}

abbrev pub approval_input : MissionInsertInput → MissionUpdateInput
approval_input input = record {
  actor = input.intent.actor_id;
  reason =
      "Execution of this plan requires an explicit human approval bound to its exact plan hash.";
  timestamp = input.timestamp;
  evidence_references = some (template ("plan-sha256:" ∷ input.plan.plan_hash ∷ []) ∷ []);
  typed_error = none;
  execution_approved_by = none;
  execution_approved_plan_hash = none;
  candidate_hash = none;
  candidate_markdown = none;
  candidate_approved_by = none;
  approved_candidate_hash = none;
  candidate_approval_expires_at = none;
  candidate_authority_revision = none;
  artifact_hash = none;
  artifact_name = none;
  value_observation = none;
}

unfoldable pub insert_mission : MissionInsertInput → Exec Journal MissionRecord
insert_mission input = with_savepoint do
  insert_mission_row input.intent.schema_version (mission_row input)
  for_each input.plan.nodes (λ n. insert_node_row (node_row input n))
  for_each input.plan.edges (λ e. insert_edge_row (edge_row input.plan.plan_id e))
  append_event (compiled_draft input)
  transition_mission_internal input.intent.mission_id PlanState.approval_required
      (approval_input input)
