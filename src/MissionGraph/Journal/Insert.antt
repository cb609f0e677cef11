-- ===== src/MissionGraph/Journal/Insert.antt =====
-- insertGraph of apps/backend/src/missions/missionGraphJournal.ts, under the keys and CHECK
-- clauses of apps/backend/src/db/schema.ts.
use chanter_operator.Prelude.{
  String, Bool, not, ◌&&◌, ◌||◌, none, some, [], ◌∷◌, ◌++◌, ◌==◌, template, any, length, leb,
}
use chanter_operator.Prelude.Exec.{Exec, gets, modify, ◌>>=◌, ◌>>◌, for_each, ensure}
use chanter_operator.MissionGraph.States.{GraphState, NodeState}
use chanter_operator.MissionGraph.Records.{
  GraphRecord, NodeRecord, EdgeRow, Scope, NodeInsertInput, GraphInsertInput, EventDraft,
}
use chanter_operator.MissionGraph.Journal.{
  Journal, with_savepoint, require_graph, append_event, constraint, node_is,
}

abbrev pub graph_row : GraphInsertInput → GraphRecord
graph_row input = record {
  graph_id = input.graph_id;
  trace_id = input.trace_id;
  idempotency_key = input.idempotency_key;
  schema_version = input.schema_version;
  source_system = input.source_system;
  requested_by = input.requested_by;
  tenant_user_id = input.tenant_user_id;
  workspace_id = input.workspace_id;
  account_id = input.account_id;
  objective = input.objective;
  compiled_graph_json = input.compiled_graph_json;
  graph_hash = input.graph_hash;
  node_count = length input.nodes;
  status = GraphState.approval_required;
  approved_by = none;
  approved_at = none;
  approved_graph_hash = none;
  requested_at = input.requested_at;
  created_at = input.timestamp;
  updated_at = input.timestamp;
}

abbrev pub graph_row_fits : GraphRecord → Journal → Bool
graph_row_fits row j =
    not (
      any
        (λ g.
          g.graph_id == row.graph_id
          || g.trace_id == row.trace_id
          || g.idempotency_key == row.idempotency_key)
        j.graphs)
    && row.schema_version == "chanter.mission.graph.v1"
    && leb 1 row.node_count
    && leb row.node_count 8

unfoldable pub insert_graph_row : GraphRecord → Exec Journal (Unit {0})
insert_graph_row row =
    gets (graph_row_fits row)
    >>= (λ fits. ensure fits (constraint "operator_mission_graphs"))
    >> modify (λ j. record j { db = record (j.db) { graphs = j.graphs ++ row ∷ [] } })

abbrev pub node_row : GraphInsertInput → NodeInsertInput → NodeRecord
node_row input n = record {
  graph_id = input.graph_id;
  node_id = n.node_id;
  product = n.product;
  action = n.action;
  objective = n.objective;
  input = n.input;
  depends_on = n.depends_on;
  child_mission_id = n.child_mission_id;
  child_trace_id = n.child_trace_id;
  child_idempotency_key = n.child_idempotency_key;
  status = NodeState.blocked;
  attempts = 0;
  result_status = none;
  result_summary = none;
  typed_error = none;
  created_at = input.timestamp;
  updated_at = input.timestamp;
}

abbrev pub node_row_fits : NodeRecord → Journal → Bool
node_row_fits row j =
    not (
      any (λ n. node_is row.graph_id row.node_id n || n.child_mission_id == row.child_mission_id)
        j.nodes)
    && (not (row.product == "auto_poster") || row.action == "autoposter.post.schedule")

unfoldable pub insert_node_row : NodeRecord → Exec Journal (Unit {0})
insert_node_row row =
    gets (node_row_fits row)
    >>= (λ fits. ensure fits (constraint "operator_mission_graph_nodes"))
    >> modify (λ j. record j { db = record (j.db) { nodes = j.nodes ++ row ∷ [] } })

abbrev pub edge_row : String → NodeInsertInput → String → EdgeRow
edge_row id n dependency = record {
  graph_id = id;
  from_node_id = dependency;
  to_node_id = n.node_id;
}

abbrev pub edge_row_fits : EdgeRow → Journal → Bool
edge_row_fits row j = not (
    any
      (λ e.
        e.graph_id == row.graph_id
        && e.from_node_id == row.from_node_id
        && e.to_node_id == row.to_node_id)
      j.edges)

unfoldable pub insert_edge_row : EdgeRow → Exec Journal (Unit {0})
insert_edge_row row =
    gets (edge_row_fits row)
    >>= (λ fits. ensure fits (constraint "operator_mission_graph_edges"))
    >> modify (λ j. record j { db = record (j.db) { edges = j.edges ++ row ∷ [] } })

-- One round of the loop over the nodes: the node's row, then an edge for each dependency.
unfoldable pub insert_node : GraphInsertInput → NodeInsertInput → Exec Journal (Unit {0})
insert_node input n =
    insert_node_row (node_row input n)
    >> for_each n.depends_on (λ dependency. insert_edge_row (edge_row input.graph_id n dependency))

abbrev pub compiled_draft : GraphInsertInput → EventDraft
compiled_draft input = record {
  scope = Scope.graph;
  node_id = none;
  event_type = "graph_compiled_and_persisted";
  previous_state = none;
  new_state = some "approval_required";
  actor = input.requested_by;
  reason =
      "Compiled graph persisted durably; explicit control approval of the exact graph hash is required.";
  timestamp = input.timestamp;
  evidence_references =
      template ("graph:" ∷ input.graph_id ∷ [])
      ∷ template ("graph-sha256:" ∷ input.graph_hash ∷ [])
      ∷ [];
  typed_error = none;
}

unfoldable pub insert_graph : GraphInsertInput → Exec Journal GraphRecord
insert_graph input = with_savepoint do
  insert_graph_row (graph_row input)
  for_each input.nodes (insert_node input)
  append_event input.graph_id (compiled_draft input)
  require_graph input.graph_id
