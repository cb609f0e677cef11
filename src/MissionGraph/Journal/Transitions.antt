-- ===== src/MissionGraph/Journal/Transitions.antt =====
-- transitionGraph, transitionNode, appendAuditEvent and appendAuthoritativeReplayEvent of
-- apps/backend/src/missions/missionGraphJournal.ts.
use chanter_operator.Prelude.{
  ℕ, String, Bool, ◌&&◌, ◌||◌, Option, none, some, [], ◌∷◌, ◌++◌, ◌==◌, if◌then◌else◌, template,
  find, any, count_by, update_where, ltb, nat_eq, or_else, truthy,
}
use chanter_operator.Prelude.Exec.{
  Exec, Thrown, refusal, pure, gets, ◌>>=◌, ◌>>◌, or_throw, ensure, ok, err,
}
use chanter_operator.MissionGraph.States.{
  GraphState, NodeState, allowed_graph_transition, allowed_node_transition, graph_state_name,
  node_state_name, same_graph_state, same_node_state,
}
use chanter_operator.MissionGraph.Records.{
  GraphRecord, NodeRecord, EventRecord, ReplayRow, Scope, EventInput, ApprovalInput,
  NodeTransitionInput, EventDraft,
}
use chanter_operator.MissionGraph.Journal.{
  Journal, with_savepoint, graph_is, node_is, require_graph, require_node, append_event,
  append_event_as, next_id, constraint,
}

abbrev pub invalid_graph_transition : GraphState → GraphState → Thrown
invalid_graph_transition from to =
    refusal
      (template (
        "Invalid durable mission graph transition "
        ∷ graph_state_name from
        ∷ " -> "
        ∷ graph_state_name to
        ∷ "."
        ∷ []))
      409 (some "GRAPH_JOURNAL_INVALID_TRANSITION")

abbrev pub concurrent_graph_transition : Thrown
concurrent_graph_transition =
    refusal "Durable mission graph state changed before the transition could be recorded." 409
      (some "GRAPH_JOURNAL_CONCURRENT_TRANSITION")

-- The row that either UPDATE statement of transitionGraph writes.
abbrev pub moved_graph :
    GraphState → EventInput → Option ApprovalInput → GraphRecord → GraphRecord → GraphRecord
moved_graph to input none current row = record row { status = to; updated_at = input.timestamp }
moved_graph to input (some a) current row = record row {
  status = to;
  approved_by = some a.approved_by;
  approved_at = some (or_else a.approved_at input.timestamp);
  approved_graph_hash = some (or_else a.approved_graph_hash current.graph_hash);
  updated_at = input.timestamp;
}

-- UPDATE … WHERE graph_id = ? AND status = ?, with the number of rows changed.
unfoldable pub update_graph :
    GraphState → EventInput → Option ApprovalInput → GraphRecord → Exec Journal ℕ
update_graph to input approval current j =
    let hit = λ (g : GraphRecord).
      graph_is current.graph_id g && same_graph_state g.status current.status in
    (
      ok (count_by hit j.graphs),
      record j {
        db = record (j.db) {
          graphs = update_where hit (moved_graph to input approval current) j.graphs;
        };
      },
    )

abbrev pub graph_draft : GraphState → EventInput → GraphRecord → EventDraft
graph_draft to input current = record {
  scope = Scope.graph;
  node_id = none;
  event_type = template ("graph_" ∷ graph_state_name to ∷ []);
  previous_state = some (graph_state_name current.status);
  new_state = some (graph_state_name to);
  actor = input.actor;
  reason = input.reason;
  timestamp = input.timestamp;
  evidence_references = input.evidence_references;
  typed_error = input.typed_error;
}

-- The operation that transitionGraph hands to its savepoint.
unfoldable pub record_graph_transition :
    String → GraphState → EventInput → Option ApprovalInput → GraphRecord → Exec Journal GraphRecord
record_graph_transition id to input approval current = do
  changes ← update_graph to input approval current
  ensure (nat_eq changes 1) concurrent_graph_transition
  append_event id (graph_draft to input current)
  require_graph id

unfoldable pub transition_graph :
    String → GraphState → EventInput → Option ApprovalInput → Exec Journal GraphRecord
transition_graph id to input approval = do
  current ← require_graph id
  ensure (allowed_graph_transition current.status to) (invalid_graph_transition current.status to)
  with_savepoint (record_graph_transition id to input approval current)

abbrev pub invalid_node_transition : NodeState → NodeState → String → Thrown
invalid_node_transition from to node_id =
    refusal
      (template (
        "Invalid durable graph node transition "
        ∷ node_state_name from
        ∷ " -> "
        ∷ node_state_name to
        ∷ " for node "
        ∷ node_id
        ∷ "."
        ∷ []))
      409 (some "GRAPH_JOURNAL_INVALID_NODE_TRANSITION")

abbrev pub concurrent_node_transition : Thrown
concurrent_node_transition =
    refusal "Durable graph node state changed before the transition could be recorded." 409
      (some "GRAPH_JOURNAL_CONCURRENT_TRANSITION")

abbrev pub moved_node : NodeState → NodeTransitionInput → NodeRecord → NodeRecord → NodeRecord
moved_node to input current row = record row {
  status = to;
  attempts = or_else input.attempts current.attempts;
  result_status = or_else input.result_status current.result_status;
  result_summary = or_else input.result_summary current.result_summary;
  typed_error = or_else input.typed_error current.typed_error;
  updated_at = input.timestamp;
}

-- CHECK (attempts >= 0 AND attempts <= 3) is tried on each row that the UPDATE writes.
unfoldable pub update_node : NodeState → NodeTransitionInput → NodeRecord → Exec Journal ℕ
update_node to input current j =
    let hit = λ (n : NodeRecord).
      node_is current.graph_id current.node_id n && same_node_state n.status current.status in
    if any hit j.nodes && ltb 3 (or_else input.attempts current.attempts)
    then (err (constraint "operator_mission_graph_nodes"), j)
    else (
      ok (count_by hit j.nodes),
      record j {
        db = record (j.db) { nodes = update_where hit (moved_node to input current) j.nodes };
      },
    )

abbrev pub node_draft : NodeState → NodeTransitionInput → NodeRecord → EventDraft
node_draft to input current = record {
  scope = Scope.node;
  node_id = some current.node_id;
  event_type = template ("node_" ∷ node_state_name to ∷ []);
  previous_state = some (node_state_name current.status);
  new_state = some (node_state_name to);
  actor = input.actor;
  reason = input.reason;
  timestamp = input.timestamp;
  evidence_references = input.evidence_references;
  typed_error = or_else input.typed_error none;
}

-- The operation that transitionNode hands to its savepoint.
unfoldable pub record_node_transition :
    String → String → NodeState → NodeTransitionInput → NodeRecord → Exec Journal NodeRecord
record_node_transition id node_id to input current = do
  changes ← update_node to input current
  ensure (nat_eq changes 1) concurrent_node_transition
  append_event id (node_draft to input current)
  require_node id node_id

unfoldable pub transition_node :
    String → String → NodeState → NodeTransitionInput → Exec Journal NodeRecord
transition_node id node_id to input = do
  current ← require_node id node_id
  ensure (allowed_node_transition current.status to)
      (invalid_node_transition current.status to node_id)
  with_savepoint (record_node_transition id node_id to input current)

-- The draft of an event that leaves the graph's state as it is.
abbrev pub standing_draft : String → Option String → EventInput → GraphRecord → EventDraft
standing_draft event_type node_id input graph = record {
  scope = if truthy node_id then Scope.node else Scope.graph;
  node_id = node_id;
  event_type = event_type;
  previous_state = some (graph_state_name graph.status);
  new_state = some (graph_state_name graph.status);
  actor = input.actor;
  reason = input.reason;
  timestamp = input.timestamp;
  evidence_references = input.evidence_references;
  typed_error = input.typed_error;
}

unfoldable pub append_audit_event :
    String → String → Option String → EventInput → Exec Journal (Unit {0})
append_audit_event id event_type node_id input = do
  graph ← require_graph id
  with_savepoint (append_event id (standing_draft event_type node_id input graph))

abbrev pub replay_is : String → String → ReplayRow → Bool
replay_is id identity r = r.graph_id == id && r.replay_identity == identity

-- The join of the replay row with its event.
abbrev pub find_replayed : String → String → Journal → Option EventRecord
find_replayed id identity j = elim (find (replay_is id identity) j.replays) [
  | none ↦ none
  | some r ↦ find (λ e. e.event_id == r.event_id) j.events
]

-- The keys (graph_id, event_type, replay_identity) and event_id of the replay table.
unfoldable pub insert_replay : ReplayRow → Exec Journal (Unit {0})
insert_replay row j =
    if any (λ r. replay_is row.graph_id row.replay_identity r || r.event_id == row.event_id)
      j.replays
    then (err (constraint "operator_mission_graph_replays"), j)
    else (ok tt, record j { db = record (j.db) { replays = j.replays ++ row ∷ [] } })

unfoldable pub record_replay : String → String → EventInput → GraphRecord → Exec Journal EventRecord
record_replay id identity input graph = do
  event_id ← next_id
  append_event_as event_id id (standing_draft "graph_submission_replayed" none input graph)
  insert_replay (record {
    graph_id = id;
    replay_identity = identity;
    event_id = event_id;
    created_at = input.timestamp;
  })
  created ← gets (λ j. find (λ e. e.event_id == event_id) j.events)
  or_throw (constraint "operator_mission_graph_events") created

-- `if (existing) return mapEvent(existing);` and the rest of the savepoint.
unfoldable pub replay_or_record :
    String → String → EventInput → GraphRecord → Option EventRecord → Exec Journal EventRecord
replay_or_record id identity input graph none = record_replay id identity input graph
replay_or_record id identity input graph (some existing) = pure existing

unfoldable pub append_authoritative_replay_event :
    String → String → EventInput → Exec Journal EventRecord
append_authoritative_replay_event id identity input = do
  graph ← require_graph id
  with_savepoint do
    existing ← gets (find_replayed id identity)
    replay_or_record id identity input graph existing
