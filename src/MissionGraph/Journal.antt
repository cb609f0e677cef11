-- ===== src/MissionGraph/Journal.antt =====
-- MissionGraphJournal of apps/backend/src/missions/missionGraphJournal.ts: guarded
-- compare-and-swap transitions over the graph tables and one append-only journal for each graph.
-- The tables' keys and CHECK clauses are those of apps/backend/src/db/schema.ts.
pub mod Order
pub mod Transitions
pub mod Insert
pub mod Rule
pub mod Sequence
pub mod History
pub mod Calls
pub mod Bounds
pub mod Effects
pub mod NodeEffects
pub mod Progress
pub mod NodeProgress
pub mod Replays
pub mod Tests
use chanter_operator.Prelude.{
  ℕ, suc, ◌+◌, String, Bool, true, false, not, ◌&&◌, ◌||◌, Option, none, some, List, [], ◌∷◌, ◌++◌,
  map, ◌==◌, if◌then◌else◌, template, find, keep, any, count_by, update_where, length, ltb, leb,
  nat_eq, or_else, is_some, ◌≡◌,
}
use chanter_operator.Prelude.Numbering.{highest}
use chanter_operator.Prelude.Exec.{
  Exec, Thrown, other_error, refusal, pure, throw, gets, modify, with_transaction, ◌>>=◌, ◌>>◌,
  done, for_each, or_throw, ensure, ok, err,
}
use chanter_operator.MissionGraph.States.{
  GraphState, NodeState, allowed_graph_transition, allowed_node_transition, graph_state_name,
  node_state_name, same_graph_state, same_node_state,
}
use chanter_operator.MissionGraph.Records.{
  GraphRecord, NodeRecord, EdgeRow, EventRecord, ReplayRow, Scope, NodeInsertInput,
  GraphInsertInput, EventInput, ApprovalInput, NodeTransitionInput, EventDraft,
}

-- The database's graph tables, in insertion order.
pub record Tables : Type 0 where
  pub graphs : List GraphRecord
  pub nodes : List NodeRecord
  pub edges : List EdgeRow
  pub events : List EventRecord
  pub replays : List ReplayRow

-- The journal's fields: its database, and the factory of identifiers with the calls made so far.
pub record Journal : Type 0 where
  pub db : Tables
  pub open db use *
  pub id_factory : ℕ → String
  pub ids_used : ℕ

-- A rollback puts the tables back; an identifier that was drawn stays drawn.
abbrev pub restore : Journal → Journal → Journal
restore before after = record after { db = before.db }

-- withSavepoint
unfoldable pub with_savepoint : {A : Type 0} → Exec Journal A → Exec Journal A
with_savepoint m = with_transaction restore m

abbrev pub graph_is : String → GraphRecord → Bool
graph_is id g = g.graph_id == id

abbrev pub node_is : String → String → NodeRecord → Bool
node_is id node_id n = n.graph_id == id && n.node_id == node_id

abbrev pub event_of : String → EventRecord → Bool
event_of id e = e.graph_id == id

unfoldable pub get_graph : String → Exec Journal (Option GraphRecord)
get_graph id = gets λ j. find (graph_is id) j.graphs

abbrev pub graph_not_found : Thrown
graph_not_found = refusal "Mission graph was not found." 404 none

abbrev pub node_not_found : Thrown
node_not_found = refusal "Mission graph node was not found." 404 none

unfoldable pub require_graph : String → Exec Journal GraphRecord
require_graph id = get_graph id >>= or_throw graph_not_found

unfoldable pub require_node : String → String → Exec Journal NodeRecord
require_node id node_id = gets (λ j. find (node_is id node_id) j.nodes) >>= or_throw node_not_found

-- SQLite's refusal of a row that breaks a key or a CHECK clause.
abbrev pub constraint : String → Thrown
constraint table = other_error (template ("constraint failed: " ∷ table ∷ []))

-- COALESCE(MAX(sequence), 0) … WHERE graph_id = ?
abbrev pub max_sequence : String → List EventRecord → ℕ
max_sequence id es = highest (λ (e : EventRecord). e.sequence) (keep (event_of id) es)

unfoldable pub next_id : Exec Journal String
next_id j = (ok (j.id_factory j.ids_used), record j { ids_used = suc j.ids_used })

abbrev pub event_row : String → String → ℕ → EventDraft → EventRecord
event_row event_id id sequence draft = record {
  event_id = event_id;
  graph_id = id;
  sequence = sequence;
  scope = draft.scope;
  node_id = draft.node_id;
  event_type = draft.event_type;
  previous_state = draft.previous_state;
  new_state = draft.new_state;
  actor = draft.actor;
  reason = draft.reason;
  timestamp = draft.timestamp;
  evidence_references = draft.evidence_references;
  typed_error = draft.typed_error;
}

-- The keys event_id and (graph_id, sequence), and the foreign key to the graph.
unfoldable pub event_fits : EventRecord → Journal → Bool
event_fits row j =
    not (any (λ e. e.event_id == row.event_id) j.events)
    && not (any (λ e. event_of row.graph_id e && nat_eq e.sequence row.sequence) j.events)
    && any (graph_is row.graph_id) j.graphs

-- appendEvent with the identifier given.
unfoldable pub append_event_as : String → String → EventDraft → Exec Journal (Unit {0})
append_event_as event_id id draft j =
    let row = event_row event_id id (max_sequence id j.events + 1) draft in
    if event_fits row j
    then (ok tt, record j { db = record (j.db) { events = j.events ++ row ∷ [] } })
    else (err (constraint "operator_mission_graph_events"), j)

unfoldable pub append_event : String → EventDraft → Exec Journal (Unit {0})
append_event id draft = next_id >>= λ event_id. append_event_as event_id id draft
