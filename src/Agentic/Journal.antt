-- ===== src/Agentic/Journal.antt =====
-- AgenticPlanJournal of apps/backend/src/agentic/agenticPlanJournal.ts: its tables with the keys and
-- CHECK clauses of apps/backend/src/db/schema.ts, its reads, and appendEvent.
pub mod Missions
pub mod Nodes
pub mod Insert
pub mod Rule
pub mod Calls
pub mod Writes
pub mod Sequence
pub mod History
pub mod Artifacts
pub mod Tests
use chanter_operator.Prelude.{
  ℕ, suc, ◌+◌, String, Bool, not, ◌&&◌, ◌||◌, Option, none, some, List, [], ◌∷◌, ◌++◌, ◌==◌,
  if◌then◌else◌, template, find, keep, any, count_by, nat_eq, leb, or_else,
}
use chanter_operator.Prelude.Exec.{
  Exec, Thrown, other_error, refusal, gets, with_transaction, ◌>>=◌, or_throw, ok, err,
}
use chanter_operator.Prelude.Numbering.{max_sequence}
use chanter_operator.Prelude.Order.{sort_by, text_le, text_lt, take}
use chanter_operator.Agentic.Records.{
  MissionRecord, NodeRecord, PlanEdge, EventRecord, EvidenceRecord, ArtifactWriteRecord,
}
use chanter_operator.Agentic.Inputs.{EventDraft}

-- The tables of missions and plans, in insertion order.
pub record Tables : Type 0 where
  pub missions : List MissionRecord
  pub nodes : List NodeRecord
  pub edges : List PlanEdge
  pub events : List EventRecord
  pub evidence : List EvidenceRecord
  pub artifacts : List ArtifactWriteRecord

-- The journal's fields: its database, and the factory of identifiers with the calls made so far.
pub record Journal : Type 0 where
  pub db : Tables
  pub open db use *
  pub id_factory : ℕ → String
  pub ids_used : ℕ

-- A rollback puts the tables back; an identifier that was drawn stays drawn.
abbrev pub restore : Journal → Journal → Journal
restore before after = record after { db = before.db }

-- withSavepoint
unfoldable pub with_savepoint : {A : Type 0} → Exec Journal A → Exec Journal A
with_savepoint m = with_transaction restore m

abbrev pub mission_is : String → MissionRecord → Bool
mission_is id m = m.mission_id == id

abbrev pub node_is : String → String → NodeRecord → Bool
node_is plan_id node_id n = n.plan_id == plan_id && n.node_id == node_id

abbrev pub mission_not_found : Thrown
mission_not_found = refusal "Agentic mission was not found." 404 (some "AGENTIC_MISSION_NOT_FOUND")

abbrev pub node_not_found : Thrown
node_not_found = refusal "Agentic plan node was not found." 404 (some "AGENTIC_NODE_NOT_FOUND")

unfoldable pub get_mission : String → Exec Journal (Option MissionRecord)
get_mission id = gets λ j. find (mission_is id) j.missions

unfoldable pub require_mission : String → Exec Journal MissionRecord
require_mission id = get_mission id >>= or_throw mission_not_found

-- ORDER BY created_at DESC, mission_id DESC
abbrev pub newest_first : MissionRecord → MissionRecord → Bool
newest_first a b =
    text_lt b.created_at a.created_at
    || (a.created_at == b.created_at && text_le b.mission_id a.mission_id)

unfoldable pub list_missions : ℕ → Exec Journal (List MissionRecord)
list_missions limit = gets λ j. take limit (sort_by newest_first j.missions)

unfoldable pub list_nodes : String → Exec Journal (List NodeRecord)
list_nodes plan_id =
    gets
      λ j. sort_by (λ a b. text_le a.node_id b.node_id) (keep (λ n. n.plan_id == plan_id) j.nodes)

unfoldable pub get_node : String → String → Exec Journal (Option NodeRecord)
get_node plan_id node_id = gets λ j. find (node_is plan_id node_id) j.nodes

unfoldable pub require_node : String → String → Exec Journal NodeRecord
require_node plan_id node_id = get_node plan_id node_id >>= or_throw node_not_found

unfoldable pub list_events : String → Exec Journal (List EventRecord)
list_events id =
    gets λ j. sort_by (λ a b. leb a.sequence b.sequence) (keep (λ e. e.mission_id == id) j.events)

-- ORDER BY node_id ASC, evidence_id ASC
abbrev pub evidence_le : EvidenceRecord → EvidenceRecord → Bool
evidence_le a b =
    text_lt a.node_id b.node_id || (a.node_id == b.node_id && text_le a.evidence_id b.evidence_id)

unfoldable pub list_evidence : String → Exec Journal (List EvidenceRecord)
list_evidence id = gets λ j. sort_by evidence_le (keep (λ e. e.mission_id == id) j.evidence)

abbrev pub artifact_is : String → String → ArtifactWriteRecord → Bool
artifact_is id name a = a.mission_id == id && a.artifact_name == name

unfoldable pub get_artifact_write : String → String → Exec Journal (Option ArtifactWriteRecord)
get_artifact_write id name = gets λ j. find (artifact_is id name) j.artifacts

unfoldable pub count_artifact_writes : String → Exec Journal ℕ
count_artifact_writes id = gets λ j. count_by (λ a. a.mission_id == id) j.artifacts

-- SQLite's refusal of a row that breaks a key or a CHECK clause.
abbrev pub constraint : String → Thrown
constraint table = other_error (template ("constraint failed: " ∷ table ∷ []))

unfoldable pub next_id : Exec Journal String
next_id j = (ok (j.id_factory j.ids_used), record j { ids_used = suc j.ids_used })

abbrev pub next_sequence : String → List EventRecord → ℕ
next_sequence id es = max_sequence (λ e. e.mission_id) (λ e. e.sequence) id es + 1

abbrev pub event_row : String → ℕ → EventDraft → EventRecord
event_row event_id sequence draft = record {
  event_id = event_id;
  mission_id = draft.mission_id;
  plan_id = draft.plan_id;
  sequence = sequence;
  scope = draft.scope;
  node_id = draft.node_id;
  event_type = draft.event_type;
  previous_state = draft.previous_state;
  new_state = draft.new_state;
  actor = draft.actor;
  reason = draft.reason;
  timestamp = draft.timestamp;
  evidence_references = or_else draft.evidence_references [];
  typed_error = draft.typed_error;
}

-- The keys event_id and (mission_id, sequence), and the reference to the mission.
unfoldable pub event_fits : EventRecord → Journal → Bool
event_fits row j =
    not (any (λ e. e.event_id == row.event_id) j.events)
    && not (any (λ e. e.mission_id == row.mission_id && nat_eq e.sequence row.sequence) j.events)
    && any (mission_is row.mission_id) j.missions

-- appendEvent with the identifier given.
unfoldable pub append_event_as : String → EventDraft → Exec Journal (Unit {0})
append_event_as event_id draft j =
    let row = event_row event_id (next_sequence draft.mission_id j.events) draft in
    if event_fits row j
    then (ok tt, record j { db = record (j.db) { events = j.events ++ row ∷ [] } })
    else (err (constraint "operator_agentic_plan_events"), j)

unfoldable pub append_event : EventDraft → Exec Journal (Unit {0})
append_event draft = next_id >>= λ event_id. append_event_as event_id draft
