-- ===== src/MissionGraph/Records.antt =====
-- The rows of apps/backend/src/missions/missionGraphJournal.ts, as its map functions return them.
-- A column that holds JSON text is modelled by the value that JSON.parse gives back.
use chanter_operator.Prelude.{ℕ, String, Option, List}
use chanter_operator.Json.{Json}
use chanter_operator.MissionGraph.States.{GraphState, NodeState}

pub record TypedError : Type 0 where
  pub code : String
  pub message : String

pub record GraphRecord : Type 0 where
  pub graph_id : String
  pub trace_id : String
  pub idempotency_key : String
  pub schema_version : String
  pub source_system : String
  pub requested_by : String
  pub tenant_user_id : String
  pub workspace_id : Option String
  pub account_id : Option String
  pub objective : String
  pub compiled_graph_json : String
  pub graph_hash : String
  pub node_count : ℕ
  pub status : GraphState
  pub approved_by : Option String
  pub approved_at : Option String
  pub approved_graph_hash : Option String
  pub requested_at : String
  pub created_at : String
  pub updated_at : String

pub record NodeRecord : Type 0 where
  pub graph_id : String
  pub node_id : String
  pub product : String
  pub action : String
  pub objective : String
  pub input : Json
  pub depends_on : List String
  pub child_mission_id : String
  pub child_trace_id : String
  pub child_idempotency_key : String
  pub status : NodeState
  pub attempts : ℕ
  pub result_status : Option String
  pub result_summary : Option Json
  pub typed_error : Option TypedError
  pub created_at : String
  pub updated_at : String

pub record EdgeRow : Type 0 where
  pub graph_id : String
  pub from_node_id : String
  pub to_node_id : String

pub data Scope : Type 0 where
  graph node : Scope

pub record EventRecord : Type 0 where
  pub event_id : String
  pub graph_id : String
  pub sequence : ℕ
  pub scope : Scope
  pub node_id : Option String
  pub event_type : String
  pub previous_state : Option String
  pub new_state : Option String
  pub actor : String
  pub reason : String
  pub timestamp : String
  pub evidence_references : List String
  pub typed_error : Option TypedError

-- A row of operator_mission_graph_replays; its event_type column has one permitted value.
pub record ReplayRow : Type 0 where
  pub graph_id : String
  pub replay_identity : String
  pub event_id : String
  pub created_at : String

pub record NodeInsertInput : Type 0 where
  pub node_id : String
  pub product : String
  pub action : String
  pub objective : String
  pub input : Json
  pub depends_on : List String
  pub child_mission_id : String
  pub child_trace_id : String
  pub child_idempotency_key : String

pub record GraphInsertInput : Type 0 where
  pub graph_id : String
  pub trace_id : String
  pub idempotency_key : String
  pub schema_version : String
  pub source_system : String
  pub requested_by : String
  pub tenant_user_id : String
  pub workspace_id : Option String
  pub account_id : Option String
  pub objective : String
  pub compiled_graph_json : String
  pub graph_hash : String
  pub requested_at : String
  pub timestamp : String
  pub nodes : List NodeInsertInput

-- MissionGraphEventInput; a missing evidenceReferences is the empty list.
pub record EventInput : Type 0 where
  pub actor : String
  pub reason : String
  pub timestamp : String
  pub evidence_references : List String
  pub typed_error : Option TypedError

-- The approval fields of transitionGraph's options.
pub record ApprovalInput : Type 0 where
  pub approved_by : String
  pub approved_at : Option String
  pub approved_graph_hash : Option String

-- MissionGraphNodeTransitionInput: `none` is a field left out, which keeps the row's value.
pub record NodeTransitionInput : Type 0 where
  pub actor : String
  pub reason : String
  pub timestamp : String
  pub evidence_references : List String
  pub attempts : Option ℕ
  pub result_status : Option (Option String)
  pub result_summary : Option (Option Json)
  pub typed_error : Option (Option TypedError)

-- The `event` argument of appendEvent.
pub record EventDraft : Type 0 where
  pub scope : Scope
  pub node_id : Option String
  pub event_type : String
  pub previous_state : Option String
  pub new_state : Option String
  pub actor : String
  pub reason : String
  pub timestamp : String
  pub evidence_references : List String
  pub typed_error : Option TypedError
