-- ===== src/Missions/Records.antt =====
-- The rows and arguments of apps/backend/src/missions/genericMissionJournal.ts. Columns of JSON text
-- hold the value that JSON.parse gives back, a column that may be null an Option or the JSON null.
use chanter_operator.Prelude.{ℕ, String, Bool, Option, List}
use chanter_operator.Json.{Json}
use chanter_operator.Missions.States.{MissionState, ReconciliationOutcome}

pub record TypedError : Type 0 where
  pub code : String
  pub message : String

pub record DownstreamIds : Type 0 where
  pub loop_id : String
  pub task_id : String
  pub created : Bool

pub record ExecutionRecord : Type 0 where
  pub mission_id : String
  pub execution_attempt_id : String
  pub mission_payload_hash : String
  pub downstream_operation_type : String
  pub current_state : MissionState
  pub last_confirmed_boundary : MissionState
  pub recovery_reason : String
  pub recovery_classification : String
  pub reconciliation_outcome : ReconciliationOutcome
  pub downstream_ids : Option DownstreamIds
  pub final_result_status : Option String
  pub retry_count : ℕ
  pub typed_error : Option TypedError
  pub reconciliation_result : Json
  pub runtime_observation : Json
  pub created_at : String
  pub updated_at : String

pub record JournalTransition : Type 0 where
  pub transition_id : String
  pub mission_id : String
  pub sequence : ℕ
  pub execution_attempt_id : String
  pub idempotency_key : String
  pub product : String
  pub action : String
  pub previous_state : Option MissionState
  pub new_state : MissionState
  pub timestamp : String
  pub actor : String
  pub reason : String
  pub evidence_references : List String
  pub typed_error : Option TypedError

-- The columns of operator_missions that the journal reads.
pub record MissionScope : Type 0 where
  pub mission_id : String
  pub idempotency_key : String
  pub product : String
  pub action : String

pub record InitializeInput : Type 0 where
  pub mission_id : String
  pub execution_attempt_id : String
  pub mission_payload_hash : String
  pub downstream_operation_type : String
  pub timestamp : String
  pub actor : String

-- A field that may be left out is `none` where it is.
pub record TransitionOptions : Type 0 where
  pub actor : String
  pub reason : String
  pub timestamp : String
  pub execution_attempt_id : Option String
  pub last_confirmed_boundary : Option MissionState
  pub recovery_reason : Option String
  pub recovery_classification : Option String
  pub reconciliation_outcome : Option ReconciliationOutcome
  pub downstream_ids : Option (Option DownstreamIds)
  pub final_result_status : Option (Option String)
  pub retry_count : Option ℕ
  pub typed_error : Option (Option TypedError)
  pub reconciliation_result : Option Json
  pub runtime_observation : Option Json
  pub evidence_references : Option (List String)
