-- ===== src/MissionGraph/Contracts.antt =====
-- What apps/backend/src/missions takes from outside: the contracts of chanter-agent-runtime, Node's
-- SHA-256, JSON.parse and JSON.stringify, Date.parse, and the schedule input of the AutoPoster lane.
use chanter_operator.Prelude.{ℕ, String, Bool, Option, List}
use chanter_operator.Json.{Fields}
use chanter_operator.MissionGraph.Records.{TypedError}
use chanter_operator.MissionGraph.Compiled.{CompiledGraph, ChildEnvelope}

-- RuntimeMissionRequest, in the fields that the graph authority reads.
pub record RuntimeRequest : Type 0 where
  pub input : Fields
  pub tenant_account_id : Option String

-- The verdict of validateMissionEnvelope, with its first error.
pub data Validation : Type 0 where
  valid : ChildEnvelope → Validation
  invalid : Option TypedError → Validation

-- A canonical schedule: its account, and its payload as autoPosterSchedulePayloadJson writes it.
pub record Schedule : Type 0 where
  pub account_id : String
  pub payload : Fields

pub data ScheduleVerdict : Type 0 where
  scheduled : Schedule → ScheduleVerdict
  refused : String → String → ℕ → ScheduleVerdict

pub record Contracts : Type 0 where
  pub validate_envelope : ChildEnvelope → Validation
  pub to_runtime_request : ChildEnvelope → RuntimeRequest
  pub validate_manual_loop_input : RuntimeRequest → List TypedError
  pub manual_loop_create : String
  -- validateAutoPosterScheduleInput, with the time that the schedule must follow.
  pub validate_schedule : Fields → String → ScheduleVerdict
  pub canonical_json : CompiledGraph → String
  -- JSON.stringify of a node's input, and of a text.
  pub quote : String → String
  pub sha256 : String → String
  pub parse_compiled : String → Option CompiledGraph
  pub is_timestamp : String → Bool
