-- ===== src/MissionGraph/Compiler.antt =====
-- The fields of a graph envelope and of its nodes: the first half of
-- apps/backend/src/missions/missionGraphCompiler.ts. What the source pushes onto its list of errors
-- is returned beside the result.
pub mod Nodes
pub mod Cycle
pub mod Compile
pub mod Closed
pub mod Traced
pub mod Sealed
pub mod Ordered
pub mod Tests
use chanter_operator.Prelude.{
  ℕ, String, Bool, true, false, not, ◌&&◌, ◌||◌, Option, none, some, List, [], ◌∷◌, ◌++◌, ◌==◌,
  if◌then◌else◌, any, leb, ltb, nat_eq, length_of, every_code, trim, template, join,
}
use Prim.Native.String
use Prim.Native.Char.{code}
use chanter_operator.Json.{Json, Fields, object, keys, get_field, string_of}
use chanter_operator.MissionGraph.Contracts.{Contracts}

-- MissionGraphCompileError
pub record CompileError : Type 0 where
  pub code : String
  pub message : String
  pub status : ℕ

-- error(code, message) with the status 400.
abbrev pub error : String → String → CompileError
error code message = record { code = code; message = message; status = 400 }

abbrev pub schema_version : String
schema_version = "chanter.mission.graph.v1"

-- MISSION_GRAPH_MAX_NODES
abbrev pub max_nodes : ℕ
max_nodes = 8

abbrev pub max_objective_length : ℕ
max_objective_length = 2000

abbrev between : ℕ → ℕ → ℕ → Bool
between low high c = leb low c && leb c high

abbrev is_alphanumeric : ℕ → Bool
is_alphanumeric c = between b'A' b'Z' c || between b'a' b'z' c || between b'0' b'9' c

abbrev pub is_identifier_code : ℕ → Bool
is_identifier_code c = is_alphanumeric c || nat_eq c b'.' || nat_eq c b'_' || nat_eq c b'-'

abbrev starts_alphanumeric : String → Bool
starts_alphanumeric String.[] = false
starts_alphanumeric (String.◌∷◌ c s) = is_alphanumeric (code c)

-- /^[A-Za-z0-9][A-Za-z0-9._-]{0,max}$/, with `max` one less than the longest text allowed.
unfoldable pub is_identifier : ℕ → String → Bool
is_identifier longest s =
    starts_alphanumeric s && every_code is_identifier_code s && leb (length_of s) longest

-- GRAPH_ID_PATTERN and NODE_ID_PATTERN
abbrev pub is_graph_id : String → Bool
is_graph_id s = is_identifier 120 s

abbrev pub is_node_id : String → Bool
is_node_id s = is_identifier 64 s

abbrev pub node_id_pattern : String
node_id_pattern = "/^[A-Za-z0-9][A-Za-z0-9._-]{0,63}$/"

abbrev pub graph_id_pattern : String
graph_id_pattern = "/^[A-Za-z0-9][A-Za-z0-9._-]{0,119}$/"

-- !CONTROL_CHAR_PATTERN.test(value)
abbrev pub is_printable : ℕ → Bool
is_printable c = not (leb c 0x1f) && not (nat_eq c 0x7f)

-- jsonObject
abbrev pub json_object : Option Json → Option Fields
json_object (some (object fields)) = some fields
json_object _ = none

abbrev is_exact : ℕ → Option String → Bool
is_exact longest none = false
is_exact longest (some s) =
    not (s == "") && s == trim s && leb (length_of s) longest && every_code is_printable s

-- exactString
unfoldable pub exact_string : Option Json → ℕ → Bool
exact_string value longest = is_exact longest (string_of value)

-- The test of an objective, of the graph or of a node.
unfoldable pub is_objective : Option Json → Bool
unfolding exact_string
is_objective value = exact_string value max_objective_length

-- What a `test ? [] : push` leaves.
abbrev pub unless : Bool → CompileError → List CompileError
unless holds e = if holds then [] else e ∷ []

abbrev is_one_of : String → List String → Bool
is_one_of s allowed = any (λ a. a == s) allowed

abbrev unknown_field : Contracts → String → String → CompileError
unknown_field c scope key = error "GRAPH_FIELD_UNSUPPORTED" (
    template (
      scope
      ∷ " contains a field that is not part of "
      ∷ schema_version
      ∷ ": "
      ∷ c.quote key
      ∷ "."
      ∷ []))

module _ (c : Contracts) where
  abbrev reject_unknown_keys : List String → List String → String → List CompileError
  reject_unknown_keys [] allowed scope = []
  reject_unknown_keys (key ∷ rest) allowed scope =
      unless (is_one_of key allowed) (unknown_field c scope key)
      ++ reject_unknown_keys rest allowed scope

  -- rejectUnknownFields
  unfoldable pub reject_unknown_fields : Fields → List String → String → List CompileError
  reject_unknown_fields record_fields allowed scope =
      reject_unknown_keys (keys record_fields) allowed scope

  abbrev pub valid_source_systems : List String
  valid_source_systems =
      "operator" ∷ "platform" ∷ "mcp" ∷ "mission_compiler" ∷ "loop_governor" ∷ "human" ∷ []

  abbrev is_source_system : Option String → Bool
  is_source_system none = false
  is_source_system (some s) = is_one_of s valid_source_systems

  abbrev source_errors : Option Fields → List CompileError
  source_errors none = error "GRAPH_SOURCE_INVALID" "source is required and must be an object." ∷ []
  source_errors (some source) =
      reject_unknown_fields source ("system" ∷ "requestedBy" ∷ []) "source"
      ++ unless (is_source_system (string_of (get_field "system" source))) (
          error "GRAPH_SOURCE_SYSTEM_INVALID" (
            template
              ("source.system must be one of: " ∷ join ", " valid_source_systems ∷ "." ∷ [])))
      ++ unless (exact_string (get_field "requestedBy" source) 120) (
          error "GRAPH_SOURCE_REQUESTED_BY_INVALID"
            "source.requestedBy must be a trimmed nonblank string of at most 120 characters.")

  -- A field that may be left out.
  abbrev exact_if_given : Option Json → ℕ → Bool
  exact_if_given none longest = true
  exact_if_given (some v) longest = exact_string (some v) longest

  abbrev tenant_errors : Option Fields → List CompileError
  tenant_errors none = error "GRAPH_TENANT_INVALID" "tenant is required and must be an object." ∷ []
  tenant_errors (some tenant) =
      reject_unknown_fields tenant ("userId" ∷ "workspaceId" ∷ "accountId" ∷ []) "tenant"
      ++ unless (exact_string (get_field "userId" tenant) 160) (
          error "GRAPH_TENANT_USER_ID_INVALID"
            "tenant.userId must be a trimmed nonblank string of at most 160 characters.")
      ++ unless (exact_if_given (get_field "workspaceId" tenant) 160) (
          error "GRAPH_TENANT_WORKSPACE_ID_INVALID"
            "tenant.workspaceId must be a trimmed nonblank string when provided.")
      ++ unless (exact_if_given (get_field "accountId" tenant) 160) (
          error "GRAPH_TENANT_ACCOUNT_ID_INVALID"
            "tenant.accountId must be a trimmed nonblank string when provided.")

  abbrev text_satisfies : (String → Bool) → Option String → Bool
  text_satisfies test none = false
  text_satisfies test (some s) = test s

  -- The tests of compileMissionGraph on all fields but the nodes, in its order.
  unfoldable pub envelope_errors : Fields → List CompileError
  envelope_errors e =
      reject_unknown_fields e
        ("schemaVersion" ∷ "graphId" ∷ "traceId" ∷ "idempotencyKey" ∷ "source" ∷ "objective"
          ∷ "tenant" ∷ "nodes" ∷ "requestedAt" ∷ [])
        "envelope"
      ++ unless
          (text_satisfies (λ s. s == schema_version) (string_of (get_field "schemaVersion" e)))
          (error "GRAPH_SCHEMA_VERSION_UNSUPPORTED"
            (template ("schemaVersion must be \"" ∷ schema_version ∷ "\"." ∷ [])))
      ++ unless (text_satisfies is_graph_id (string_of (get_field "graphId" e))) (
          error "GRAPH_ID_INVALID" (
            template
              ("graphId must match " ∷ graph_id_pattern ∷ " (bounded safe identifier)." ∷ [])))
      ++ unless (exact_string (get_field "traceId" e) 120) (
          error "GRAPH_TRACE_ID_INVALID"
            "traceId must be a trimmed nonblank string of at most 120 characters.")
      ++ unless (exact_if_given (get_field "idempotencyKey" e) 160) (
          error "GRAPH_IDEMPOTENCY_KEY_INVALID"
            "idempotencyKey must be a trimmed nonblank string of at most 160 characters when provided.")
      ++ source_errors (json_object (get_field "source" e))
      ++ unless (is_objective (get_field "objective" e)) (
          error "GRAPH_OBJECTIVE_INVALID"
            "objective must be a trimmed nonblank string of at most 2000 characters.")
      ++ tenant_errors (json_object (get_field "tenant" e))
      ++ unless (text_satisfies c.is_timestamp (string_of (get_field "requestedAt" e)))
          (error "GRAPH_REQUESTED_AT_INVALID" "requestedAt must be a valid ISO-8601 timestamp.")
