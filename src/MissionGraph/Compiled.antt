-- ===== src/MissionGraph/Compiled.antt =====
-- The compiled graph, the identities of its child missions and the envelope of each child:
-- apps/backend/src/missions/missionGraphCompiler.ts.
use chanter_operator.Prelude.{
  ℕ, String, Option, none, some, List, [], ◌∷◌, ◌==◌, if◌then◌else◌, template, truthy,
}
use chanter_operator.Json.{Fields, get_field, string_of, text, end, field}

pub record Target : Type 0 where
  pub product : String
  pub action : String

pub record CompiledNode : Type 0 where
  pub node_id : String
  pub target : Target
  pub objective : String
  pub input : Fields
  pub depends_on : List String

pub record Source : Type 0 where
  pub system : String
  pub requested_by : String

pub record Tenant : Type 0 where
  pub user_id : String
  pub workspace_id : Option String
  pub account_id : Option String

pub record CompiledGraph : Type 0 where
  pub schema_version : String
  pub graph_id : String
  pub trace_id : String
  pub idempotency_key : String
  pub source : Source
  pub objective : String
  pub tenant : Tenant
  pub requested_at : String
  pub node_count : ℕ
  pub nodes : List CompiledNode

unfoldable pub child_mission_id : String → String → String
child_mission_id graph_id node_id = template ("graph:" ∷ graph_id ∷ ":node:" ∷ node_id ∷ [])

unfoldable pub child_trace_id : String → String → String
child_trace_id graph_trace_id node_id =
    template ("graph:" ∷ graph_trace_id ∷ ":node:" ∷ node_id ∷ [])

unfoldable pub child_idempotency_key : String → String → String
child_idempotency_key graph_id node_id = template ("graph:" ∷ graph_id ∷ ":node:" ∷ node_id ∷ [])

-- The chanter.mission.v1 envelope, as far as the graph compiler fills it in; its constraints and
-- acceptance criteria are always empty there.
pub record ChildEnvelope : Type 0 where
  pub schema_version : String
  pub mission_id : String
  pub trace_id : String
  pub idempotency_key : String
  pub source : Source
  pub objective : String
  pub target : Target
  pub tenant : Tenant
  pub input : Fields
  pub requested_at : String
  pub metadata : Fields

-- `...(id ? { key: id } : {})`: a missing or empty text leaves the key out.
abbrev pub given : Option String → Option String
given o = if truthy o then o else none

unfoldable pub child_account_id : CompiledGraph → CompiledNode → Option String
child_account_id graph node =
    let own = string_of (get_field "accountId" node.input) in
    if node.target.product == "auto_poster"
    then elim own [ none ↦ graph.tenant.account_id | some id ↦ some id ]
    else graph.tenant.account_id

unfoldable pub child_envelope : CompiledGraph → CompiledNode → ChildEnvelope
unfolding child_account_id child_mission_id child_trace_id child_idempotency_key get_field
child_envelope graph node = record {
  schema_version = "chanter.mission.v1";
  mission_id = child_mission_id graph.graph_id node.node_id;
  trace_id = child_trace_id graph.trace_id node.node_id;
  idempotency_key = child_idempotency_key graph.graph_id node.node_id;
  source = record { system = "operator"; requested_by = graph.source.requested_by };
  objective = node.objective;
  target = node.target;
  tenant = record {
    user_id = graph.tenant.user_id;
    workspace_id = given graph.tenant.workspace_id;
    account_id = given (child_account_id graph node);
  };
  input = node.input;
  requested_at = graph.requested_at;
  metadata =
      field "graphId" (text graph.graph_id)
        (field "nodeId" (text node.node_id) (field "graphTraceId" (text graph.trace_id) end));
}
