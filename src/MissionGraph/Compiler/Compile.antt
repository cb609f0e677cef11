-- ===== src/MissionGraph/Compiler/Compile.antt =====
-- compileMissionGraph of apps/backend/src/missions/missionGraphCompiler.ts.
use chanter_operator.Prelude.{
  ℕ, String, ◌&&◌, Option, none, some, List, [], ◌∷◌, ◌++◌, if◌then◌else◌, map, length, ltb, nat_eq,
  or_else, template, join, decimal,
}
use chanter_operator.Prelude.Exec.{other_error, Result, ok, err}
use chanter_operator.Json.{Json, Fields, text, array, get_field, string_of, items}
use chanter_operator.MissionGraph.Compiled.{
  CompiledGraph, CompiledNode, ChildEnvelope, child_envelope,
}
use chanter_operator.MissionGraph.Contracts.{Contracts, Validation, valid, invalid}
use chanter_operator.MissionGraph.Registry.{
  RegisteredAction, InputVerdict, accepted, rejected, resolve_registered_mission_action,
}
use chanter_operator.MissionGraph.Journal.Order.{sort_by, text_le, text_lt}
use chanter_operator.MissionGraph.Compiler.{
  CompileError, error, json_object, envelope_errors, max_nodes, schema_version,
}
use chanter_operator.MissionGraph.Compiler.Nodes.{ParsedNode, parse_nodes, shape_errors}
use chanter_operator.MissionGraph.Compiler.Cycle.{detect_cycle, is_empty}

-- MissionGraphCompileResult
pub data CompileResult : Type 0 where
  compiled : CompiledGraph → String → String → CompileResult
  failed : List CompileError → CompileResult

-- `value as string`, where the tests above have passed.
abbrev as_string : Option Json → String
as_string value = or_else (string_of value) ""

abbrev fields_of : Option Json → Fields
fields_of value = or_else (json_object value) Fields.end

abbrev pub compiled_node : ParsedNode → CompiledNode
compiled_node node = record {
  node_id = node.node_id;
  target = record { product = node.product; action = node.action };
  objective = node.objective;
  input = node.input;
  depends_on = sort_by text_le node.depends_on;
}

-- The document, with the nodes in the order of their identifiers.
unfoldable pub assemble : Fields → List ParsedNode → CompiledGraph
assemble e nodes =
    let source = fields_of (get_field "source" e) in
    let tenant = fields_of (get_field "tenant" e) in
    record {
      schema_version = schema_version;
      graph_id = as_string (get_field "graphId" e);
      trace_id = as_string (get_field "traceId" e);
      idempotency_key =
          or_else (string_of (get_field "idempotencyKey" e))
            (template ("operator-mission-graph:" ∷ as_string (get_field "graphId" e) ∷ []));
      source = record {
        system = as_string (get_field "system" source);
        requested_by = as_string (get_field "requestedBy" source);
      };
      objective = as_string (get_field "objective" e);
      tenant = record {
        user_id = as_string (get_field "userId" tenant);
        workspace_id = string_of (get_field "workspaceId" tenant);
        account_id = string_of (get_field "accountId" tenant);
      };
      requested_at = as_string (get_field "requestedAt" e);
      node_count = length nodes;
      nodes =
          map compiled_node
            (sort_by (λ (a : ParsedNode) (b : ParsedNode). text_lt a.node_id b.node_id) nodes);
    }

abbrev cycle_error : List String → CompileError
cycle_error ids =
    error "GRAPH_DEPENDENCY_CYCLE"
      (template ("the dependency graph contains a cycle involving: " ∷ join ", " ids ∷ "." ∷ []))

abbrev pub cycle_errors : Option (List String) → List CompileError
cycle_errors none = []
cycle_errors (some ids) = cycle_error ids ∷ []

abbrev pub no_nodes_error : CompileError
no_nodes_error = error "GRAPH_NODES_INVALID" "nodes must be a nonempty array of graph nodes."

abbrev pub node_limit_error : List Json → CompileError
node_limit_error values = error "GRAPH_NODE_LIMIT_EXCEEDED" (
    template ("nodes must contain at most 8 nodes; received " ∷ decimal (length values) ∷ "." ∷ []))

module _ (c : Contracts) where
  abbrev node_error : CompiledNode → String → String → ℕ → CompileError
  node_error node code message status = record {
    code = code;
    message = template ("node " ∷ c.quote node.node_id ∷ ": " ∷ message ∷ []);
    status = status;
  }

  abbrev pub checked_input : CompiledNode → InputVerdict → Option CompileError × CompiledNode
  checked_input node (accepted input) = (none, record node { input = input })
  checked_input node (rejected code message status) =
      (some (node_error node code message (or_else status 400)), node)

  abbrev pub check_action :
      CompiledGraph
      → CompiledNode
      → ChildEnvelope
      → Option RegisteredAction
      → Option CompileError × CompiledNode
  check_action graph node envelope none = (
    some (record {
      code = "GRAPH_NODE_TARGET_UNREGISTERED";
      message = template (
          "node "
          ∷ c.quote node.node_id
          ∷ " is not registered with the Operator graph authority."
          ∷ []);
      status = 409;
    }),
    node,
  )
  check_action graph node envelope (some entry) = checked_input node (
      entry.validate_graph_input (c.to_runtime_request envelope) (record {
        requested_at = graph.requested_at;
        workspace_id = graph.tenant.workspace_id;
        account_id = graph.tenant.account_id;
      }))

  abbrev pub only_eligible : Option RegisteredAction → Option RegisteredAction
  only_eligible none = none
  only_eligible (some entry) = if entry.graph_eligible then some entry else none

  -- One round of the validation of the nodes: its error, or the node with its canonical input.
  -- Reading the first error of an empty list throws.
  abbrev pub check_envelope :
      CompiledGraph → CompiledNode → Validation → Result (Option CompileError × CompiledNode)
  check_envelope graph node (invalid none) = err (other_error "TypeError")
  check_envelope graph node (invalid (some first)) =
      ok (some (node_error node first.code first.message 400), node)
  check_envelope graph node (valid envelope) = ok (
      check_action graph node envelope (
        only_eligible (
          resolve_registered_mission_action c (some (text node.target.product))
            (some (text node.target.action)))))

  abbrev pub check_rest :
      Result (Option CompileError × CompiledNode)
      → Result (Option CompileError × List CompiledNode)
      → Result (Option CompileError × List CompiledNode)
  check_rest (err e) rest = err e
  check_rest (ok (some e, node)) rest = ok (some e, [])
  check_rest (ok (none, node)) (err e) = err e
  check_rest (ok (none, node)) (ok (some e, nodes)) = ok (some e, [])
  check_rest (ok (none, node)) (ok (none, nodes)) = ok (none, node ∷ nodes)

  -- The loop over the compiled nodes.
  unfoldable pub check_nodes :
      CompiledGraph → List CompiledNode → Result (Option CompileError × List CompiledNode)
  check_nodes graph [] = ok (none, [])
  check_nodes graph (node ∷ rest) =
      check_rest (check_envelope graph node (c.validate_envelope (child_envelope graph node)))
        (check_nodes graph rest)

  abbrev pub finish : CompiledGraph → CompileResult
  finish graph = compiled graph (c.canonical_json graph) (c.sha256 (c.canonical_json graph))

  abbrev pub finish_checked :
      CompiledGraph → Result (Option CompileError × List CompiledNode) → Result CompileResult
  finish_checked graph (err e) = err e
  finish_checked graph (ok (some e, nodes)) = ok (failed (e ∷ []))
  finish_checked graph (ok (none, nodes)) = ok (finish (record graph { nodes = nodes }))

  abbrev pub all_errors : List CompileError → List Json → List CompileError
  all_errors before values =
      let parsed = parse_nodes c values 0 [] in
      let found = before ++ parsed.0 ++ shape_errors c (map (λ n. n.node_id) parsed.1) parsed.1 in
      if is_empty found && nat_eq (length parsed.1) (length values)
      then cycle_errors (detect_cycle parsed.1)
      else found

  abbrev pub finish_nodes : Fields → List CompileError → List Json → Result CompileResult
  finish_nodes e [] values =
      let graph = assemble e (parse_nodes c values 0 []).1 in
      finish_checked graph (check_nodes graph graph.nodes)
  finish_nodes e (first ∷ rest) values = ok (failed (first ∷ rest))

  abbrev pub compile_nodes : Fields → List CompileError → List Json → Result CompileResult
  compile_nodes e before values =
      if is_empty values
      then ok (failed (before ++ no_nodes_error ∷ []))
      else (if ltb max_nodes (length values)
          then ok (failed (before ++ node_limit_error values ∷ []))
          else finish_nodes e (all_errors before values) values)

  abbrev pub node_values : Option Json → List Json
  node_values (some (array entries)) = items entries
  node_values _ = []

  abbrev pub compile_fields : Option Fields → Result CompileResult
  compile_fields none =
      ok (failed (error "GRAPH_ENVELOPE_INVALID" "Graph envelope must be a JSON object." ∷ []))
  compile_fields (some e) =
      compile_nodes e (envelope_errors c e) (node_values (get_field "nodes" e))

  unfoldable pub compile_mission_graph : Json → Result CompileResult
  compile_mission_graph envelope = compile_fields (json_object (some envelope))
