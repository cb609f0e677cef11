-- ===== src/MissionGraph/Compiler/Tests.antt =====
-- A graph envelope of two nodes for apps/backend/src/missions/missionGraphCompiler.ts.
use chanter_operator.Prelude.{
  ◌≡◌, ◌≤◌, ◌↔◌, refl, sym, some, String, true, none, List, [], ◌∷◌, ◌==◌, decimal, trim, length_of,
  every_code, arith, count_by, eq_iff, Bool-cases, inl, inr,
}
use chanter_operator.Prelude.Exec.{ok}
use chanter_operator.Json.{Json, text, array, object, field, end, nil, cons, get_field}
use chanter_operator.MissionGraph.Compiled.{
  CompiledGraph, CompiledNode, child_envelope, child_account_id, child_mission_id, child_trace_id,
  child_idempotency_key,
}
use chanter_operator.MissionGraph.Journal.Tests.{sample_hash}
use chanter_operator.MissionGraph.Contracts.{Contracts, valid, refused}
use chanter_operator.MissionGraph.Registry.{resolve_registered_mission_action}
use chanter_operator.MissionGraph.Compiler.{
  envelope_errors, exact_string, is_identifier, is_objective, reject_unknown_fields,
}
use chanter_operator.MissionGraph.Compiler.Nodes.{ParsedNode, parse_node, parse_nodes, shape_errors}
use chanter_operator.MissionGraph.Compiler.Cycle.{
  detect_cycle, consume, release, dependents_of, initial_queue, initial_remaining,
}
use chanter_operator.MissionGraph.Compiler.Cycle.Counts.{IsDistinct}
use chanter_operator.MissionGraph.Compiler.Cycle.Acyclic.{IsAcyclic}
use chanter_operator.MissionGraph.Compiler.Cycle.Decides.{detect_cycle-IsAcyclic, consume-enough}
use chanter_operator.MissionGraph.Compiler.Closed.{links}
use chanter_operator.MissionGraph.Compiler.Ordered.{IsRanked, compile_mission_graph-IsRanked}
use chanter_operator.MissionGraph.Compiler.Compile.{
  compiled, compile_mission_graph, assemble, check_nodes,
}
use chanter_operator.MissionGraph.Compiler.Sealed.{IsSealed, compile_mission_graph-IsSealed}

abbrev node_json : String → Json → Json
node_json id depends_on = object (
    field "nodeId" (text id) (
      field "target"
        (object (field "product" (text "loop_governor") (field "action" (text "manual_loop") end)))
        (field "objective" (text "Check the loop.")
          (field "input" (object end) (field "dependsOn" depends_on end)))))

-- The node `b` after the node `a`, given in the other order.
abbrev pub sample_envelope : Json
sample_envelope = object (
    field "schemaVersion" (text "chanter.mission.graph.v1") (
      field "graphId" (text "g") (
        field "traceId" (text "t") (
          field "source"
            (object (field "system" (text "human") (field "requestedBy" (text "founder") end)))
            (field "objective" (text "Run two loops.") (
              field "tenant" (object (field "userId" (text "u") end)) (
                field "nodes"
                  (array (
                    cons (node_json "b" (array (cons (text "a") nil)))
                      (cons (node_json "a" (array nil)) nil)))
                  (field "requestedAt" (text "2026-01-01T00:00:00.000Z") end))))))))

abbrev sample_node : String → List String → CompiledNode
sample_node id depends_on = record {
  node_id = id;
  target = record { product = "loop_governor"; action = "manual_loop" };
  objective = "Check the loop.";
  input = end;
  depends_on = depends_on;
}

abbrev sample_document : CompiledGraph
sample_document = record {
  schema_version = "chanter.mission.graph.v1";
  graph_id = "g";
  trace_id = "t";
  idempotency_key = "operator-mission-graph:g";
  source = record { system = "human"; requested_by = "founder" };
  objective = "Run two loops.";
  tenant = record { user_id = "u"; workspace_id = none; account_id = none };
  requested_at = "2026-01-01T00:00:00.000Z";
  node_count = 2;
  nodes = sample_node "a" [] ∷ sample_node "b" ("a" ∷ []) ∷ [];
}

-- A hash that maps each text to itself, and a manual loop that accepts every input.
abbrev pub sample_contracts : Contracts
sample_contracts = record {
  validate_envelope = valid;
  to_runtime_request =
      λ envelope. record { input = envelope.input; tenant_account_id = envelope.tenant.account_id };
  validate_manual_loop_input = λ request. [];
  manual_loop_create = "manual_loop";
  validate_schedule = λ input time. refused "REFUSED" "Refused." 400;
  canonical_json = λ graph. sample_hash;
  quote = λ s. s;
  sha256 = λ s. s;
  parse_compiled = λ s. some sample_document;
  is_timestamp = λ s. true;
}

compile_sample :
    compile_mission_graph sample_contracts sample_envelope
    ≡ ok (compiled sample_document sample_hash sample_hash)
unfolding compile_mission_graph assemble check_nodes detect_cycle consume release dependents_of
    parse_node parse_nodes shape_errors envelope_errors exact_string is_identifier is_objective
    reject_unknown_fields resolve_registered_mission_action get_field trim length_of every_code
    decimal child_envelope child_account_id child_mission_id child_trace_id child_idempotency_key
compile_sample = refl

compile_mission_graph-IsSealed_example :
    IsSealed sample_contracts sample_document sample_hash sample_hash
compile_mission_graph-IsSealed_example =
    compile_mission_graph-IsSealed sample_contracts sample_envelope sample_document sample_hash
      sample_hash compile_sample

compile_mission_graph-IsRanked_example : IsRanked (links sample_document.nodes)
compile_mission_graph-IsRanked_example =
    compile_mission_graph-IsRanked sample_contracts sample_envelope sample_document sample_hash
      sample_hash compile_sample

abbrev parsed : String → List String → ParsedNode
parsed id depends_on = record {
  node_id = id;
  product = "loop_governor";
  action = "manual_loop";
  objective = "Check the loop.";
  input = end;
  depends_on = depends_on;
}

abbrev sample_nodes : List ParsedNode
sample_nodes = parsed "b" ("a" ∷ []) ∷ parsed "a" [] ∷ []

named_once : (s : String) → count_by (λ (n : ParsedNode). n.node_id == s) sample_nodes ≤ 1
named_once s = elim (Bool-cases ("b" == s)) [
  | inl own ↦ rw (sym ((eq_iff "b" s).0 own)) (omega arith)
  | inr other ↦ ground (arith, other)
]

sample_nodes-IsDistinct : IsDistinct sample_nodes
sample_nodes-IsDistinct = record {
  ids = named_once;
  dependencies = ((λ d. ground arith), ((λ d. ground arith), _));
}

detect_cycle-IsAcyclic_example : detect_cycle sample_nodes ≡ none ↔ IsAcyclic sample_nodes
detect_cycle-IsAcyclic_example =
    detect_cycle-IsAcyclic sample_nodes sample_nodes-IsDistinct ((refl, _), (_, _))

consume-enough_example :
    (consume 9 sample_nodes (initial_queue sample_nodes) (initial_remaining sample_nodes)
      ≡ consume 3 sample_nodes (initial_queue sample_nodes) (initial_remaining sample_nodes))
    × ((consume 9 sample_nodes (initial_queue sample_nodes) (initial_remaining sample_nodes)).0 ≤ 2)
consume-enough_example = consume-enough sample_nodes 9 sample_nodes-IsDistinct (omega arith)

-- Two nodes that wait for each other.
cycle_found :
    detect_cycle (parsed "b" ("a" ∷ []) ∷ parsed "a" ("b" ∷ []) ∷ []) ≡ some ("a" ∷ "b" ∷ [])
unfolding detect_cycle consume release dependents_of
cycle_found = refl
