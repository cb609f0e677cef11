-- ===== src/MissionGraph/Compiler/Traced.antt =====
-- Where a graph that apps/backend/src/missions/missionGraphCompiler.ts accepts comes from.
use chanter_operator.Prelude.{
  ◌≡◌, refl, sym, ap, String, Bool, true, false, Option, none, some, List, [], ◌∷◌, ◌++◌,
  if◌then◌else◌, length, ltb,
}
use chanter_operator.Prelude.Exec.{Result, ok, err}
use chanter_operator.Json.{Json, Fields, text, get_field}
use chanter_operator.MissionGraph.Compiled.{CompiledGraph, CompiledNode, ChildEnvelope}
use chanter_operator.MissionGraph.Contracts.{Contracts, Validation, valid, invalid}
use chanter_operator.MissionGraph.Registry.{
  RegisteredAction, InputVerdict, accepted, rejected, resolve_registered_mission_action,
}
use chanter_operator.MissionGraph.Compiler.{CompileError, json_object, envelope_errors, max_nodes}
use chanter_operator.MissionGraph.Compiler.Nodes.{parse_nodes}
use chanter_operator.MissionGraph.Compiler.Cycle.{is_empty}
use chanter_operator.MissionGraph.Compiler.Compile.{
  CompileResult, compiled, failed, compile_mission_graph, finish_checked, finish_nodes, all_errors,
  compile_nodes, compile_fields, node_values, assemble, check_nodes, check_rest, check_envelope,
  check_action, checked_input, only_eligible, no_nodes_error, node_limit_error,
}
use chanter_operator.MissionGraph.Compiler.Closed.{links}

module _ (c : Contracts) where
  -- The validation of a node changes nothing but its input.
  abbrev SameLink : CompiledNode → CompiledNode → Type 0
  SameLink node after = (after.node_id ≡ node.node_id) × (after.depends_on ≡ node.depends_on)

  checked_input-SameLink :
      (node after : CompiledNode) (v : InputVerdict)
      → checked_input c node v ≡ (none, after)
      → SameLink node after
  checked_input-SameLink node after (accepted input) h =
      (ap (λ r. r.1.node_id) (sym h), ap (λ r. r.1.depends_on) (sym h))
  checked_input-SameLink node after (rejected code message status) h = cc

  check_action-SameLink :
      (graph : CompiledGraph) (node after : CompiledNode) (envelope : ChildEnvelope)
      (o : Option RegisteredAction)
      → check_action c graph node envelope o ≡ (none, after)
      → SameLink node after
  check_action-SameLink graph node after envelope none h = cc
  check_action-SameLink graph node after envelope (some entry) h =
      checked_input-SameLink node after _ h

  ok-injective : {A : Type 0} (a b : A) → ok a ≡ ok b → a ≡ b
  ok-injective a b h = cc

  check_envelope-SameLink :
      (graph : CompiledGraph) (node after : CompiledNode) (v : Validation)
      → check_envelope c graph node v ≡ ok (none, after)
      → SameLink node after
  check_envelope-SameLink graph node after (invalid none) h = cc
  check_envelope-SameLink graph node after (invalid (some first)) h = cc
  check_envelope-SameLink graph node after (valid envelope) h =
      check_action-SameLink graph node after envelope
        (only_eligible c (
          resolve_registered_mission_action c (some (text node.target.product))
            (some (text node.target.action))))
        (ok-injective _ _ h)

  check_rest-inversion :
      (r : Result (Option CompileError × CompiledNode))
      (s : Result (Option CompileError × List CompiledNode)) (out : List CompiledNode)
      → check_rest c r s ≡ ok (none, out)
      → (node : CompiledNode) × (rest : List CompiledNode) × (r ≡ ok (none, node))
        × (s ≡ ok (none, rest))
        × (out ≡ node ∷ rest)
  check_rest-inversion (err e) s out h = cc
  check_rest-inversion (ok (some e, node)) s out h = cc
  check_rest-inversion (ok (none, node)) (err e) out h = cc
  check_rest-inversion (ok (none, node)) (ok (some e, nodes)) out h = cc
  check_rest-inversion (ok (none, node)) (ok (none, nodes)) out h =
      (node, nodes, refl, refl, ap (λ r. r.1) (sym (ok-injective _ _ h)))

  check_nodes-links :
      (graph : CompiledGraph) (nodes out : List CompiledNode)
      → check_nodes c graph nodes ≡ ok (none, out)
      → links out ≡ links nodes
  unfolding check_nodes
  check_nodes-links graph [] out h = ap (λ r. links r.1) (sym (ok-injective _ _ h))
  check_nodes-links graph (node ∷ rest) out h =
      let (after, later, checked, through, e) = check_rest-inversion _ _ out h in
      let (same_id, same_deps) = check_envelope-SameLink graph node after _ checked in
      let tail = check_nodes-links graph rest later through in rw (e, same_id, same_deps, tail)

  -- The graph is assembled from nodes that passed every test, and has its canonical text and that
  -- text's hash.
  pub record IsTraced (g : CompiledGraph) (json hash : String) : Type 0 where
    pub fields : Fields
    pub before : List CompileError
    pub values : List Json
    pub no_errors : all_errors c before values ≡ []
    pub same_links : links g.nodes ≡ links (assemble fields (parse_nodes c values 0 []).1).nodes
    pub canonical : json ≡ c.canonical_json g
    pub hashed : hash ≡ c.sha256 json

  finish_checked-IsTraced :
      (e : Fields) (before : List CompileError) (values : List Json) (g : CompiledGraph)
      (json hash : String) (r : Result (Option CompileError × List CompiledNode))
      → all_errors c before values ≡ []
      → ((out : List CompiledNode)
          → r ≡ ok (none, out)
          → links out ≡ links (assemble e (parse_nodes c values 0 []).1).nodes)
      → finish_checked c (assemble e (parse_nodes c values 0 []).1) r ≡ ok (compiled g json hash)
      → IsTraced g json hash
  finish_checked-IsTraced e before values g json hash (err x) none_found same h = cc
  finish_checked-IsTraced e before values g json hash (ok (some x, nodes)) none_found same h = cc
  finish_checked-IsTraced e before values g json hash (ok (none, nodes)) none_found same h =
      let graph = record (assemble e (parse_nodes c values 0 []).1) { nodes = nodes } in
      let own : g ≡ graph = cc in
      let j : json ≡ c.canonical_json graph = cc in
      let k : hash ≡ c.sha256 (c.canonical_json graph) = cc in
      record {
        fields = e;
        before = before;
        values = values;
        no_errors = none_found;
        same_links = rw own (same nodes refl);
        canonical = rw own j;
        hashed = rw j k;
      }

  finish_nodes-IsTraced :
      (e : Fields) (before errors : List CompileError) (values : List Json) (g : CompiledGraph)
      (json hash : String)
      → (errors ≡ [] → all_errors c before values ≡ [])
      → finish_nodes c e errors values ≡ ok (compiled g json hash)
      → IsTraced g json hash
  finish_nodes-IsTraced e before (first ∷ rest) values g json hash none_found h = cc
  finish_nodes-IsTraced e before [] values g json hash none_found h =
      let graph = assemble e (parse_nodes c values 0 []).1 in
      finish_checked-IsTraced e before values g json hash (check_nodes c graph graph.nodes)
        (none_found refl) (check_nodes-links graph graph.nodes) h

  passed :
      (refuses : Bool) (errors : List CompileError) (r : Result CompileResult) (g : CompiledGraph)
      (json hash : String)
      → (if refuses then ok (failed errors) else r) ≡ ok (compiled g json hash)
      → r ≡ ok (compiled g json hash)
  passed true errors r g json hash h = cc
  passed false errors r g json hash h = h

  compile_nodes-IsTraced :
      (e : Fields) (before : List CompileError) (values : List Json) (g : CompiledGraph)
      (json hash : String)
      → compile_nodes c e before values ≡ ok (compiled g json hash)
      → IsTraced g json hash
  compile_nodes-IsTraced e before values g json hash h =
      let some_nodes = passed (is_empty values) (before ++ no_nodes_error ∷ []) _ g json hash h in
      let few_nodes =
        passed (ltb max_nodes (length values)) (before ++ node_limit_error values ∷ []) _ g json
          hash some_nodes in
      finish_nodes-IsTraced e before (all_errors c before values) values g json hash (λ e. e)
        few_nodes

  compile_fields-IsTraced :
      (fields : Option Fields) (g : CompiledGraph) (json hash : String)
      → compile_fields c fields ≡ ok (compiled g json hash)
      → IsTraced g json hash
  compile_fields-IsTraced none g json hash h = cc
  compile_fields-IsTraced (some e) g json hash h =
      compile_nodes-IsTraced e (envelope_errors c e) (node_values c (get_field "nodes" e)) g json
        hash h

  pub compile_mission_graph-IsTraced :
      (envelope : Json) (g : CompiledGraph) (json hash : String)
      → compile_mission_graph c envelope ≡ ok (compiled g json hash)
      → IsTraced g json hash
  unfolding compile_mission_graph
  compile_mission_graph-IsTraced envelope g json hash h =
      compile_fields-IsTraced (json_object (some envelope)) g json hash h
