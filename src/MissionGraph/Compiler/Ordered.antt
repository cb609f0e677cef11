-- ===== src/MissionGraph/Compiler/Ordered.antt =====
-- The graphs that apps/backend/src/missions/missionGraphCompiler.ts accepts have no cycle.
use chanter_operator.Prelude.{
  ℕ, ◌<◌, ◌≡◌, refl, String, ◌&&◌, Option, none, some, List, [], ◌∷◌, ◌++◌, if◌then◌else◌, map,
  length, nat_eq, All, arith,
}
use chanter_operator.Prelude.Exec.{ok}
use chanter_operator.Json.{Json, Fields}
use chanter_operator.MissionGraph.Compiled.{CompiledGraph}
use chanter_operator.MissionGraph.Contracts.{Contracts}
use chanter_operator.MissionGraph.Journal.Order.Sorting.{All-sort_by}
use chanter_operator.MissionGraph.Journal.Order.{text_le, text_lt}
use chanter_operator.MissionGraph.Compiler.{CompileError}
use chanter_operator.MissionGraph.Compiler.Nodes.{ParsedNode, parse_nodes, shape_errors}
use chanter_operator.MissionGraph.Compiler.Nodes.Parsed.{
  parse_nodes-length, parse_nodes-few, shape_errors-once,
}
use chanter_operator.MissionGraph.Compiler.Cycle.{is_empty, detect_cycle}
use chanter_operator.MissionGraph.Compiler.Cycle.Counts.{IsDistinct}
use chanter_operator.MissionGraph.Compiler.Cycle.Acyclic.{IsAcyclic}
use chanter_operator.MissionGraph.Compiler.Cycle.Decides.{accepted}
use chanter_operator.MissionGraph.Compiler.Compile.{
  compiled, compile_mission_graph, all_errors, assemble, compiled_node, cycle_errors,
}
use chanter_operator.MissionGraph.Compiler.Closed.{append_nil, links}
use chanter_operator.MissionGraph.Compiler.Traced.{compile_mission_graph-IsTraced}

-- The nodes can be numbered so that each comes after its dependencies.
pub record IsRanked (ls : List (String × List String)) : Type 0 where
  pub rank : String → ℕ
  pub falls : All (λ (l : String × List String). All (λ d. rank d < rank l.0) l.1) ls

falls-links :
    (rank : String → ℕ) (ns : List ParsedNode)
    → All (λ (n : ParsedNode). All (λ d. rank d < rank n.node_id) n.depends_on) ns
    → All
        (λ (l : String × List String). All (λ d. rank d < rank l.0) l.1)
        (links (map compiled_node ns))
falls-links rank [] h = _
falls-links rank (n ∷ rest) h =
    (All-sort_by (λ d. rank d < rank n.node_id) text_le n.depends_on h.0, falls-links rank rest h.1)

assemble-IsRanked :
    (e : Fields) (nodes : List ParsedNode)
    → IsAcyclic nodes
    → IsRanked (links (assemble e nodes).nodes)
unfolding assemble
assemble-IsRanked e nodes a = record {
  rank = a.rank;
  falls = falls-links a.rank _ (
      All-sort_by (λ (n : ParsedNode). All (λ d. a.rank d < a.rank n.node_id) n.depends_on)
        (λ (m n : ParsedNode). text_lt m.node_id n.node_id) nodes a.falls);
}

no_cycle : (o : Option (List String)) → cycle_errors o ≡ [] → o ≡ none
no_cycle none h = refl
no_cycle (some ids) h = cc

found_nil :
    (found : List CompileError) (m n : ℕ) (cyclic : List CompileError)
    → (if is_empty found && nat_eq m n then cyclic else found) ≡ []
    → (found ≡ []) × (m ≡ n → cyclic ≡ [])
found_nil [] m n cyclic h = (refl, λ same. ground (arith, h, same))
found_nil (e ∷ es) m n cyclic h = cc

module _ (c : Contracts) where
  all_errors-IsAcyclic :
      (before : List CompileError) (values : List Json)
      → all_errors c before values ≡ []
      → IsAcyclic (parse_nodes c values 0 []).1
  all_errors-IsAcyclic before values h =
      let nodes = (parse_nodes c values 0 []).1 in
      let ids = map (λ (n : ParsedNode). n.node_id) nodes in
      let first = before ++ (parse_nodes c values 0 []).0 in
      let shape = shape_errors c ids nodes in
      let (found, cyclic) =
        found_nil (first ++ shape) (length nodes) (length values)
          (cycle_errors (detect_cycle nodes)) h in
      let (earlier, shaped) = append_nil first shape found in
      let parsed = (append_nil before (parse_nodes c values 0 []).0 earlier).1 in
      let distinct : IsDistinct nodes = record {
        ids = λ s. omega (arith, parse_nodes-few c s values 0 []);
        dependencies = shape_errors-once c ids nodes shaped;
      } in
      accepted nodes distinct (no_cycle _ (cyclic (parse_nodes-length c values 0 [] parsed)))

-- The nodes of a graph that compileMissionGraph accepts can be numbered so that each node's number
-- is above the numbers of the nodes that it depends on: the graph has no cycle.
pub compile_mission_graph-IsRanked :
    (c : Contracts) (envelope : Json) (g : CompiledGraph) (json hash : String)
    → compile_mission_graph c envelope ≡ ok (compiled g json hash)
    → IsRanked (links g.nodes)
compile_mission_graph-IsRanked c envelope g json hash h =
    let t = compile_mission_graph-IsTraced c envelope g json hash h in
    rw t.same_links
      (assemble-IsRanked t.fields _ (all_errors-IsAcyclic c t.before t.values t.no_errors))
