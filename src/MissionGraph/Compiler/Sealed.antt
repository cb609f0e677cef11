-- ===== src/MissionGraph/Compiler/Sealed.antt =====
-- What apps/backend/src/missions/missionGraphCompiler.ts returns for an envelope that it accepts.
use chanter_operator.Prelude.{
  ◌≡◌, refl, String, Bool, ◌&&◌, List, [], ◌∷◌, if◌then◌else◌, map, length, nat_eq,
}
use chanter_operator.Prelude.Exec.{ok}
use chanter_operator.Json.{Json}
use chanter_operator.MissionGraph.Compiled.{CompiledGraph}
use chanter_operator.MissionGraph.Contracts.{Contracts}
use chanter_operator.MissionGraph.Compiler.{CompileError}
use chanter_operator.MissionGraph.Compiler.Nodes.{parse_nodes, shape_errors}
use chanter_operator.MissionGraph.Compiler.Cycle.{is_empty}
use chanter_operator.MissionGraph.Compiler.Compile.{compiled, compile_mission_graph, all_errors}
use chanter_operator.MissionGraph.Compiler.Closed.{
  append_nil, IsClosed, shape_errors-IsSoundNode, assemble-IsClosed,
}
use chanter_operator.MissionGraph.Compiler.Traced.{IsTraced, compile_mission_graph-IsTraced}

module _ (c : Contracts) where
  -- A closed graph with its own canonical text and that text's hash.
  abbrev pub IsSealed : CompiledGraph → String → String → Type 0
  IsSealed graph json hash =
      IsClosed c graph × (json ≡ c.canonical_json graph) × (hash ≡ c.sha256 json)

  found_nil :
      (found : List CompileError) (b : Bool) (cyclic : List CompileError)
      → (if is_empty found && b then cyclic else found) ≡ []
      → found ≡ []
  found_nil [] b cyclic h = refl
  found_nil (e ∷ es) b cyclic h = h

  all_errors-shape :
      (before : List CompileError) (values : List Json)
      → all_errors c before values ≡ []
      → shape_errors c
          (map (λ n. n.node_id) (parse_nodes c values 0 []).1)
          (parse_nodes c values 0 []).1
        ≡ []
  all_errors-shape before values h =
      let parsed = parse_nodes c values 0 [] in
      let same_length = nat_eq (length parsed.1) (length values) in
      (append_nil _ _ (found_nil _ same_length _ h)).1

  traced-IsSealed :
      (g : CompiledGraph) (json hash : String) → IsTraced c g json hash → IsSealed g json hash
  traced-IsSealed g json hash t =
      let nodes = (parse_nodes c t.values 0 []).1 in
      let sound =
        shape_errors-IsSoundNode c _ nodes (all_errors-shape t.before t.values t.no_errors) in
      (rw t.same_links (assemble-IsClosed c t.fields nodes sound), t.canonical, t.hashed)

-- In a graph that compileMissionGraph accepts, every dependency of every node names another node of
-- the same graph; and the hash that it returns is the SHA-256 of the canonical JSON of that graph.
pub compile_mission_graph-IsSealed :
    (c : Contracts) (envelope : Json) (g : CompiledGraph) (json hash : String)
    → compile_mission_graph c envelope ≡ ok (compiled g json hash)
    → IsSealed c g json hash
compile_mission_graph-IsSealed c envelope g json hash h =
    traced-IsSealed c g json hash (compile_mission_graph-IsTraced c envelope g json hash h)
