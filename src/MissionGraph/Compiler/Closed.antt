-- ===== src/MissionGraph/Compiler/Closed.antt =====
-- What apps/backend/src/missions/missionGraphCompiler.ts lets pass: the dependencies of a compiled
-- graph.
use chanter_operator.Prelude.{
  ◌≡◌, refl, sym, ◌∙◌, String, Bool, true, false, ◌==◌, List, [], ◌∷◌, ◌++◌, if◌then◌else◌, any,
  All, map, arith,
}
use chanter_operator.Json.{Fields}
use chanter_operator.MissionGraph.Compiled.{CompiledGraph, CompiledNode}
use chanter_operator.MissionGraph.Contracts.{Contracts}
use chanter_operator.MissionGraph.Journal.Order.Sorting.{All-sort_by, any-sort_by}
use chanter_operator.MissionGraph.Journal.Order.{sort_by, text_le, text_lt}
use chanter_operator.MissionGraph.Compiler.{CompileError, unless}
use chanter_operator.MissionGraph.Compiler.Nodes.{
  ParsedNode, shape_errors, dependency_errors, known,
}
use chanter_operator.MissionGraph.Compiler.Compile.{assemble, compiled_node}

module _ {A : Type 0} where
  pub append_nil : (xs ys : List A) → xs ++ ys ≡ [] → (xs ≡ []) × (ys ≡ [])
  append_nil [] ys e = (refl, e)
  append_nil (x ∷ xs) ys e = cc

abbrev pub links : List CompiledNode → List (String × List String)
links nodes = map (λ n. (n.node_id, n.depends_on)) nodes

abbrev pub node_ids : List (String × List String) → List String
node_ids ls = map (λ l. l.0) ls

module _ (c : Contracts) where
  unless_nil : (b : Bool) (e : CompileError) → unless b e ≡ [] → b ≡ true
  unless_nil true e h = refl
  unless_nil false e h = cc

  guarded_nil :
      (b : Bool) (e : CompileError) (es : List CompileError)
      → (if b then e ∷ [] else es) ≡ []
      → (b ≡ false) × (es ≡ [])
  guarded_nil true e es h = cc
  guarded_nil false e es h = (refl, h)

  -- A dependency that is a node of the graph, and another one.
  abbrev pub IsSound : List String → String → String → Type 0
  IsSound ids id dependency = (known c dependency ids ≡ true) × ((dependency == id) ≡ false)

  dependency_errors-IsSound :
      (id : String) (ids ds seen : List String)
      → dependency_errors c id ids ds seen ≡ []
      → All (IsSound ids id) ds
  dependency_errors-IsSound id ids [] seen h = tt
  dependency_errors-IsSound id ids (d ∷ rest) seen h =
      let (first, later) = append_nil _ _ h in
      let (other, found) = guarded_nil (d == id) _ _ (append_nil _ _ first).0 in
      ((unless_nil _ _ found, other), dependency_errors-IsSound id ids rest _ later)

  abbrev pub IsSoundNode : List String → ParsedNode → Type 0
  IsSoundNode ids node = All (IsSound ids node.node_id) node.depends_on

  pub shape_errors-IsSoundNode :
      (ids : List String) (nodes : List ParsedNode)
      → shape_errors c ids nodes ≡ []
      → All (IsSoundNode ids) nodes
  unfolding shape_errors
  shape_errors-IsSoundNode ids [] h = tt
  shape_errors-IsSoundNode ids (node ∷ rest) h =
      let (first, later) = append_nil _ _ h in
      (
        dependency_errors-IsSound node.node_id ids node.depends_on [] first,
        shape_errors-IsSoundNode ids rest later,
      )

  -- The same of a compiled node.
  abbrev pub IsSoundLink : List String → String × List String → Type 0
  IsSoundLink ids link = All (IsSound ids link.0) link.1

  -- Each dependency of each node of the graph names another node of the graph.
  abbrev pub IsClosed : CompiledGraph → Type 0
  IsClosed graph = All (IsSoundLink (node_ids (links graph.nodes))) (links graph.nodes)

  All-implies :
      {A : Type 0} (P Q : A → Type 0) (xs : List A) → ((a : A) → P a → Q a) → All P xs → All Q xs
  All-implies P Q [] f hs = tt
  All-implies P Q (x ∷ xs) f hs = (f x hs.0, All-implies P Q xs f hs.1)

  IsSoundLink-links :
      (ids others : List String) (nodes : List ParsedNode)
      → ((d : String) → known c d ids ≡ true → known c d others ≡ true)
      → All (IsSoundNode ids) nodes
      → All (IsSoundLink others) (links (map compiled_node nodes))
  IsSoundLink-links ids others [] f hs = tt
  IsSoundLink-links ids others (n ∷ rest) f hs = (
    All-sort_by (IsSound others n.node_id) text_le n.depends_on (
        All-implies (IsSound ids n.node_id) (IsSound others n.node_id) n.depends_on
          (λ d h. (f d h.0, h.1)) hs.0),
    IsSoundLink-links ids others rest f hs.1,
  )

  known-links :
      (d : String) (nodes : List ParsedNode)
      → known c d (node_ids (links (map compiled_node nodes)))
        ≡ any (λ (n : ParsedNode). n.node_id == d) nodes
  known-links d [] = refl
  known-links d (n ∷ rest) = ground (arith, known-links d rest)

  known-ids :
      (d : String) (nodes : List ParsedNode)
      → known c d (map (λ (n : ParsedNode). n.node_id) nodes)
        ≡ any (λ (n : ParsedNode). n.node_id == d) nodes
  known-ids d [] = refl
  known-ids d (n ∷ rest) = ground (arith, known-ids d rest)

  abbrev by_id : ParsedNode → ParsedNode → Bool
  by_id a b = text_lt a.node_id b.node_id

  pub assemble-IsClosed :
      (e : Fields) (nodes : List ParsedNode)
      → All (IsSoundNode (map (λ n. n.node_id) nodes)) nodes
      → IsClosed (assemble e nodes)
  unfolding assemble
  assemble-IsClosed e nodes hs =
      let ids = map (λ (n : ParsedNode). n.node_id) nodes in
      let others = node_ids (links (map compiled_node (sort_by by_id nodes))) in
      IsSoundLink-links ids others (sort_by by_id nodes)
        (λ d h.
          known-links d (sort_by by_id nodes)
          ∙ any-sort_by (λ n. n.node_id == d) by_id nodes
          ∙ sym (known-ids d nodes)
          ∙ h)
        (All-sort_by (IsSoundNode ids) by_id nodes hs)
