-- ===== src/MissionGraph/Compiler/Nodes.antt =====
-- parseNode and the loops over the nodes of a graph envelope in
-- apps/backend/src/missions/missionGraphCompiler.ts.
pub mod Parsed
use chanter_operator.Prelude.{
  ℕ, ◌+◌, String, Bool, true, false, not, Option, none, some, List, [], ◌∷◌, ◌++◌, ◌==◌,
  if◌then◌else◌, any, template, decimal,
}
use chanter_operator.Json.{Json, Fields, array, get_field, string_of, items}
use chanter_operator.MissionGraph.Contracts.{Contracts}
use chanter_operator.MissionGraph.Registry.{RegisteredAction, resolve_registered_mission_action}
use chanter_operator.MissionGraph.Compiler.{
  CompileError, error, unless, json_object, is_node_id, node_id_pattern, is_objective,
  reject_unknown_fields,
}

-- What a function that may return null pushes and returns.
abbrev pub Report : Type 0 → Type 0
Report A = List CompileError × Option A

module _ {A B : Type 0} where
  abbrev continue : (A → Report B) → Report A → Report B
  continue f (es, none) = (es, none)
  continue f (es, some a) = let r = f a in (es ++ r.0, r.1)

  infixl 5 ◌>>=◌
  abbrev ◌>>=◌ : Report A → (A → Report B) → Report B
  r >>= f = continue f r

-- `errors.push(…)` and on.
abbrev push : List CompileError → Report (Unit {0})
push es = (es, some tt)

-- `errors.push(…); return null`
abbrev stop : {A : Type 0} → CompileError → Report A
stop e = (e ∷ [], none)

abbrev keep_going : {A : Type 0} → A → Report A
keep_going a = ([], some a)

abbrev present : {A : Type 0} → Option A → CompileError → Report A
present none e = stop e
present (some a) e = keep_going a

abbrev check : Bool → CompileError → Report (Unit {0})
check true e = keep_going tt
check false e = stop e

pub record ParsedNode : Type 0 where
  pub node_id : String
  pub product : String
  pub action : String
  pub objective : String
  pub input : Fields
  pub depends_on : List String

abbrev matching : (String → Bool) → Option String → Option String
matching test none = none
matching test (some s) = if test s then some s else none

-- The loop over the entries of dependsOn.
abbrev pub dependency_ids : List Json → Option (List String)
dependency_ids [] = some []
dependency_ids (v ∷ rest) = elim (matching is_node_id (string_of (some v))) [
  | none ↦ none
  | some id ↦ elim (dependency_ids rest) [ none ↦ none | some ids ↦ some (id ∷ ids) ]
]

abbrev dependency_error : String → String → CompileError
dependency_error label message = error "GRAPH_DEPENDENCY_INVALID" (template (label ∷ message ∷ []))

abbrev pub parse_dependencies : String → Option Json → Report (List String)
parse_dependencies label none = keep_going []
parse_dependencies label (some (array entries)) =
    present (dependency_ids (items entries))
      (dependency_error label ".dependsOn entries must be bounded safe node ids.")
parse_dependencies label (some _) =
    stop (dependency_error label ".dependsOn must be an array of node ids when provided.")

abbrev eligible : Option RegisteredAction → Option RegisteredAction
eligible none = none
eligible (some entry) = if entry.graph_eligible then some entry else none

abbrev unregistered : String → CompileError
unregistered label = record {
  code = "GRAPH_NODE_TARGET_UNREGISTERED";
  message = template (label ∷ ".target is not registered with the Operator graph authority." ∷ []);
  status = 409;
}

-- parseNode from the test of the objective on.
abbrev parse_payload : Fields → String → RegisteredAction → String → Report ParsedNode
parse_payload node id registered label =
    present
      (if is_objective (get_field "objective" node)
        then string_of (get_field "objective" node)
        else none)
      (error "GRAPH_NODE_OBJECTIVE_INVALID" (
        template (
          label ∷ ".objective must be a trimmed nonblank string of at most 2000 characters." ∷ [])))
    >>= λ objective.
        present (json_object (get_field "input" node)) (
          error "GRAPH_NODE_INPUT_INVALID"
            (template (label ∷ ".input must be an object payload." ∷ [])))
        >>= λ input. parse_dependencies label (get_field "dependsOn" node) >>= λ depends_on.
            keep_going (record {
              node_id = id;
              product = registered.product;
              action = registered.action;
              objective = objective;
              input = input;
              depends_on = depends_on;
            })

module _ (c : Contracts) where
  unfoldable pub parse_node : Json → ℕ → Report ParsedNode
  parse_node value index =
      let place = template ("nodes[" ∷ decimal index ∷ "]" ∷ []) in
      present (json_object (some value))
        (error "GRAPH_NODE_INVALID" (template (place ∷ " must be a JSON object." ∷ [])))
      >>= λ node.
          push (
            reject_unknown_fields c node
              ("nodeId" ∷ "target" ∷ "objective" ∷ "input" ∷ "dependsOn" ∷ []) place)
          >>= λ _.
              present (matching is_node_id (string_of (get_field "nodeId" node))) (
                error "GRAPH_NODE_ID_INVALID" (
                  template (
                    place ∷ ".nodeId must match " ∷ node_id_pattern ∷ " (bounded safe identifier)."
                    ∷ [])))
              >>= λ id.
                  let label = template (place ∷ " (" ∷ id ∷ ")" ∷ []) in
                  present (json_object (get_field "target" node)) (
                    error "GRAPH_NODE_TARGET_INVALID"
                      (template (label ∷ ".target must be an object." ∷ [])))
                  >>= λ target.
                      push (
                        reject_unknown_fields c target ("product" ∷ "action" ∷ [])
                          (template (label ∷ ".target" ∷ [])))
                      >>= λ _.
                          present
                            (eligible (
                              resolve_registered_mission_action c (get_field "product" target)
                                (get_field "action" target)))
                            (unregistered label)
                          >>= λ registered. parse_payload node id registered label

  abbrev duplicate : String → CompileError
  duplicate id =
      error "GRAPH_NODE_DUPLICATE"
        (template ("nodeId " ∷ c.quote id ∷ " is declared more than once." ∷ []))

  abbrev pub known : String → List String → Bool
  known id ids = any (λ k. k == id) ids

  abbrev add_node :
      Option ParsedNode
      → List String
      → (List String → List CompileError × List ParsedNode)
      → List CompileError × List ParsedNode
  add_node none seen rest = rest seen
  add_node (some node) seen rest =
      if known node.node_id seen
      then (let later = rest seen in (duplicate node.node_id ∷ later.0, later.1))
      else (let later = rest (node.node_id ∷ seen) in (later.0, node ∷ later.1))

  -- The loop over the nodes from the given index on, with the identifiers seen before.
  unfoldable pub parse_nodes : List Json → ℕ → List String → List CompileError × List ParsedNode
  parse_nodes [] index seen = ([], [])
  parse_nodes (v ∷ rest) index seen =
      let parsed = parse_node v index in
      let later = add_node parsed.1 seen (parse_nodes rest (index + 1)) in
      (parsed.0 ++ later.0, later.1)

  abbrev pub target_errors : String → List String → String → List CompileError
  target_errors id ids dependency =
      if dependency == id
      then error "GRAPH_DEPENDENCY_SELF"
          (template ("node " ∷ c.quote id ∷ " must not depend on itself." ∷ []))
        ∷ []
      else unless (known dependency ids) (
          error "GRAPH_DEPENDENCY_MISSING" (
            template
              ("node " ∷ c.quote id ∷ " depends on unknown node " ∷ c.quote dependency ∷ "." ∷ [])))

  -- One node's dependencies, with those seen before.
  abbrev pub dependency_errors :
      String → List String → List String → List String → List CompileError
  dependency_errors id ids [] seen = []
  dependency_errors id ids (d ∷ rest) seen =
      target_errors id ids d
      ++ unless (not (known d seen)) (
          error "GRAPH_DEPENDENCY_DUPLICATE" (
            template (
              "node "
              ∷ c.quote id
              ∷ " declares dependency "
              ∷ c.quote d
              ∷ " more than once."
              ∷ [])))
      ++ dependency_errors id ids rest (d ∷ seen)

  unfoldable pub shape_errors : List String → List ParsedNode → List CompileError
  shape_errors ids [] = []
  shape_errors ids (node ∷ rest) =
      dependency_errors node.node_id ids node.depends_on [] ++ shape_errors ids rest
