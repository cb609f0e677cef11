-- ===== src/MissionGraph/Compiler/Cycle.antt =====
-- detectCycle of apps/backend/src/missions/missionGraphCompiler.ts: Kahn's algorithm. A Map is the
-- list of its entries, and a Set the list of its elements, from which delete removes every copy.
pub mod Release
pub mod Counts
pub mod Pigeonhole
pub mod Order
pub mod Rounds
pub mod Acyclic
pub mod Decides
use chanter_operator.Prelude.{
  ℕ, zero, suc, String, Bool, true, false, not, Option, none, some, List, [], ◌∷◌, ◌++◌, ◌==◌,
  if◌then◌else◌, keep, map, update_where, nat_eq, length,
}
use chanter_operator.MissionGraph.Journal.Order.{sort_by, text_le}
use chanter_operator.MissionGraph.Compiler.Nodes.{ParsedNode}

abbrev pub is_empty : {A : Type 0} → List A → Bool
is_empty [] = true
is_empty (x ∷ xs) = false

-- An entry of remainingDependencies.
pub record Remaining : Type 0 where
  pub node : String
  pub dependencies : List String

abbrev pub initial_remaining : List ParsedNode → List Remaining
initial_remaining nodes =
    map (λ (n : ParsedNode). record { node = n.node_id; dependencies = n.depends_on }) nodes

abbrev mentions : String → List String → String → List String
mentions id [] node = []
mentions id (d ∷ ds) node = let rest = mentions id ds node in if d == id then node ∷ rest else rest

-- dependents.get(id) ?? []
unfoldable pub dependents_of : List ParsedNode → String → List String
dependents_of [] id = []
dependents_of (n ∷ rest) id = mentions id n.depends_on n.node_id ++ dependents_of rest id

abbrev without : String → List String → List String
without id ids = keep (λ d. not (d == id)) ids

abbrev delete_from : String → String → List Remaining → List Remaining
delete_from current dependent entries =
    update_where (λ e. e.node == dependent)
      (λ e. record e { dependencies = without current e.dependencies }) entries

abbrev pub is_released : String → List Remaining → Bool
is_released id [] = false
is_released id (e ∷ rest) = if e.node == id then is_empty e.dependencies else is_released id rest

-- The loop over one node's dependents: the entries, and what is pushed onto the queue.
unfoldable pub release : String → List String → List Remaining → List Remaining × List String
release current [] entries = (entries, [])
release current (d ∷ rest) entries =
    let after = delete_from current d entries in
    let later = release current rest after in
    (later.0, if is_released d after then d ∷ later.1 else later.1)

abbrev pub initial_queue : List ParsedNode → List String
initial_queue nodes = map (λ n. n.node_id) (keep (λ n. is_empty n.depends_on) nodes)

-- `while (queue.length > 0)`: the number of identifiers consumed, and the entries left.
unfoldable pub consume : ℕ → List ParsedNode → List String → List Remaining → ℕ × List Remaining
consume zero nodes queue entries = (0, entries)
consume (suc fuel) nodes [] entries = (0, entries)
consume (suc fuel) nodes (current ∷ queue) entries =
    let released = release current (dependents_of nodes current) entries in
    let later = consume fuel nodes (queue ++ released.1) released.0 in (suc later.0, later.1)

-- The nodes on a cycle or behind one, where there are any.
unfoldable pub detect_cycle : List ParsedNode → Option (List String)
detect_cycle nodes =
    let result =
      consume (suc (length nodes)) nodes (initial_queue nodes) (initial_remaining nodes) in
    if nat_eq result.0 (length nodes)
    then none
    else some
        (sort_by text_le (map (λ e. e.node) (keep (λ e. not (is_empty e.dependencies)) result.1)))
