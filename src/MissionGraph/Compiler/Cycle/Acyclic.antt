-- ===== src/MissionGraph/Compiler/Cycle/Acyclic.antt =====
-- What detectCycle (apps/backend/src/missions/missionGraphCompiler.ts) decides.
use chanter_operator.Prelude.{
  eq_turn, ℕ, ◌≤◌, ◌<◌, ◌≡◌, suc, ◌∙◌, String, true, false, List, [], ◌∷◌, ◌==◌, arith,
  if◌then◌else◌, count_by, length, Bool-cases, inl, inr, All, All-both, All-each, All-map,
}
use chanter_operator.MissionGraph.Compiler.Nodes.{ParsedNode}
use chanter_operator.MissionGraph.Compiler.Cycle.{is_released, is_empty}
use chanter_operator.MissionGraph.Compiler.Cycle.Release.{mem, minus, left}
use chanter_operator.MissionGraph.Compiler.Cycle.Counts.{named, IsDistinct}
use chanter_operator.MissionGraph.Compiler.Cycle.Order.{IsOrdered}
use chanter_operator.MissionGraph.Compiler.Cycle.Rounds.{ids_of}

-- The nodes can be numbered so that each comes after its dependencies.
pub record IsAcyclic (nodes : List ParsedNode) : Type 0 where
  pub rank : String → ℕ
  pub falls : All (λ (n : ParsedNode). All (λ d. rank d < rank n.node_id) n.depends_on) nodes

-- Every dependency is a node.
abbrev pub IsClosed : List ParsedNode → Type 0
IsClosed nodes = All (λ (n : ParsedNode). All (λ d. mem d (ids_of nodes) ≡ true) n.depends_on) nodes

-- The place of a node in the order in which the nodes are taken, the last one first.
abbrev pub place : List String → String → ℕ
place [] s = 0
place (x ∷ rest) s = if mem s rest then place rest s else suc (length rest)

place_le : (taken : List String) (s : String) → place taken s ≤ length taken
place_le [] s = omega arith
place_le (x ∷ rest) s = ground (arith, place_le rest s)

all_taken :
    (taken ds : List String) → is_empty (minus taken ds) ≡ true → All (λ d. mem d taken ≡ true) ds
all_taken taken [] h = _
all_taken taken (d ∷ ds) h = elim (Bool-cases (mem d taken)) [
  | inl gone ↦ (gone, all_taken taken ds (ground (arith, h, gone)))
  | inr stays ↦ absurd (ground (arith, h, stays))
]

none_named :
    (P : ParsedNode → Type 0) (s : String) (ns : List ParsedNode)
    → count_by (named s) ns ≡ 0
    → All (λ (n : ParsedNode). named s n ≡ true → P n) ns
none_named P s [] h = _
none_named P s (n ∷ ns) h =
    ((λ own. absurd (ground (arith, h, own))), none_named P s ns (ground (arith, h)))

-- A node that is released has its dependencies among the nodes that are taken.
released_taken :
    (s : String) (taken : List String) (ns : List ParsedNode)
    → count_by (named s) ns ≤ 1
    → is_released s (left taken ns) ≡ true
    → All (λ (n : ParsedNode). named s n ≡ true → All (λ d. mem d taken ≡ true) n.depends_on) ns
released_taken s taken [] few h = _
released_taken s taken (n ∷ ns) few h = elim (Bool-cases (n.node_id == s)) [
  | inl own ↦ (
    (λ e. all_taken taken n.depends_on (ground (arith, h, own))),
    none_named (λ (m : ParsedNode). All (λ d. mem d taken ≡ true) m.depends_on) s ns
        (ground (arith, few, own)),
  )
  | inr other ↦ (
    (λ own. absurd (ground (arith, own, other))),
    released_taken s taken ns (ground (arith, few, other)) (ground (arith, h, other)),
  )
]

abbrev IsBefore : List String → String → String → Type 0
IsBefore taken s d = (mem d taken ≡ true) × (place taken d < place taken s)

inherited :
    (x s : String) (rest : List String)
    → mem s rest ≡ true
    → (d : String) → IsBefore rest s d
    → IsBefore (x ∷ rest) s d
inherited x s rest taken d h = (rw h.0 (ground arith), rw (h.0, taken) h.1)

just_taken :
    (x s : String) (rest : List String)
    → mem s rest ≡ false
    → x == s ≡ true
    → (d : String) → mem d rest ≡ true
    → IsBefore (x ∷ rest) s d
just_taken x s rest other own d h =
    (rw h (ground arith), rw (h, other) (omega (arith, place_le rest d)))

module _ (nodes : List ParsedNode) (distinct : IsDistinct nodes) where
  before_head :
      (x : String) (rest : List String) (n : ParsedNode)
      → (mem n.node_id rest ≡ true → All (IsBefore rest n.node_id) n.depends_on)
      → (named x n ≡ true → All (λ d. mem d rest ≡ true) n.depends_on)
      → mem n.node_id (x ∷ rest) ≡ true
      → All (IsBefore (x ∷ rest) n.node_id) n.depends_on
  before_head x rest n earlier here e = elim (Bool-cases (mem n.node_id rest)) [
    | inl taken ↦ All-map _ _ (inherited x n.node_id rest taken) n.depends_on (earlier taken)
    | inr other ↦
        let own : x == n.node_id ≡ true = ground (arith, e, other) in
        All-map _ _ (just_taken x n.node_id rest other own) n.depends_on
          (here (eq_turn n.node_id x ∙ own))
  ]

  -- The dependencies of a node that is taken are taken before it.
  pub before :
      (taken : List String)
      → IsOrdered nodes taken
      → All
          (λ (n : ParsedNode).
            mem n.node_id taken ≡ true → All (IsBefore taken n.node_id) n.depends_on)
          nodes
  before [] h = All-each _ (λ n e. absurd (ground (arith, e))) nodes
  before (x ∷ rest) h =
      All-both _ _ _ (before_head x rest) nodes (before rest h.1)
        (released_taken x rest nodes (distinct.ids x) h.0)
