-- ===== src/MissionGraph/Compiler/Cycle/Decides.antt =====
-- detectCycle (apps/backend/src/missions/missionGraphCompiler.ts) as a decision.
use chanter_operator.Prelude.{
  ℕ, ◌≤◌, ◌<◌, ◌≡◌, ◌↔◌, suc, zero, refl, sym, ap, ◌∙◌, String, true, List, [], ◌∷◌, ◌==◌, arith,
  none, some, if◌then◌else◌, count_by, length, Bool-cases, inl, inr, eq_iff, All, All-both, All-map,
  nat_eq,
}
use text.Mathlib.TextPositions.{eq_refl}
use chanter_operator.MissionGraph.Compiler.Nodes.{ParsedNode}
use chanter_operator.MissionGraph.Compiler.Cycle.{
  is_released, is_empty, initial_queue, initial_remaining, consume, detect_cycle,
}
use chanter_operator.MissionGraph.Compiler.Cycle.Release.{mem, minus, left, initial-left}
use chanter_operator.MissionGraph.Compiler.Cycle.Counts.{count, named, IsDistinct, count_of_mem}
use chanter_operator.MissionGraph.Compiler.Cycle.Pigeonhole.{length_le, count_all}
use chanter_operator.MissionGraph.Compiler.Cycle.Order.{IsRound}
use chanter_operator.MissionGraph.Compiler.Cycle.Rounds.{
  ids_of, count_ids, length_ids, initial, few_rounds, last_round, enough_rounds,
}
use chanter_operator.MissionGraph.Compiler.Cycle.Acyclic.{IsAcyclic, IsClosed, place, before}

mem_of_count : (s : String) (xs : List String) → 0 < count s xs → mem s xs ≡ true
mem_of_count s [] h = absurd (omega arith)
mem_of_count s (x ∷ xs) h = ground (arith, mem_of_count s xs)

members :
    (taken : List String) (ns : List ParsedNode)
    → ((s : String) → count_by (named s) ns ≤ count s taken)
    → All (λ (n : ParsedNode). mem n.node_id taken ≡ true) ns
members taken [] h = _
members taken (n ∷ ns) h = (
  mem_of_count n.node_id taken (ground (arith, h n.node_id, eq_refl n.node_id)),
  members taken ns (λ s. ground (arith, h s)),
)

minus_none :
    (taken ds : List String) → All (λ d. mem d taken ≡ true) ds → is_empty (minus taken ds) ≡ true
minus_none taken [] h = refl
minus_none taken (d ∷ ds) h = rw h.0 (minus_none taken ds h.1)

released_if :
    (s : String) (taken : List String) (ns : List ParsedNode)
    → 0 < count_by (named s) ns
    → All (λ (n : ParsedNode). named s n ≡ true → All (λ d. mem d taken ≡ true) n.depends_on) ns
    → is_released s (left taken ns) ≡ true
released_if s taken [] some_node h = absurd (omega arith)
released_if s taken (n ∷ ns) some_node h = elim (Bool-cases (n.node_id == s)) [
  | inl own ↦ rw own (minus_none taken n.depends_on (h.0 own))
  | inr other ↦ rw other (released_if s taken ns (ground (arith, some_node, other)) h.1)
]

equal_if : {A : Type 0} → (m n : ℕ) (a : A) → (if nat_eq m n then none else some a) ≡ none → m ≡ n
equal_if m n a h = ground arith

none_if : {A : Type 0} → (m n : ℕ) (a : A) → m ≡ n → (if nat_eq m n then none else some a) ≡ none
none_if m n a h = ground arith

module _ (nodes : List ParsedNode) (distinct : IsDistinct nodes) where
  the_end :
      (last : List String) × IsRound nodes last []
      × (length last
          ≡ (consume (suc (length nodes)) nodes (initial_queue nodes) (initial_remaining nodes)).0)
  the_end =
      let e =
        last_round nodes distinct (suc (length nodes)) [] (initial_queue nodes)
          (initial nodes distinct) (omega arith) in
      (e.0, e.1, rw (initial-left nodes) (ground (arith, e.2)))

  full_when_none : detect_cycle nodes ≡ none → length the_end.0 ≡ length nodes
  unfolding detect_cycle
  full_when_none h = the_end.2 ∙ equal_if _ _ _ h

  none_when_full : length the_end.0 ≡ length nodes → detect_cycle nodes ≡ none
  unfolding detect_cycle
  none_when_full h = none_if _ _ _ (sym the_end.2 ∙ h)

  pub accepted : detect_cycle nodes ≡ none → IsAcyclic nodes
  accepted h =
      let round = the_end.1 in
      let all_there =
        count_all the_end.0 (ids_of nodes) (λ s. ground (arith, round.few s, count_ids s nodes))
          (ground (arith, full_when_none h, length_ids nodes)) in
      record {
        rank = place the_end.0;
        falls =
            All-both _ _ _
              (λ n taken deps. All-map _ _ (λ d before_it. before_it.1) n.depends_on (deps taken))
              nodes (members the_end.0 nodes (λ s. ground (arith, all_there s, count_ids s nodes)))
              (before nodes distinct the_end.0 round.ordered);
      }

  reached :
      IsClosed nodes
      → (a : IsAcyclic nodes) → (k : ℕ) (s : String) → a.rank s < k
      → 0 < count_by (named s) nodes
      → 0 < count s the_end.0
  reached closed a zero s below some_node = absurd (omega arith)
  reached closed a (suc k) s below some_node =
      let dependency : (d : String)
          → a.rank d < k
          → mem d (ids_of nodes) ≡ true
          → mem d the_end.0 ≡ true =
        λ d lower node. mem_of_count d the_end.0 (
          reached closed a k d lower
            (ground (arith, count_ids d nodes, count_of_mem d (ids_of nodes) node))) in
      let released : is_released s (left the_end.0 nodes) ≡ true =
        released_if s the_end.0 nodes some_node (
          All-both _ _ _
            (λ n falls known own.
              All-both _ _ _
                (λ d lower node.
                  dependency d
                    (ground (arith, lower, below, ap a.rank ((eq_iff n.node_id s).0 own))) node)
                n.depends_on falls known)
            nodes a.falls closed) in
      ground (arith, the_end.1.complete s some_node released)

  rejected : IsClosed nodes → IsAcyclic nodes → detect_cycle nodes ≡ none
  rejected closed a = none_when_full (
      let long = length_le (ids_of nodes) the_end.0 (λ s.
        ground (arith, distinct.ids s, count_ids s nodes, reached closed a (suc (a.rank s)) s)) in
      ground (arith, long, length_ids nodes, few_rounds nodes distinct the_end.0 [] the_end.1))

-- Where the nodes have distinct identifiers, name no dependency twice and name only nodes of the
-- list, detectCycle finds no cycle exactly when the nodes can be numbered so that each node's
-- number is above the numbers of its dependencies.
pub detect_cycle-IsAcyclic :
    (nodes : List ParsedNode)
    → IsDistinct nodes
    → IsClosed nodes
    → detect_cycle nodes ≡ none ↔ IsAcyclic nodes
detect_cycle-IsAcyclic nodes distinct closed =
    (accepted nodes distinct, rejected nodes distinct closed)

-- Where the nodes have distinct identifiers and name no dependency twice, any fuel above the number
-- of nodes lets the loop of detectCycle consume the same identifiers and leave the same entries, and
-- the loop consumes at most as many identifiers as there are nodes, so that it ends with fuel left.
pub consume-enough :
    (nodes : List ParsedNode) (fuel : ℕ)
    → IsDistinct nodes
    → length nodes < fuel
    → (consume fuel nodes (initial_queue nodes) (initial_remaining nodes)
        ≡ consume (suc (length nodes)) nodes (initial_queue nodes) (initial_remaining nodes))
      × ((consume fuel nodes (initial_queue nodes) (initial_remaining nodes)).0 ≤ length nodes)
consume-enough nodes fuel distinct enough =
    let (last, round, consumed) = the_end nodes distinct in
    let same : consume fuel nodes (initial_queue nodes) (initial_remaining nodes)
        ≡ consume (suc (length nodes)) nodes (initial_queue nodes) (initial_remaining nodes) =
      rw (initial-left nodes) (
        enough_rounds nodes distinct fuel (suc (length nodes)) [] (initial_queue nodes)
          (initial nodes distinct) (omega arith) (omega arith)) in
    (same, rw same (ground (arith, consumed, few_rounds nodes distinct last [] round)))
