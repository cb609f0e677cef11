-- ===== src/MissionGraph/Compiler/Cycle/Rounds.antt =====
-- The loop of detectCycle (apps/backend/src/missions/missionGraphCompiler.ts): it ends before its
-- fuel does.
use chanter_operator.Prelude.{
  ℕ, ◌+◌, ◌≤◌, ◌<◌, ◌≡◌, suc, zero, refl, ap, String, true, List, [], ◌∷◌, ◌++◌, ◌==◌, arith,
  if◌then◌else◌, count_by, count_by-append, length, length-append, map, Bool-cases, inl, inr,
}
use chanter_operator.MissionGraph.Compiler.Nodes.{ParsedNode}
use chanter_operator.MissionGraph.Compiler.Cycle.{is_released, is_empty, initial_queue, consume}
use chanter_operator.MissionGraph.Compiler.Cycle.Release.{minus-nil, left, release_round}
use chanter_operator.MissionGraph.Compiler.Cycle.Counts.{count, named, IsDistinct}
use chanter_operator.MissionGraph.Compiler.Cycle.Pigeonhole.{length_le}
use chanter_operator.MissionGraph.Compiler.Cycle.Order.{IsRound, next, pushed}

abbrev pub ids_of : List ParsedNode → List String
ids_of ns = map (λ (n : ParsedNode). n.node_id) ns

pub count_ids : (s : String) (ns : List ParsedNode) → count s (ids_of ns) ≡ count_by (named s) ns
count_ids s [] = refl
count_ids s (n ∷ ns) = ground (arith, count_ids s ns)

pub length_ids : (ns : List ParsedNode) → length (ids_of ns) ≡ length ns
length_ids [] = refl
length_ids (n ∷ ns) = ap suc (length_ids ns)

count-queue :
    (s : String) (n : ParsedNode) (ns : List ParsedNode)
    → count s (initial_queue (n ∷ ns))
      ≡ (if is_empty n.depends_on then if n.node_id == s then 1 else 0 else 0)
        + count s (initial_queue ns)
count-queue s n ns = elim (Bool-cases (is_empty n.depends_on)) [
  | inl free ↦ rw free (ground arith)
  | inr waiting ↦ rw waiting (omega arith)
]

initial_few :
    (s : String) (ns : List ParsedNode) → count s (initial_queue ns) ≤ count_by (named s) ns
initial_few s [] = omega arith
initial_few s (n ∷ ns) = ground (arith, count-queue s n ns, initial_few s ns)

initial_released :
    (s : String) (ns : List ParsedNode)
    → count_by (named s) ns ≤ 1
    → 0 < count s (initial_queue ns)
    → is_released s (left [] ns) ≡ true
initial_released s [] few h = absurd (omega arith)
initial_released s (n ∷ ns) few h = elim (Bool-cases (n.node_id == s)) [
  | inl own ↦
      rw (own, minus-nil n.depends_on)
        (ground (arith, h, few, own, count-queue s n ns, initial_few s ns))
  | inr other ↦ rw other (
      initial_released s ns (ground (arith, few, other))
        (ground (arith, h, other, count-queue s n ns)))
]

initial_complete :
    (s : String) (ns : List ParsedNode)
    → 0 < count_by (named s) ns
    → is_released s (left [] ns) ≡ true
    → 0 < count s (initial_queue ns)
initial_complete s [] some_node h = absurd (omega arith)
initial_complete s (n ∷ ns) some_node h = elim (Bool-cases (n.node_id == s)) [
  | inl own ↦ ground (arith, h, own, count-queue s n ns, ap is_empty (minus-nil n.depends_on))
  | inr other ↦ ground (arith, h, some_node, other, count-queue s n ns, initial_complete s ns)
]

module _ (nodes : List ParsedNode) (distinct : IsDistinct nodes) where
  pub initial : IsRound nodes [] (initial_queue nodes)
  initial = record {
    few = λ s. omega (arith, initial_few s nodes);
    released = λ s h. initial_released s nodes (distinct.ids s) (omega arith);
    complete = λ s h e. omega (arith, initial_complete s nodes h e);
    ordered = _;
  }

  -- There are no more rounds than nodes.
  pub few_rounds :
      (taken queue : List String)
      → IsRound nodes taken queue
      → length taken + length queue ≤ length nodes
  few_rounds taken queue h =
      let short =
        length_le (taken ++ queue) (ids_of nodes)
          (λ s. rw (count_by-append (λ x. x == s) taken queue, count_ids s nodes) (h.few s)) in
      ground (arith, length-append taken queue, length_ids nodes)

  -- The loop ends with an empty queue.
  pub last_round :
      (fuel : ℕ) (taken queue : List String)
      → IsRound nodes taken queue
      → length nodes < fuel + length taken
      → (last : List String) × IsRound nodes last []
        × (length last ≡ (consume fuel nodes queue (left taken nodes)).0 + length taken)
        × ((consume fuel nodes queue (left taken nodes)).1 ≡ left last nodes)
  unfolding consume
  last_round zero taken queue h enough = absurd (ground (arith, few_rounds taken queue h))
  last_round (suc fuel) taken [] h enough = (taken, h, omega arith, refl)
  last_round (suc fuel) taken (c ∷ queue) h enough =
      let later =
        last_round fuel (c ∷ taken) (queue ++ pushed nodes taken c)
          (next nodes distinct taken queue c h) (omega arith) in
      (
        later.0,
        later.1,
        rw (release_round taken c nodes) (ground (arith, later.2)),
        rw (release_round taken c nodes) later.3,
      )

  -- Any two fuels that are enough give the same result.
  pub enough_rounds :
      (f g : ℕ) (taken queue : List String)
      → IsRound nodes taken queue
      → length nodes < f + length taken
      → length nodes < g + length taken
      → consume f nodes queue (left taken nodes) ≡ consume g nodes queue (left taken nodes)
  unfolding consume
  enough_rounds zero g taken queue h enough enough_too =
      absurd (ground (arith, few_rounds taken queue h))
  enough_rounds (suc f) zero taken queue h enough enough_too =
      absurd (ground (arith, few_rounds taken queue h))
  enough_rounds (suc f) (suc g) taken [] h enough enough_too = refl
  enough_rounds (suc f) (suc g) taken (c ∷ queue) h enough enough_too =
      rw
        (
          release_round taken c nodes,
          enough_rounds f g (c ∷ taken) (queue ++ pushed nodes taken c)
              (next nodes distinct taken queue c h) (omega arith) (omega arith),
        )
        refl
