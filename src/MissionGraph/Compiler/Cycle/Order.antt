-- ===== src/MissionGraph/Compiler/Cycle/Order.antt =====
-- The rounds of detectCycle (apps/backend/src/missions/missionGraphCompiler.ts): what holds of the
-- nodes that are taken and of the queue before each of them.
use chanter_operator.Prelude.{
  ◌+◌, ◌≤◌, ◌<◌, ◌≡◌, refl, String, true, false, List, [], ◌∷◌, ◌++◌, ◌==◌, arith, keep, count_by,
  count_by-append, Bool-cases, inl, inr,
}
use chanter_operator.MissionGraph.Compiler.Nodes.{ParsedNode}
use chanter_operator.MissionGraph.Compiler.Cycle.{dependents_of, is_released, is_empty}
use chanter_operator.MissionGraph.Compiler.Cycle.Release.{mem, minus, left, minus-unmentioned}
use chanter_operator.MissionGraph.Compiler.Cycle.Counts.{
  count, named, IsDistinct, count_dependents, count-keep, kept_passes, not_mem, waits, kept,
  count_of_mem, count_head,
}
use chanter_operator.MissionGraph.Compiler.Cycle.Pigeonhole.{count-head}

-- Each node that is taken had none of its dependencies left.
abbrev pub IsOrdered : List ParsedNode → List String → Type 0
IsOrdered nodes [] = Unit
IsOrdered nodes (x ∷ rest) = (is_released x (left rest nodes) ≡ true) × IsOrdered nodes rest

-- What holds before each round: the nodes that are taken or in the queue are nodes of the graph,
-- each there once at most, and are those that have none of their dependencies left.
pub record IsRound (nodes : List ParsedNode) (taken queue : List String) : Type 0 where
  pub few : (s : String) → count s taken + count s queue ≤ count_by (named s) nodes
  pub released :
      (s : String) → 0 < count s taken + count s queue → is_released s (left taken nodes) ≡ true
  pub complete :
      (s : String)
      → 0 < count_by (named s) nodes
      → is_released s (left taken nodes) ≡ true
      → 0 < count s taken + count s queue
  pub ordered : IsOrdered nodes taken

minus-grows :
    (c : String) (taken ds : List String)
    → is_empty (minus taken ds) ≡ true
    → is_empty (minus (c ∷ taken) ds) ≡ true
minus-grows c taken [] h = refl
minus-grows c taken (d ∷ ds) h = ground (arith, h, minus-grows c taken ds)

released-grows :
    (s c : String) (taken : List String) (ns : List ParsedNode)
    → is_released s (left taken ns) ≡ true
    → is_released s (left (c ∷ taken) ns) ≡ true
released-grows s c taken [] h = h
released-grows s c taken (n ∷ ns) h =
    ground (arith, h, minus-grows c taken n.depends_on, released-grows s c taken ns)

-- A node that is released by taking `c` depends on it.
depends :
    (s c : String) (taken : List String) (ns : List ParsedNode)
    → is_released s (left taken ns) ≡ false
    → is_released s (left (c ∷ taken) ns) ≡ true
    → 0 < count s (dependents_of ns c)
depends s c taken [] before after = absurd (ground (arith, before, after))
depends s c taken (n ∷ ns) before after = elim (Bool-cases (n.node_id == s)) [
  | inl own ↦ elim (Bool-cases (mem c n.depends_on)) [
    | inl mentioned ↦
        ground (arith, count_head s c n ns, own, count_of_mem c n.depends_on mentioned)
    | inr other ↦
        absurd (ground (arith, before, after, own, minus-unmentioned taken c n.depends_on other))
  ]
  | inr other ↦ ground (arith, count_head s c n ns, other, before, after, depends s c taken ns)
]

-- What a round pushes onto the queue.
abbrev pub pushed : List ParsedNode → List String → String → List String
pushed nodes taken c = keep (λ d. is_released d (left (c ∷ taken) nodes)) (dependents_of nodes c)

module _ (nodes : List ParsedNode) (distinct : IsDistinct nodes) where
  fresh :
      (taken queue : List String) (c : String)
      → IsRound nodes taken (c ∷ queue)
      → mem c taken ≡ false
  fresh taken queue c h =
      not_mem c taken (ground (arith, h.few c, count-head c queue, distinct.ids c))

  pushed_new :
      (taken queue : List String) (c s : String)
      → IsRound nodes taken (c ∷ queue)
      → 0 < count s (dependents_of nodes c)
      → count s taken + count s (c ∷ queue) ≡ 0
  pushed_new taken queue c s h some_dependent =
      let waiting =
        waits s c taken nodes distinct.dependencies (fresh taken queue c h) (distinct.ids s)
          some_dependent in
      ground (arith, h.released s, waiting)

  still_released :
      (taken queue : List String) (c : String)
      → IsRound nodes taken (c ∷ queue)
      → (s : String) → 0 < count s (c ∷ taken) + count s (queue ++ pushed nodes taken c)
      → is_released s (left (c ∷ taken) nodes) ≡ true
  still_released taken queue c h s among = elim (Bool-cases (is_released s (left taken nodes))) [
    | inl before ↦ released-grows s c taken nodes before
    | inr waiting ↦
        kept_passes s (λ d. is_released d (left (c ∷ taken) nodes)) (dependents_of nodes c)
          (ground (
            arith,
            among,
            waiting,
            h.released s,
            count_by-append (λ x. x == s) queue (pushed nodes taken c),
          ))
  ]

  still_complete :
      (taken queue : List String) (c : String)
      → IsRound nodes taken (c ∷ queue)
      → (s : String) → 0 < count_by (named s) nodes
      → is_released s (left (c ∷ taken) nodes) ≡ true
      → 0 < count s (c ∷ taken) + count s (queue ++ pushed nodes taken c)
  still_complete taken queue c h s some_node after =
      rw (count_by-append (λ x. x == s) queue (pushed nodes taken c))
        (elim (Bool-cases (is_released s (left taken nodes))) [
          | inl before ↦ ground (arith, h.complete s some_node before)
          | inr waiting ↦ ground (
            arith,
            kept s (λ d. is_released d (left (c ∷ taken) nodes)) (dependents_of nodes c) after
                (depends s c taken nodes waiting after),
          )
        ])

  -- A round keeps it.
  pub next :
      (taken queue : List String) (c : String)
      → IsRound nodes taken (c ∷ queue)
      → IsRound nodes (c ∷ taken) (queue ++ pushed nodes taken c)
  next taken queue c h = record {
    few = λ s. rw (count_by-append (λ x. x == s) queue) (
        ground (
          arith,
          h.few s,
          pushed_new taken queue c s h,
          count_dependents s c nodes distinct.dependencies,
          count-keep s (λ d. is_released d (left (c ∷ taken) nodes)) (dependents_of nodes c),
        ));
    released = still_released taken queue c h;
    complete = still_complete taken queue c h;
    ordered = (h.released c (ground (arith, count-head c queue)), h.ordered);
  }
