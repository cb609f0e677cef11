-- ===== src/MissionGraph/Compiler/Cycle/Release.antt =====
-- One round of detectCycle (apps/backend/src/missions/missionGraphCompiler.ts): what is left of each
-- node's dependencies once some nodes are taken, and what a round pushes onto the queue.
use text.Mathlib.TextPositions.{eq_refl}
use chanter_operator.Prelude.{
  eq_turn, ◌≡◌, refl, ap, ◌∙◌, String, Bool, true, false, not, ◌||◌, List, [], ◌∷◌, ◌++◌, ◌==◌,
  arith, if◌then◌else◌, keep, any, Bool-cases, inl, inr, eq_iff,
}
use chanter_operator.MissionGraph.Compiler.Nodes.{ParsedNode}
use chanter_operator.MissionGraph.Compiler.Cycle.{
  Remaining, initial_remaining, mentions, dependents_of, without, delete_from, is_released, release,
}

abbrev pub mem : String → List String → Bool
mem s = any (λ x. x == s)

-- The dependencies that are not taken yet.
abbrev pub minus : List String → List String → List String
minus taken ds = keep (λ d. not (mem d taken)) ds

-- The entries of remainingDependencies once the nodes `taken` are consumed.
abbrev pub left : List String → List ParsedNode → List Remaining
left taken [] = []
left taken (n ∷ ns) =
    record { node = n.node_id; dependencies = minus taken n.depends_on } ∷ left taken ns

-- The entries within the round of `current`, where the dependents in `handled` are dealt with.
abbrev partly : List String → String → (String → Bool) → List ParsedNode → List Remaining
partly taken current handled [] = []
partly taken current handled (n ∷ ns) =
    record {
      node = n.node_id;
      dependencies =
          if handled n.node_id
          then minus (current ∷ taken) n.depends_on
          else minus taken n.depends_on;
    }
    ∷ partly taken current handled ns

pub minus-nil : (ds : List String) → minus [] ds ≡ ds
minus-nil [] = refl
minus-nil (d ∷ ds) = ap (λ (l : List String). d ∷ l) (minus-nil ds)

pub initial-left : (nodes : List ParsedNode) → initial_remaining nodes ≡ left [] nodes
initial-left [] = refl
initial-left (n ∷ ns) = rw (minus-nil n.depends_on, initial-left ns) refl

moved : (a b m h all : Bool) → a ≡ b → all ≡ ((a || m) || h) → all ≡ (m || (b || h))
moved a b m h all same e = ground arith

module _ (taken : List String) (current : String) where
  without-minus : (ds : List String) → without current (minus taken ds) ≡ minus (current ∷ taken) ds
  without-minus [] = refl
  without-minus (d ∷ ds) = ground (arith, eq_turn d current, without-minus ds)

  without-minus_again :
      (ds : List String) → without current (minus (current ∷ taken) ds) ≡ minus (current ∷ taken) ds
  without-minus_again [] = refl
  without-minus_again (d ∷ ds) = ground (arith, eq_turn d current, without-minus_again ds)

  pub minus-unmentioned :
      (ds : List String) → mem current ds ≡ false → minus (current ∷ taken) ds ≡ minus taken ds
  minus-unmentioned [] h = refl
  minus-unmentioned (d ∷ ds) h = ground (arith, eq_turn d current, minus-unmentioned ds)

  partly-cong :
      (f g : String → Bool)
      → ((x : String) → f x ≡ g x)
      → (ns : List ParsedNode) → partly taken current f ns ≡ partly taken current g ns
  partly-cong f g same [] = refl
  partly-cong f g same (n ∷ ns) = rw (same n.node_id, partly-cong f g same ns) refl

  without_if :
      (b : Bool) (ds : List String)
      → without current (if b then minus (current ∷ taken) ds else minus taken ds)
        ≡ minus (current ∷ taken) ds
  without_if true ds = without-minus_again ds
  without_if false ds = without-minus ds

  delete_from-partly :
      (d : String) (handled : String → Bool) (ns : List ParsedNode)
      → delete_from current d (partly taken current handled ns)
        ≡ partly taken current (λ x. x == d || handled x) ns
  delete_from-partly d handled [] = refl
  delete_from-partly d handled (n ∷ ns) = elim (Bool-cases (n.node_id == d)) [
    | inl own ↦
        rw (own, without_if (handled n.node_id) n.depends_on, delete_from-partly d handled ns) refl
    | inr other ↦ rw (other, delete_from-partly d handled ns) refl
  ]

  is_released-partly :
      (d : String) (handled : String → Bool) (ns : List ParsedNode)
      → handled d ≡ true
      → is_released d (partly taken current handled ns) ≡ is_released d (left (current ∷ taken) ns)
  is_released-partly d handled [] h = refl
  is_released-partly d handled (n ∷ ns) h = elim (Bool-cases (n.node_id == d)) [
    | inl own ↦
        let done : handled n.node_id ≡ true = ap handled ((eq_iff n.node_id d).0 own) ∙ h in
        rw (own, done) refl
    | inr other ↦ rw other (is_released-partly d handled ns h)
  ]

  release-partly :
      (ds : List String) (handled all : String → Bool) (ns : List ParsedNode)
      → ((x : String) → all x ≡ (mem x ds || handled x))
      → release current ds (partly taken current handled ns)
        ≡ (partly taken current all ns, keep (λ d. is_released d (left (current ∷ taken) ns)) ds)
  unfolding release
  release-partly [] handled all ns h = rw (partly-cong all handled h ns) refl
  release-partly (d ∷ ds) handled all ns h =
      rw
        (
          delete_from-partly d handled ns,
          release-partly ds (λ x. x == d || handled x) all ns
              (λ x. moved (d == x) (x == d) (mem x ds) (handled x) (all x) (eq_turn d x) (h x)),
          is_released-partly d (λ x. x == d || handled x) ns (rw (eq_refl d) refl),
        )
        refl

  left-partly : (ns : List ParsedNode) → left taken ns ≡ partly taken current (λ x. false) ns
  left-partly [] = refl
  left-partly (n ∷ ns) = rw (left-partly ns) refl

  mentioned :
      (ds : List String) (node : String)
      → mem current ds ≡ true
      → mem node (mentions current ds node) ≡ true
  mentioned [] node h = cc
  mentioned (d ∷ ds) node h = elim (Bool-cases (d == current)) [
    | inl here ↦ rw (here, eq_refl node) refl
    | inr later ↦ rw later (mentioned ds node (ground arith))
  ]

  mem-append : (s : String) (xs ys : List String) → mem s (xs ++ ys) ≡ (mem s xs || mem s ys)
  mem-append s [] ys = refl
  mem-append s (x ∷ xs) ys = ground (arith, mem-append s xs ys)

  -- Where all dependents are dealt with, the other nodes never mentioned the one that is taken.
  partly-left :
      (all : String → Bool) (ns : List ParsedNode)
      → ((x : String) → mem x (dependents_of ns current) ≡ true → all x ≡ true)
      → partly taken current all ns ≡ left (current ∷ taken) ns
  unfolding dependents_of
  partly-left all [] h = refl
  partly-left all (n ∷ ns) h =
      let rest =
        partly-left all ns (λ x e.
          h x (rw (mem-append x (mentions current n.depends_on n.node_id)) (ground arith))) in
      elim (Bool-cases (mem current n.depends_on)) [
        | inl is_dependent ↦
            let own = h n.node_id (
              rw
                (
                  mem-append n.node_id (mentions current n.depends_on n.node_id),
                  mentioned n.depends_on n.node_id is_dependent,
                )
                refl) in
            rw (own, rest) refl
        | inr other ↦ elim (Bool-cases (all n.node_id)) [
          | inl done ↦ rw (done, rest) refl
          | inr open_node ↦ rw (open_node, minus-unmentioned n.depends_on other, rest) refl
        ]
      ]

  -- One round takes the current node off every list of dependencies, and pushes its dependents that
  -- have none left.
  pub release_round :
      (ns : List ParsedNode)
      → release current (dependents_of ns current) (left taken ns) ≡ (
        left (current ∷ taken) ns,
        keep (λ d. is_released d (left (current ∷ taken) ns)) (dependents_of ns current),
      )
  release_round ns =
      let all : String → Bool = λ x. mem x (dependents_of ns current) || false in
      rw
        (
          left-partly ns,
          release-partly (dependents_of ns current) (λ x. false) all ns (λ x. refl),
          partly-left all ns (λ x e. rw e refl),
        )
        refl
