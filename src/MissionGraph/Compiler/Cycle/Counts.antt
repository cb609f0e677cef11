-- ===== src/MissionGraph/Compiler/Cycle/Counts.antt =====
-- How often detectCycle (apps/backend/src/missions/missionGraphCompiler.ts) meets a node.
use chanter_operator.Prelude.{
  ℕ, ◌+◌, ◌≤◌, ◌<◌, ◌≡◌, refl, sym, ap, ◌∙◌, String, Bool, true, false, List, [], ◌∷◌, ◌==◌, arith,
  if◌then◌else◌, keep, count_by, count_by-append, All, Bool-cases, inl, inr, eq_iff,
}
use chanter_operator.MissionGraph.Compiler.Nodes.{ParsedNode}
use chanter_operator.MissionGraph.Compiler.Cycle.{mentions, dependents_of, is_released, is_empty}
use chanter_operator.MissionGraph.Compiler.Cycle.Release.{mem, minus, left}

abbrev pub count : String → List String → ℕ
count s = count_by (λ x. x == s)

abbrev pub named : String → ParsedNode → Bool
named s n = n.node_id == s

-- The identifiers are distinct, and no node names a dependency twice.
pub record IsDistinct (ns : List ParsedNode) : Type 0 where
  pub ids : (s : String) → count_by (named s) ns ≤ 1
  pub dependencies : All (λ (n : ParsedNode). (d : String) → count d n.depends_on ≤ 1) ns

count-mentions :
    (s c : String) (ds : List String) (node : String)
    → count s (mentions c ds node) ≡ (if node == s then count c ds else 0)
count-mentions s c [] node = ground arith
count-mentions s c (d ∷ ds) node = ground (arith, count-mentions s c ds node)

-- A node is among the dependents once at most.
pub count_dependents :
    (s c : String) (ns : List ParsedNode)
    → All (λ (n : ParsedNode). (d : String) → count d n.depends_on ≤ 1) ns
    → count s (dependents_of ns c) ≤ count_by (named s) ns
unfolding dependents_of
count_dependents s c [] h = omega arith
count_dependents s c (n ∷ ns) h =
    rw
      (
        count_by-append (λ x. x == s) (mentions c n.depends_on n.node_id),
        count-mentions s c n.depends_on n.node_id,
      )
      (ground (arith, h.0 c, count_dependents s c ns h.1))

pub count-keep :
    (s : String) (p : String → Bool) (xs : List String) → count s (keep p xs) ≤ count s xs
count-keep s p [] = omega arith
count-keep s p (x ∷ xs) = ground (arith, count-keep s p xs)

-- What is kept passes the test.
pub kept_passes :
    (s : String) (p : String → Bool) (xs : List String) → 0 < count s (keep p xs) → p s ≡ true
kept_passes s p [] h = absurd (omega arith)
kept_passes s p (x ∷ xs) h = elim (Bool-cases (p x)) [
  | inl passes ↦ elim (Bool-cases (x == s)) [
    | inl same ↦ ap p (sym ((eq_iff x s).0 same)) ∙ passes
    | inr other ↦ kept_passes s p xs (ground (arith, h, passes, other))
  ]
  | inr fails ↦ kept_passes s p xs (ground (arith, h, fails))
]

pub not_mem : (s : String) (xs : List String) → count s xs ≡ 0 → mem s xs ≡ false
not_mem s [] h = refl
not_mem s (x ∷ xs) h = ground (arith, not_mem s xs)

pub count_of_mem : (s : String) (xs : List String) → mem s xs ≡ true → 0 < count s xs
count_of_mem s [] h = cc
count_of_mem s (x ∷ xs) h = ground (arith, count_of_mem s xs)

-- What passes the test is kept.
pub kept :
    (s : String) (p : String → Bool) (xs : List String)
    → p s ≡ true
    → 0 < count s xs
    → 0 < count s (keep p xs)
kept s p [] passes h = h
kept s p (x ∷ xs) passes h = elim (Bool-cases (x == s)) [
  | inl same ↦ rw (ap p ((eq_iff x s).0 same) ∙ passes) (ground (arith, same))
  | inr other ↦ ground (arith, h, other, kept s p xs passes)
]

minus_keeps :
    (c : String) (taken ds : List String)
    → mem c taken ≡ false
    → 0 < count c ds
    → is_empty (minus taken ds) ≡ false
minus_keeps c taken [] fresh h = absurd (omega arith)
minus_keeps c taken (d ∷ ds) fresh h = elim (Bool-cases (d == c)) [
  | inl same ↦ rw (ap (λ (x : String). mem x taken) ((eq_iff d c).0 same) ∙ fresh) refl
  | inr other ↦ elim (Bool-cases (mem d taken)) [
    | inl gone ↦ rw gone (minus_keeps c taken ds fresh (ground (arith, h, other)))
    | inr stays ↦ rw stays refl
  ]
]

count_none : (s c : String) → count s (dependents_of [] c) ≡ 0
unfolding dependents_of
count_none s c = refl

pub count_head :
    (s c : String) (n : ParsedNode) (ns : List ParsedNode)
    → count s (dependents_of (n ∷ ns) c)
      ≡ (if n.node_id == s then count c n.depends_on else 0) + count s (dependents_of ns c)
unfolding dependents_of
count_head s c n ns =
    rw
      (
        count_by-append (λ x. x == s) (mentions c n.depends_on n.node_id),
        count-mentions s c n.depends_on n.node_id,
      )
      refl

-- A dependent of a node that is not taken is not released.
pub waits :
    (s c : String) (taken : List String) (ns : List ParsedNode)
    → All (λ (n : ParsedNode). (d : String) → count d n.depends_on ≤ 1) ns
    → mem c taken ≡ false
    → count_by (named s) ns ≤ 1
    → 0 < count s (dependents_of ns c)
    → is_released s (left taken ns) ≡ false
waits s c taken [] once fresh few h = absurd (ground (arith, count_none s c))
waits s c taken (n ∷ ns) once fresh few h = elim (Bool-cases (n.node_id == s)) [
  | inl own ↦ rw own (
      minus_keeps c taken n.depends_on fresh
        (ground (arith, h, few, own, count_head s c n ns, count_dependents s c ns once.1)))
  | inr other ↦ rw other (
      waits s c taken ns once.1 fresh (ground (arith, few, other))
        (ground (arith, h, other, count_head s c n ns)))
]
