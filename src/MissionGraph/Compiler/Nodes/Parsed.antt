-- ===== src/MissionGraph/Compiler/Nodes/Parsed.antt =====
-- The nodes that apps/backend/src/missions/missionGraphCompiler.ts collects without an error.
use chanter_operator.Prelude.{
  ℕ, ◌+◌, ◌≤◌, ◌≡◌, refl, sym, ap, ◌∙◌, String, Bool, true, false, not, Option, none, some, List,
  [], ◌∷◌, ◌==◌, if◌then◌else◌, arith, count_by, length, is_some, All, Bool-cases, inl, inr, eq_iff,
}
use chanter_operator.Json.{Json, Fields, array, items}
use chanter_operator.MissionGraph.Contracts.{Contracts}
use chanter_operator.MissionGraph.Registry.{RegisteredAction}
use chanter_operator.MissionGraph.Compiler.{CompileError, unless}
use chanter_operator.MissionGraph.Compiler.Nodes.{
  Report, ParsedNode, parse_node, parse_nodes, present, dependency_ids, continue, push, stop,
  keep_going, add_node, dependency_errors, shape_errors, parse_payload, parse_dependencies, known,
}
use chanter_operator.MissionGraph.Compiler.Closed.{append_nil}

-- What returns null has pushed an error.
pub record IsReported {A : Type 0} (r : Report A) : Type 0 where
  pub reported : r.0 ≡ [] → is_some r.1 ≡ true

present-IsReported : {A : Type 0} → (o : Option A) (e : CompileError) → IsReported (present o e)
present-IsReported none e = record { reported = λ h. cc }
present-IsReported (some a) e = record { reported = λ h. refl }

module _ {A B : Type 0} where
  continue-IsReported :
      (f : A → Report B) (r : Report A)
      → IsReported r
      → ((a : A) → IsReported (f a))
      → IsReported (continue f r)
  continue-IsReported f (es, none) h later = record {
    reported = λ e. absurd (ground (arith, h.reported e));
  }
  continue-IsReported f (es, some a) h later = record {
    reported = λ e. (later a).reported (append_nil es _ e).1;
  }

keep_going-IsReported : {A : Type 0} → (a : A) → IsReported (keep_going a)
keep_going-IsReported a = record { reported = λ h. refl }

push-IsReported : (es : List CompileError) → IsReported (push es)
push-IsReported es = record { reported = λ h. refl }

stop-IsReported : {A : Type 0} → (e : CompileError) → IsReported (stop {A = A} e)
stop-IsReported e = record { reported = λ h. cc }

parse_dependencies-IsReported :
    (label : String) (v : Option Json) → IsReported (parse_dependencies label v)
parse_dependencies-IsReported label none = keep_going-IsReported []
parse_dependencies-IsReported label (some (array entries)) =
    present-IsReported (dependency_ids (items entries)) _
parse_dependencies-IsReported label (some _) = stop-IsReported _

ruleset reported = (
  continue-IsReported, present-IsReported, keep_going-IsReported, push-IsReported,
  parse_dependencies-IsReported,
)

parse_payload-IsReported :
    (node : Fields) (id : String) (registered : RegisteredAction) (label : String)
    → IsReported (parse_payload node id registered label)
parse_payload-IsReported node id registered label = search reported

new_name : (b : Bool) (e : CompileError) → unless (not b) e ≡ [] → b ≡ false
new_name true e h = cc
new_name false e h = refl

module _ (c : Contracts) where
  parse_node-IsReported : (value : Json) (index : ℕ) → IsReported (parse_node c value index)
  unfolding parse_node
  parse_node-IsReported value index = search (reported, parse_payload-IsReported) depth 16

  abbrev same_id : String → ParsedNode → Bool
  same_id s n = n.node_id == s

  -- Parsing without an error keeps every node.
  parsed_all :
      (o : Option ParsedNode) (seen : List String)
      (rest : List String → List CompileError × List ParsedNode) (n : ℕ)
      → is_some o ≡ true
      → (add_node c o seen rest).0 ≡ []
      → ((s : List String) → (rest s).0 ≡ [] → length (rest s).1 ≡ n)
      → length (add_node c o seen rest).1 ≡ n + 1
  parsed_all none seen rest n given h later = cc
  parsed_all (some node) seen rest n given h later = elim (Bool-cases (known c node.node_id seen)) [
    | inl twice ↦ absurd (let found = rw twice at h in ground (arith, found))
    | inr fresh ↦ rw fresh (omega (arith, later (node.node_id ∷ seen) (rw fresh at h)))
  ]

  pub parse_nodes-length :
      (values : List Json) (index : ℕ) (seen : List String)
      → (parse_nodes c values index seen).0 ≡ []
      → length (parse_nodes c values index seen).1 ≡ length values
  unfolding parse_nodes
  parse_nodes-length [] index seen h = refl
  parse_nodes-length (v ∷ rest) index seen h =
      let (first, later) = append_nil _ _ h in
      parsed_all (parse_node c v index).1 seen (parse_nodes c rest (index + 1)) (length rest)
        ((parse_node-IsReported v index).reported first) later
        (λ s e. parse_nodes-length rest (index + 1) s e)
      ∙ omega arith

  few_added :
      (s : String) (o : Option ParsedNode) (seen : List String)
      (rest : List String → List CompileError × List ParsedNode)
      → ((ids : List String)
          → count_by (same_id s) (rest ids).1 + (if known c s ids then 1 else 0) ≤ 1)
      → count_by (same_id s) (add_node c o seen rest).1 + (if known c s seen then 1 else 0) ≤ 1
  few_added s none seen rest later = later seen
  few_added s (some node) seen rest later = elim (Bool-cases (known c node.node_id seen)) [
    | inl twice ↦ rw twice (later seen)
    | inr fresh ↦ rw fresh (elim (Bool-cases (node.node_id == s)) [
      | inl own ↦
          let unseen : known c s seen ≡ false =
            ap (λ (x : String). known c x seen) (sym ((eq_iff node.node_id s).0 own)) ∙ fresh in
          ground (arith, own, unseen, later (node.node_id ∷ seen))
      | inr other ↦ ground (arith, other, later (node.node_id ∷ seen))
    ])
  ]

  -- The nodes that are kept are named once, and not among the identifiers seen before.
  pub parse_nodes-few :
      (s : String) (values : List Json) (index : ℕ) (seen : List String)
      → count_by (same_id s) (parse_nodes c values index seen).1 + (if known c s seen then 1 else 0)
        ≤ 1
  unfolding parse_nodes
  parse_nodes-few s [] index seen = ground arith
  parse_nodes-few s (v ∷ rest) index seen =
      few_added s (parse_node c v index).1 seen (parse_nodes c rest (index + 1))
        (parse_nodes-few s rest (index + 1))

  once :
      (s id : String) (ids ds seen : List String)
      → dependency_errors c id ids ds seen ≡ []
      → count_by (λ x. x == s) ds + (if known c s seen then 1 else 0) ≤ 1
  once s id ids [] seen h = ground arith
  once s id ids (d ∷ rest) seen h =
      let (first, later) = append_nil _ _ h in
      let fresh = new_name (known c d seen) _ (append_nil _ _ first).1 in
      elim (Bool-cases (d == s)) [
        | inl own ↦
            let unseen : known c s seen ≡ false =
              ap (λ (x : String). known c x seen) (sym ((eq_iff d s).0 own)) ∙ fresh in
            ground (arith, own, unseen, once s id ids rest (d ∷ seen) later)
        | inr other ↦ ground (arith, other, once s id ids rest (d ∷ seen) later)
      ]

  -- Without an error, no node names a dependency twice.
  pub shape_errors-once :
      (ids : List String) (nodes : List ParsedNode)
      → shape_errors c ids nodes ≡ []
      → All (λ (n : ParsedNode). (s : String) → count_by (λ x. x == s) n.depends_on ≤ 1) nodes
  unfolding shape_errors
  shape_errors-once ids [] h = _
  shape_errors-once ids (n ∷ rest) h =
      let (first, later) = append_nil _ _ h in
      (
        (λ s. omega (arith, once s n.node_id ids n.depends_on [] first)),
        shape_errors-once ids rest later,
      )
