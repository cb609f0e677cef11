-- ===== src/MissionGraph/Journal/History.antt =====
-- How the rows of apps/backend/src/missions/missionGraphJournal.ts live on through its methods.
pub mod Writes
pub mod Runs
use mathlib.Core.List.{append-nil, append_assoc}
use chanter_operator.Prelude.{
  ℕ, ◌≤◌, ◌≡◌, refl, sym, ap, ◌∙◌, String, Bool, true, false, Option, none, some, List, [], ◌∷◌,
  ◌++◌, ◌==◌, ◌&&◌, arith, if◌then◌else◌, find, update_where, find-append, find-update_where,
  find-holds, Bool-cases, inl, inr, eq_iff,
}
use chanter_operator.Prelude.Exec.Rules.{Keeps, Keeps-checked, if-keeps}
use chanter_operator.MissionGraph.States.{
  GraphState, NodeState, allowed_graph_transition, allowed_node_transition, same_graph_state,
  same_node_state, is_final_graph,
}
use chanter_operator.MissionGraph.Records.{
  GraphRecord, NodeRecord, EventRecord, EventInput, ApprovalInput, NodeTransitionInput,
}
use chanter_operator.MissionGraph.Journal.{Journal, graph_is, node_is, next_id, append_event_as}
use chanter_operator.MissionGraph.Journal.Rule.{IsKept}
use chanter_operator.MissionGraph.Journal.Calls.{Call, run, run-keeps}
use chanter_operator.MissionGraph.Journal.Transitions.{
  update_graph, update_node, insert_replay, moved_graph, moved_node,
}
use chanter_operator.MissionGraph.Journal.Insert.{
  insert_graph_row, insert_node_row, insert_edge_row,
}

-- Any number of allowed transitions, one after the other.
pub data GraphPath (s : GraphState) : GraphState → Type 0 where
  here : GraphPath s s
  next : {t u : GraphState} → GraphPath s t → allowed_graph_transition t u ≡ true → GraphPath s u

pub data NodePath (s : NodeState) : NodeState → Type 0 where
  here : NodePath s s
  next : {t u : NodeState} → NodePath s t → allowed_node_transition t u ≡ true → NodePath s u

pub GraphPath-trans : {s t u : GraphState} → GraphPath s t → GraphPath t u → GraphPath s u
GraphPath-trans p GraphPath.here = p
GraphPath-trans p (GraphPath.next q a) = GraphPath.next (GraphPath-trans p q) a

pub NodePath-trans : {s t u : NodeState} → NodePath s t → NodePath t u → NodePath s u
NodePath-trans p NodePath.here = p
NodePath-trans p (NodePath.next q a) = NodePath.next (NodePath-trans p q) a

-- The same graph later: its identity and its compiled document stand, its state has moved lawfully.
pub record GraphLater (g h : GraphRecord) : Type 0 where
  pub same_id : h.graph_id ≡ g.graph_id
  pub same_trace : h.trace_id ≡ g.trace_id
  pub same_key : h.idempotency_key ≡ g.idempotency_key
  pub same_document : h.compiled_graph_json ≡ g.compiled_graph_json
  pub same_hash : h.graph_hash ≡ g.graph_hash
  pub same_count : h.node_count ≡ g.node_count
  pub path : GraphPath g.status h.status

-- The same node later.
pub record NodeLater (n m : NodeRecord) : Type 0 where
  pub same_graph : m.graph_id ≡ n.graph_id
  pub same_id : m.node_id ≡ n.node_id
  pub same_dependencies : m.depends_on ≡ n.depends_on
  pub same_child : m.child_mission_id ≡ n.child_mission_id
  pub path : NodePath n.status m.status

-- The journal `t` has every row of `s`, later, and the events of `s` before its own.
pub record Extends (s t : Journal) : Type 0 where
  pub graphs_live :
      (id : String) (g : GraphRecord)
      → find (graph_is id) s.graphs ≡ some g
      → (h : GraphRecord) × (find (graph_is id) t.graphs ≡ some h) × GraphLater g h
  pub nodes_live :
      (id node_id : String) (n : NodeRecord)
      → find (node_is id node_id) s.nodes ≡ some n
      → (m : NodeRecord) × (find (node_is id node_id) t.nodes ≡ some m) × NodeLater n m
  pub events_kept : (rest : List EventRecord) × (t.events ≡ s.events ++ rest)

pub GraphLater-refl : (g : GraphRecord) → GraphLater g g
GraphLater-refl g = record {
  same_id = refl;
  same_trace = refl;
  same_key = refl;
  same_document = refl;
  same_hash = refl;
  same_count = refl;
  path = GraphPath.here;
}

pub NodeLater-refl : (n : NodeRecord) → NodeLater n n
NodeLater-refl n = record {
  same_graph = refl;
  same_id = refl;
  same_dependencies = refl;
  same_child = refl;
  path = NodePath.here;
}

GraphLater-trans : {g h k : GraphRecord} → GraphLater g h → GraphLater h k → GraphLater g k
GraphLater-trans a b = record {
  same_id = b.same_id ∙ a.same_id;
  same_trace = b.same_trace ∙ a.same_trace;
  same_key = b.same_key ∙ a.same_key;
  same_document = b.same_document ∙ a.same_document;
  same_hash = b.same_hash ∙ a.same_hash;
  same_count = b.same_count ∙ a.same_count;
  path = GraphPath-trans a.path b.path;
}

NodeLater-trans : {n m k : NodeRecord} → NodeLater n m → NodeLater m k → NodeLater n k
NodeLater-trans a b = record {
  same_graph = b.same_graph ∙ a.same_graph;
  same_id = b.same_id ∙ a.same_id;
  same_dependencies = b.same_dependencies ∙ a.same_dependencies;
  same_child = b.same_child ∙ a.same_child;
  path = NodePath-trans a.path b.path;
}

pub Extends-refl : (s : Journal) → Extends s s
Extends-refl s = record {
  graphs_live = λ id g e. (g, e, GraphLater-refl g);
  nodes_live = λ id node_id n e. (n, e, NodeLater-refl n);
  events_kept = ([], sym (append-nil s.events));
}

pub Extends-trans : {s t u : Journal} → Extends s t → Extends t u → Extends s u
Extends-trans {s} {t} {u} a b = record {
  graphs_live = λ id g e.
      let (h, eh, gh) = a.graphs_live id g e in
      let (k, ek, hk) = b.graphs_live id h eh in (k, ek, GraphLater-trans gh hk);
  nodes_live = λ id node_id n e.
      let (m, em, nm) = a.nodes_live id node_id n e in
      let (k, ek, mk) = b.nodes_live id node_id m em in (k, ek, NodeLater-trans nm mk);
  events_kept =
      let (xs, ex) = a.events_kept in
      let (ys, ey) = b.events_kept in
      (xs ++ ys, ey ∙ ap (λ (es : List EventRecord). es ++ ys) ex ∙ append_assoc s.events xs ys);
}
