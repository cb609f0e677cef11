-- ===== src/MissionGraph/Journal/History/Writes.antt =====
-- Each write of apps/backend/src/missions/missionGraphJournal.ts extends the journal.
use mathlib.Core.List.{append-nil}
use chanter_operator.Prelude.{
  ◌+◌, ◌≡◌, refl, sym, ap, ◌∙◌, String, Bool, true, Option, none, some, List, [], ◌∷◌, ◌++◌, ◌&&◌,
  arith, if◌then◌else◌, find, update_where, find-append, find-update_where, Bool-cases, inl, inr,
}
use chanter_operator.Prelude.Exec.{ok}
use chanter_operator.Prelude.Exec.Rules.{Keeps-checked, if-keeps}
use chanter_operator.MissionGraph.States.{
  GraphState, NodeState, allowed_graph_transition, allowed_node_transition, same_graph_state,
  same_node_state,
}
use chanter_operator.MissionGraph.Records.{
  GraphRecord, NodeRecord, EventRecord, EventInput, ApprovalInput, NodeTransitionInput, EventDraft,
  ReplayRow,
}
use chanter_operator.MissionGraph.Journal.{
  Journal, graph_is, node_is, next_id, append_event_as, event_row, max_sequence, event_fits,
}
use chanter_operator.MissionGraph.Journal.Rule.{Policy, IsKept}
use chanter_operator.MissionGraph.Journal.Transitions.{
  update_graph, update_node, insert_replay, moved_graph, moved_node,
}
use chanter_operator.MissionGraph.Journal.Insert.{
  insert_graph_row, insert_node_row, insert_edge_row,
}
use chanter_operator.MissionGraph.Journal.History.{
  Extends, Extends-refl, Extends-trans, GraphLater, NodeLater, GraphLater-refl, NodeLater-refl,
  GraphPath, NodePath,
}

-- A write that keeps the tables of graphs and nodes, and appends to the events.
Extends-of_tables :
    (s t : Journal)
    → t.graphs ≡ s.graphs
    → t.nodes ≡ s.nodes
    → (rest : List EventRecord) × (t.events ≡ s.events ++ rest)
    → Extends s t
Extends-of_tables s t eg en ee = record {
  graphs_live = λ id g e. (g, ap (find (graph_is id)) eg ∙ e, GraphLater-refl g);
  nodes_live = λ id node_id n e. (n, ap (find (node_is id node_id)) en ∙ e, NodeLater-refl n);
  events_kept = ee;
}

pub same_graph_state-eq : (s t : GraphState) → same_graph_state s t ≡ true → s ≡ t
same_graph_state-eq s t h = ground arith

same_node_state-eq : (s t : NodeState) → same_node_state s t ≡ true → s ≡ t
same_node_state-eq s t h = ground arith

moved_graph-GraphLater :
    (to : GraphState) (input : EventInput) (approval : Option ApprovalInput)
    (current g : GraphRecord)
    → allowed_graph_transition current.status to ≡ true
    → g.status ≡ current.status
    → GraphLater g (moved_graph to input approval current g)
moved_graph-GraphLater to input none current g allowed same = record {
  same_id = refl;
  same_trace = refl;
  same_key = refl;
  same_document = refl;
  same_hash = refl;
  same_count = refl;
  path = GraphPath.next GraphPath.here (rw same allowed);
}
moved_graph-GraphLater to input (some a) current g allowed same = record {
  same_id = refl;
  same_trace = refl;
  same_key = refl;
  same_document = refl;
  same_hash = refl;
  same_count = refl;
  path = GraphPath.next GraphPath.here (rw same allowed);
}

moved_graph-graph_id :
    (to : GraphState) (input : EventInput) (approval : Option ApprovalInput)
    (current g : GraphRecord)
    → (moved_graph to input approval current g).graph_id ≡ g.graph_id
moved_graph-graph_id to input none current g = refl
moved_graph-graph_id to input (some a) current g = refl

module _ (to : GraphState) (input : EventInput) (approval : Option ApprovalInput)
    (current : GraphRecord) (allowed : allowed_graph_transition current.status to ≡ true) where
  abbrev graph_hit : GraphRecord → Bool
  graph_hit g = graph_is current.graph_id g && same_graph_state g.status current.status

  hit_graph-GraphLater :
      (g : GraphRecord)
      → GraphLater g (if graph_hit g then moved_graph to input approval current g else g)
  hit_graph-GraphLater g = elim (Bool-cases (graph_hit g)) [
    | inl hit ↦ rw hit (
        moved_graph-GraphLater to input approval current g allowed
          (same_graph_state-eq g.status current.status (ground arith)))
    | inr miss ↦ rw miss (GraphLater-refl g)
  ]

  update_graph-Extends : (s : Journal) → Extends s (update_graph to input approval current s).1
  unfolding update_graph
  update_graph-Extends s = record {
    graphs_live = λ id g e. (
      if graph_hit g then moved_graph to input approval current g else g,
      find-update_where (graph_is id) graph_hit (moved_graph to input approval current) s.graphs g
          (λ x. rw (moved_graph-graph_id to input approval current x)) e,
      hit_graph-GraphLater g,
    );
    nodes_live = λ id node_id n e. (n, e, NodeLater-refl n);
    events_kept = ([], sym (append-nil s.events));
  }

module _ (to : NodeState) (input : NodeTransitionInput) (current : NodeRecord)
    (allowed : allowed_node_transition current.status to ≡ true) where
  abbrev node_hit : NodeRecord → Bool
  node_hit n = node_is current.graph_id current.node_id n && same_node_state n.status current.status

  moved_node-NodeLater :
      (n : NodeRecord) → n.status ≡ current.status → NodeLater n (moved_node to input current n)
  moved_node-NodeLater n same = record {
    same_graph = refl;
    same_id = refl;
    same_dependencies = refl;
    same_child = refl;
    path = NodePath.next NodePath.here (rw same allowed);
  }

  hit_node-NodeLater :
      (n : NodeRecord) → NodeLater n (if node_hit n then moved_node to input current n else n)
  hit_node-NodeLater n = elim (Bool-cases (node_hit n)) [
    | inl hit ↦
        rw hit (moved_node-NodeLater n (same_node_state-eq n.status current.status (ground arith)))
    | inr miss ↦ rw miss (NodeLater-refl n)
  ]

  updated_node-Extends :
      (s : Journal)
      → Extends s (record s {
        db = record (s.db) { nodes = update_where node_hit (moved_node to input current) s.nodes };
      })
  updated_node-Extends s = record {
    graphs_live = λ id g e. (g, e, GraphLater-refl g);
    nodes_live = λ id node_id n e. (
      if node_hit n then moved_node to input current n else n,
      find-update_where (node_is id node_id) node_hit (moved_node to input current) s.nodes n
          (λ x. refl) e,
      hit_node-NodeLater n,
    );
    events_kept = ([], sym (append-nil s.events));
  }

  update_node-Extends : (s : Journal) → Extends s (update_node to input current s).1
  unfolding update_node
  update_node-Extends s =
      if-keeps (Extends s) _ _ _ (λ _. Extends-refl s) (λ _. updated_node-Extends s)

module _ (s : Journal) where
  append_event_as-Extends :
      (event_id id : String) (draft : EventDraft)
      → Extends s (append_event_as event_id id draft s).1
  unfolding append_event_as
  append_event_as-Extends event_id id draft =
      let row = event_row event_id id (max_sequence id s.events + 1) draft in
      let with_row : Journal = record s { db = record (s.db) { events = s.events ++ row ∷ [] } } in
      if-keeps (Extends s) (event_fits row s) (ok tt, with_row) (_, s)
        (λ _. Extends-of_tables s with_row refl refl (row ∷ [], refl)) (λ _. Extends-refl s)

  unchanged_events : (rest : List EventRecord) × (s.events ≡ s.events ++ rest)
  unchanged_events = ([], sym (append-nil s.events))

  insert_replay-Extends : (row : ReplayRow) → Extends s (insert_replay row s).1
  unfolding insert_replay
  insert_replay-Extends row =
      let with_row : Journal = record s {
        db = record (s.db) { replays = s.replays ++ row ∷ [] };
      } in
      if-keeps (Extends s) _ (_, s) (ok tt, with_row) (λ _. Extends-refl s)
        (λ _. Extends-of_tables s with_row refl refl unchanged_events)

  added_graph-Extends :
      (row : GraphRecord)
      → Extends s (record s { db = record (s.db) { graphs = s.graphs ++ row ∷ [] } })
  added_graph-Extends row = record {
    graphs_live = λ id g e. (g, find-append (graph_is id) s.graphs _ g e, GraphLater-refl g);
    nodes_live = λ id node_id n e. (n, e, NodeLater-refl n);
    events_kept = unchanged_events;
  }

  added_node-Extends :
      (row : NodeRecord)
      → Extends s (record s { db = record (s.db) { nodes = s.nodes ++ row ∷ [] } })
  added_node-Extends row = record {
    graphs_live = λ id g e. (g, e, GraphLater-refl g);
    nodes_live =
        λ id node_id n e. (n, find-append (node_is id node_id) s.nodes _ n e, NodeLater-refl n);
    events_kept = unchanged_events;
  }

-- From a fixed journal, every write leads to an extension of it.
pub writes-Extends : {policy : Policy} (origin : Journal) → IsKept policy (Extends origin)
unfolding next_id insert_graph_row insert_node_row insert_edge_row
writes-Extends origin = record {
  appends = record {
    rollback = λ before after h k. record {
      graphs_live = h.graphs_live;
      nodes_live = h.nodes_live;
      events_kept = h.events_kept;
    };
    draw = record {
      at = λ j h. record {
        graphs_live = h.graphs_live;
        nodes_live = h.nodes_live;
        events_kept = h.events_kept;
      };
    };
    event = λ event_id id draft. record {
      at = λ j h. Extends-trans h (append_event_as-Extends j event_id id draft);
    };
    replay = λ row. record { at = λ j h. Extends-trans h (insert_replay-Extends j row) };
    graph_insert =
        λ input. Keeps-checked _ _ _ (λ j h _. Extends-trans h (added_graph-Extends j _));
    node_insert =
        λ input n. Keeps-checked _ _ _ (λ j h _. Extends-trans h (added_node-Extends j _));
    edge_insert = λ row.
        Keeps-checked _ _ _
          (λ j h _. Extends-trans h (Extends-of_tables j _ refl refl (unchanged_events j)));
  };
  graph_update = λ to input approval current allowed within. record {
    at = λ j h. Extends-trans h (update_graph-Extends to input approval current allowed j);
  };
  node_update = λ to input current allowed. record {
    at = λ j h. Extends-trans h (update_node-Extends to input current allowed j);
  };
}
