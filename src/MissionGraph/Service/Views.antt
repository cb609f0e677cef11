-- ===== src/MissionGraph/Service/Views.antt =====
-- buildView, hasGraph, getGraph and listGraphs of apps/backend/src/missions/missionGraphService.ts.
use chanter_operator.Prelude.{
  ℕ, String, Bool, false, not, ◌&&◌, Option, none, some, List, [], ◌∷◌, ◌==◌, if◌then◌else◌,
  is_some, trim, ltb, ℕ,
}
use chanter_operator.Prelude.Exec.{Exec, other_error, pure, ◌>>=◌, or_throw}
use chanter_operator.Json.{Json}
use chanter_operator.MissionGraph.Records.{GraphRecord, NodeRecord, EdgeRow, EventRecord}
use chanter_operator.MissionGraph.Compiled.{CompiledGraph}
use chanter_operator.MissionGraph.Journal.{require_graph, get_graph}
use chanter_operator.MissionGraph.Journal.Order.{list_graphs, list_nodes, list_edges, list_events}
use chanter_operator.MissionGraph.Service.{
  Service, Platform, ChildMission, on_journal, read_children, child_reference,
}

-- MissionGraphNodeChildSummary
pub record ChildSummary : Type 0 where
  pub status : String
  pub execution_state : Option String
  pub next_permitted_actions : List String
  pub downstream_ids : Option Json
  pub retry_count : Option ℕ

-- MissionGraphNodeView: the node's columns and its child's summary.
pub record NodeView : Type 0 where
  pub node : NodeRecord
  pub child_mission : Option ChildSummary

-- MissionGraphView: the graph's columns and the parts that are read beside them.
pub record GraphView : Type 0 where
  pub replayed : Bool
  pub graph : GraphRecord
  pub normalized_graph : CompiledGraph
  pub nodes : List NodeView
  pub edges : List EdgeRow
  pub events : List EventRecord

abbrev pub summary : ChildMission → ChildSummary
summary mission = record {
  status = mission.status;
  execution_state = mission.execution_state;
  next_permitted_actions = mission.next_permitted_actions;
  downstream_ids = mission.downstream_ids;
  retry_count = mission.retry_count;
}

module _ {W : Type 0} (p : Platform W) where
  unfoldable pub view_node : NodeRecord → Exec (Service W) NodeView
  view_node node = do
    exists ← read_children (p.has_mission (child_reference node))
    if exists
        then (read_children (p.get_mission (child_reference node)) >>= λ mission.
            pure (record { node = node; child_mission = some (summary mission) }))
        else pure (record { node = node; child_mission = none })

  unfoldable pub view_nodes : List NodeRecord → Exec (Service W) (List NodeView)
  view_nodes [] = pure []
  view_nodes (node ∷ rest) = do view ← view_node node; views ← view_nodes rest; pure (view ∷ views)

  unfoldable pub build_view : GraphRecord → Bool → Exec (Service W) GraphView
  build_view graph replayed = do
    rows ← on_journal (list_nodes graph.graph_id)
    nodes ← view_nodes rows
    compiled ← or_throw (other_error "SyntaxError") (p.parse_compiled graph.compiled_graph_json)
    edges ← on_journal (list_edges graph.graph_id)
    events ← on_journal (list_events graph.graph_id)
    pure (record {
      replayed = replayed;
      graph = graph;
      normalized_graph = compiled;
      nodes = nodes;
      edges = edges;
      events = events;
    })

  unfoldable pub get_graph_view : String → Exec (Service W) GraphView
  get_graph_view id = do graph ← on_journal (require_graph (trim id)); build_view graph false

module _ {W : Type 0} where
  unfoldable pub has_graph : String → Exec (Service W) Bool
  has_graph id = do
    graph ← on_journal (get_graph (trim id))
    pure (not (trim id == "") && is_some graph)

-- listGraphs' argument after Number.isFinite and Math.trunc.
pub data Limit : Type 0 where
  not_finite negative : Limit
  whole : ℕ → Limit

abbrev pub bounded_limit : Limit → ℕ
bounded_limit Limit.not_finite = 50
bounded_limit Limit.negative = 1
bounded_limit (Limit.whole n) = if ltb n 1 then 1 else (if ltb 100 n then 100 else n)

module _ {W : Type 0} (p : Platform W) where
  unfoldable pub view_graphs : List GraphRecord → Exec (Service W) (List GraphView)
  view_graphs [] = pure []
  view_graphs (graph ∷ rest) = do
    view ← build_view p graph false
    views ← view_graphs rest
    pure (view ∷ views)

  unfoldable pub list_graph_views : Limit → Exec (Service W) (List GraphView)
  list_graph_views limit = do
    graphs ← on_journal (list_graphs (bounded_limit limit))
    view_graphs graphs
