-- ===== src/MissionGraph/Journal/Order.antt =====
-- The listing queries of the journal: WHERE graph_id = ? … ORDER BY, by insertion into a sorted list.
pub mod Sorting
pub use chanter_operator.Prelude.Order.{insert_by, sort_by, text_le, text_lt, take}
use chanter_operator.Prelude.{
  ℕ, zero, suc, String, Bool, true, false, ◌&&◌, ◌||◌, List, [], ◌∷◌, ◌==◌, if◌then◌else◌, keep,
  leb,
}
use chanter_operator.Prelude.Exec.{Exec, gets}
use chanter_operator.MissionGraph.Records.{GraphRecord, NodeRecord, EdgeRow, EventRecord}
use chanter_operator.MissionGraph.Journal.{Journal, event_of}

abbrev pub edge_le : EdgeRow → EdgeRow → Bool
edge_le a b =
    text_lt a.from_node_id b.from_node_id
    || (a.from_node_id == b.from_node_id && text_le a.to_node_id b.to_node_id)

unfoldable pub list_nodes : String → Exec Journal (List NodeRecord)
list_nodes id =
    gets λ j. sort_by (λ a b. text_le a.node_id b.node_id) (keep (λ n. n.graph_id == id) j.nodes)

unfoldable pub list_edges : String → Exec Journal (List EdgeRow)
list_edges id = gets λ j. sort_by edge_le (keep (λ e. e.graph_id == id) j.edges)

unfoldable pub list_events : String → Exec Journal (List EventRecord)
list_events id = gets λ j. sort_by (λ a b. leb a.sequence b.sequence) (keep (event_of id) j.events)

-- ORDER BY created_at DESC, graph_id DESC
abbrev pub newest_first : GraphRecord → GraphRecord → Bool
newest_first a b =
    text_lt b.created_at a.created_at
    || (a.created_at == b.created_at && text_le b.graph_id a.graph_id)

unfoldable pub list_graphs : ℕ → Exec Journal (List GraphRecord)
list_graphs limit = gets λ j. take limit (sort_by newest_first j.graphs)
