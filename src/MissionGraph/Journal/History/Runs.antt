-- ===== src/MissionGraph/Journal/History/Runs.antt =====
-- What any sequence of calls of MissionGraphJournal
-- (apps/backend/src/missions/missionGraphJournal.ts) leaves of the graphs and nodes that it found.
use chanter_operator.Prelude.{◌≡◌, refl, String, true, some, find, List, arith}
use chanter_operator.MissionGraph.States.{
  GraphState, NodeState, allowed_graph_transition, allowed_node_transition, is_final_graph,
  is_final_node,
}
use chanter_operator.MissionGraph.Records.{GraphRecord, NodeRecord}
use chanter_operator.MissionGraph.Journal.{Journal, graph_is, node_is}
use chanter_operator.MissionGraph.Journal.Calls.{Call, run, run-keeps}
use chanter_operator.MissionGraph.Journal.History.{Extends, Extends-refl, GraphPath, NodePath}
use chanter_operator.MissionGraph.Journal.History.Writes.{writes-Extends}

-- Whatever calls are made, refused ones included: every graph and every node that was stored is
-- stored still, with the same identifiers, compiled document, hash and dependencies; its state is
-- the old one or reached from it by transitions that the tables allow; and the events that were
-- there come first and unchanged in the log.
pub run-Extends : (cs : List Call) (j : Journal) → Extends j (run cs j)
run-Extends cs j = run-keeps (writes-Extends j) cs j (Extends-refl j)

final_graph_step :
    (t u : GraphState) → is_final_graph t ≡ true → allowed_graph_transition t u ≡ true → t ≡ u
unfolding allowed_graph_transition
final_graph_step t u f a = ground arith

final_node_step :
    (t u : NodeState) → is_final_node t ≡ true → allowed_node_transition t u ≡ true → t ≡ u
unfolding allowed_node_transition
final_node_step t u f a = ground arith

pub GraphPath-final : {s t : GraphState} → is_final_graph s ≡ true → GraphPath s t → t ≡ s
GraphPath-final f GraphPath.here = refl
GraphPath-final f (GraphPath.next {t = t} {u = u} p a) =
    ground (arith, GraphPath-final f p, final_graph_step t u)

NodePath-final : {s t : NodeState} → is_final_node s ≡ true → NodePath s t → t ≡ s
NodePath-final f NodePath.here = refl
NodePath-final f (NodePath.next {t = t} {u = u} p a) =
    ground (arith, NodePath-final f p, final_node_step t u)

-- Final states are final: no calls change the state of a graph that is completed, cancelled or
-- failed for good, nor of such a node.
pub run-final :
    (cs : List Call) (j : Journal)
    → ((id : String) (g : GraphRecord)
        → find (graph_is id) j.graphs ≡ some g
        → is_final_graph g.status ≡ true
        → (h : GraphRecord) × (find (graph_is id) (run cs j).graphs ≡ some h)
          × (h.status ≡ g.status))
      × ((id node_id : String) (n : NodeRecord)
          → find (node_is id node_id) j.nodes ≡ some n
          → is_final_node n.status ≡ true
          → (m : NodeRecord) × (find (node_is id node_id) (run cs j).nodes ≡ some m)
            × (m.status ≡ n.status))
run-final cs j = (
  λ id g e f.
      let (h, eh, later) = (run-Extends cs j).graphs_live id g e in
      (h, eh, GraphPath-final f later.path),
  λ id node_id n e f.
      let (m, em, later) = (run-Extends cs j).nodes_live id node_id n e in
      (m, em, NodePath-final f later.path),
)
