-- ===== src/MissionGraph/Service/CallRules.antt =====
-- The operations approveGraph, resumeGraph and cancelGraph of MissionGraphService
-- (apps/backend/src/missions/missionGraphService.ts), and any sequence of their calls, keep what
-- the journal's writes keep.
use chanter_operator.Prelude.{String, Bool, Option, List, [], ◌∷◌}
use chanter_operator.Prelude.Exec.Rules.{Keeps, keeps_rules}
use chanter_operator.Json.{Json}
use chanter_operator.MissionGraph.Records.{GraphRecord, NodeRecord}
use chanter_operator.MissionGraph.Journal.{Journal}
use chanter_operator.MissionGraph.Journal.Order.{list_edges, list_events}
use chanter_operator.MissionGraph.Journal.Rule.{approves_by_approval, IsKept}
use chanter_operator.MissionGraph.Service.{Service, Platform}
use chanter_operator.MissionGraph.Service.Views.{view_node, view_nodes, build_view}
use chanter_operator.MissionGraph.Service.Control.{assert_graph_integrity}
use chanter_operator.MissionGraph.Service.Approval.{
  replay_completed, replay_unfinished, replay_approval, first_approval, approve_graph,
}
use chanter_operator.MissionGraph.Service.Recovery.{recover_node, claim_recovery, resume_graph}
use chanter_operator.MissionGraph.Service.Cancellation.{cancel_graph}
use chanter_operator.MissionGraph.Service.Rule.{OnJournal}
use chanter_operator.MissionGraph.Service.NodeRules.{node_rules}
use chanter_operator.MissionGraph.Service.ControlRules.{Keeps-run_scheduler}

Keeps-list_edges : {P : Journal → Type 0} (id : String) → Keeps P (list_edges id)
unfolding list_edges
Keeps-list_edges id = search keeps_rules

Keeps-list_events : {P : Journal → Type 0} (id : String) → Keeps P (list_events id)
unfolding list_events
Keeps-list_events id = search keeps_rules

module _ {W : Type 0} (p : Platform W) {P : Journal → Type 0} where
  Keeps-view_node : (node : NodeRecord) → Keeps {S = Service W} (OnJournal P) (view_node p node)
  unfolding view_node
  Keeps-view_node node = search node_rules depth 12

ruleset view_rules = (node_rules, Keeps-view_node, Keeps-list_edges, Keeps-list_events)

module _ {W : Type 0} (p : Platform W) {P : Journal → Type 0} where
  Keeps-view_nodes :
      (nodes : List NodeRecord) → Keeps {S = Service W} (OnJournal P) (view_nodes p nodes)
  unfolding view_nodes
  Keeps-view_nodes [] = search view_rules
  Keeps-view_nodes (node ∷ rest) = let later = Keeps-view_nodes rest in search view_rules depth 12

ruleset build_rules = (view_rules, Keeps-view_nodes)

module _ {W : Type 0} (p : Platform W) {P : Journal → Type 0} where
  pub Keeps-build_view :
      (graph : GraphRecord) (replayed : Bool)
      → Keeps {S = Service W} (OnJournal P) (build_view p graph replayed)
  unfolding build_view
  Keeps-build_view graph replayed = search build_rules depth 14

  Keeps-assert_graph_integrity :
      (graph : GraphRecord) → Keeps {S = Service W} (OnJournal P) (assert_graph_integrity p graph)
  unfolding assert_graph_integrity
  Keeps-assert_graph_integrity graph = search keeps_rules

ruleset call_rules =
    (node_rules, Keeps-build_view, Keeps-assert_graph_integrity, Keeps-run_scheduler)

module _ {W : Type 0} (p : Platform W) {P : Journal → Type 0}
    (kept : IsKept approves_by_approval P) where
  Keeps-replay_completed :
      (graph : GraphRecord) (by : String)
      → Keeps {S = Service W} (OnJournal P) (replay_completed p graph by)
  unfolding replay_completed
  Keeps-replay_completed graph by = search call_rules depth 14

  Keeps-replay_unfinished :
      (graph : GraphRecord) → Keeps {S = Service W} (OnJournal P) (replay_unfinished p graph)
  unfolding replay_unfinished
  Keeps-replay_unfinished graph = search call_rules depth 14

  Keeps-first_approval :
      (graph : GraphRecord) (by : String)
      → Keeps {S = Service W} (OnJournal P) (first_approval p graph by)
  unfolding first_approval
  Keeps-first_approval graph by = search call_rules depth 16

  Keeps-recover_node :
      (graph : GraphRecord) (node : NodeRecord)
      → Keeps {S = Service W} (OnJournal P) (recover_node p graph node)
  unfolding recover_node
  Keeps-recover_node graph node = search call_rules depth 16

  Keeps-claim_recovery :
      (graph : GraphRecord) → Keeps {S = Service W} (OnJournal P) (claim_recovery p graph)
  unfolding claim_recovery
  Keeps-claim_recovery graph = search call_rules depth 14

ruleset branch_rules = (
  call_rules, Keeps-replay_completed, Keeps-replay_unfinished, Keeps-first_approval,
  Keeps-recover_node, Keeps-claim_recovery,
)

module _ {W : Type 0} (p : Platform W) {P : Journal → Type 0}
    (kept : IsKept approves_by_approval P) where
  Keeps-replay_approval :
      (graph : GraphRecord) (by hash : String)
      → Keeps {S = Service W} (OnJournal P) (replay_approval p graph by hash)
  unfolding replay_approval
  Keeps-replay_approval graph by hash = search branch_rules depth 14

  pub Keeps-resume_graph : (id : String) → Keeps {S = Service W} (OnJournal P) (resume_graph p id)
  unfolding resume_graph
  Keeps-resume_graph id = search branch_rules depth 30

  pub Keeps-cancel_graph :
      (id : String) (by reason : Option Json)
      → Keeps {S = Service W} (OnJournal P) (cancel_graph p id by reason)
  unfolding cancel_graph
  Keeps-cancel_graph id by reason = search branch_rules depth 30

ruleset approve_rules = (branch_rules, Keeps-replay_approval)

module _ {W : Type 0} (p : Platform W) {P : Journal → Type 0}
    (kept : IsKept approves_by_approval P) where
  pub Keeps-approve_graph :
      (id : String) (by hash : Option Json)
      → Keeps {S = Service W} (OnJournal P) (approve_graph p id by hash)
  unfolding approve_graph
  Keeps-approve_graph id by hash = search approve_rules depth 30
