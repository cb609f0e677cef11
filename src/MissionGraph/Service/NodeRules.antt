-- ===== src/MissionGraph/Service/NodeRules.antt =====
-- The node-level methods of MissionGraphService (apps/backend/src/missions/missionGraphService.ts)
-- keep what the journal's writes keep.
use chanter_operator.Prelude.{String}
use chanter_operator.Prelude.Exec.{Thrown, operator_error, other_error}
use chanter_operator.Prelude.Exec.Rules.{Keeps}
use chanter_operator.MissionGraph.Records.{GraphRecord, NodeRecord, NodeTransitionInput}
use chanter_operator.MissionGraph.Journal.{Journal}
use chanter_operator.MissionGraph.Journal.Rule.{approves_by_approval, IsKept}
use chanter_operator.MissionGraph.Service.{Service, Platform, ChildMission, ChildOutcome}
use chanter_operator.MissionGraph.Service.Nodes.{
  record_outcome, apply_child_outcome, record_child_dispatch_error,
}
use chanter_operator.MissionGraph.Service.Dispatch.{
  find_compiled_node, drive_child, execute_child_mission, dispatch_node, assert_not_awaiting,
  assert_no_child_awaiting_reconciliation, recover_interrupted, recover_existing,
  recover_running_node, sync_existing, sync_node_from_child_truth, cancel_if_open,
  terminate_graph_for_node,
}
use chanter_operator.MissionGraph.Service.Rule.{OnJournal, service_rules, Keeps-on_journal}

module _ {W : Type 0} {P : Journal → Type 0} (kept : IsKept approves_by_approval P) where
  Keeps-record_outcome :
      (graph : GraphRecord) (node : NodeRecord) (mission : ChildMission) (o : ChildOutcome)
      (time : String)
      → Keeps {S = Service W} (OnJournal P) (record_outcome graph node mission o time)
  unfolding record_outcome
  Keeps-record_outcome graph node mission ChildOutcome.completed time =
      search service_rules depth 12
  Keeps-record_outcome graph node mission _ time = search service_rules depth 12

ruleset outcome_rules = (service_rules, Keeps-record_outcome)

module _ {W : Type 0} {P : Journal → Type 0} (kept : IsKept approves_by_approval P) where
  pub Keeps-apply_child_outcome :
      (graph : GraphRecord) (node_id : String) (mission : ChildMission)
      → Keeps {S = Service W} (OnJournal P) (apply_child_outcome graph node_id mission)
  unfolding apply_child_outcome
  Keeps-apply_child_outcome graph node_id mission = search outcome_rules depth 12

  pub Keeps-record_child_dispatch_error :
      (graph : GraphRecord) (node_id : String) (e : Thrown)
      → Keeps {S = Service W} (OnJournal P) (record_child_dispatch_error graph node_id e)
  unfolding record_child_dispatch_error
  Keeps-record_child_dispatch_error graph node_id (operator_error e) = search service_rules depth 12
  Keeps-record_child_dispatch_error graph node_id (other_error e) = search service_rules depth 12

ruleset child_rules = (service_rules, Keeps-apply_child_outcome, Keeps-record_child_dispatch_error)

module _ {W : Type 0} (p : Platform W) {P : Journal → Type 0}
    (kept : IsKept approves_by_approval P) where
  Keeps-find_compiled_node :
      (graph : GraphRecord) (node : NodeRecord)
      → Keeps {S = Service W} (OnJournal P) (find_compiled_node p graph node)
  unfolding find_compiled_node
  Keeps-find_compiled_node graph node = search service_rules depth 12

ruleset drive_rules = (child_rules, Keeps-find_compiled_node)

module _ {W : Type 0} (p : Platform W) {P : Journal → Type 0}
    (kept : IsKept approves_by_approval P) where
  Keeps-drive_child :
      (graph : GraphRecord) (node : NodeRecord)
      → Keeps {S = Service W} (OnJournal P) (drive_child p graph node)
  unfolding drive_child
  Keeps-drive_child graph node = search drive_rules depth 14

  Keeps-recover_interrupted :
      (graph : GraphRecord) (node : NodeRecord) (first : ChildMission)
      → Keeps {S = Service W} (OnJournal P) (recover_interrupted p graph node first)
  unfolding recover_interrupted
  Keeps-recover_interrupted graph node first = search child_rules depth 14

  Keeps-sync_existing :
      (graph : GraphRecord) (node : NodeRecord)
      → Keeps {S = Service W} (OnJournal P) (sync_existing p graph node)
  unfolding sync_existing
  Keeps-sync_existing graph node = search child_rules depth 14

ruleset step_rules =
    (child_rules, Keeps-drive_child, Keeps-recover_interrupted, Keeps-sync_existing)

module _ {W : Type 0} (p : Platform W) {P : Journal → Type 0}
    (kept : IsKept approves_by_approval P) where
  pub Keeps-execute_child_mission :
      (graph : GraphRecord) (node : NodeRecord)
      → Keeps {S = Service W} (OnJournal P) (execute_child_mission p graph node)
  unfolding execute_child_mission
  Keeps-execute_child_mission graph node = search step_rules depth 12

  Keeps-recover_existing :
      (graph : GraphRecord) (node : NodeRecord)
      → Keeps {S = Service W} (OnJournal P) (recover_existing p graph node)
  unfolding recover_existing
  Keeps-recover_existing graph node = search step_rules depth 14

ruleset execute_rules = (step_rules, Keeps-execute_child_mission, Keeps-recover_existing)

module _ {W : Type 0} (p : Platform W) {P : Journal → Type 0}
    (kept : IsKept approves_by_approval P) where
  pub Keeps-dispatch_node :
      (graph : GraphRecord) (node : NodeRecord)
      → Keeps {S = Service W} (OnJournal P) (dispatch_node p graph node)
  unfolding dispatch_node
  Keeps-dispatch_node graph node = search execute_rules depth 14

  pub Keeps-recover_running_node :
      (graph : GraphRecord) (node : NodeRecord)
      → Keeps {S = Service W} (OnJournal P) (recover_running_node p graph node)
  unfolding recover_running_node
  Keeps-recover_running_node graph node = search execute_rules depth 12

  pub Keeps-sync_node_from_child_truth :
      (graph : GraphRecord) (node : NodeRecord)
      → Keeps {S = Service W} (OnJournal P) (sync_node_from_child_truth p graph node)
  unfolding sync_node_from_child_truth
  Keeps-sync_node_from_child_truth graph node = search step_rules depth 12

  Keeps-assert_not_awaiting :
      (node : NodeRecord) → Keeps {S = Service W} (OnJournal P) (assert_not_awaiting p node)
  unfolding assert_not_awaiting
  Keeps-assert_not_awaiting node = search service_rules depth 12

  pub Keeps-assert_no_child_awaiting_reconciliation :
      (graph : GraphRecord)
      → Keeps {S = Service W} (OnJournal P) (assert_no_child_awaiting_reconciliation p graph)
  unfolding assert_no_child_awaiting_reconciliation
  Keeps-assert_no_child_awaiting_reconciliation graph =
      search (service_rules, Keeps-assert_not_awaiting) depth 12

module _ {W : Type 0} {P : Journal → Type 0} (kept : IsKept approves_by_approval P) where
  pub Keeps-cancel_if_open :
      (graph : GraphRecord) (input : NodeTransitionInput) (node : NodeRecord)
      → Keeps {S = Service W} (OnJournal P) (cancel_if_open graph input node)
  unfolding cancel_if_open
  Keeps-cancel_if_open graph input node = search service_rules depth 12

  pub Keeps-terminate_graph_for_node :
      (graph : GraphRecord) (failed : NodeRecord)
      → Keeps {S = Service W} (OnJournal P) (terminate_graph_for_node graph failed)
  unfolding terminate_graph_for_node
  Keeps-terminate_graph_for_node graph failed =
      search (service_rules, Keeps-cancel_if_open) depth 14

pub ruleset node_rules = (
  service_rules, Keeps-apply_child_outcome, Keeps-record_child_dispatch_error,
  Keeps-execute_child_mission, Keeps-dispatch_node, Keeps-recover_running_node,
  Keeps-sync_node_from_child_truth, Keeps-assert_no_child_awaiting_reconciliation,
  Keeps-cancel_if_open, Keeps-terminate_graph_for_node,
)
