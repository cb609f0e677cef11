-- ===== src/MissionGraph/Service/ControlRules.antt =====
-- The operations of MissionGraphService (apps/backend/src/missions/missionGraphService.ts) keep
-- what the journal's writes keep.
use chanter_operator.Prelude.{String, Option, none, some, List, [], ◌∷◌, ℕ, zero, suc}
use chanter_operator.Prelude.Exec.Rules.{Keeps}
use chanter_operator.MissionGraph.Records.{GraphRecord, NodeRecord, TypedError}
use chanter_operator.MissionGraph.Journal.{Journal}
use chanter_operator.MissionGraph.Journal.Rule.{approves_by_approval, IsKept}
use chanter_operator.MissionGraph.Service.{Service, Platform}
use chanter_operator.MissionGraph.Service.Scheduler.{
  begin_running, park_graph, sync_if_running, after_dispatch, dispatch_ready, dispatch_or_stop,
  decide, decide_by, decide_open, scheduler_pass, scheduler_loop, run_scheduler,
}
use chanter_operator.MissionGraph.Service.Rule.{OnJournal}
use chanter_operator.MissionGraph.Service.NodeRules.{node_rules}

module _ {W : Type 0} (p : Platform W) {P : Journal → Type 0}
    (kept : IsKept approves_by_approval P) where
  Keeps-begin_running :
      (graph : GraphRecord) → Keeps {S = Service W} (OnJournal P) (begin_running p graph)
  unfolding begin_running
  Keeps-begin_running graph = search node_rules depth 12

  Keeps-park_graph :
      (id : String) (e : Option TypedError)
      → Keeps {S = Service W} (OnJournal P) (park_graph p id e)
  unfolding park_graph
  Keeps-park_graph id e = search node_rules depth 12

  Keeps-sync_if_running :
      (graph : GraphRecord) (node : NodeRecord)
      → Keeps {S = Service W} (OnJournal P) (sync_if_running p graph node)
  unfolding sync_if_running
  Keeps-sync_if_running graph node = search node_rules depth 12

ruleset pass_rules = (node_rules, Keeps-begin_running, Keeps-park_graph, Keeps-sync_if_running)

module _ {W : Type 0} (p : Platform W) {P : Journal → Type 0}
    (kept : IsKept approves_by_approval P) where
  Keeps-after_dispatch :
      (id : String) (after : NodeRecord)
      → Keeps {S = Service W} (OnJournal P) (after_dispatch p id after)
  unfolding after_dispatch
  Keeps-after_dispatch id after = search pass_rules depth 14

ruleset dispatch_rules = (pass_rules, Keeps-after_dispatch)

module _ {W : Type 0} (p : Platform W) {P : Journal → Type 0}
    (kept : IsKept approves_by_approval P) where
  Keeps-dispatch_ready :
      (id : String) (ready : List NodeRecord)
      → Keeps {S = Service W} (OnJournal P) (dispatch_ready p id ready)
  unfolding dispatch_ready
  Keeps-dispatch_ready id [] = search dispatch_rules
  Keeps-dispatch_ready id (node ∷ rest) =
      let later = Keeps-dispatch_ready id rest in search dispatch_rules depth 14

  Keeps-dispatch_or_stop :
      (id : String) (ready : List NodeRecord)
      → Keeps {S = Service W} (OnJournal P) (dispatch_or_stop p id ready)
  unfolding dispatch_or_stop
  Keeps-dispatch_or_stop id [] = search dispatch_rules
  Keeps-dispatch_or_stop id (node ∷ rest) = Keeps-dispatch_ready id (node ∷ rest)

ruleset decide_rules = (dispatch_rules, Keeps-dispatch_or_stop)

module _ {W : Type 0} (p : Platform W) {P : Journal → Type 0}
    (kept : IsKept approves_by_approval P) where
  Keeps-decide_open :
      (id : String) (nodes : List NodeRecord)
      → Keeps {S = Service W} (OnJournal P) (decide_open p id nodes)
  unfolding decide_open
  Keeps-decide_open id nodes = search decide_rules depth 14

ruleset decide_by_rules = (decide_rules, Keeps-decide_open)

module _ {W : Type 0} (p : Platform W) {P : Journal → Type 0}
    (kept : IsKept approves_by_approval P) where
  Keeps-decide_by :
      (id : String) (graph : GraphRecord) (nodes : List NodeRecord) (o : Option NodeRecord)
      → Keeps {S = Service W} (OnJournal P) (decide_by p id graph nodes o)
  unfolding decide_by
  Keeps-decide_by id graph nodes none = search decide_by_rules depth 12
  Keeps-decide_by id graph nodes (some node) = search decide_by_rules depth 12

  Keeps-decide :
      (id : String) (graph : GraphRecord) (nodes : List NodeRecord)
      → Keeps {S = Service W} (OnJournal P) (decide p id graph nodes)
  unfolding decide
  Keeps-decide id graph nodes = Keeps-decide_by id graph nodes _

ruleset scheduler_rules = (pass_rules, Keeps-decide)

module _ {W : Type 0} (p : Platform W) {P : Journal → Type 0}
    (kept : IsKept approves_by_approval P) where
  Keeps-scheduler_pass : (id : String) → Keeps {S = Service W} (OnJournal P) (scheduler_pass p id)
  unfolding scheduler_pass
  Keeps-scheduler_pass id = search scheduler_rules depth 14

ruleset loop_rules = (node_rules, Keeps-scheduler_pass)

module _ {W : Type 0} (p : Platform W) {P : Journal → Type 0}
    (kept : IsKept approves_by_approval P) where
  Keeps-scheduler_loop :
      (left : ℕ) (id : String) → Keeps {S = Service W} (OnJournal P) (scheduler_loop p left id)
  unfolding scheduler_loop
  Keeps-scheduler_loop zero id = search loop_rules
  Keeps-scheduler_loop (suc left) id =
      let later = Keeps-scheduler_loop left id in search loop_rules depth 12

ruleset run_rules = (node_rules, Keeps-scheduler_loop)

module _ {W : Type 0} (p : Platform W) {P : Journal → Type 0}
    (kept : IsKept approves_by_approval P) where
  pub Keeps-run_scheduler : (id : String) → Keeps {S = Service W} (OnJournal P) (run_scheduler p id)
  unfolding run_scheduler
  Keeps-run_scheduler id = search run_rules depth 12
