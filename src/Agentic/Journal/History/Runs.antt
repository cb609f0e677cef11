-- ===== src/Agentic/Journal/History/Runs.antt =====
-- What any sequence of calls of AgenticPlanJournal (apps/backend/src/agentic/agenticPlanJournal.ts)
-- leaves of the missions, nodes and logs that it found.
use chanter_operator.Prelude.{◌≡◌, refl, String, true, some, find, List, arith}
use chanter_operator.Agentic.States.{
  PlanState, NodeState, allowed_plan_transition, allowed_node_transition, is_terminal_plan,
  is_terminal_node,
}
use chanter_operator.Agentic.Records.{MissionRecord, NodeRecord}
use chanter_operator.Agentic.Journal.{Journal, mission_is, node_is}
use chanter_operator.Agentic.Journal.Calls.{Call, run, run-keeps}
use chanter_operator.Agentic.Journal.History.{Extends, Extends-refl, PlanPath, NodePath}
use chanter_operator.Agentic.Journal.History.Steps.{writes-Extends}

pub plan_run-Extends : (cs : List Call) (j : Journal) → Extends j (run cs j)
plan_run-Extends cs j = run-keeps (writes-Extends j) cs j (Extends-refl j)

final_plan_step :
    (t u : PlanState) → is_terminal_plan t ≡ true → allowed_plan_transition t u ≡ true → t ≡ u
unfolding allowed_plan_transition
final_plan_step t u f a = ground arith

final_node_step :
    (t u : NodeState) → is_terminal_node t ≡ true → allowed_node_transition t u ≡ true → t ≡ u
unfolding allowed_node_transition
final_node_step t u f a = ground arith

PlanPath-final : {s t : PlanState} → is_terminal_plan s ≡ true → PlanPath s t → t ≡ s
PlanPath-final f PlanPath.here = refl
PlanPath-final f (PlanPath.next {t = t} {u = u} p a) =
    ground (arith, PlanPath-final f p, final_plan_step t u)

NodePath-final : {s t : NodeState} → is_terminal_node s ≡ true → NodePath s t → t ≡ s
NodePath-final f NodePath.here = refl
NodePath-final f (NodePath.next {t = t} {u = u} p a) =
    ground (arith, NodePath-final f p, final_node_step t u)

-- Terminal states are terminal: no calls of the plan journal change the state of a mission that is
-- completed, cancelled or failed for good, nor of such a node.
pub plan_run_terminal :
    (cs : List Call) (j : Journal)
    → ((id : String) (m : MissionRecord)
        → find (mission_is id) j.missions ≡ some m
        → is_terminal_plan m.status ≡ true
        → (n : MissionRecord) × (find (mission_is id) (run cs j).missions ≡ some n)
          × (n.status ≡ m.status))
      × ((plan_id node_id : String) (m : NodeRecord)
          → find (node_is plan_id node_id) j.nodes ≡ some m
          → is_terminal_node m.state ≡ true
          → (n : NodeRecord) × (find (node_is plan_id node_id) (run cs j).nodes ≡ some n)
            × (n.state ≡ m.state))
plan_run_terminal cs j = (
  λ id m e f.
      let (n, en, later) = (plan_run-Extends cs j).missions_live id m e in
      (n, en, PlanPath-final f later.path),
  λ plan_id node_id m e f.
      let (n, en, later) = (plan_run-Extends cs j).nodes_live plan_id node_id m e in
      (n, en, NodePath-final f later.path),
)
