-- ===== src/MissionGraph/Journal/Calls.antt =====
-- Clients of MissionGraphJournal (apps/backend/src/missions/missionGraphJournal.ts): any sequence
-- of calls of its state-changing methods, where a call that throws lets the next one follow.
use chanter_operator.Prelude.{refl, String, Option, List, [], ◌∷◌}
use chanter_operator.MissionGraph.States.{GraphState, NodeState}
use chanter_operator.MissionGraph.Records.{
  GraphInsertInput, EventInput, ApprovalInput, NodeTransitionInput,
}
use chanter_operator.MissionGraph.Journal.{Journal}
use chanter_operator.MissionGraph.Journal.Transitions.{
  transition_graph, transition_node, append_audit_event, append_authoritative_replay_event,
}
use chanter_operator.MissionGraph.Journal.Insert.{insert_graph}
use chanter_operator.MissionGraph.Journal.Rule.{
  any_move, IsKept, Keeps-transition_graph, Keeps-transition_node, Keeps-append_audit_event,
  Keeps-append_authoritative_replay_event, Keeps-insert_graph,
}

pub data Call : Type 0 where
  inserts : GraphInsertInput → Call
  moves_graph : String → GraphState → EventInput → Option ApprovalInput → Call
  moves_node : String → String → NodeState → NodeTransitionInput → Call
  audits : String → String → Option String → EventInput → Call
  replays : String → String → EventInput → Call

unfoldable pub step : Call → Journal → Journal
step (inserts input) j = (insert_graph input j).1
step (moves_graph id to input approval) j = (transition_graph id to input approval j).1
step (moves_node id node_id to input) j = (transition_node id node_id to input j).1
step (audits id event_type node_id input) j = (append_audit_event id event_type node_id input j).1
step (replays id identity input) j = (append_authoritative_replay_event id identity input j).1

unfoldable pub run : List Call → Journal → Journal
run [] j = j
run (c ∷ cs) j = run cs (step c j)

module _ {P : Journal → Type 0} (kept : IsKept any_move P) where
  step-keeps : (c : Call) (j : Journal) → P j → P (step c j)
  unfolding step
  step-keeps (inserts input) = (Keeps-insert_graph kept.appends input).at
  step-keeps (moves_graph id to input approval) =
      (Keeps-transition_graph kept id to input approval refl).at
  step-keeps (moves_node id node_id to input) = (Keeps-transition_node kept id node_id to input).at
  step-keeps (audits id event_type node_id input) =
      (Keeps-append_audit_event kept.appends id event_type node_id input).at
  step-keeps (replays id identity input) =
      (Keeps-append_authoritative_replay_event kept.appends id identity input).at

  pub run-keeps : (cs : List Call) (j : Journal) → P j → P (run cs j)
  unfolding run
  run-keeps [] j h = h
  run-keeps (c ∷ cs) j h = run-keeps cs (step c j) (step-keeps c j h)
