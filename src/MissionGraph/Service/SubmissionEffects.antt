-- ===== src/MissionGraph/Service/SubmissionEffects.antt =====
-- What submitGraph of apps/backend/src/missions/missionGraphService.ts changes in the journal.
use chanter_operator.Prelude.{◌≡◌, none, List, ◌++◌, All}
use chanter_operator.Json.{Json}
use chanter_operator.MissionGraph.States.{GraphState, NodeState}
use chanter_operator.MissionGraph.Records.{GraphRecord, NodeRecord, EventRecord}
use chanter_operator.MissionGraph.Journal.{Journal}
use chanter_operator.MissionGraph.Service.{Service}

-- A graph that nobody has approved, and a node that nothing has dispatched.
abbrev pub IsWaiting : GraphRecord → Type 0
IsWaiting g = (g.status ≡ GraphState.approval_required) × (g.approved_by ≡ none)

abbrev pub IsUntouched : NodeRecord → Type 0
IsUntouched n = (n.status ≡ NodeState.blocked) × (n.attempts ≡ 0)

abbrev Adds : {A : Type 0} → (A → Type 0) → List A → List A → Type 0
Adds {A} P before after = (new : List A) × (after ≡ before ++ new) × All P new

-- All rows and events of `s` stand unchanged in `t`; what is new waits.
pub record OnlyAdds (s t : Journal) : Type 0 where
  pub graphs_added : Adds IsWaiting s.graphs t.graphs
  pub nodes_added : Adds IsUntouched s.nodes t.nodes
  pub events_added : (new : List EventRecord) × (t.events ≡ s.events ++ new)
