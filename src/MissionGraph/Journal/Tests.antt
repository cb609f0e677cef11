-- ===== src/MissionGraph/Journal/Tests.antt =====
-- A small journal of apps/backend/src/missions/missionGraphJournal.ts: two nodes, the second after
-- the first.
use chanter_operator.MissionGraph.Journal.Replays.{StandsAgain, replay_recorded_once}
use chanter_operator.MissionGraph.Journal.NodeProgress.{transition_node_succeeds}
use chanter_operator.MissionGraph.Journal.Progress.{transition_graph_succeeds}
use chanter_operator.MissionGraph.Journal.Effects.{drawn, tables_after_graph}
use chanter_operator.MissionGraph.Journal.Transitions.{moved_graph, moved_node}
use chanter_operator.Prelude.Exec.{ok}
use chanter_operator.Prelude.{
  ℕ, zero, suc, ◌≡◌, refl, String, true, none, some, List, [], ◌∷◌, find, template, arith,
}
use chanter_operator.Prelude.Exec.Rules.{Outcome}
use chanter_operator.Json.{object, end}
use chanter_operator.MissionGraph.States.{
  GraphState, NodeState, is_final_graph, is_final_node, allowed_graph_transition,
  allowed_node_transition,
}
use chanter_operator.MissionGraph.Records.{
  GraphRecord, NodeRecord, NodeInsertInput, GraphInsertInput, EventInput, ApprovalInput,
  NodeTransitionInput,
}
use chanter_operator.MissionGraph.Journal.{Journal, graph_is, node_is}
use chanter_operator.MissionGraph.Journal.Insert.{graph_row, node_row}
use chanter_operator.MissionGraph.Journal.Transitions.{
  transition_graph, transition_node, append_authoritative_replay_event,
}
use chanter_operator.MissionGraph.Journal.Calls.{
  Call, inserts, moves_graph, moves_node, audits, replays, run,
}
use chanter_operator.MissionGraph.Journal.Sequence.{IsNumbered, run-IsNumbered}
use chanter_operator.MissionGraph.Journal.Bounds.{IsBounded, run-IsBounded}
use chanter_operator.MissionGraph.Journal.History.{Extends}
use chanter_operator.MissionGraph.Journal.History.Runs.{run-Extends, run-final}
use chanter_operator.MissionGraph.Journal.Effects.{GraphMoved, Refused, transition_graph_effect}
use chanter_operator.MissionGraph.Journal.NodeEffects.{
  NodeMoved, tables_after_node, transition_node_effect,
}

abbrev pub sample_node : String → List String → NodeInsertInput
sample_node id depends_on = record {
  node_id = id;
  product = "loop_governor";
  action = "manual_loop";
  objective = "Check the loop.";
  input = object end;
  depends_on = depends_on;
  child_mission_id = template ("graph:g:node:" ∷ id ∷ []);
  child_trace_id = template ("graph:t:node:" ∷ id ∷ []);
  child_idempotency_key = template ("graph:g:node:" ∷ id ∷ []);
}

-- A text of 64 hexadecimal digits, which the tests' hash maps to itself.
abbrev pub sample_hash : String
sample_hash = "0123456789abcdef0123456789abcdef0123456789abcdef0123456789abcdef"

abbrev pub sample_graph : GraphInsertInput
sample_graph = record {
  graph_id = "g";
  trace_id = "t";
  idempotency_key = "k";
  schema_version = "chanter.mission.graph.v1";
  source_system = "operator";
  requested_by = "founder";
  tenant_user_id = "u";
  workspace_id = some "w";
  account_id = none;
  objective = "Run two loops.";
  compiled_graph_json = sample_hash;
  graph_hash = sample_hash;
  requested_at = "2026-01-01T00:00:00.000Z";
  timestamp = "2026-01-01T00:00:01.000Z";
  nodes = sample_node "a" [] ∷ sample_node "b" ("a" ∷ []) ∷ [];
}

abbrev pub sample_event : EventInput
sample_event = record {
  actor = "founder";
  reason = "Reviewed.";
  timestamp = "2026-01-01T00:00:02.000Z";
  evidence_references = [];
  typed_error = none;
}

abbrev sample_approval : ApprovalInput
sample_approval = record {
  approved_by = "founder";
  approved_at = some "2026-01-01T00:00:02.000Z";
  approved_graph_hash = some sample_hash;
}

abbrev node_event : NodeTransitionInput
node_event = record {
  actor = "chanter-operator";
  reason = "The node has no dependencies.";
  timestamp = "2026-01-01T00:00:03.000Z";
  evidence_references = [];
  attempts = none;
  result_status = none;
  result_summary = none;
  typed_error = none;
}

-- e, ee, eee, …
abbrev pub sample_ids : ℕ → String
sample_ids zero = "e"
sample_ids (suc n) = template ("e" ∷ sample_ids n ∷ [])

abbrev pub empty_journal : Journal
empty_journal = record {
  db = record { graphs = []; nodes = []; edges = []; events = []; replays = [] };
  id_factory = sample_ids;
  ids_used = 0;
}

-- The journal with a graph in the given state and its nodes, and no event yet.
abbrev pub stored : GraphState → Journal
stored state = record {
  db = record {
    graphs = record (graph_row sample_graph) { status = state } ∷ [];
    nodes =
        node_row sample_graph (sample_node "a" [])
        ∷ node_row sample_graph (sample_node "b" ("a" ∷ []))
        ∷ [];
    edges = [];
    events = [];
    replays = [];
  };
  id_factory = sample_ids;
  ids_used = 0;
}

abbrev waiting : Journal
waiting = stored GraphState.approval_required

abbrev sample_calls : List Call
sample_calls =
    inserts sample_graph
    ∷ moves_graph "g" GraphState.approved sample_event (some sample_approval)
    ∷ moves_graph "g" GraphState.completed sample_event none
    ∷ moves_node "g" "a" NodeState.ready node_event
    ∷ audits "g" "graph_approval_replayed" none sample_event
    ∷ replays "g" "h:k" sample_event
    ∷ replays "g" "h:k" sample_event
    ∷ []

run-IsNumbered_example : IsNumbered (run sample_calls empty_journal)
run-IsNumbered_example = run-IsNumbered sample_calls empty_journal (λ id. tt)

run-Extends_example : Extends waiting (run sample_calls waiting)
run-Extends_example = run-Extends sample_calls waiting

run-final_example :
    ((id : String) (g : GraphRecord)
      → find (graph_is id) waiting.graphs ≡ some g
      → is_final_graph g.status ≡ true
      → (h : GraphRecord) × (find (graph_is id) (run sample_calls waiting).graphs ≡ some h)
        × (h.status ≡ g.status))
    × ((id node_id : String) (n : NodeRecord)
        → find (node_is id node_id) waiting.nodes ≡ some n
        → is_final_node n.status ≡ true
        → (m : NodeRecord) × (find (node_is id node_id) (run sample_calls waiting).nodes ≡ some m)
          × (m.status ≡ n.status))
run-final_example = run-final sample_calls waiting

transition_graph_effect_example :
    Outcome
      (GraphMoved "g" GraphState.approved sample_event (some sample_approval) waiting)
      (Refused waiting)
      (transition_graph "g" GraphState.approved sample_event (some sample_approval) waiting)
transition_graph_effect_example =
    transition_graph_effect "g" GraphState.approved sample_event (some sample_approval) waiting

transition_node_effect_example :
    Outcome
      (NodeMoved "g" "a" NodeState.ready node_event waiting)
      (Refused waiting)
      (transition_node "g" "a" NodeState.ready node_event waiting)
transition_node_effect_example = transition_node_effect "g" "a" NodeState.ready node_event waiting

run-IsBounded_example : IsBounded (run sample_calls waiting)
run-IsBounded_example = run-IsBounded sample_calls waiting (omega arith, (omega arith, tt))

transition_graph_succeeds_example :
    transition_graph "g" GraphState.approved sample_event (some sample_approval) waiting ≡ (
      ok (
          moved_graph GraphState.approved sample_event
            (some sample_approval)
            (graph_row sample_graph)
            (graph_row sample_graph)),
      record (drawn waiting) {
        db =
            tables_after_graph "g" GraphState.approved sample_event
              (some sample_approval)
              (graph_row sample_graph)
              waiting;
      },
    )
unfolding allowed_graph_transition
transition_graph_succeeds_example =
    transition_graph_succeeds "g" GraphState.approved sample_event (some sample_approval) waiting
      (graph_row sample_graph) refl refl refl refl

transition_node_succeeds_example : transition_node "g" "a" NodeState.ready node_event waiting ≡ (
  ok (
      moved_node NodeState.ready node_event
        (node_row sample_graph (sample_node "a" []))
        (node_row sample_graph (sample_node "a" []))),
  record (drawn waiting) {
    db =
        tables_after_node "g" NodeState.ready node_event
          (node_row sample_graph (sample_node "a" []))
          waiting;
  },
)
unfolding allowed_node_transition
transition_node_succeeds_example =
    transition_node_succeeds "g" "a" NodeState.ready node_event waiting
      (node_row sample_graph (sample_node "a" [])) refl refl refl refl refl refl

replay_recorded_once_example :
    Outcome
      (StandsAgain "g" "h:k" sample_event)
      (Refused waiting)
      (append_authoritative_replay_event "g" "h:k" sample_event waiting)
replay_recorded_once_example = replay_recorded_once "g" "h:k" sample_event sample_event waiting
