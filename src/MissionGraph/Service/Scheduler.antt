-- ===== src/MissionGraph/Service/Scheduler.antt =====
-- runScheduler of apps/backend/src/missions/missionGraphService.ts: the bounded dependency-aware
-- scheduler.
use chanter_operator.Prelude.{
  ℕ, zero, suc, ◌+◌, String, Bool, true, false, ◌&&◌, Option, none, some, List, [], ◌∷◌, map, ◌==◌,
  if◌then◌else◌, any, every, keep, find, or_else, template,
}
use chanter_operator.Prelude.Exec.{Exec, pure, ◌>>=◌, ◌>>◌, done, for_each}
use chanter_operator.MissionGraph.States.{GraphState, NodeState, same_node_state, same_graph_state}
use chanter_operator.MissionGraph.Records.{GraphRecord, NodeRecord, EventInput, TypedError}
use chanter_operator.MissionGraph.Journal.{require_graph, require_node}
use chanter_operator.MissionGraph.Journal.Order.{list_nodes, sort_by, text_lt}
use chanter_operator.MissionGraph.Journal.Transitions.{transition_graph}
use chanter_operator.MissionGraph.Service.{Service, Platform, actor_id, on_journal, timestamp}
use chanter_operator.MissionGraph.Service.Dispatch.{
  dispatch_node, sync_node_from_child_truth, terminate_graph_for_node,
}

abbrev pub has_status : NodeState → NodeRecord → Bool
has_status status node = same_node_state node.status status

abbrev started_input : GraphRecord → String → EventInput
started_input graph time = record {
  actor = actor_id;
  reason = "Dependency-aware node scheduling began under the durable approval.";
  timestamp = time;
  evidence_references = template ("approval:" ∷ or_else graph.approved_by "" ∷ []) ∷ [];
  typed_error = none;
}

abbrev parked_input : Option TypedError → String → EventInput
parked_input error time = record {
  actor = actor_id;
  reason = "A node failed recoverably; dependents stay blocked until an explicit resume.";
  timestamp = time;
  evidence_references = [];
  typed_error = error;
}

abbrev finished_input : List NodeRecord → String → EventInput
finished_input nodes time = record {
  actor = actor_id;
  reason =
      if every (λ n. n.product == "auto_poster") nodes
      then "Every requested AutoPoster queue draft was durably scheduled and remains unapproved."
      else "Every node completed with an authoritative child mission result.";
  timestamp = time;
  evidence_references = map (λ n. template ("child-mission:" ∷ n.child_mission_id ∷ [])) nodes;
  typed_error = none;
}

-- The identifiers of the completed nodes.
abbrev pub completed_ids : List NodeRecord → List String
completed_ids nodes = map (λ n. n.node_id) (keep (has_status NodeState.completed) nodes)

abbrev pub is_ready : List NodeRecord → NodeRecord → Bool
is_ready nodes node =
    has_status NodeState.blocked node
    && every (λ dependency. any (λ c. c == dependency) (completed_ids nodes)) node.depends_on

unfoldable pub ready_nodes : List NodeRecord → List NodeRecord
ready_nodes nodes = sort_by (λ a b. text_lt a.node_id b.node_id) (keep (is_ready nodes) nodes)

module _ {W : Type 0} (p : Platform W) where
  unfoldable pub begin_running : GraphRecord → Exec (Service W) GraphRecord
  begin_running graph =
      if same_graph_state graph.status GraphState.approved
      then (timestamp >>= λ time.
          on_journal
            (transition_graph graph.graph_id GraphState.running (started_input graph time) none))
      else pure graph

  unfoldable pub park_graph : String → Option TypedError → Exec (Service W) (Unit {0})
  park_graph id error = do
    time ← timestamp
    on_journal (transition_graph id GraphState.failed_recoverable (parked_input error time) none)
        >> done

  unfoldable pub sync_if_running : GraphRecord → NodeRecord → Exec (Service W) (Unit {0})
  sync_if_running graph node =
      if has_status NodeState.running node then sync_node_from_child_truth p graph node else done

  -- What follows one dispatch: `true` where the loop over the ready nodes returns.
  unfoldable pub after_dispatch : String → NodeRecord → Exec (Service W) Bool
  after_dispatch id after =
      if has_status NodeState.failed_terminal after
      then (on_journal (require_graph id) >>= λ graph.
          terminate_graph_for_node graph after >> pure true)
      else (if has_status NodeState.failed_recoverable after
          then (park_graph id after.typed_error >> pure true)
          else pure false)

  -- The loop over the ready nodes.
  unfoldable pub dispatch_ready : String → List NodeRecord → Exec (Service W) Bool
  dispatch_ready id [] = pure false
  dispatch_ready id (node ∷ rest) = do
    graph ← on_journal (require_graph id)
    dispatch_node p graph node
    after ← on_journal (require_node id node.node_id)
    stop ← after_dispatch id after
    if stop then pure true else dispatch_ready id rest

  unfoldable pub dispatch_or_stop : String → List NodeRecord → Exec (Service W) Bool
  dispatch_or_stop id [] = pure true
  dispatch_or_stop id (node ∷ rest) = dispatch_ready id (node ∷ rest)

  -- The decision where no node has failed terminally.
  unfoldable pub decide_open : String → List NodeRecord → Exec (Service W) Bool
  decide_open id nodes =
      if any (has_status NodeState.failed_recoverable) nodes
      then (park_graph id none >> pure true)
      else (if any (has_status NodeState.running) nodes
          then pure true
          else (if every (has_status NodeState.completed) nodes
              then (timestamp >>= λ time.
                  on_journal
                    (transition_graph id GraphState.completed (finished_input nodes time) none)
                  >> pure true)
              else dispatch_or_stop id (ready_nodes nodes)))

  unfoldable pub decide_by :
      String → GraphRecord → List NodeRecord → Option NodeRecord → Exec (Service W) Bool
  decide_by id graph nodes (some node) = terminate_graph_for_node graph node >> pure true
  decide_by id graph nodes none = decide_open id nodes

  -- The decision over the nodes' states in one pass: `true` where the scheduler returns.
  unfoldable pub decide : String → GraphRecord → List NodeRecord → Exec (Service W) Bool
  decide id graph nodes =
      decide_by id graph nodes (find (has_status NodeState.failed_terminal) nodes)

  -- One round of the scheduler's loop: `true` where it returns.
  unfoldable pub scheduler_pass : String → Exec (Service W) Bool
  scheduler_pass id = do
    found ← on_journal (require_graph id)
    graph ← begin_running found
    if same_graph_state graph.status GraphState.running
        then (on_journal (list_nodes id) >>= λ interrupted.
            for_each interrupted (sync_if_running graph)
            >> (on_journal (list_nodes id) >>= decide id graph))
        else pure true

  unfoldable pub scheduler_loop : ℕ → String → Exec (Service W) (Unit {0})
  scheduler_loop zero id = done
  scheduler_loop (suc left) id =
      scheduler_pass id >>= λ stop. if stop then done else scheduler_loop left id

  unfoldable pub run_scheduler : String → Exec (Service W) (Unit {0})
  run_scheduler id =
      on_journal (require_graph id) >>= λ graph. scheduler_loop (graph.node_count + 1) id
