-- ===== src/MissionGraph/Service/Tests.antt =====
-- A service of apps/backend/src/missions/missionGraphService.ts with one graph, its witnesses, and
-- one run from its submission to its completion.
use chanter_operator.MissionGraph.Service.Authority.{IsAuthorised, serve_all-IsAuthorised}
use chanter_operator.MissionGraph.Service.Views.{has_graph, get_graph_view, list_graph_views, Limit}
use chanter_operator.MissionGraph.Service.Reads.{reads_leave}
use chanter_operator.MissionGraph.Records.{NodeRecord}
use chanter_operator.Prelude.{map, trim, length_of, every_code, decimal, includes, slice_to}
use chanter_operator.Prelude.Exec.{◌>>=◌, ensure, or_throw, for_each, with_transaction, try_catch}
use chanter_operator.Json.{get_field}
use chanter_operator.MissionGraph.States.{allowed_graph_transition, allowed_node_transition}
use chanter_operator.MissionGraph.Compiled.{
  child_envelope, child_account_id, child_mission_id, child_trace_id, child_idempotency_key,
}
use chanter_operator.MissionGraph.Registry.{resolve_registered_mission_action}
use chanter_operator.MissionGraph.Compiler.{
  envelope_errors, exact_string, is_identifier, is_objective, reject_unknown_fields,
}
use chanter_operator.MissionGraph.Compiler.Nodes.{parse_node, parse_nodes, shape_errors}
use chanter_operator.MissionGraph.Compiler.Cycle.{detect_cycle, consume, release, dependents_of}
use chanter_operator.MissionGraph.Compiler.Compile.{compile_mission_graph, assemble, check_nodes}
use chanter_operator.MissionGraph.Journal.{
  append_event, append_event_as, event_fits, next_id, with_savepoint, get_graph, require_graph,
  require_node,
}
use chanter_operator.MissionGraph.Journal.Order.{list_nodes, list_edges, list_events}
use chanter_operator.MissionGraph.Journal.Insert.{
  insert_graph, insert_graph_row, insert_node_row, insert_edge_row, insert_node,
}
use chanter_operator.MissionGraph.Journal.Transitions.{
  transition_graph, record_graph_transition, update_graph, transition_node, record_node_transition,
  update_node,
}
use chanter_operator.MissionGraph.Journal.Tests.{empty_journal}
use chanter_operator.MissionGraph.Service.{
  on_journal, with_journal, on_children, with_children, read_children, timestamp, inject_failure,
  thrown_or_done, assert_contains_no_protected_value, child_reference,
}
use chanter_operator.MissionGraph.Service.Nodes.{
  apply_child_outcome, record_outcome, schedule_observation,
}
use chanter_operator.MissionGraph.Service.Dispatch.{
  dispatch_node, execute_child_mission, drive_child, find_compiled_node, validated,
}
use chanter_operator.MissionGraph.Service.Scheduler.{
  run_scheduler, scheduler_loop, scheduler_pass, decide, decide_by, decide_open, dispatch_or_stop,
  dispatch_ready, after_dispatch, sync_if_running, begin_running, ready_nodes,
}
use chanter_operator.MissionGraph.Service.Views.{build_view, view_nodes, view_node}
use chanter_operator.MissionGraph.Service.Control.{assert_graph_integrity, is_graph_hash}
use chanter_operator.MissionGraph.Service.Approval.{first_approval}
use chanter_operator.MissionGraph.Service.Submission.{
  submit_compiled, submit_new, insert_unless_raced, insert_input, record_submission_replay,
  compiled_or_throw, assert_identifiers_available, get_graph_by,
}
use chanter_operator.MissionGraph.Service.Calls.{serve}
use chanter_operator.Prelude.{◌≡◌, refl, false, none, some, List, [], ◌∷◌, find, arith, ◌⊎◌}
use chanter_operator.Prelude.Exec.{ok, pure}
use chanter_operator.Prelude.Exec.Rules.{Refuses}
use chanter_operator.Json.{text}
use chanter_operator.MissionGraph.States.{GraphState}
use chanter_operator.MissionGraph.Records.{GraphRecord}
use chanter_operator.MissionGraph.Journal.{graph_is}
use chanter_operator.MissionGraph.Journal.Insert.{graph_row}
use chanter_operator.MissionGraph.Journal.Tests.{stored, sample_hash, sample_graph}
use chanter_operator.MissionGraph.Journal.Sequence.{IsNumbered}
use chanter_operator.MissionGraph.Journal.Bounds.{IsBounded}
use chanter_operator.MissionGraph.Journal.History.{Extends}
use chanter_operator.MissionGraph.Registry.{Lane}
use chanter_operator.MissionGraph.Compiler.Tests.{sample_contracts, sample_envelope}
use chanter_operator.MissionGraph.Service.{Service, Platform, ChildMission, ChildOutcome}
use chanter_operator.MissionGraph.Service.Submission.{submit_graph}
use chanter_operator.MissionGraph.Service.Approval.{approve_graph}
use chanter_operator.MissionGraph.Service.Recovery.{resume_graph}
use chanter_operator.MissionGraph.Service.Cancellation.{cancel_graph}
use chanter_operator.MissionGraph.Service.Calls.{
  ControlCall, submits, approves, resumes, cancels, serve_all, serve_all-Extends,
  serve_all-IsNumbered, serve_all-final, serve_all-IsBounded,
}
use chanter_operator.MissionGraph.Service.Guards.{
  MayApprove, MayResume, MayCancel, approve_graph_guard, resume_graph_guard, cancel_graph_guard,
}

abbrev finished_child : ChildMission
finished_child = record {
  lane = Lane.generic;
  mission_id = "graph:g:node:a";
  status = "completed";
  execution_state = some "completed";
  next_permitted_actions = [];
  downstream_ids = none;
  retry_count = some 0;
  typed_error = none;
  outcome = ChildOutcome.completed;
  result_summary = none;
  evidence_references = [];
}

-- Every child mission is absent until it is created, and succeeds at once.
abbrev sample_platform : Platform (Unit {0})
sample_platform = record {
  has_mission = λ reference w. ok false;
  get_mission = λ reference w. ok finished_child;
  create_mission = λ envelope. pure tt;
  approve_child = λ reference by. pure finished_child;
  reconcile_child = λ reference. pure finished_child;
  resume_child = λ reference. pure finished_child;
  contracts = sample_contracts;
}

abbrev service_at : GraphState → Service (Unit {0})
service_at state = record {
  journal = stored state;
  children = tt;
  now = λ n. "2026-01-01T00:00:09.000Z";
  ticks = 0;
  protected_values = "secret" ∷ [];
  failure_injector = λ boundary id node_id. none;
  observation_scheduler = false;
  observations = [];
}

abbrev waiting : Service (Unit {0})
waiting = service_at GraphState.approval_required

abbrev finished : Service (Unit {0})
finished = service_at GraphState.completed

abbrev requests : List ControlCall
requests =
    submits sample_envelope
    ∷ approves "g" (some (text "founder")) (some (text sample_hash))
    ∷ resumes "g"
    ∷ cancels "g" (some (text "founder")) none
    ∷ []

serve_all-Extends_example :
    Extends waiting.journal (serve_all sample_platform requests waiting).journal
serve_all-Extends_example = serve_all-Extends sample_platform requests waiting

serve_all-IsNumbered_example : IsNumbered (serve_all sample_platform requests waiting).journal
serve_all-IsNumbered_example = serve_all-IsNumbered sample_platform requests waiting (λ id. tt)

serve_all-final_example :
    (h : GraphRecord) × (find
        (graph_is "g")
        (serve_all sample_platform requests finished).journal.graphs
      ≡ some h)
    × (h.status ≡ GraphState.completed)
serve_all-final_example =
    serve_all-final sample_platform requests finished "g"
      (record (graph_row sample_graph) { status = GraphState.completed }) refl refl

approve_graph_guard_example :
    MayApprove sample_platform "g" (some (text "founder")) (some (text sample_hash)) waiting
    ⊎ Refuses waiting (
        approve_graph sample_platform "g" (some (text "founder")) (some (text sample_hash)) waiting)
approve_graph_guard_example =
    approve_graph_guard sample_platform "g" (some (text "founder")) (some (text sample_hash))
      waiting

resume_graph_guard_example :
    MayResume sample_platform "g" waiting
    ⊎ Refuses waiting (resume_graph sample_platform "g" waiting)
resume_graph_guard_example = resume_graph_guard sample_platform "g" waiting

cancel_graph_guard_example :
    MayCancel "g" (some (text "founder")) waiting
    ⊎ Refuses waiting (cancel_graph sample_platform "g" (some (text "founder")) none waiting)
cancel_graph_guard_example =
    cancel_graph_guard sample_platform "g" waiting (some (text "founder")) none

serve_all-IsBounded_example : IsBounded (serve_all sample_platform requests waiting).journal
serve_all-IsBounded_example =
    serve_all-IsBounded sample_platform requests waiting (omega arith, (omega arith, tt))

abbrev empty_service : Service (Unit {0})
empty_service = record waiting { journal = empty_journal }

abbrev statuses : Service (Unit {0}) → List GraphState
statuses s = map (λ (g : GraphRecord). g.status) s.journal.graphs

-- Submitted and approved with its hash, the graph runs through both nodes and completes.
runs_to_completion :
    statuses (
      serve_all sample_platform
        (submits sample_envelope
          ∷ approves "g" (some (text "founder")) (some (text sample_hash))
          ∷ [])
        empty_service)
    ≡ GraphState.completed ∷ []
unfolding serve_all serve submit_graph submit_compiled submit_new insert_unless_raced insert_input
    record_submission_replay compiled_or_throw assert_identifiers_available get_graph_by
    compile_mission_graph assemble check_nodes detect_cycle consume release dependents_of parse_node
    parse_nodes shape_errors envelope_errors exact_string is_identifier is_objective
    reject_unknown_fields resolve_registered_mission_action get_field trim length_of every_code
    decimal child_envelope child_account_id child_mission_id child_trace_id child_idempotency_key
    approve_graph first_approval assert_graph_integrity is_graph_hash run_scheduler scheduler_loop
    scheduler_pass decide decide_by decide_open dispatch_or_stop dispatch_ready after_dispatch
    sync_if_running begin_running ready_nodes dispatch_node execute_child_mission drive_child
    find_compiled_node validated apply_child_outcome record_outcome schedule_observation build_view
    view_nodes view_node on_journal with_journal on_children with_children read_children timestamp
    inject_failure thrown_or_done assert_contains_no_protected_value child_reference insert_graph
    insert_graph_row insert_node_row insert_edge_row insert_node transition_graph
    record_graph_transition update_graph transition_node record_node_transition update_node
    append_event append_event_as event_fits next_id with_savepoint get_graph require_graph
    require_node list_nodes list_edges list_events ◌>>=◌ ensure or_throw for_each with_transaction
    try_catch allowed_graph_transition allowed_node_transition includes slice_to
runs_to_completion = refl

abbrev sample_rows : List NodeRecord
sample_rows = waiting.journal.nodes

reads_leave_example :
    ((has_graph "g" waiting).1.journal ≡ waiting.journal)
    × ((get_graph_view sample_platform "g" waiting).1.journal ≡ waiting.journal)
    × ((list_graph_views sample_platform (Limit.whole 500) waiting).1.journal ≡ waiting.journal)
reads_leave_example = reads_leave sample_platform "g" (Limit.whole 500) waiting

serve_all-IsAuthorised_example : IsAuthorised (serve_all sample_platform requests waiting).journal
serve_all-IsAuthorised_example = serve_all-IsAuthorised sample_platform requests waiting (refl, tt)
