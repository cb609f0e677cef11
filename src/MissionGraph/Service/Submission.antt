-- ===== src/MissionGraph/Service/Submission.antt =====
-- submitGraph of apps/backend/src/missions/missionGraphService.ts.
use chanter_operator.Prelude.{
  String, Bool, true, false, Option, none, some, List, [], ◌∷◌, ◌==◌, if◌then◌else◌, template, find,
  map,
}
use chanter_operator.Prelude.Exec.{
  Exec, Thrown, other_error, refusal, pure, throw, lift, gets, ◌>>=◌, ◌>>◌, done, ensure,
  with_transaction,
}
use chanter_operator.Json.{Json, object}
use chanter_operator.MissionGraph.Records.{
  GraphRecord, GraphInsertInput, NodeInsertInput, EventInput,
}
use chanter_operator.MissionGraph.Journal.{Journal, get_graph, require_graph}
use chanter_operator.MissionGraph.Journal.Transitions.{append_authoritative_replay_event}
use chanter_operator.MissionGraph.Journal.Insert.{insert_graph}
use chanter_operator.MissionGraph.Compiled.{
  CompiledGraph, CompiledNode, child_mission_id, child_trace_id, child_idempotency_key,
}
use chanter_operator.MissionGraph.Compiler.{CompileError}
use chanter_operator.MissionGraph.Compiler.Compile.{
  CompileResult, compiled, failed, compile_mission_graph,
}
use chanter_operator.MissionGraph.Service.{
  Service, Platform, on_journal, timestamp, restore_service, assert_contains_no_protected_value,
}
use chanter_operator.MissionGraph.Service.Control.{event_input}
use chanter_operator.MissionGraph.Service.Views.{GraphView, build_view}

-- What compileMissionGraph gives for a valid envelope.
pub record Compiled : Type 0 where
  pub document : CompiledGraph
  pub normalized_json : String
  pub graph_hash : String

abbrev trace_mismatch : String → Thrown
trace_mismatch message = refusal message 409 (some "OPERATOR_GRAPH_TRACE_MISMATCH")

abbrev idempotency_mismatch : String → Thrown
idempotency_mismatch message = refusal message 409 (some "OPERATOR_GRAPH_IDEMPOTENCY_MISMATCH")

abbrev node_input_of : CompiledGraph → CompiledNode → NodeInsertInput
node_input_of graph node = record {
  node_id = node.node_id;
  product = node.target.product;
  action = node.target.action;
  objective = node.objective;
  input = object node.input;
  depends_on = node.depends_on;
  child_mission_id = child_mission_id graph.graph_id node.node_id;
  child_trace_id = child_trace_id graph.trace_id node.node_id;
  child_idempotency_key = child_idempotency_key graph.graph_id node.node_id;
}

-- The argument of insertGraph.
unfoldable pub insert_input : Compiled → String → GraphInsertInput
insert_input result time =
    let graph = result.document in
    record {
      graph_id = graph.graph_id;
      trace_id = graph.trace_id;
      idempotency_key = graph.idempotency_key;
      schema_version = graph.schema_version;
      source_system = graph.source.system;
      requested_by = graph.source.requested_by;
      tenant_user_id = graph.tenant.user_id;
      workspace_id = graph.tenant.workspace_id;
      account_id = graph.tenant.account_id;
      objective = graph.objective;
      compiled_graph_json = result.normalized_json;
      graph_hash = result.graph_hash;
      requested_at = graph.requested_at;
      timestamp = time;
      nodes = map (node_input_of graph) graph.nodes;
    }

abbrev replay_input : GraphRecord → String → String → String → EventInput
replay_input graph requested_by reason time =
    event_input requested_by reason
      (template ("graph:" ∷ graph.graph_id ∷ [])
        ∷ template ("graph-sha256:" ∷ graph.graph_hash ∷ [])
        ∷ template ("idempotency-key:" ∷ graph.idempotency_key ∷ [])
        ∷ [])
      time

-- getGraphBy
unfoldable pub get_graph_by : (GraphRecord → String) → String → Exec Journal (Option GraphRecord)
get_graph_by column value = gets λ j. find (λ g. column g == value) j.graphs

-- `conflicting && conflicting.graphId !== compiled.graphId`, turned round.
abbrev is_free_for : String → Option GraphRecord → Bool
is_free_for id none = true
is_free_for id (some g) = g.graph_id == id

abbrev compile_refusal : List CompileError → Thrown
compile_refusal [] = other_error "TypeError"
compile_refusal (first ∷ rest) = refusal first.message first.status (some first.code)

module _ {W : Type 0} where
  unfoldable pub assert_existing_submit_binding :
      GraphRecord → Compiled → Exec (Service W) (Unit {0})
  assert_existing_submit_binding existing result = do
    ensure (result.document.idempotency_key == existing.idempotency_key) (
        idempotency_mismatch
          "The supplied idempotency identity does not match its durable graph binding.")
    ensure (result.document.trace_id == existing.trace_id)
        (trace_mismatch "The supplied trace identity does not match its durable graph binding.")
    ensure (result.graph_hash == existing.graph_hash) (
        refusal "The graph is already bound to a different exact compiled graph hash." 409
          (some "OPERATOR_GRAPH_PAYLOAD_MISMATCH"))

  unfoldable pub assert_identifiers_available : CompiledGraph → Exec (Service W) (Unit {0})
  assert_identifiers_available graph = do
    same_trace ← on_journal (get_graph_by (λ g. g.trace_id) graph.trace_id)
    ensure (is_free_for graph.graph_id same_trace)
        (trace_mismatch "The supplied trace identity is already bound to another mission graph.")
    same_key ← on_journal (get_graph_by (λ g. g.idempotency_key) graph.idempotency_key)
    ensure (is_free_for graph.graph_id same_key) (
        idempotency_mismatch
          "The supplied idempotency identity is already bound to another mission graph.")

  -- The event of an exact replay, recorded once for each hash and key.
  unfoldable pub record_submission_replay :
      GraphRecord → String → String → Exec (Service W) (Unit {0})
  record_submission_replay graph requested_by reason = do
    time ← timestamp
    on_journal (
          append_authoritative_replay_event graph.graph_id
            (template (graph.graph_hash ∷ ":" ∷ graph.idempotency_key ∷ []))
            (replay_input graph requested_by reason time))
        >> done

  -- The body of submitGraph's transaction, where the graph is there already and where it is not:
  -- whether it was a replay.
  unfoldable pub insert_unless_raced :
      Compiled → String → Option GraphRecord → Exec (Service W) Bool
  insert_unless_raced result time (some raced) =
      assert_existing_submit_binding raced result >> pure true
  insert_unless_raced result time none =
      assert_identifiers_available result.document
      >> on_journal (insert_graph (insert_input result time))
      >> pure false

  unfoldable pub compiled_or_throw : CompileResult → Exec (Service W) Compiled
  compiled_or_throw (failed errors) = throw (compile_refusal errors)
  compiled_or_throw (compiled document json hash) =
      pure (record { document = document; normalized_json = json; graph_hash = hash })

module _ {W : Type 0} (p : Platform W) where
  unfoldable pub submit_new : Compiled → Exec (Service W) GraphView
  submit_new result = do
    let id = result.document.graph_id
    time ← timestamp
    replayed ←
        with_transaction restore_service
          (on_journal (get_graph id) >>= insert_unless_raced result time)
    (if replayed
        then (on_journal (require_graph id) >>= λ raced.
            record_submission_replay raced result.document.source.requested_by
              "Exact concurrent graph submission replay returned the existing authoritative graph identity without execution.")
        else done)
    graph ← on_journal (require_graph id)
    build_view p graph replayed

  unfoldable pub submit_existing : Compiled → GraphRecord → Exec (Service W) GraphView
  submit_existing result existing = do
    assert_existing_submit_binding existing result
    record_submission_replay existing result.document.source.requested_by
        "Exact graph submission replay returned the existing authoritative graph identity without execution."
    graph ← on_journal (require_graph existing.graph_id)
    build_view p graph true

  unfoldable pub submit_compiled : Compiled → Option GraphRecord → Exec (Service W) GraphView
  submit_compiled result (some existing) = submit_existing result existing
  submit_compiled result none = submit_new result

  unfoldable pub submit_graph : Json → Exec (Service W) GraphView
  submit_graph envelope = do
    verdict ← lift (compile_mission_graph p.contracts envelope)
    result ← compiled_or_throw verdict
    assert_contains_no_protected_value (result.normalized_json ∷ [])
    existing ← on_journal (get_graph result.document.graph_id)
    submit_compiled result existing
