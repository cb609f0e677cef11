-- ===== src/Agentic/Journal/Tests.antt =====
-- A small mission of apps/backend/src/agentic/agenticPlanJournal.ts: two nodes, the second after the
-- first, and the witnesses.
use chanter_operator.Prelude.{
  ℕ, zero, suc, ◌≡◌, String, true, none, some, List, [], ◌∷◌, find, template, arith,
}
use chanter_operator.Json.{null}
use chanter_operator.Agentic.States.{PlanState, NodeState, is_terminal_plan, is_terminal_node}
use chanter_operator.Agentic.Records.{
  MissionRecord, NodeRecord, NodeType, AuthorityRequirement, PlanNode, ArtifactWriteRecord,
}
use chanter_operator.Agentic.Inputs.{MissionInsertInput}
use chanter_operator.Agentic.Journal.{Journal, mission_is, node_is, artifact_is}
use chanter_operator.Agentic.Journal.Insert.{mission_row, node_row, approval_input}
use chanter_operator.Agentic.Journal.Calls.{Call, inserts, moves_mission, records_artifact, run}
use chanter_operator.Agentic.Journal.Sequence.{IsNumbered, plan_run-IsNumbered}
use chanter_operator.Agentic.Journal.History.Runs.{plan_run_terminal}
use chanter_operator.Agentic.Journal.Artifacts.{IsWrittenOnce, plan_run_writes_once}

abbrev sample_plan_node : String → List String → PlanNode
sample_plan_node id dependency_ids = record {
  node_id = id;
  node_type = NodeType.verifier;
  capability_id = some "verify";
  worker_kind = none;
  provider_binding_id = none;
  dependency_ids = dependency_ids;
  input_refs = [];
  authority_requirement = AuthorityRequirement.no_requirement;
  budget = record {
    max_tool_calls = 1;
    max_model_calls = 0;
    max_duration_ms = 1000;
    max_tokens = none;
    max_cost_micros = none;
  };
  deadline_offset_ms = 1000;
  attempt_limit = 2;
  reconciliation_mode = "worker_record";
  evidence_policy = record { minimum_items = 0; require_accepted_context_reference = true };
  payload_hash = "payload";
}

abbrev sample_input : MissionInsertInput
sample_input = record {
  intent = record {
    mission_id = "m";
    trace_id = "t";
    schema_version = "chanter.agentic-work.v1";
    workspace_id = "w";
    actor_id = "founder";
    objective = "Check the release.";
    intent_hash = "intent";
    requested_at = "2026-01-01T00:00:00.000Z";
    document = null;
  };
  context_bundle_id = "context";
  context_bundle = null;
  plan = record {
    plan_id = "p";
    plan_hash = "plan";
    nodes = sample_plan_node "a" [] ∷ sample_plan_node "b" ("a" ∷ []) ∷ [];
    edges = record { from_node_id = "a"; to_node_id = "b" } ∷ [];
    document = null;
  };
  routing = null;
  timestamp = "2026-01-01T00:00:01.000Z";
  idempotency_key_for = λ id. template ("m:" ∷ id ∷ []);
  exception_state = null;
}

-- e, ee, eee, …
abbrev sample_ids : ℕ → String
sample_ids zero = "e"
sample_ids (suc n) = template ("e" ∷ sample_ids n ∷ [])

abbrev empty_journal : Journal
empty_journal = record {
  db = record { missions = []; nodes = []; edges = []; events = []; evidence = []; artifacts = [] };
  id_factory = sample_ids;
  ids_used = 0;
}

-- The journal with the mission in the given state, its first node done, and one artifact written.
abbrev sample_artifact : ArtifactWriteRecord
sample_artifact = record {
  mission_id = "m";
  artifact_name = "report.md";
  artifact_hash = "h";
  approved_candidate_hash = "h";
  byte_length = 12;
  artifact_path = "out/report.md";
  written_at = "2026-01-01T00:00:09.000Z";
}

abbrev stored_mission : MissionRecord
stored_mission = record (mission_row sample_input) { status = PlanState.completed }

abbrev stored_node : NodeRecord
stored_node = record (node_row sample_input (sample_plan_node "a" [])) {
  state = NodeState.completed;
}

abbrev stored : Journal
stored = record empty_journal {
  db = record {
    missions = stored_mission ∷ [];
    nodes = stored_node ∷ [];
    edges = [];
    events = [];
    evidence = [];
    artifacts = sample_artifact ∷ [];
  };
}

-- A second mission, an attempt to reopen the first, and another artifact under the same name.
abbrev sample_calls : List Call
sample_calls =
    inserts (record sample_input {
      intent = record (sample_input.intent) { mission_id = "n"; trace_id = "u" };
      plan = record (sample_input.plan) { plan_id = "q" };
    })
    ∷ moves_mission "m" PlanState.running (approval_input sample_input)
    ∷ records_artifact (record sample_artifact { artifact_hash = "other" })
    ∷ []

plan_run-IsNumbered_example : IsNumbered (run sample_calls stored)
plan_run-IsNumbered_example =
    plan_run-IsNumbered sample_calls stored (record { numbered = λ id. tt })

plan_run_terminal_example :
    ((id : String) (m : MissionRecord)
      → find (mission_is id) stored.missions ≡ some m
      → is_terminal_plan m.status ≡ true
      → (n : MissionRecord) × (find (mission_is id) (run sample_calls stored).missions ≡ some n)
        × (n.status ≡ m.status))
    × ((plan_id node_id : String) (m : NodeRecord)
        → find (node_is plan_id node_id) stored.nodes ≡ some m
        → is_terminal_node m.state ≡ true
        → (n : NodeRecord) × (find (node_is plan_id node_id) (run sample_calls stored).nodes
            ≡ some n)
          × (n.state ≡ m.state))
plan_run_terminal_example = plan_run_terminal sample_calls stored

stored-IsWrittenOnce : IsWrittenOnce stored
stored-IsWrittenOnce = record { once = λ id name. ground arith }

plan_run_writes_once_example :
    IsWrittenOnce (run sample_calls stored)
    × ((id name : String) (a : ArtifactWriteRecord)
        → find (artifact_is id name) stored.artifacts ≡ some a
        → find (artifact_is id name) (run sample_calls stored).artifacts ≡ some a)
plan_run_writes_once_example = plan_run_writes_once sample_calls stored stored-IsWrittenOnce
