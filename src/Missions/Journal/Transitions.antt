-- ===== src/Missions/Journal/Transitions.antt =====
-- initialize and transition of GenericMissionJournal in
-- apps/backend/src/missions/genericMissionJournal.ts.
use chanter_operator.Prelude.{
  ℕ, String, Bool, not, ◌&&◌, ◌||◌, none, some, [], ◌∷◌, ◌++◌, ◌==◌, if◌then◌else◌, template, any,
  count_by, update_where, nat_eq, leb, or_else,
}
use chanter_operator.Prelude.Exec.{Exec, Thrown, refusal, ◌>>=◌, ◌>>◌, ensure, ok, err}
use chanter_operator.Json.{null}
use chanter_operator.Missions.States.{
  MissionState, ReconciliationOutcome, allowed_transition, same_state, state_name,
}
use chanter_operator.Missions.Records.{ExecutionRecord, InitializeInput, TransitionOptions}
use chanter_operator.Missions.Journal.{
  Journal, with_savepoint, execution_is, mission_is, constraint, require_execution,
  insert_transition,
}

abbrev pub first_execution : InitializeInput → ExecutionRecord
first_execution input = record {
  mission_id = input.mission_id;
  execution_attempt_id = input.execution_attempt_id;
  mission_payload_hash = input.mission_payload_hash;
  downstream_operation_type = input.downstream_operation_type;
  current_state = MissionState.approval_required;
  last_confirmed_boundary = MissionState.approval_required;
  recovery_reason = "";
  recovery_classification = "NONE";
  reconciliation_outcome = ReconciliationOutcome.not_started;
  downstream_ids = none;
  final_result_status = none;
  retry_count = 0;
  typed_error = none;
  reconciliation_result = null;
  runtime_observation = null;
  created_at = input.timestamp;
  updated_at = input.timestamp;
}

abbrev pub first_options : InitializeInput → TransitionOptions
first_options input = record {
  actor = input.actor;
  reason = "Mission persisted and explicit human approval is required.";
  timestamp = input.timestamp;
  execution_attempt_id = none;
  last_confirmed_boundary = none;
  recovery_reason = none;
  recovery_classification = none;
  reconciliation_outcome = none;
  downstream_ids = none;
  final_result_status = none;
  retry_count = none;
  typed_error = none;
  reconciliation_result = none;
  runtime_observation = none;
  evidence_references = some (template ("mission:" ∷ input.mission_id ∷ []) ∷ []);
}

-- The primary key mission_id and the reference to the mission.
unfoldable pub insert_execution : ExecutionRecord → Exec Journal (Unit {0})
insert_execution row j =
    if not (any (execution_is row.mission_id) j.executions)
      && any (mission_is row.mission_id) j.missions
    then (ok tt, record j { db = record (j.db) { executions = j.executions ++ row ∷ [] } })
    else (err (constraint "operator_mission_executions"), j)

-- initialize within its savepoint.
unfoldable pub record_initialize : InitializeInput → Exec Journal ExecutionRecord
record_initialize input = do
  insert_execution (first_execution input)
  insert_transition input.mission_id none MissionState.approval_required (first_options input)
  require_execution input.mission_id

unfoldable pub initialize : InitializeInput → Exec Journal ExecutionRecord
initialize input = with_savepoint (record_initialize input)

-- The object `next`.
abbrev pub moved : MissionState → TransitionOptions → ExecutionRecord → ExecutionRecord
moved to o current = record current {
  current_state = to;
  execution_attempt_id = or_else o.execution_attempt_id current.execution_attempt_id;
  last_confirmed_boundary = or_else o.last_confirmed_boundary to;
  recovery_reason = or_else o.recovery_reason current.recovery_reason;
  recovery_classification = or_else o.recovery_classification current.recovery_classification;
  reconciliation_outcome = or_else o.reconciliation_outcome current.reconciliation_outcome;
  downstream_ids = or_else o.downstream_ids current.downstream_ids;
  final_result_status = or_else o.final_result_status current.final_result_status;
  retry_count = or_else o.retry_count current.retry_count;
  typed_error = or_else o.typed_error current.typed_error;
  reconciliation_result = or_else o.reconciliation_result current.reconciliation_result;
  runtime_observation = or_else o.runtime_observation current.runtime_observation;
  updated_at = o.timestamp;
}

-- The columns that the UPDATE sets.
abbrev pub written : ExecutionRecord → ExecutionRecord → ExecutionRecord
written next row = record row {
  execution_attempt_id = next.execution_attempt_id;
  current_state = next.current_state;
  last_confirmed_boundary = next.last_confirmed_boundary;
  recovery_reason = next.recovery_reason;
  recovery_classification = next.recovery_classification;
  reconciliation_outcome = next.reconciliation_outcome;
  downstream_ids = next.downstream_ids;
  final_result_status = next.final_result_status;
  retry_count = next.retry_count;
  typed_error = next.typed_error;
  reconciliation_result = next.reconciliation_result;
  runtime_observation = next.runtime_observation;
  updated_at = next.updated_at;
}

-- WHERE mission_id = ? AND current_state = ?
abbrev pub is_current : String → MissionState → ExecutionRecord → Bool
is_current id from row = row.mission_id == id && same_state row.current_state from

-- The UPDATE, with the number of rows changed. A retry count above 1 breaks its CHECK clause.
unfoldable pub update_execution : String → MissionState → ExecutionRecord → Exec Journal ℕ
update_execution id from next j =
    let changes = count_by (is_current id from) j.executions in
    if nat_eq changes 0 || leb next.retry_count 1
    then (
      ok changes,
      record j {
        db = record (j.db) {
          executions = update_where (is_current id from) (written next) j.executions;
        };
      },
    )
    else (err (constraint "operator_mission_executions"), j)

abbrev pub invalid_transition : MissionState → MissionState → Thrown
invalid_transition from to =
    refusal
      (template (
        "Invalid durable mission transition "
        ∷ state_name from
        ∷ " -> "
        ∷ state_name to
        ∷ "."
        ∷ []))
      409 (some "MISSION_JOURNAL_INVALID_TRANSITION")

abbrev pub concurrent_transition : Thrown
concurrent_transition =
    refusal "Durable mission state changed before the transition could be recorded." 409
      (some "MISSION_JOURNAL_CONCURRENT_TRANSITION")

-- transition within its savepoint.
unfoldable pub record_transition :
    String → MissionState → TransitionOptions → ExecutionRecord → Exec Journal ExecutionRecord
record_transition id to o current = do
  changes ← update_execution id current.current_state (moved to o current)
  ensure (nat_eq changes 1) concurrent_transition
  insert_transition id (some current.current_state) to o
  require_execution id

unfoldable pub transition : String → MissionState → TransitionOptions → Exec Journal ExecutionRecord
transition id to o = do
  current ← require_execution id
  ensure (allowed_transition current.current_state to) (invalid_transition current.current_state to)
  with_savepoint (record_transition id to o current)
