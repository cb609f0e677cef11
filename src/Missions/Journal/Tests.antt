-- ===== src/Missions/Journal/Tests.antt =====
-- A mission that is initialized and approved, for apps/backend/src/missions/genericMissionJournal.ts.
use chanter_operator.Prelude.{◌≡◌, refl, true, none, some, List, [], ◌∷◌, any, template, decimal}
use chanter_operator.Prelude.Exec.{◌>>=◌, or_throw, with_transaction, ensure}
use chanter_operator.Missions.States.{MissionState, allowed_transition}
use chanter_operator.Missions.Records.{InitializeInput, TransitionOptions}
use chanter_operator.Missions.Journal.{
  Journal, with_savepoint, insert_transition, require_execution, get_execution, append_transition,
  transition_fits, next_id,
}
use chanter_operator.Missions.Journal.Transitions.{
  record_transition, initialize, transition, record_initialize, insert_execution, update_execution,
  first_options,
}
use chanter_operator.Missions.Journal.Rows.{state_at}
use chanter_operator.Missions.Journal.Calls.{Call, initializes, moves, run, step}
use chanter_operator.Missions.Journal.Told.{IsTold, entries_of, mission_run-IsTold}
use chanter_operator.Missions.Journal.Approved.{is_approval, mission_run_approved}

abbrev sample_journal : Journal
sample_journal = record {
  db = record {
    missions =
        record {
          mission_id = "m";
          idempotency_key = "k";
          product = "loop_governor";
          action = "manual_loop";
        }
        ∷ [];
    executions = [];
    transitions = [];
  };
  id_factory = λ n. template ("transition-" ∷ decimal n ∷ []);
  ids_used = 0;
}

abbrev sample_input : InitializeInput
sample_input = record {
  mission_id = "m";
  execution_attempt_id = "attempt-1";
  mission_payload_hash = "hash";
  downstream_operation_type = "loop_governor.manual_loop";
  timestamp = "2026-01-01T00:00:00.000Z";
  actor = "operator";
}

abbrev sample_options : TransitionOptions
sample_options = record (first_options sample_input) {
  reason = "Approved.";
  evidence_references = none;
}

-- A second start is refused, and so is a jump past the approval.
abbrev sample_calls : List Call
sample_calls =
    initializes sample_input
    ∷ moves "m" MissionState.completed sample_options
    ∷ initializes sample_input
    ∷ moves "m" MissionState.approved sample_options
    ∷ moves "m" MissionState.execution_started (record sample_options { retry_count = some 2 })
    ∷ []

sample_journal-IsTold : IsTold sample_journal
sample_journal-IsTold = record { numbered = λ id. _; told = λ id. refl }

mission_run-IsTold_example : IsTold (run sample_calls sample_journal)
mission_run-IsTold_example = mission_run-IsTold sample_calls sample_journal sample_journal-IsTold

sample_state :
    state_at "m" (run sample_calls sample_journal).executions ≡ some MissionState.approved
unfolding run step initialize transition record_initialize record_transition with_savepoint
    insert_execution update_execution insert_transition require_execution get_execution
    append_transition transition_fits next_id allowed_transition decimal ◌>>=◌ or_throw
    with_transaction ensure
sample_state = refl

mission_run_approved_example :
    any is_approval (entries_of "m" (run sample_calls sample_journal)) ≡ true
mission_run_approved_example =
    mission_run_approved sample_calls sample_journal "m" MissionState.approved sample_journal-IsTold
      sample_state refl
