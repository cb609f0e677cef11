-- ===== src/Missions/Journal.antt =====
-- GenericMissionJournal of apps/backend/src/missions/genericMissionJournal.ts, with the keys and
-- CHECK clauses of its tables in apps/backend/src/db/schema.ts.
pub mod Transitions
pub mod Effects
pub mod Rows
pub mod Moves
pub mod Calls
pub mod Told
pub mod Approved
pub mod Tests
use chanter_operator.Prelude.{
  ℕ, suc, ◌+◌, String, Bool, not, ◌&&◌, ◌||◌, Option, none, some, List, [], ◌∷◌, ◌++◌, ◌==◌,
  if◌then◌else◌, template, find, keep, any, count_by, update_where, nat_eq, leb, or_else,
}
use chanter_operator.Prelude.Exec.{
  Exec, Thrown, other_error, refusal, gets, with_transaction, ◌>>=◌, ◌>>◌, or_throw, ensure, ok,
  err,
}
use chanter_operator.Prelude.Numbering.{max_sequence}
use chanter_operator.Prelude.Order.{sort_by}
use chanter_operator.Json.{null}
use chanter_operator.Missions.States.{
  MissionState, ReconciliationOutcome, allowed_transition, same_state, state_name,
}
use chanter_operator.Missions.Records.{
  ExecutionRecord, JournalTransition, MissionScope, InitializeInput, TransitionOptions,
}

-- operator_missions, operator_mission_executions and operator_mission_journal, in insertion order.
pub record Tables : Type 0 where
  pub missions : List MissionScope
  pub executions : List ExecutionRecord
  pub transitions : List JournalTransition

-- The journal's fields: its database, and the factory of identifiers with the calls made so far.
pub record Journal : Type 0 where
  pub db : Tables
  pub open db use *
  pub id_factory : ℕ → String
  pub ids_used : ℕ

-- A rollback puts the tables back; an identifier that was drawn stays drawn.
abbrev pub restore : Journal → Journal → Journal
restore before after = record after { db = before.db }

-- withSavepoint
unfoldable pub with_savepoint : {A : Type 0} → Exec Journal A → Exec Journal A
with_savepoint m = with_transaction restore m

abbrev pub execution_is : String → ExecutionRecord → Bool
execution_is id e = e.mission_id == id

abbrev pub mission_is : String → MissionScope → Bool
mission_is id m = m.mission_id == id

abbrev pub constraint : String → Thrown
constraint table = other_error (template ("constraint failed: " ∷ table ∷ []))

unfoldable pub get_execution : String → Exec Journal (Option ExecutionRecord)
get_execution id = gets λ j. find (execution_is id) j.executions

abbrev pub journal_missing : Thrown
journal_missing =
    refusal "Runtime mission has no durable execution journal." 409 (some "MISSION_JOURNAL_MISSING")

unfoldable pub require_execution : String → Exec Journal ExecutionRecord
require_execution id = get_execution id >>= or_throw journal_missing

unfoldable pub list_transitions : String → Exec Journal (List JournalTransition)
list_transitions id = gets λ j.
    sort_by (λ a b. leb a.sequence b.sequence)
      (keep (λ (e : JournalTransition). e.mission_id == id) j.transitions)

abbrev pub next_sequence : String → List JournalTransition → ℕ
next_sequence id es = max_sequence (λ e. e.mission_id) (λ e. e.sequence) id es + 1

abbrev pub transition_row :
    String
    → String
    → ℕ
    → MissionScope
    → ExecutionRecord
    → Option MissionState
    → MissionState
    → TransitionOptions
    → JournalTransition
transition_row id transition_id sequence scope execution from to o = record {
  transition_id = transition_id;
  mission_id = id;
  sequence = sequence;
  execution_attempt_id = execution.execution_attempt_id;
  idempotency_key = scope.idempotency_key;
  product = scope.product;
  action = scope.action;
  previous_state = from;
  new_state = to;
  timestamp = o.timestamp;
  actor = o.actor;
  reason = o.reason;
  evidence_references = or_else o.evidence_references [];
  typed_error = or_else o.typed_error none;
}

unfoldable pub next_id : Exec Journal String
next_id j = (ok (j.id_factory j.ids_used), record j { ids_used = suc j.ids_used })

-- The keys transition_id and (mission_id, sequence), and the reference to the mission.
unfoldable pub transition_fits : JournalTransition → Journal → Bool
transition_fits row j =
    not (any (λ (e : JournalTransition). e.transition_id == row.transition_id) j.transitions)
    && not (
        any
          (λ (e : JournalTransition).
            e.mission_id == row.mission_id && nat_eq e.sequence row.sequence)
          j.transitions)
    && any (mission_is row.mission_id) j.missions

unfoldable pub append_transition : JournalTransition → Exec Journal (Unit {0})
append_transition row j =
    if transition_fits row j
    then (ok tt, record j { db = record (j.db) { transitions = j.transitions ++ row ∷ [] } })
    else (err (constraint "operator_mission_journal"), j)

-- insertTransition
unfoldable pub insert_transition :
    String → Option MissionState → MissionState → TransitionOptions → Exec Journal (Unit {0})
insert_transition id from to o = do
  found ← gets λ j. find (mission_is id) j.missions
  scope ← or_throw (refusal "Runtime mission was not found." 404 none) found
  execution ← require_execution id
  sequence ← gets λ j. next_sequence id j.transitions
  transition_id ← next_id
  append_transition (transition_row id transition_id sequence scope execution from to o)
