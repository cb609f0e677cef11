-- ===== src/Agentic/Journal/Missions.antt =====
-- applyMissionFields, transitionMission and updateMission of
-- apps/backend/src/agentic/agenticPlanJournal.ts.
use chanter_operator.Prelude.{
  ℕ, String, Bool, ◌&&◌, ◌||◌, Option, none, some, [], ◌∷◌, if◌then◌else◌, template, count_by,
  update_where, nat_eq, or_else, is_some,
}
use chanter_operator.Prelude.Exec.{Exec, Thrown, refusal, modify, ◌>>=◌, ◌>>◌, ensure, ok}
use chanter_operator.Agentic.States.{
  PlanState, allowed_plan_transition, plan_state_name, same_plan_state,
}
use chanter_operator.Agentic.Records.{MissionRecord, Scope}
use chanter_operator.Agentic.Inputs.{MissionUpdateInput, EventDraft}
use chanter_operator.Agentic.Journal.{
  Journal, with_savepoint, mission_is, require_mission, append_event,
}

-- `if (value !== undefined) set(column, value)`, for a column that holds a text or NULL.
abbrev pub set_text : Option String → Option String → Option String
set_text none column = column
set_text (some value) column = some value

-- Whether any of the assignments is made.
abbrev pub has_assignments : MissionUpdateInput → Bool
has_assignments o =
    is_some o.execution_approved_by
    || is_some o.execution_approved_plan_hash
    || is_some o.candidate_hash
    || is_some o.candidate_markdown
    || is_some o.candidate_approved_by
    || is_some o.approved_candidate_hash
    || is_some o.candidate_approval_expires_at
    || is_some o.candidate_authority_revision
    || is_some o.artifact_hash
    || is_some o.artifact_name
    || is_some o.value_observation
    || is_some o.typed_error

abbrev pub assigned : MissionUpdateInput → String → MissionRecord → MissionRecord
assigned o timestamp m = record m {
  execution_approved_by = set_text o.execution_approved_by m.execution_approved_by;
  execution_approved_at =
      if is_some o.execution_approved_by then some timestamp else m.execution_approved_at;
  execution_approved_plan_hash =
      set_text o.execution_approved_plan_hash m.execution_approved_plan_hash;
  candidate_hash = or_else o.candidate_hash m.candidate_hash;
  candidate_markdown = or_else o.candidate_markdown m.candidate_markdown;
  candidate_approved_by = set_text o.candidate_approved_by m.candidate_approved_by;
  candidate_approved_at =
      if is_some o.candidate_approved_by then some timestamp else m.candidate_approved_at;
  approved_candidate_hash = set_text o.approved_candidate_hash m.approved_candidate_hash;
  candidate_approval_expires_at =
      or_else o.candidate_approval_expires_at m.candidate_approval_expires_at;
  candidate_authority_revision =
      or_else o.candidate_authority_revision m.candidate_authority_revision;
  artifact_hash = or_else o.artifact_hash m.artifact_hash;
  artifact_name = or_else o.artifact_name m.artifact_name;
  value_observation = or_else o.value_observation m.value_observation;
  typed_error = or_else o.typed_error m.typed_error;
  updated_at = timestamp;
}

unfoldable pub apply_mission_fields : String → MissionUpdateInput → Exec Journal (Unit {0})
apply_mission_fields id o = modify λ j.
    if has_assignments o
    then record j {
      db = record (j.db) {
        missions = update_where (mission_is id) (assigned o o.timestamp) j.missions;
      };
    }
    else j

abbrev pub invalid_plan_transition : PlanState → PlanState → Thrown
invalid_plan_transition from to =
    refusal
      (template (
        "Invalid durable agentic plan transition "
        ∷ plan_state_name from
        ∷ " -> "
        ∷ plan_state_name to
        ∷ "."
        ∷ []))
      409 (some "AGENTIC_PLAN_INVALID_TRANSITION")

abbrev pub concurrent_plan_transition : Thrown
concurrent_plan_transition =
    refusal "Durable agentic plan state changed before the transition could be recorded." 409
      (some "AGENTIC_PLAN_CONCURRENT_TRANSITION")

abbrev pub hits_mission : String → PlanState → MissionRecord → Bool
hits_mission id from m = mission_is id m && same_plan_state m.status from

abbrev pub moved_mission : PlanState → String → MissionRecord → MissionRecord
moved_mission to timestamp m = record m { status = to; updated_at = timestamp }

-- UPDATE … WHERE mission_id = ? AND status = ?, with the number of rows changed.
unfoldable pub move_mission : String → PlanState → PlanState → String → Exec Journal ℕ
move_mission id from to timestamp j = (
  ok (count_by (hits_mission id from) j.missions),
  record j {
    db = record (j.db) {
      missions = update_where (hits_mission id from) (moved_mission to timestamp) j.missions;
    };
  },
)

abbrev pub plan_draft : String → PlanState → MissionUpdateInput → MissionRecord → EventDraft
plan_draft id to o current = record {
  mission_id = id;
  plan_id = current.plan_id;
  scope = Scope.plan;
  node_id = none;
  event_type = template ("plan_" ∷ plan_state_name to ∷ []);
  previous_state = some (plan_state_name current.status);
  new_state = some (plan_state_name to);
  actor = o.actor;
  reason = o.reason;
  timestamp = o.timestamp;
  evidence_references = some (or_else o.evidence_references []);
  typed_error = or_else o.typed_error none;
}

-- transitionMissionInternal after its guard.
unfoldable pub record_plan_transition :
    String → PlanState → MissionUpdateInput → MissionRecord → Exec Journal MissionRecord
record_plan_transition id to o current = do
  changes ← move_mission id current.status to o.timestamp
  ensure (nat_eq changes 1) concurrent_plan_transition
  apply_mission_fields id o
  append_event (plan_draft id to o current)
  require_mission id

unfoldable pub transition_mission_internal :
    String → PlanState → MissionUpdateInput → Exec Journal MissionRecord
transition_mission_internal id to o = do
  current ← require_mission id
  ensure (allowed_plan_transition current.status to) (invalid_plan_transition current.status to)
  record_plan_transition id to o current

unfoldable pub transition_mission :
    String → PlanState → MissionUpdateInput → Exec Journal MissionRecord
transition_mission id to o = with_savepoint (transition_mission_internal id to o)

abbrev pub update_draft : String → MissionUpdateInput → String → MissionRecord → EventDraft
update_draft id o event_type current = record {
  mission_id = id;
  plan_id = current.plan_id;
  scope = Scope.mission;
  node_id = none;
  event_type = event_type;
  previous_state = some (plan_state_name current.status);
  new_state = some (plan_state_name current.status);
  actor = o.actor;
  reason = o.reason;
  timestamp = o.timestamp;
  evidence_references = some (or_else o.evidence_references []);
  typed_error = or_else o.typed_error none;
}

unfoldable pub update_mission : String → MissionUpdateInput → String → Exec Journal MissionRecord
update_mission id o event_type = with_savepoint do
  current ← require_mission id
  apply_mission_fields id o
  append_event (update_draft id o event_type current)
  require_mission id
