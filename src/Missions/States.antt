-- ===== src/Missions/States.antt =====
-- The states and the transition table of apps/backend/src/missions/genericMissionJournal.ts.
use chanter_operator.Prelude.{Bool, true, false, String, ◌==◌}

pub data MissionState : Type 0 where
  approval_required approved execution_started downstream_request_prepared : MissionState
  downstream_result_observed result_persisted completed failed_recoverable : MissionState
  failed_terminal reconciliation_required recovery_in_progress : MissionState

pub data ReconciliationOutcome : Type 0 where
  not_started not_found unique conflict unavailable scope_mismatch : ReconciliationOutcome
  idempotency_mismatch payload_mismatch invalid incomplete : ReconciliationOutcome

-- allowedTransitions
unfoldable pub allowed_transition : MissionState → MissionState → Bool
allowed_transition MissionState.approval_required MissionState.approved = true
allowed_transition MissionState.approval_required MissionState.failed_terminal = true
allowed_transition MissionState.approved MissionState.execution_started = true
allowed_transition MissionState.approved MissionState.failed_terminal = true
allowed_transition MissionState.execution_started MissionState.downstream_request_prepared = true
allowed_transition MissionState.execution_started MissionState.failed_recoverable = true
allowed_transition MissionState.execution_started MissionState.failed_terminal = true
allowed_transition MissionState.downstream_request_prepared
      MissionState.downstream_result_observed =
    true
allowed_transition MissionState.downstream_request_prepared MissionState.failed_recoverable = true
allowed_transition MissionState.downstream_request_prepared MissionState.failed_terminal = true
allowed_transition MissionState.downstream_request_prepared MissionState.recovery_in_progress = true
allowed_transition MissionState.downstream_result_observed MissionState.result_persisted = true
allowed_transition MissionState.downstream_result_observed MissionState.failed_recoverable = true
allowed_transition MissionState.downstream_result_observed MissionState.failed_terminal = true
allowed_transition MissionState.downstream_result_observed MissionState.reconciliation_required =
    true
allowed_transition MissionState.downstream_result_observed MissionState.recovery_in_progress = true
allowed_transition MissionState.result_persisted MissionState.completed = true
allowed_transition MissionState.completed MissionState.completed = true
allowed_transition MissionState.failed_recoverable MissionState.recovery_in_progress = true
allowed_transition MissionState.failed_recoverable MissionState.failed_terminal = true
allowed_transition MissionState.recovery_in_progress MissionState.downstream_request_prepared = true
allowed_transition MissionState.recovery_in_progress MissionState.downstream_result_observed = true
allowed_transition MissionState.recovery_in_progress MissionState.failed_recoverable = true
allowed_transition MissionState.recovery_in_progress MissionState.failed_terminal = true
allowed_transition MissionState.recovery_in_progress MissionState.reconciliation_required = true
allowed_transition MissionState.reconciliation_required MissionState.failed_terminal = true
allowed_transition _ _ = false

-- The text of a state in a row.
abbrev pub state_name : MissionState → String
state_name MissionState.approval_required = "approval_required"
state_name MissionState.approved = "approved"
state_name MissionState.execution_started = "execution_started"
state_name MissionState.downstream_request_prepared = "downstream_request_prepared"
state_name MissionState.downstream_result_observed = "downstream_result_observed"
state_name MissionState.result_persisted = "result_persisted"
state_name MissionState.completed = "completed"
state_name MissionState.failed_recoverable = "failed_recoverable"
state_name MissionState.failed_terminal = "failed_terminal"
state_name MissionState.reconciliation_required = "reconciliation_required"
state_name MissionState.recovery_in_progress = "recovery_in_progress"

-- `current_state = ?`
abbrev pub same_state : MissionState → MissionState → Bool
same_state a b = state_name a == state_name b
