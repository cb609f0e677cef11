-- ===== src/Tasks.antt =====
-- The states of tasks and steps: apps/backend/src/services/stateTransitions.ts and the types of
-- apps/backend/src/types.ts.
pub mod Laws
pub mod Scanner
pub mod Integrity
pub mod Healthy
pub mod Tests
use chanter_operator.Prelude.{Bool, true, false, String, List, [], ◌∷◌}

pub data TaskStatus : Type 0 where
  pending queued awaiting_approval executing completed failed rejected cancelled : TaskStatus

pub data StepStatus : Type 0 where
  pending_approval approved rejected executing completed failed : StepStatus

-- The row of taskTransitions for each state.
unfoldable pub can_transition_task : TaskStatus → TaskStatus → Bool
can_transition_task TaskStatus.pending TaskStatus.queued = true
can_transition_task TaskStatus.pending TaskStatus.awaiting_approval = true
can_transition_task TaskStatus.pending TaskStatus.cancelled = true
can_transition_task TaskStatus.queued TaskStatus.executing = true
can_transition_task TaskStatus.queued TaskStatus.cancelled = true
can_transition_task TaskStatus.awaiting_approval TaskStatus.queued = true
can_transition_task TaskStatus.awaiting_approval TaskStatus.rejected = true
can_transition_task TaskStatus.awaiting_approval TaskStatus.cancelled = true
can_transition_task TaskStatus.executing TaskStatus.completed = true
can_transition_task TaskStatus.executing TaskStatus.failed = true
can_transition_task TaskStatus.failed TaskStatus.queued = true
can_transition_task TaskStatus.failed TaskStatus.awaiting_approval = true
can_transition_task TaskStatus.rejected TaskStatus.queued = true
can_transition_task TaskStatus.rejected TaskStatus.awaiting_approval = true
can_transition_task TaskStatus.cancelled TaskStatus.queued = true
can_transition_task TaskStatus.cancelled TaskStatus.awaiting_approval = true
can_transition_task _ _ = false

-- The row of stepTransitions for each state.
unfoldable pub can_transition_step : StepStatus → StepStatus → Bool
can_transition_step StepStatus.pending_approval StepStatus.approved = true
can_transition_step StepStatus.pending_approval StepStatus.rejected = true
can_transition_step StepStatus.approved StepStatus.executing = true
can_transition_step StepStatus.executing StepStatus.completed = true
can_transition_step StepStatus.executing StepStatus.failed = true
can_transition_step _ _ = false

-- Membership in cancellableTaskStates.
unfoldable pub is_cancellable_task : TaskStatus → Bool
is_cancellable_task TaskStatus.pending = true
is_cancellable_task TaskStatus.queued = true
is_cancellable_task TaskStatus.awaiting_approval = true
is_cancellable_task _ = false

-- Membership in retryableTaskStates.
unfoldable pub is_retryable_task : TaskStatus → Bool
is_retryable_task TaskStatus.failed = true
is_retryable_task TaskStatus.rejected = true
is_retryable_task TaskStatus.cancelled = true
is_retryable_task _ = false

-- The text of a state in a row.
abbrev pub task_status_name : TaskStatus → String
task_status_name TaskStatus.pending = "pending"
task_status_name TaskStatus.queued = "queued"
task_status_name TaskStatus.awaiting_approval = "awaiting_approval"
task_status_name TaskStatus.executing = "executing"
task_status_name TaskStatus.completed = "completed"
task_status_name TaskStatus.failed = "failed"
task_status_name TaskStatus.rejected = "rejected"
task_status_name TaskStatus.cancelled = "cancelled"
