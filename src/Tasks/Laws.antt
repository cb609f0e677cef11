-- ===== src/Tasks/Laws.antt =====
-- The sets beside the tables of apps/backend/src/services/stateTransitions.ts agree with them.
use chanter_operator.Prelude.{◌≡◌, true, false, arith}
use chanter_operator.Tasks.{TaskStatus, can_transition_task, is_cancellable_task, is_retryable_task}

-- Any number of allowed task transitions, at least one.
pub data TaskPath (s : TaskStatus) : TaskStatus → Type 0 where
  one : {t : TaskStatus} → can_transition_task s t ≡ true → TaskPath s t
  more : {t u : TaskStatus} → TaskPath s t → can_transition_task t u ≡ true → TaskPath s u

-- A task is cancellable exactly where the table of transitions allows the state cancelled; a
-- retryable task may be queued again and may be asked for approval again, and is not cancellable.
pub task_sets-agree :
    (s : TaskStatus)
    → (is_cancellable_task s ≡ can_transition_task s TaskStatus.cancelled)
      × (is_retryable_task s ≡ true
          → (can_transition_task s TaskStatus.queued ≡ true)
            × (can_transition_task s TaskStatus.awaiting_approval ≡ true)
            × (is_cancellable_task s ≡ false))
unfolding can_transition_task is_cancellable_task is_retryable_task
task_sets-agree s = ground arith
