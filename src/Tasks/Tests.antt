-- ===== src/Tasks/Tests.antt =====
-- A small database and audit log for apps/backend/src/integrity/integrityChecker.ts.
use chanter_operator.Prelude.{
  ◌≡◌, refl, String, true, false, none, some, [], ◌∷◌, if◌then◌else◌, ◌==◌, trim,
}
use chanter_operator.Prelude.Exec.{ok}
use chanter_operator.Json.{text, object, field, end, get_field}
use chanter_operator.Tasks.{TaskStatus, can_transition_task, is_cancellable_task, is_retryable_task}
use chanter_operator.Tasks.Laws.{TaskPath, task_sets-agree}
use chanter_operator.Tasks.Scanner.{
  JsonRuntime, ScanReport, scan_audit_log, scan_lines, scan_line, scan_event, split_lines,
}
use chanter_operator.Tasks.Integrity.{Database, IntegrityReport, report_of, run_integrity_check}
use chanter_operator.Tasks.Healthy.{cancelled_task-unhealthy}

task_sets-agree_example :
    (is_cancellable_task TaskStatus.failed
      ≡ can_transition_task TaskStatus.failed TaskStatus.cancelled)
    × (is_retryable_task TaskStatus.failed ≡ true
        → (can_transition_task TaskStatus.failed TaskStatus.queued ≡ true)
          × (can_transition_task TaskStatus.failed TaskStatus.awaiting_approval ≡ true)
          × (is_cancellable_task TaskStatus.failed ≡ false))
task_sets-agree_example = task_sets-agree TaskStatus.failed

abbrev from_queued : TaskPath TaskStatus.queued TaskStatus.completed
unfolding can_transition_task
from_queued = TaskPath.more (TaskPath.one {t = TaskStatus.executing} refl) refl

abbrev sample_runtime : JsonRuntime
sample_runtime = record {
  parse_json = λ s.
      if s == "created"
      then some (
          object (
            field "id" (text "e") (
              field "event_type" (text "task_created") (
                field "task_id" (text "t")
                  (field "data" (object end) (field "created_at" (text "now") end))))))
      else none;
  show_json = λ v. "";
}

abbrev database_of : String → Database
database_of status = record {
  tasks = record { id = "t"; status = status } ∷ [];
  steps = record { id = "s"; task_id = "t"; status = "completed"; action_type = "analysis" } ∷ [];
  evidence = record { id = "v"; task_id = "t"; step_id = "s" } ∷ [];
}

abbrev sample_scan : ScanReport
sample_scan = record {
  total_lines = 1;
  valid_events = 1;
  parse_errors = 0;
  missing_field_errors = 0;
  invalid_type_errors = 0;
  line_errors = [];
  referenced_task_ids = "t" ∷ [];
  referenced_step_ids = [];
}

abbrev sample_report : String → IntegrityReport
sample_report status = report_of "now" (database_of status) sample_scan

sample_run :
    (status : String)
    → run_integrity_check sample_runtime (database_of status) "created\r\n" "now"
      ≡ ok (sample_report status)
unfolding run_integrity_check scan_audit_log scan_lines scan_line scan_event split_lines get_field
    trim
sample_run status = refl

cancelled_task-unhealthy_example : (sample_report "cancelled").healthy ≡ false
cancelled_task-unhealthy_example =
    cancelled_task-unhealthy sample_runtime (database_of "cancelled") "created\r\n" "now"
      (sample_report "cancelled") refl (sample_run "cancelled")
