-- ===== src/Tasks/Integrity.antt =====
-- runIntegrityCheck of apps/backend/src/integrity/integrityChecker.ts over the rows of the database,
-- in the columns that it reads, and the text of the audit log.
use chanter_operator.Prelude.{
  ℕ, String, Bool, ◌&&◌, List, [], ◌∷◌, ◌++◌, if◌then◌else◌, length, template, map, nat_eq,
}
use chanter_operator.Prelude.Exec.{Result, ok, err}
use chanter_operator.Tasks.Scanner.{JsonRuntime, ScanReport, scan_audit_log, has}

pub record TaskRow : Type 0 where
  pub id : String
  pub status : String

pub record StepRow : Type 0 where
  pub id : String
  pub task_id : String
  pub status : String
  pub action_type : String

pub record EvidenceRow : Type 0 where
  pub id : String
  pub task_id : String
  pub step_id : String

pub record Database : Type 0 where
  pub tasks : List TaskRow
  pub steps : List StepRow
  pub evidence : List EvidenceRow

pub data IssueKind : Type 0 where
  invalid_task_status invalid_step_status invalid_action_type : IssueKind
  step_orphan evidence_orphan_task evidence_orphan_step : IssueKind

pub record DatabaseIssue : Type 0 where
  pub kind : IssueKind
  pub detail : String

pub data ReferenceKind : Type 0 where
  audit_refers_to_missing_task audit_refers_to_missing_step : ReferenceKind

pub record ReferenceIssue : Type 0 where
  pub kind : ReferenceKind
  pub audit_line : ℕ
  pub detail : String

pub record IntegrityReport : Type 0 where
  pub timestamp : String
  pub task_count : ℕ
  pub step_count : ℕ
  pub evidence_count : ℕ
  pub issues : List DatabaseIssue
  pub audit : ScanReport
  pub cross_ref_issues : List ReferenceIssue
  pub healthy : Bool

abbrev pub valid_task_states : List String
valid_task_states =
    "pending" ∷ "queued" ∷ "awaiting_approval" ∷ "executing" ∷ "completed" ∷ "failed" ∷ "rejected"
    ∷ []

abbrev pub valid_step_states : List String
valid_step_states =
    "pending_approval" ∷ "approved" ∷ "rejected" ∷ "executing" ∷ "completed" ∷ "failed" ∷ []

abbrev pub valid_action_types : List String
valid_action_types =
    "analysis" ∷ "read_file" ∷ "file_write" ∷ "file_edit" ∷ "shell_command" ∷ "unknown" ∷ []

-- `if (!test) push`
abbrev pub report_unless : {A : Type 0} → Bool → A → List A
report_unless holds issue = if holds then [] else issue ∷ []

abbrev issue : IssueKind → List String → DatabaseIssue
issue kind parts = record { kind = kind; detail = template parts }

abbrev pub task_ids : Database → List String
task_ids db = map (λ (t : TaskRow). t.id) db.tasks

abbrev pub step_ids : Database → List String
step_ids db = map (λ (s : StepRow). s.id) db.steps

unfoldable pub task_issues : List TaskRow → List DatabaseIssue
task_issues [] = []
task_issues (t ∷ rest) =
    report_unless (has valid_task_states t.status) (
      issue IssueKind.invalid_task_status
        ("Task \"" ∷ t.id ∷ "\" has invalid status \"" ∷ t.status ∷ "\"." ∷ []))
    ++ task_issues rest

unfoldable pub step_issues : List String → List StepRow → List DatabaseIssue
step_issues tasks [] = []
step_issues tasks (s ∷ rest) =
    report_unless (has valid_step_states s.status) (
      issue IssueKind.invalid_step_status
        ("Step \"" ∷ s.id ∷ "\" has invalid status \"" ∷ s.status ∷ "\"." ∷ []))
    ++ report_unless (has valid_action_types s.action_type) (
        issue IssueKind.invalid_action_type
          ("Step \"" ∷ s.id ∷ "\" has invalid action_type \"" ∷ s.action_type ∷ "\"." ∷ []))
    ++ report_unless (has tasks s.task_id) (
        issue IssueKind.step_orphan
          ("Step \"" ∷ s.id ∷ "\" references missing task \"" ∷ s.task_id ∷ "\"." ∷ []))
    ++ step_issues tasks rest

unfoldable pub evidence_issues : List String → List String → List EvidenceRow → List DatabaseIssue
evidence_issues tasks steps [] = []
evidence_issues tasks steps (e ∷ rest) =
    report_unless (has tasks e.task_id) (
      issue IssueKind.evidence_orphan_task
        ("Evidence \"" ∷ e.id ∷ "\" references missing task \"" ∷ e.task_id ∷ "\"." ∷ []))
    ++ report_unless (has steps e.step_id) (
        issue IssueKind.evidence_orphan_step
          ("Evidence \"" ∷ e.id ∷ "\" references missing step \"" ∷ e.step_id ∷ "\"." ∷ []))
    ++ evidence_issues tasks steps rest

abbrev reference : ReferenceKind → String → String → ReferenceIssue
reference kind what id = record {
  kind = kind;
  audit_line = 0;
  detail = template (
      "Audit log references " ∷ what ∷ " \"" ∷ id ∷ "\" which does not exist in the database."
      ∷ []);
}

unfoldable pub reference_issues :
    ReferenceKind → String → List String → List String → List ReferenceIssue
reference_issues kind what known [] = []
reference_issues kind what known (id ∷ rest) =
    report_unless (has known id) (reference kind what id) ++ reference_issues kind what known rest

abbrev pub database_issues : Database → List DatabaseIssue
database_issues db =
    task_issues db.tasks
    ++ step_issues (task_ids db) db.steps
    ++ evidence_issues (task_ids db) (step_ids db) db.evidence

abbrev pub cross_references : Database → ScanReport → List ReferenceIssue
cross_references db audit =
    reference_issues ReferenceKind.audit_refers_to_missing_task "task" (task_ids db)
      audit.referenced_task_ids
    ++ reference_issues ReferenceKind.audit_refers_to_missing_step "step" (step_ids db)
        audit.referenced_step_ids

abbrev pub none_left : {A : Type 0} → List A → Bool
none_left xs = nat_eq (length xs) 0

unfoldable pub is_healthy : List DatabaseIssue → ScanReport → List ReferenceIssue → Bool
is_healthy issues audit references =
    none_left issues
    && nat_eq audit.parse_errors 0
    && nat_eq audit.missing_field_errors 0
    && nat_eq audit.invalid_type_errors 0
    && none_left references

abbrev pub report_of : String → Database → ScanReport → IntegrityReport
report_of time db audit = record {
  timestamp = time;
  task_count = length db.tasks;
  step_count = length db.steps;
  evidence_count = length db.evidence;
  issues = database_issues db;
  audit = audit;
  cross_ref_issues = cross_references db audit;
  healthy = is_healthy (database_issues db) audit (cross_references db audit);
}

abbrev pub checked : String → Database → Result ScanReport → Result IntegrityReport
checked time db (ok audit) = ok (report_of time db audit)
checked time db (err e) = err e

unfoldable pub run_integrity_check :
    JsonRuntime → Database → String → String → Result IntegrityReport
run_integrity_check r db contents time = checked time db (scan_audit_log r contents)
