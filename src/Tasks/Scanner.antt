-- ===== src/Tasks/Scanner.antt =====
-- scanAuditLog of apps/backend/src/integrity/auditScanner.ts, over the file's text; a file that
-- cannot be read gives the empty report, as an empty file does. JSON.parse is the
-- runtime's.
use chanter_operator.Prelude.{
  ℕ, ◌+◌, String, Bool, true, false, not, ◌&&◌, Option, none, some, List, [], ◌∷◌, ◌++◌, ◌==◌,
  if◌then◌else◌, any, keep, length, template, join, trim, nat_eq,
}
use chanter_operator.Prelude.Exec.{Result, ok, err, other_error}
use Prim.Native.Char.{Char, code}
use chanter_operator.Json.{Json, Fields, null, text, object, get_field, string_of}

pub data Reason : Type 0 where
  parse_error missing_fields invalid_type : Reason

pub record LineError : Type 0 where
  pub line : ℕ
  pub reason : Reason
  pub detail : String

-- AuditScanReport; a Set is the list of its elements in the order of their insertion.
pub record ScanReport : Type 0 where
  pub total_lines : ℕ
  pub valid_events : ℕ
  pub parse_errors : ℕ
  pub missing_field_errors : ℕ
  pub invalid_type_errors : ℕ
  pub line_errors : List LineError
  pub referenced_task_ids : List String
  pub referenced_step_ids : List String

-- JSON.parse, which may throw, and String(value) in a message.
pub record JsonRuntime : Type 0 where
  pub parse_json : String → Option Json
  pub show_json : Option Json → String

abbrev pub audit_event_types : List String
audit_event_types =
    "task_created" ∷ "step_created" ∷ "approval_required" ∷ "step_approved" ∷ "step_rejected"
    ∷ "step_execution_started" ∷ "step_executed" ∷ "evidence_recorded" ∷ "validation_passed"
    ∷ "validation_failed" ∷ "task_completed" ∷ "task_failed" ∷ "task_cancelled" ∷ "task_reopened"
    ∷ "validation_evidence_added" ∷ "commit_review_added" ∷ "evidence_bundle_generated"
    ∷ "runner_policy_preview_added" ∷ "readonly_command_requested" ∷ "readonly_command_allowed"
    ∷ "readonly_command_blocked" ∷ "readonly_command_completed" ∷ "readonly_command_failed" ∷ []

abbrev pub has : List String → String → Bool
has xs s = any (λ x. x == s) xs

-- Set.prototype.add
abbrev add : String → List String → List String
add s xs = if has xs s then xs else xs ++ s ∷ []

abbrev add_text : Option Json → List String → List String
add_text (some (text s)) xs = add s xs
add_text _ xs = xs

abbrev pub required_fields : List String
required_fields = "id" ∷ "event_type" ∷ "task_id" ∷ "data" ∷ "created_at" ∷ []

abbrev is_absent : Option Json → Bool
is_absent none = true
is_absent (some null) = true
is_absent (some v) = false

-- The fields of a parsed value; a text, a number or an array has none of the required ones.
abbrev fields_of : Json → Fields
fields_of (object fields) = fields
fields_of _ = Fields.end

abbrev is_event_type : Option String → Bool
is_event_type none = false
is_event_type (some s) = has audit_event_types s

abbrev is_object : Option Json → Bool
is_object (some (object fields)) = true
is_object _ = false

abbrev counted_parse_error : ℕ → ScanReport → ScanReport
counted_parse_error number report = record report {
  parse_errors = report.parse_errors + 1;
  line_errors =
      report.line_errors
      ++ record { line = number; reason = Reason.parse_error; detail = "Line is not valid JSON." }
        ∷ [];
}

abbrev counted_missing : ℕ → String → ScanReport → ScanReport
counted_missing number detail report = record report {
  missing_field_errors = report.missing_field_errors + 1;
  line_errors =
      report.line_errors
      ++ record { line = number; reason = Reason.missing_fields; detail = detail } ∷ [];
}

abbrev counted_invalid : ℕ → String → ScanReport → ScanReport
counted_invalid number detail report = record report {
  invalid_type_errors = report.invalid_type_errors + 1;
  line_errors =
      report.line_errors
      ++ record { line = number; reason = Reason.invalid_type; detail = detail } ∷ [];
}

abbrev counted_event : Fields → ScanReport → ScanReport
counted_event event report = record report {
  valid_events = report.valid_events + 1;
  referenced_task_ids = add_text (get_field "task_id" event) report.referenced_task_ids;
  referenced_step_ids = add_text (get_field "step_id" event) report.referenced_step_ids;
}

abbrev starts_line : String → Bool
starts_line String.[] = false
starts_line (String.◌∷◌ c s) = nat_eq (code c) 10

abbrev before_first : Char → List String → List String
before_first c [] = []
before_first c (line ∷ rest) = String.◌∷◌ c line ∷ rest

-- contents.split(/\r?\n/)
unfoldable pub split_lines : String → List String
split_lines String.[] = "" ∷ []
split_lines (String.◌∷◌ c s) =
    let rest = split_lines s in
    if nat_eq (code c) 10
    then "" ∷ rest
    else (if nat_eq (code c) 13 && starts_line s then rest else before_first c rest)

module _ (r : JsonRuntime) where
  -- The tests of an event whose fields are these.
  unfoldable pub scan_event : ℕ → Fields → ScanReport → ScanReport
  scan_event number event report =
      let missing = keep (λ f. is_absent (get_field f event)) required_fields in
      if not (nat_eq (length missing) 0)
      then counted_missing number
          (template ("Missing required fields: " ∷ join ", " missing ∷ "." ∷ [])) report
      else (if not (is_event_type (string_of (get_field "event_type" event)))
          then counted_invalid number
              (template (
                "event_type \""
                ∷ r.show_json (get_field "event_type" event)
                ∷ "\" is not a recognized audit event type."
                ∷ []))
              report
          else (if is_object (get_field "data" event)
              then counted_event event report
              else counted_missing number "data must be a non-null object." report))

  -- Reading a field of the value null throws.
  abbrev scan_value : ℕ → Option Json → ScanReport → Result ScanReport
  scan_value number none report = ok (counted_parse_error number report)
  scan_value number (some null) report = err (other_error "TypeError")
  scan_value number (some value) report = ok (scan_event number (fields_of value) report)

  unfoldable pub scan_line : ℕ → String → ScanReport → Result ScanReport
  scan_line number line report =
      if trim line == "" then ok report else scan_value number (r.parse_json (trim line)) report

  abbrev then_scan : Result ScanReport → (ScanReport → Result ScanReport) → Result ScanReport
  then_scan (ok report) go = go report
  then_scan (err e) go = err e

  unfoldable pub scan_lines : ℕ → List String → ScanReport → Result ScanReport
  scan_lines number [] report = ok report
  scan_lines number (line ∷ rest) report =
      then_scan (scan_line number line report) (scan_lines (number + 1) rest)

  abbrev empty_report : ℕ → ScanReport
  empty_report total = record {
    total_lines = total;
    valid_events = 0;
    parse_errors = 0;
    missing_field_errors = 0;
    invalid_type_errors = 0;
    line_errors = [];
    referenced_task_ids = [];
    referenced_step_ids = [];
  }

  unfoldable pub scan_audit_log : String → Result ScanReport
  scan_audit_log contents =
      let lines = keep (λ line. not (line == "")) (split_lines contents) in
      scan_lines 1 lines (empty_report (length lines))
