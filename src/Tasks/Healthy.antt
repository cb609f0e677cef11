-- ===== src/Tasks/Healthy.antt =====
-- What a healthy report of apps/backend/src/integrity/integrityChecker.ts means.
use chanter_operator.Prelude.{
  ◌≡◌, refl, ap, sym, ◌∙◌, ℕ, String, Bool, true, false, ◌&&◌, List, [], ◌∷◌, ◌++◌, ◌==◌, All, any,
  nat_eq, arith, Bool-cases, inl, inr, subst, eq_iff,
}
use chanter_operator.Prelude.Exec.{Result, ok, err}
use chanter_operator.Tasks.{TaskStatus, task_status_name}
use chanter_operator.Tasks.Scanner.{JsonRuntime, ScanReport, scan_audit_log, has}
use chanter_operator.Tasks.Integrity.{
  Database, TaskRow, StepRow, EvidenceRow, ReferenceKind, IntegrityReport, valid_task_states,
  valid_step_states, valid_action_types, report_unless, task_ids, step_ids, task_issues,
  step_issues, evidence_issues, reference_issues, database_issues, cross_references, none_left,
  is_healthy, report_of, checked, run_integrity_check,
}

-- The database in itself, and what the audit log refers to.
pub record IsConsistent (db : Database) (audit : ScanReport) : Type 0 where
  pub tasks_valid : All (λ (t : TaskRow). has valid_task_states t.status ≡ true) db.tasks
  pub steps_valid :
      All
        (λ (s : StepRow).
          (has valid_step_states s.status ≡ true)
          × (has valid_action_types s.action_type ≡ true)
          × (has (task_ids db) s.task_id ≡ true))
        db.steps
  pub evidence_valid :
      All
        (λ (e : EvidenceRow).
          (has (task_ids db) e.task_id ≡ true) × (has (step_ids db) e.step_id ≡ true))
        db.evidence
  pub task_references : All (λ id. has (task_ids db) id ≡ true) audit.referenced_task_ids
  pub step_references : All (λ id. has (step_ids db) id ≡ true) audit.referenced_step_ids
  pub no_parse_errors : audit.parse_errors ≡ 0
  pub no_missing_fields : audit.missing_field_errors ≡ 0
  pub no_invalid_types : audit.invalid_type_errors ≡ 0

nothing_left : {A : Type 0} (xs : List A) → none_left xs ≡ true → xs ≡ []
nothing_left [] h = refl
nothing_left (x ∷ xs) h = ground arith

split_nil : {A : Type 0} (xs ys : List A) → xs ++ ys ≡ [] → (xs ≡ []) × (ys ≡ [])
split_nil [] ys e = (refl, e)
split_nil (x ∷ xs) ys e = cc

unless_nil : {A : Type 0} (b : Bool) (a : A) → report_unless b a ≡ [] → b ≡ true
unless_nil true a h = refl
unless_nil false a h = cc

task_issues-valid :
    (ts : List TaskRow)
    → task_issues ts ≡ []
    → All (λ (t : TaskRow). has valid_task_states t.status ≡ true) ts
unfolding task_issues
task_issues-valid [] h = tt
task_issues-valid (t ∷ rest) h =
    let (first, later) = split_nil _ _ h in (unless_nil _ _ first, task_issues-valid rest later)

step_issues-valid :
    (tasks : List String) (ss : List StepRow)
    → step_issues tasks ss ≡ []
    → All
        (λ (s : StepRow).
          (has valid_step_states s.status ≡ true)
          × (has valid_action_types s.action_type ≡ true)
          × (has tasks s.task_id ≡ true))
        ss
unfolding step_issues
step_issues-valid tasks [] h = tt
step_issues-valid tasks (s ∷ rest) h =
    let (three, later) = split_nil _ _ h in
    let (two, orphan) = split_nil _ _ three in
    let (status, action) = split_nil _ _ two in
    (
      (unless_nil _ _ status, unless_nil _ _ action, unless_nil _ _ orphan),
      step_issues-valid tasks rest later,
    )

evidence_issues-valid :
    (tasks steps : List String) (es : List EvidenceRow)
    → evidence_issues tasks steps es ≡ []
    → All (λ (e : EvidenceRow). (has tasks e.task_id ≡ true) × (has steps e.step_id ≡ true)) es
unfolding evidence_issues
evidence_issues-valid tasks steps [] h = tt
evidence_issues-valid tasks steps (e ∷ rest) h =
    let (two, later) = split_nil _ _ h in
    let (task, step) = split_nil _ _ two in
    ((unless_nil _ _ task, unless_nil _ _ step), evidence_issues-valid tasks steps rest later)

reference_issues-valid :
    (kind : ReferenceKind) (what : String) (known ids : List String)
    → reference_issues kind what known ids ≡ []
    → All (λ id. has known id ≡ true) ids
unfolding reference_issues
reference_issues-valid kind what known [] h = tt
reference_issues-valid kind what known (id ∷ rest) h =
    let (first, later) = split_nil _ _ h in
    (unless_nil _ _ first, reference_issues-valid kind what known rest later)

and_true : (a b : Bool) → (a && b) ≡ true → (a ≡ true) × (b ≡ true)
and_true true b h = (refl, h)
and_true false b h = cc

is_zero : (n : ℕ) → nat_eq n 0 ≡ true → n ≡ 0
is_zero n h = ground arith

report-IsConsistent :
    (time : String) (db : Database) (audit : ScanReport)
    → (report_of time db audit).healthy ≡ true
    → IsConsistent db audit
unfolding is_healthy
report-IsConsistent time db audit h =
    let (h3, references) = and_true _ _ h in
    let (h2, typed) = and_true _ _ h3 in
    let (h1, complete) = and_true _ _ h2 in
    let (issues, parsed) = and_true _ _ h1 in
    let (of_rows, of_evidence) = split_nil _ _ (nothing_left (database_issues db) issues) in
    let (of_tasks, of_steps) = split_nil _ _ of_rows in
    let (tasks, steps) = split_nil _ _ (nothing_left (cross_references db audit) references) in
    record {
      tasks_valid = task_issues-valid db.tasks of_tasks;
      steps_valid = step_issues-valid (task_ids db) db.steps of_steps;
      evidence_valid = evidence_issues-valid (task_ids db) (step_ids db) db.evidence of_evidence;
      task_references = reference_issues-valid _ _ _ audit.referenced_task_ids tasks;
      step_references = reference_issues-valid _ _ _ audit.referenced_step_ids steps;
      no_parse_errors = is_zero audit.parse_errors parsed;
      no_missing_fields = is_zero audit.missing_field_errors complete;
      no_invalid_types = is_zero audit.invalid_type_errors typed;
    }

checked-inversion :
    (time : String) (db : Database) (scan : Result ScanReport) (report : IntegrityReport)
    → checked time db scan ≡ ok report
    → (audit : ScanReport) × (scan ≡ ok audit) × (report ≡ report_of time db audit)
checked-inversion time db (ok audit) report h = (audit, refl, cc)
checked-inversion time db (err e) report h = cc

pub run_integrity_check-IsConsistent :
    (r : JsonRuntime) (db : Database) (contents time : String) (report : IntegrityReport)
    → run_integrity_check r db contents time ≡ ok report
    → report.healthy ≡ true
    → (audit : ScanReport) × (scan_audit_log r contents ≡ ok audit) × IsConsistent db audit
unfolding run_integrity_check
run_integrity_check-IsConsistent r db contents time report h healthy =
    let (audit, scanned, e) = checked-inversion time db (scan_audit_log r contents) report h in
    (
      audit,
      scanned,
      report-IsConsistent time db audit (ap (λ (p : IntegrityReport). p.healthy) (sym e) ∙ healthy),
    )

abbrev pub has_task_status : TaskStatus → TaskRow → Bool
has_task_status status t = t.status == task_status_name status

valid_not_cancelled :
    (ts : List TaskRow)
    → All (λ (t : TaskRow). has valid_task_states t.status ≡ true) ts
    → any (has_task_status TaskStatus.cancelled) ts ≡ false
valid_not_cancelled [] hs = refl
valid_not_cancelled (t ∷ rest) hs = elim (Bool-cases (has_task_status TaskStatus.cancelled t)) [
  | inl is_cancelled ↦
      let known : has valid_task_states "cancelled" ≡ true =
        subst (λ status. has valid_task_states status ≡ true)
          ((eq_iff t.status "cancelled").0 is_cancelled) hs.0 in
      cc
  | inr other ↦ rw other (valid_not_cancelled rest hs.1)
]

-- A database with a cancelled task is never reported healthy.
pub cancelled_task-unhealthy :
    (r : JsonRuntime) (db : Database) (contents time : String) (report : IntegrityReport)
    → any (has_task_status TaskStatus.cancelled) db.tasks ≡ true
    → run_integrity_check r db contents time ≡ ok report
    → report.healthy ≡ false
cancelled_task-unhealthy r db contents time report cancelled h = elim (Bool-cases report.healthy) [
  | inr unhealthy ↦ unhealthy
  | inl healthy ↦
      let (audit, scanned, consistent) =
        run_integrity_check-IsConsistent r db contents time report h healthy in
      let none_cancelled = valid_not_cancelled db.tasks consistent.tasks_valid in cc
]
