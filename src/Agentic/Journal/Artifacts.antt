-- ===== src/Agentic/Journal/Artifacts.antt =====
-- Artifacts are written once in apps/backend/src/agentic/agenticPlanJournal.ts.
use chanter_operator.Prelude.{
  ◌≤◌, ◌≡◌, refl, String, true, false, some, List, arith, find, any, count_by, find-append,
  count_by-append, count_of_none, Bool-cases, inl, inr, eq_iff,
}
use chanter_operator.Prelude.Exec.Rules.{Keeps-checked}
use chanter_operator.Agentic.Records.{ArtifactWriteRecord}
use chanter_operator.Agentic.Journal.{Journal, artifact_is, next_id}
use chanter_operator.Agentic.Journal.Missions.{move_mission}
use chanter_operator.Agentic.Journal.Nodes.{move_node, insert_artifact, artifact_fits}
use chanter_operator.Agentic.Journal.Insert.{insert_mission_row, insert_node_row, insert_edge_row}
use chanter_operator.Agentic.Journal.Rule.{IsKept}
use chanter_operator.Agentic.Journal.Writes.{
  either_holds, append_event_as-Either, insert_evidence-Either, apply_mission_fields-Either,
  audit_node-Either, with_artifact,
}
use chanter_operator.Agentic.Journal.Calls.{Call, run, run-keeps}
use chanter_operator.Agentic.Journal.History.Runs.{plan_run-Extends}

-- Each mission has at most one write of each name.
pub record IsWrittenOnce (j : Journal) : Type 0 where
  pub once : (id name : String) → count_by (artifact_is id name) j.artifacts ≤ 1

same_artifacts : (j k : Journal) → IsWrittenOnce j → k.artifacts ≡ j.artifacts → IsWrittenOnce k
same_artifacts j k h e = record { once = λ id name. rw e (h.once id name) }

none_before :
    (row : ArtifactWriteRecord) (id name : String) (rows : List ArtifactWriteRecord)
    → any (artifact_is row.mission_id row.artifact_name) rows ≡ false
    → artifact_is id name row ≡ true
    → count_by (artifact_is id name) rows ≡ 0
none_before row id name rows fresh same =
    let same_id : row.mission_id ≡ id = (eq_iff row.mission_id id).0 (ground arith) in
    let same_name : row.artifact_name ≡ name = (eq_iff row.artifact_name name).0 (ground arith) in
    rw (← same_id, ← same_name) (count_of_none _ rows fresh)

added-IsWrittenOnce :
    (j : Journal) (row : ArtifactWriteRecord)
    → any (artifact_is row.mission_id row.artifact_name) j.artifacts ≡ false
    → IsWrittenOnce j
    → IsWrittenOnce (with_artifact j row)
added-IsWrittenOnce j row fresh h = record {
  once = λ id name.
      rw (count_by-append (artifact_is id name) j.artifacts)
        (elim (Bool-cases (artifact_is id name row)) [
          | inl same ↦ rw (same, none_before row id name j.artifacts fresh same) (omega arith)
          | inr other ↦ rw other (omega (arith, h.once id name))
        ]);
}

insert_artifact-IsWrittenOnce :
    (j : Journal) (row : ArtifactWriteRecord)
    → IsWrittenOnce j
    → IsWrittenOnce (insert_artifact row j).1
unfolding insert_artifact
insert_artifact-IsWrittenOnce j row h = elim (Bool-cases (artifact_fits row j)) [
  | inl fits ↦ rw fits (added-IsWrittenOnce j row (ground arith) h)
  | inr misfit ↦ rw misfit h
]

writes-IsWrittenOnce : IsKept IsWrittenOnce
unfolding next_id insert_mission_row insert_node_row insert_edge_row move_mission move_node
writes-IsWrittenOnce = record {
  rollback = λ before after h k. same_artifacts before _ h refl;
  draw = record { at = λ j h. same_artifacts j _ h refl };
  event = λ event_id draft. record {
    at = λ j h.
        either_holds IsWrittenOnce (append_event_as-Either j event_id draft) h
          (same_artifacts j _ h refl);
  };
  mission_insert = λ schema_version input. Keeps-checked _ _ _ (λ j h _. same_artifacts j _ h refl);
  node_insert = λ input n. Keeps-checked _ _ _ (λ j h _. same_artifacts j _ h refl);
  edge_insert = λ row. Keeps-checked _ _ _ (λ j h _. same_artifacts j _ h refl);
  evidence_insert = λ row. record {
    at = λ j h.
        either_holds IsWrittenOnce (insert_evidence-Either j row) h (same_artifacts j _ h refl);
  };
  artifact_insert = λ row. record { at = λ j h. insert_artifact-IsWrittenOnce j row h };
  mission_fields = λ id o. record {
    at = λ j h.
        either_holds IsWrittenOnce (apply_mission_fields-Either j id o) h
          (same_artifacts j _ h refl);
  };
  mission_move = λ id from to timestamp allowed. record { at = λ j h. same_artifacts j _ h refl };
  node_audit = λ plan_id node_id o current. record {
    at = λ j h.
        either_holds IsWrittenOnce (audit_node-Either j plan_id node_id o current) h
          (same_artifacts j _ h refl);
  };
  node_move =
      λ plan_id node_id to o current allowed. record { at = λ j h. same_artifacts j _ h refl };
}

-- An artifact is written once: where no mission has two writes of one artifact name, none has after
-- any calls of the plan journal, refused ones included, and a write that was recorded stands with
-- its hash, its approved candidate and its path.
pub plan_run_writes_once :
    (cs : List Call) (j : Journal)
    → IsWrittenOnce j
    → IsWrittenOnce (run cs j)
      × ((id name : String) (a : ArtifactWriteRecord)
          → find (artifact_is id name) j.artifacts ≡ some a
          → find (artifact_is id name) (run cs j).artifacts ≡ some a)
plan_run_writes_once cs j h = (
  run-keeps writes-IsWrittenOnce cs j h,
  λ id name a found.
      let (rest, kept) = (plan_run-Extends cs j).artifacts_kept in
      rw kept (find-append (artifact_is id name) j.artifacts rest a found),
)
