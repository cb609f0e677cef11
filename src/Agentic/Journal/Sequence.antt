-- ===== src/Agentic/Journal/Sequence.antt =====
-- The numbering of the events in apps/backend/src/agentic/agenticPlanJournal.ts.
use chanter_operator.Prelude.{◌≡◌, refl, String, List}
use chanter_operator.Prelude.Exec.Rules.{Keeps-checked}
use chanter_operator.Prelude.Numbering.{AllNumbered, AllNumbered-append}
use chanter_operator.Agentic.Inputs.{EventDraft}
use chanter_operator.Agentic.Records.{EventRecord}
use chanter_operator.Agentic.Journal.{Journal, next_id}
use chanter_operator.Agentic.Journal.Missions.{move_mission}
use chanter_operator.Agentic.Journal.Nodes.{move_node}
use chanter_operator.Agentic.Journal.Insert.{insert_mission_row, insert_node_row, insert_edge_row}
use chanter_operator.Agentic.Journal.Rule.{IsKept}
use chanter_operator.Agentic.Journal.Writes.{
  either_holds, with_event, append_event_as-Either, insert_evidence-Either, insert_artifact-Either,
  apply_mission_fields-Either, audit_node-Either,
}
use chanter_operator.Agentic.Journal.Calls.{Call, run, run-keeps}

-- Each mission's events are numbered 1, 2, 3, …
pub record IsNumbered (j : Journal) : Type 0 where
  pub numbered : AllNumbered (λ (e : EventRecord). e.mission_id) (λ e. e.sequence) j.events

same_events : (j k : Journal) → IsNumbered j → k.events ≡ j.events → IsNumbered k
same_events j k h e = record { numbered = λ id. rw e (h.numbered id) }

event-IsNumbered :
    (j : Journal) (event_id : String) (draft : EventDraft)
    → IsNumbered j
    → IsNumbered (with_event j event_id draft)
event-IsNumbered j event_id draft h = record {
  numbered = AllNumbered-append _ _ j.events _ h.numbered refl;
}

writes-IsNumbered : IsKept IsNumbered
unfolding next_id insert_mission_row insert_node_row insert_edge_row move_mission move_node
writes-IsNumbered = record {
  rollback = λ before after h k. same_events before _ h refl;
  draw = record { at = λ j h. same_events j _ h refl };
  event = λ event_id draft. record {
    at = λ j h.
        either_holds IsNumbered (append_event_as-Either j event_id draft) h
          (event-IsNumbered j event_id draft h);
  };
  mission_insert = λ schema_version input. Keeps-checked _ _ _ (λ j h _. same_events j _ h refl);
  node_insert = λ input n. Keeps-checked _ _ _ (λ j h _. same_events j _ h refl);
  edge_insert = λ row. Keeps-checked _ _ _ (λ j h _. same_events j _ h refl);
  evidence_insert = λ row. record {
    at = λ j h. either_holds IsNumbered (insert_evidence-Either j row) h (same_events j _ h refl);
  };
  artifact_insert = λ row. record {
    at = λ j h. either_holds IsNumbered (insert_artifact-Either j row) h (same_events j _ h refl);
  };
  mission_fields = λ id o. record {
    at = λ j h.
        either_holds IsNumbered (apply_mission_fields-Either j id o) h (same_events j _ h refl);
  };
  mission_move = λ id from to timestamp allowed. record { at = λ j h. same_events j _ h refl };
  node_audit = λ plan_id node_id o current. record {
    at = λ j h.
        either_holds IsNumbered (audit_node-Either j plan_id node_id o current) h
          (same_events j _ h refl);
  };
  node_move = λ plan_id node_id to o current allowed. record { at = λ j h. same_events j _ h refl };
}

-- Whatever calls are made of the plan journal, refused ones included, each mission's events stay
-- numbered 1, 2, 3, … in the order in which they were appended.
pub plan_run-IsNumbered : (cs : List Call) (j : Journal) → IsNumbered j → IsNumbered (run cs j)
plan_run-IsNumbered = run-keeps writes-IsNumbered
