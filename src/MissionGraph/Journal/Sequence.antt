-- ===== src/MissionGraph/Journal/Sequence.antt =====
-- The numbering of the events in apps/backend/src/missions/missionGraphJournal.ts.
use chanter_operator.Prelude.{◌+◌, refl, String, List, [], ◌∷◌, ◌++◌, inl, inr, Bool-cases}
use chanter_operator.Prelude.Numbering.{AllNumbered, AllNumbered-append}
use chanter_operator.Prelude.Exec.Rules.{Keeps, Keeps-checked, if-keeps}
use chanter_operator.MissionGraph.Records.{EventRecord, EventDraft}
use chanter_operator.MissionGraph.Journal.{
  Journal, max_sequence, event_row, append_event_as, next_id, event_fits,
}
use chanter_operator.MissionGraph.Journal.Rule.{Policy, IsKept}
use chanter_operator.MissionGraph.Journal.Calls.{Call, run, run-keeps}
use chanter_operator.MissionGraph.Journal.Transitions.{update_graph, update_node, insert_replay}
use chanter_operator.MissionGraph.Journal.Insert.{
  insert_graph_row, insert_node_row, insert_edge_row,
}

-- Each graph's events are numbered 1, 2, 3, …
abbrev pub IsNumbered : Journal → Type 0
IsNumbered j = AllNumbered (λ (e : EventRecord). e.graph_id) (λ e. e.sequence) j.events

appended : Journal → EventRecord → Journal
appended j row = record j { db = record (j.db) { events = j.events ++ row ∷ [] } }

appended-IsNumbered :
    (j : Journal) (event_id id : String) (draft : EventDraft)
    → IsNumbered j
    → IsNumbered (appended j (event_row event_id id (max_sequence id j.events + 1) draft))
unfolding appended
appended-IsNumbered j event_id id draft h = AllNumbered-append _ _ j.events _ h refl

append_event_as-IsNumbered :
    (event_id id : String) (draft : EventDraft)
    → Keeps IsNumbered (append_event_as event_id id draft)
unfolding append_event_as appended
append_event_as-IsNumbered event_id id draft = record {
  at = λ j h.
      let row = event_row event_id id (max_sequence id j.events + 1) draft in
      elim (Bool-cases (event_fits row j)) [
        | inl fits ↦ rw fits (appended-IsNumbered j event_id id draft h)
        | inr misfit ↦ rw misfit h
      ];
}

pub writes-IsNumbered : {policy : Policy} → IsKept policy IsNumbered
unfolding next_id update_graph update_node insert_replay insert_graph_row insert_node_row
    insert_edge_row
writes-IsNumbered = record {
  appends = record {
    rollback = λ before after h k. h;
    draw = record { at = λ j h. h };
    event = append_event_as-IsNumbered;
    replay = λ row. record { at = λ j h. if-keeps IsNumbered _ _ _ (λ _. h) (λ _. h) };
    graph_insert = λ input. Keeps-checked _ _ _ (λ j h _. h);
    node_insert = λ input n. Keeps-checked _ _ _ (λ j h _. h);
    edge_insert = λ row. Keeps-checked _ _ _ (λ j h _. h);
  };
  graph_update = λ to input approval current allowed within. record { at = λ j h. h };
  node_update = λ to input current allowed. record {
    at = λ j h. if-keeps IsNumbered _ _ _ (λ _. h) (λ _. h);
  };
}

-- Whatever calls are made of the journal, refused ones included, each graph's events stay numbered
-- 1, 2, 3, … in the order in which they were appended.
pub run-IsNumbered : (cs : List Call) (j : Journal) → IsNumbered j → IsNumbered (run cs j)
run-IsNumbered = run-keeps writes-IsNumbered
