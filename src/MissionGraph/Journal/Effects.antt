-- ===== src/MissionGraph/Journal/Effects.antt =====
-- The exact effect of transitionGraph and transitionNode of
-- apps/backend/src/missions/missionGraphJournal.ts, on every branch.
use chanter_operator.Prelude.{
  suc, ◌+◌, ◌≡◌, refl, String, Bool, true, ◌&&◌, Option, none, some, [], ◌∷◌, ◌++◌, arith, find,
  update_where, count_by, nat_eq, find-update_where, Bool-cases, Option-cases, inl, inr, ◌⊎◌,
  eq_iff,
}
use chanter_operator.Prelude.Exec.{Thrown, ok, err, ◌>>=◌, or_throw, ensure, with_transaction}
use chanter_operator.Prelude.Exec.Rules.{Outcome}
use chanter_operator.MissionGraph.States.{GraphState, allowed_graph_transition, same_graph_state}
use chanter_operator.MissionGraph.Records.{
  GraphRecord, EventRecord, EventInput, ApprovalInput, EventDraft,
}
use chanter_operator.MissionGraph.Journal.{
  Tables, Journal, graph_is, next_id, append_event_as, append_event, event_row, event_fits,
  max_sequence, require_graph, get_graph, with_savepoint, constraint,
}
use chanter_operator.MissionGraph.Journal.Transitions.{
  update_graph, moved_graph, graph_draft, transition_graph, record_graph_transition,
}

abbrev pub drawn : Journal → Journal
drawn j = record j { ids_used = suc j.ids_used }

-- The event that appendEvent writes to `j`.
abbrev pub next_event : String → EventDraft → Journal → EventRecord
next_event id draft j = event_row (j.id_factory j.ids_used) id (max_sequence id j.events + 1) draft

abbrev pub logged : String → EventDraft → Journal → Journal
logged id draft j = record j {
  db = record (j.db) { events = j.events ++ next_event id draft j ∷ [] };
  ids_used = suc j.ids_used;
}

pub append_event_cases :
    (id : String) (draft : EventDraft) (j : Journal)
    → (append_event id draft j ≡ (ok tt, logged id draft j))
      ⊎ ((e : Thrown) × (append_event id draft j ≡ (err e, drawn j)))
unfolding append_event append_event_as next_id ◌>>=◌
append_event_cases id draft j = elim (Bool-cases (event_fits (next_event id draft j) (drawn j))) [
  | inl fits ↦ inl (rw fits)
  | inr misfit ↦ inr (constraint "operator_mission_graph_events", rw misfit)
]

abbrev pub hits_graph : GraphRecord → GraphRecord → Bool
hits_graph current g = graph_is current.graph_id g && same_graph_state g.status current.status

-- The tables after a graph's transition: its row moved, and one event more.
abbrev pub tables_after_graph :
    String → GraphState → EventInput → Option ApprovalInput → GraphRecord → Journal → Tables
tables_after_graph id to input approval current j = record (j.db) {
  graphs = update_where (hits_graph current) (moved_graph to input approval current) j.graphs;
  events = j.events ++ next_event id (graph_draft to input current) j ∷ [];
}

pub record GraphMoved (id : String) (to : GraphState) (input : EventInput)
    (approval : Option ApprovalInput) (j : Journal) (g : GraphRecord) (k : Journal) : Type 0 where
  pub current : GraphRecord
  pub found : find (graph_is id) j.graphs ≡ some current
  pub allowed : allowed_graph_transition current.status to ≡ true
  pub returned : g ≡ moved_graph to input approval current current
  pub tables : k.db ≡ tables_after_graph id to input approval current j
  pub factory : k.id_factory ≡ j.id_factory

pub record Refused (j k : Journal) : Type 0 where
  pub tables : k.db ≡ j.db
  pub factory : k.id_factory ≡ j.id_factory

same_graph_state_refl : (s : GraphState) → same_graph_state s s ≡ true
same_graph_state_refl s = ground arith

moved_graph-graph_id :
    (to : GraphState) (input : EventInput) (approval : Option ApprovalInput)
    (current g : GraphRecord)
    → (moved_graph to input approval current g).graph_id ≡ g.graph_id
moved_graph-graph_id to input none current g = refl
moved_graph-graph_id to input (some a) current g = refl

module _ (id : String) (to : GraphState) (input : EventInput) (approval : Option ApprovalInput)
    (j : Journal) (current : GraphRecord) (found : find (graph_is id) j.graphs ≡ some current)
    (allowed : allowed_graph_transition current.status to ≡ true) where
  abbrev pub updated : Journal
  updated = record j {
    db = record (j.db) {
      graphs = update_where (hits_graph current) (moved_graph to input approval current) j.graphs;
    };
  }

  hits_current : hits_graph current current ≡ true
  hits_current =
      ground (arith, same_graph_state_refl current.status, eq_iff current.graph_id current.graph_id)

  pub found_after :
      find (graph_is id) updated.graphs ≡ some (moved_graph to input approval current current)
  found_after = rw (
    find-update_where (graph_is id) (hits_graph current) (moved_graph to input approval current)
        j.graphs current (λ x. rw (moved_graph-graph_id to input approval current x)) found,
    hits_current,
  )

  record_graph_transition_effect :
      Outcome
        (GraphMoved id to input approval j)
        (Refused j)
        (with_savepoint (record_graph_transition id to input approval current) j)
  unfolding with_savepoint with_transaction record_graph_transition update_graph ◌>>=◌ ensure
      require_graph get_graph or_throw
  record_graph_transition_effect =
      elim (Bool-cases (nat_eq (count_by (hits_graph current) j.graphs) 1)) [
        | inl one ↦ rw one (elim (append_event_cases id (graph_draft to input current) updated) [
          | inl e ↦
              rw (e, found_after)
                (record {
                  current = current;
                  found = found;
                  allowed = allowed;
                  returned = refl;
                  tables = refl;
                  factory = refl;
                })
          | inr (x, e) ↦ rw e (record { tables = refl; factory = refl })
        ])
        | inr other ↦ rw other (record { tables = refl; factory = refl })
      ]

-- transitionGraph either throws and leaves every table as it was, or: the graph was there, the
-- table of transitions allows the move from its state, its row alone has moved, as the UPDATE says,
-- with approval where one was given, exactly one event has been appended, with the next sequence
-- number and both states, and the row that it returns is the new one.
pub transition_graph_effect :
    (id : String) (to : GraphState) (input : EventInput) (approval : Option ApprovalInput)
    (j : Journal)
    → Outcome
        (GraphMoved id to input approval j)
        (Refused j)
        (transition_graph id to input approval j)
unfolding transition_graph ◌>>=◌ ensure require_graph get_graph or_throw
transition_graph_effect id to input approval j = elim (Option-cases (find (graph_is id) j.graphs)) [
  | inl absent ↦ rw absent (record { tables = refl; factory = refl })
  | inr (current, found) ↦
      rw found (elim (Bool-cases (allowed_graph_transition current.status to)) [
        | inl allowed ↦
            rw allowed (record_graph_transition_effect id to input approval j current found allowed)
        | inr forbidden ↦ rw forbidden (record { tables = refl; factory = refl })
      ])
]
