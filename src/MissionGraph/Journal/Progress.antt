-- ===== src/MissionGraph/Journal/Progress.antt =====
-- Where transitionGraph of apps/backend/src/missions/missionGraphJournal.ts succeeds.
use chanter_operator.Prelude.{
  ◌≡◌, String, Bool, true, false, Option, some, List, [], ◌∷◌, arith, find, any, count_by, ◌==◌,
}
use chanter_operator.Prelude.Numbering.{fresh_above}
use chanter_operator.Prelude.Exec.{ok, ◌>>=◌, or_throw, ensure, with_transaction}
use chanter_operator.MissionGraph.States.{GraphState, allowed_graph_transition}
use chanter_operator.MissionGraph.Records.{GraphRecord, EventRecord, EventInput, ApprovalInput}
use chanter_operator.MissionGraph.Journal.{
  Journal, graph_is, next_id, append_event_as, append_event, event_fits, max_sequence,
  require_graph, get_graph, with_savepoint,
}
use chanter_operator.MissionGraph.Journal.Transitions.{
  update_graph, moved_graph, transition_graph, record_graph_transition,
}
use chanter_operator.MissionGraph.Journal.Effects.{
  drawn, hits_graph, tables_after_graph, found_after,
}

find-any : {A : Type 0} (p : A → Bool) (xs : List A) (a : A) → find p xs ≡ some a → any p xs ≡ true
find-any p [] a h = cc
find-any p (x ∷ xs) a h = ground (arith, find-any p xs a)

-- An allowed transition of a stored graph with one row of its identifier succeeds where the next
-- identifier is unused: the row moves, the event is appended, and the moved row is returned.
pub transition_graph_succeeds :
    (id : String) (to : GraphState) (input : EventInput) (approval : Option ApprovalInput)
    (j : Journal) (current : GraphRecord)
    → find (graph_is id) j.graphs ≡ some current
    → allowed_graph_transition current.status to ≡ true
    → count_by (hits_graph current) j.graphs ≡ 1
    → any (λ e. e.event_id == j.id_factory j.ids_used) j.events ≡ false
    → transition_graph id to input approval j ≡ (
      ok (moved_graph to input approval current current),
      record (drawn j) { db = tables_after_graph id to input approval current j },
    )
unfolding transition_graph record_graph_transition update_graph with_savepoint with_transaction
    append_event append_event_as event_fits next_id ◌>>=◌ ensure require_graph get_graph or_throw
transition_graph_succeeds id to input approval j current found allowed one unused =
    let after = found_after id to input approval j current found allowed in
    rw (
      found,
      allowed,
      one,
      unused,
      fresh_above (λ (e : EventRecord). e.graph_id) (λ (e : EventRecord). e.sequence) id
          (max_sequence id j.events) j.events (omega arith),
      find-any _ _ _ after,
      after,
    )
