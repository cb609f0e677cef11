-- ===== src/MissionGraph/Journal/NodeProgress.antt =====
-- Where transitionNode of apps/backend/src/missions/missionGraphJournal.ts succeeds.
use chanter_operator.Prelude.{
  ◌≡◌, String, true, false, some, arith, find, any, count_by, ◌==◌, ltb, or_else,
}
use chanter_operator.Prelude.Numbering.{fresh_above}
use chanter_operator.Prelude.Exec.{ok, ◌>>=◌, or_throw, ensure, with_transaction}
use chanter_operator.MissionGraph.States.{NodeState, allowed_node_transition}
use chanter_operator.MissionGraph.Records.{EventRecord, NodeRecord, NodeTransitionInput}
use chanter_operator.MissionGraph.Journal.{
  Journal, graph_is, node_is, next_id, append_event_as, append_event, event_fits, max_sequence,
  require_node, with_savepoint,
}
use chanter_operator.MissionGraph.Journal.Transitions.{
  update_node, moved_node, transition_node, record_node_transition,
}
use chanter_operator.MissionGraph.Journal.Effects.{drawn}
use chanter_operator.MissionGraph.Journal.NodeEffects.{
  hits_node, tables_after_node, any_of_find, hits_current, found_after,
}

-- An allowed transition of a stored node whose graph is stored, whose identifiers no other row has,
-- and whose attempts stay within three succeeds where the next identifier is unused: the row moves,
-- the event is appended, and the moved row is returned.
pub transition_node_succeeds :
    (id node_id : String) (to : NodeState) (input : NodeTransitionInput) (j : Journal)
    (current : NodeRecord)
    → find (node_is id node_id) j.nodes ≡ some current
    → allowed_node_transition current.status to ≡ true
    → any (graph_is id) j.graphs ≡ true
    → count_by (hits_node current) j.nodes ≡ 1
    → ltb 3 (or_else input.attempts current.attempts) ≡ false
    → any (λ e. e.event_id == j.id_factory j.ids_used) j.events ≡ false
    → transition_node id node_id to input j ≡ (
      ok (moved_node to input current current),
      record (drawn j) { db = tables_after_node id to input current j },
    )
unfolding transition_node record_node_transition update_node with_savepoint with_transaction
    append_event append_event_as event_fits next_id ◌>>=◌ ensure require_node or_throw
transition_node_succeeds id node_id to input j current found allowed stored one open_budget unused =
    rw (
      found,
      allowed,
      any_of_find (node_is id node_id) (hits_node current) j.nodes current found
          (hits_current id node_id to input j current found allowed),
      open_budget,
      one,
      stored,
      unused,
      fresh_above (λ (e : EventRecord). e.graph_id) (λ (e : EventRecord). e.sequence) id
          (max_sequence id j.events) j.events (omega arith),
      found_after id node_id to input j current found allowed,
    )
