-- ===== src/MissionGraph/Journal/NodeEffects.antt =====
-- The exact effect of transitionNode of apps/backend/src/missions/missionGraphJournal.ts, on every
-- branch.
use chanter_operator.Prelude.{
  ◌≤◌, ◌≡◌, refl, String, Bool, true, ◌&&◌, some, List, [], ◌∷◌, ◌++◌, arith, ltb, any, find,
  update_where, count_by, nat_eq, find-update_where, Bool-cases, Option-cases, inl, inr, or_else,
  eq_iff,
}
use chanter_operator.Prelude.Exec.{◌>>=◌, or_throw, ensure, with_transaction}
use chanter_operator.Prelude.Exec.Rules.{Outcome}
use chanter_operator.MissionGraph.States.{NodeState, allowed_node_transition, same_node_state}
use chanter_operator.MissionGraph.Records.{NodeRecord, NodeTransitionInput}
use chanter_operator.MissionGraph.Journal.{Tables, Journal, node_is, require_node, with_savepoint}
use chanter_operator.MissionGraph.Journal.Transitions.{
  update_node, moved_node, node_draft, transition_node, record_node_transition,
}
use chanter_operator.MissionGraph.Journal.Effects.{next_event, append_event_cases, Refused}

abbrev pub hits_node : NodeRecord → NodeRecord → Bool
hits_node current n =
    node_is current.graph_id current.node_id n && same_node_state n.status current.status

-- The tables after a node's transition: its row moved, and one event more.
abbrev pub tables_after_node :
    String → NodeState → NodeTransitionInput → NodeRecord → Journal → Tables
tables_after_node id to input current j = record (j.db) {
  nodes = update_where (hits_node current) (moved_node to input current) j.nodes;
  events = j.events ++ next_event id (node_draft to input current) j ∷ [];
}

pub record NodeMoved (id node_id : String) (to : NodeState) (input : NodeTransitionInput)
    (j : Journal) (n : NodeRecord) (k : Journal) : Type 0 where
  pub current : NodeRecord
  pub found : find (node_is id node_id) j.nodes ≡ some current
  pub allowed : allowed_node_transition current.status to ≡ true
  pub in_budget : n.attempts ≤ 3
  pub returned : n ≡ moved_node to input current current
  pub tables : k.db ≡ tables_after_node id to input current j
  pub factory : k.id_factory ≡ j.id_factory

same_node_state_refl : (s : NodeState) → same_node_state s s ≡ true
same_node_state_refl s = ground arith

pub any_of_find :
    {A : Type 0} (p q : A → Bool) (xs : List A) (a : A)
    → find p xs ≡ some a
    → q a ≡ true
    → any q xs ≡ true
any_of_find p q [] a e h = cc
any_of_find p q (x ∷ xs) a e h = ground (arith, any_of_find p q xs a)

module _ (id node_id : String) (to : NodeState) (input : NodeTransitionInput) (j : Journal)
    (current : NodeRecord) (found : find (node_is id node_id) j.nodes ≡ some current)
    (allowed : allowed_node_transition current.status to ≡ true) where
  abbrev updated : Journal
  updated = record j {
    db = record (j.db) {
      nodes = update_where (hits_node current) (moved_node to input current) j.nodes;
    };
  }

  pub hits_current : hits_node current current ≡ true
  hits_current = ground (
    arith,
    same_node_state_refl current.status,
    eq_iff current.graph_id current.graph_id,
    eq_iff current.node_id current.node_id,
  )

  pub found_after :
      find (node_is id node_id) updated.nodes ≡ some (moved_node to input current current)
  found_after = rw (
    find-update_where (node_is id node_id) (hits_node current) (moved_node to input current) j.nodes
        current (λ x. refl) found,
    hits_current,
  )

  record_node_transition_effect :
      Outcome
        (NodeMoved id node_id to input j)
        (Refused j)
        (with_savepoint (record_node_transition id node_id to input current) j)
  unfolding with_savepoint with_transaction record_node_transition update_node ◌>>=◌ ensure
      require_node or_throw
  record_node_transition_effect =
      rw (any_of_find (node_is id node_id) (hits_node current) j.nodes current found hits_current)
        (elim (Bool-cases (ltb 3 (or_else input.attempts current.attempts))) [
          | inl spent ↦ rw spent (record { tables = refl; factory = refl })
          | inr open_budget ↦
              rw open_budget (elim (Bool-cases (nat_eq (count_by (hits_node current) j.nodes) 1)) [
                | inl one ↦
                    rw one (elim (append_event_cases id (node_draft to input current) updated) [
                      | inl e ↦
                          rw (e, found_after)
                            (record {
                              current = current;
                              found = found;
                              allowed = allowed;
                              in_budget = ground arith;
                              returned = refl;
                              tables = refl;
                              factory = refl;
                            })
                      | inr (x, e) ↦ rw e (record { tables = refl; factory = refl })
                    ])
                | inr other ↦ rw other (record { tables = refl; factory = refl })
              ])
        ])

-- transitionNode either throws and leaves every table as it was, or: the node was there, the table
-- of transitions allows the move from its state, its attempts stay within the three that the
-- schema permits, its row alone has moved, as the UPDATE says, exactly one event has been
-- appended, with the next sequence number and both states, and the row that it returns is the new
-- one.
pub transition_node_effect :
    (id node_id : String) (to : NodeState) (input : NodeTransitionInput) (j : Journal)
    → Outcome (NodeMoved id node_id to input j) (Refused j) (transition_node id node_id to input j)
unfolding transition_node ◌>>=◌ ensure require_node or_throw
transition_node_effect id node_id to input j =
    elim (Option-cases (find (node_is id node_id) j.nodes)) [
      | inl absent ↦ rw absent (record { tables = refl; factory = refl })
      | inr (current, found) ↦
          rw found (elim (Bool-cases (allowed_node_transition current.status to)) [
            | inl allowed ↦
                rw allowed
                  (record_node_transition_effect id node_id to input j current found allowed)
            | inr forbidden ↦ rw forbidden (record { tables = refl; factory = refl })
          ])
    ]
