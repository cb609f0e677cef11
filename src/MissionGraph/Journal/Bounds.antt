-- ===== src/MissionGraph/Journal/Bounds.antt =====
-- The bounds of the columns in apps/backend/src/missions/missionGraphJournal.ts.
use chanter_operator.Prelude.{
  ℕ, ◌≤◌, ◌≡◌, refl, Bool, false, List, [], ◌∷◌, arith, any, All, All-append, update_where, ltb,
  or_else, ◌&&◌, Bool-cases, inl, inr, subst, sym,
}
use chanter_operator.Prelude.Exec.Rules.{Keeps-checked, if-keeps}
use chanter_operator.MissionGraph.States.{NodeState, same_node_state}
use chanter_operator.MissionGraph.Records.{NodeRecord, NodeTransitionInput}
use chanter_operator.MissionGraph.Journal.{Journal, next_id, append_event_as, node_is}
use chanter_operator.MissionGraph.Journal.Rule.{Policy, IsKept}
use chanter_operator.MissionGraph.Journal.Calls.{Call, run, run-keeps}
use chanter_operator.MissionGraph.Journal.Transitions.{
  update_graph, update_node, moved_node, insert_replay,
}
use chanter_operator.MissionGraph.Journal.Insert.{
  insert_graph_row, insert_node_row, insert_edge_row,
}

abbrev pub HasBudget : NodeRecord → Type 0
HasBudget n = n.attempts ≤ 3

-- No node was dispatched more often than its budget of three attempts allows.
abbrev pub IsBounded : Journal → Type 0
IsBounded j = All HasBudget j.nodes

ltb-false : (m n : ℕ) → ltb m n ≡ false → n ≤ m
ltb-false m n e = ground arith

-- An UPDATE whose check passes wherever it hits a row keeps the bound.
updated-HasBudget :
    (hit : NodeRecord → Bool) (f : NodeRecord → NodeRecord) (value : ℕ) (nodes : List NodeRecord)
    → ((n : NodeRecord) → (f n).attempts ≡ value)
    → All HasBudget nodes
    → (any hit nodes && ltb 3 value) ≡ false
    → All HasBudget (update_where hit f nodes)
updated-HasBudget hit f value [] sets h checked = tt
updated-HasBudget hit f value (n ∷ rest) sets h checked =
    let later = updated-HasBudget hit f value rest sets h.1 (ground arith) in
    elim (Bool-cases (hit n)) [
      | inl hits ↦
          rw hits (subst (λ v. v ≤ 3) (sym (sets n)) (ltb-false 3 value (ground arith)), later)
      | inr misses ↦ rw misses (h.0, later)
    ]

update_node-IsBounded :
    (to : NodeState) (input : NodeTransitionInput) (current : NodeRecord) (j : Journal)
    → IsBounded j
    → IsBounded (update_node to input current j).1
unfolding update_node
update_node-IsBounded to input current j h =
    let hit = λ (n : NodeRecord).
      node_is current.graph_id current.node_id n && same_node_state n.status current.status in
    let value = or_else input.attempts current.attempts in
    elim (Bool-cases (any hit j.nodes && ltb 3 value)) [
      | inl over ↦ rw over h
      | inr fits ↦
          rw fits
            (updated-HasBudget hit (moved_node to input current) value j.nodes (λ n. refl) h fits)
    ]

pub writes-IsBounded : {policy : Policy} → IsKept policy IsBounded
unfolding next_id append_event_as update_graph update_node insert_replay insert_graph_row
    insert_node_row insert_edge_row
writes-IsBounded = record {
  appends = record {
    rollback = λ before after h k. h;
    draw = record { at = λ j h. h };
    event = λ event_id id draft. record { at = λ j h. if-keeps IsBounded _ _ _ (λ _. h) (λ _. h) };
    replay = λ row. record { at = λ j h. if-keeps IsBounded _ _ _ (λ _. h) (λ _. h) };
    graph_insert = λ input. Keeps-checked _ _ _ (λ j h _. h);
    node_insert = λ input n.
        Keeps-checked _ _ _ (λ j h _. All-append HasBudget j.nodes _ h (omega arith, tt));
    edge_insert = λ row. Keeps-checked _ _ _ (λ j h _. h);
  };
  graph_update = λ to input approval current allowed within. record { at = λ j h. h };
  node_update = λ to input current allowed. record { at = update_node-IsBounded to input current };
}

-- Whatever calls are made of the journal, no node's attempts come to exceed three.
pub run-IsBounded : (cs : List Call) (j : Journal) → IsBounded j → IsBounded (run cs j)
run-IsBounded = run-keeps writes-IsBounded
