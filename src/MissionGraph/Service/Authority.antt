-- ===== src/MissionGraph/Service/Authority.antt =====
-- The authority of an approval over the graphs of
-- apps/backend/src/missions/missionGraphService.ts.
use chanter_operator.Prelude.{
  ◌≡◌, refl, subst, sym, Bool, true, false, ◌&&◌, ◌||◌, Option, none, some, List, [], ◌∷◌, arith,
  All, All-append, update_where, is_some, Bool-cases, inl, inr,
}
use chanter_operator.Prelude.Exec.Rules.{Keeps-checked, if-keeps}
use chanter_operator.MissionGraph.States.{GraphState, allowed_graph_transition, same_graph_state}
use chanter_operator.MissionGraph.Records.{GraphRecord, EventInput, ApprovalInput}
use chanter_operator.MissionGraph.Journal.{Journal, next_id, append_event_as, graph_is}
use chanter_operator.MissionGraph.Journal.Rule.{IsKept, approves_by_approval}
use chanter_operator.MissionGraph.Journal.Transitions.{
  update_graph, update_node, moved_graph, insert_replay,
}
use chanter_operator.MissionGraph.Journal.Insert.{
  insert_graph_row, insert_node_row, insert_edge_row,
}
use chanter_operator.MissionGraph.Journal.History.Writes.{same_graph_state-eq}
use chanter_operator.MissionGraph.Service.{Service, Platform}
use chanter_operator.MissionGraph.Service.Calls.{ControlCall, serve_all, serve_all-keeps}

-- The states in which a graph needs no approval.
abbrev pub needs_none : GraphState → Bool
needs_none GraphState.approval_required = true
needs_none GraphState.cancelled = true
needs_none _ = false

-- The graph was never started, or it carries the actor and the hash of its approval.
abbrev pub is_authorised : GraphRecord → Bool
is_authorised g = needs_none g.status || (is_some g.approved_by && is_some g.approved_graph_hash)

abbrev pub IsAuthorised : Journal → Type 0
IsAuthorised j = All (λ g. is_authorised g ≡ true) j.graphs

moved_without :
    (from to : GraphState) (approved : Bool)
    → allowed_graph_transition from to ≡ true
    → approves_by_approval to none ≡ true
    → (needs_none from || approved) ≡ true
    → (needs_none to || approved) ≡ true
unfolding allowed_graph_transition
moved_without from to approved allowed within before = ground arith

moved_graph-is_authorised :
    (to : GraphState) (input : EventInput) (approval : Option ApprovalInput)
    (current g : GraphRecord)
    → allowed_graph_transition g.status to ≡ true
    → approves_by_approval to approval ≡ true
    → is_authorised g ≡ true
    → is_authorised (moved_graph to input approval current g) ≡ true
moved_graph-is_authorised to input none current g allowed within h =
    moved_without g.status to _ allowed within h
moved_graph-is_authorised to input (some a) current g allowed within h = ground arith

module _ (to : GraphState) (input : EventInput) (approval : Option ApprovalInput)
    (current : GraphRecord) (allowed : allowed_graph_transition current.status to ≡ true)
    (within : approves_by_approval to approval ≡ true) where
  abbrev hit : GraphRecord → Bool
  hit g = graph_is current.graph_id g && same_graph_state g.status current.status

  updated_rows :
      (gs : List GraphRecord)
      → All (λ g. is_authorised g ≡ true) gs
      → All
          (λ g. is_authorised g ≡ true)
          (update_where hit (moved_graph to input approval current) gs)
  updated_rows [] hs = tt
  updated_rows (g ∷ rest) hs = elim (Bool-cases (hit g)) [
    | inl hits ↦
        let same = same_graph_state-eq g.status current.status (ground arith) in
        rw hits (
          moved_graph-is_authorised to input approval current g
              (subst (λ s. allowed_graph_transition s to ≡ true) (sym same) allowed) within hs.0,
          updated_rows rest hs.1,
        )
    | inr misses ↦ rw misses (hs.0, updated_rows rest hs.1)
  ]

writes-IsAuthorised : IsKept approves_by_approval IsAuthorised
unfolding next_id append_event_as update_graph update_node insert_replay insert_graph_row
    insert_node_row insert_edge_row
writes-IsAuthorised = record {
  appends = record {
    rollback = λ before after h k. h;
    draw = record { at = λ j h. h };
    event =
        λ event_id id draft. record { at = λ j h. if-keeps IsAuthorised _ _ _ (λ _. h) (λ _. h) };
    replay = λ row. record { at = λ j h. if-keeps IsAuthorised _ _ _ (λ _. h) (λ _. h) };
    graph_insert = λ input. Keeps-checked _ _ _ (λ j h _. All-append _ j.graphs _ h (refl, tt));
    node_insert = λ input n. Keeps-checked _ _ _ (λ j h _. h);
    edge_insert = λ row. Keeps-checked _ _ _ (λ j h _. h);
  };
  graph_update = λ to input approval current allowed within. record {
    at = λ j h. updated_rows to input approval current allowed within j.graphs h;
  };
  node_update = λ to input current allowed. record {
    at = λ j h. if-keeps IsAuthorised _ _ _ (λ _. h) (λ _. h);
  };
}

-- Nothing runs without an approval: where it holds at the start, then whatever submissions,
-- approvals, resumptions and cancellations are served, whatever the child missions answer and
-- whatever throws, every stored graph that is not waiting for its approval or cancelled carries an
-- actor and a graph hash as its approval.
pub serve_all-IsAuthorised :
    {W : Type 0} (p : Platform W) (cs : List ControlCall) (s : Service W)
    → IsAuthorised s.journal
    → IsAuthorised (serve_all p cs s).journal
serve_all-IsAuthorised p cs s h =
    (serve_all-keeps p writes-IsAuthorised cs s (record { holds = h })).holds
