-- ===== src/MissionGraph/Journal/Rule.antt =====
-- One proof rule for all methods of MissionGraphJournal
-- (apps/backend/src/missions/missionGraphJournal.ts): what every write keeps, the methods keep.
use chanter_operator.Prelude.{◌≡◌, String, Bool, true, false, Option, none, some}
use chanter_operator.Prelude.Exec.{Exec}
use chanter_operator.Prelude.Exec.Rules.{
  Keeps, keeps_rules, Keeps-guarded, Keeps-bind, Keeps-with_transaction,
}
use chanter_operator.MissionGraph.States.{
  GraphState, NodeState, allowed_graph_transition, allowed_node_transition,
}
use chanter_operator.MissionGraph.Records.{
  GraphRecord, NodeRecord, EventRecord, EventInput, ApprovalInput, NodeTransitionInput, EventDraft,
  GraphInsertInput, NodeInsertInput, ReplayRow, EdgeRow,
}
use chanter_operator.MissionGraph.Journal.{
  Journal, append_event_as, append_event, next_id, require_graph, require_node, get_graph,
  with_savepoint, restore,
}
use chanter_operator.MissionGraph.Journal.Transitions.{
  record_graph_transition, record_node_transition, replay_or_record, update_graph, update_node,
  transition_graph, transition_node, append_audit_event, record_replay, insert_replay,
  append_authoritative_replay_event,
}
use chanter_operator.MissionGraph.Journal.Insert.{
  insert_graph_row, insert_node_row, insert_edge_row, insert_node, insert_graph, graph_row,
  node_row,
}

-- A property of the journal that each single write keeps that changes no row.
pub record IsAppended (P : Journal → Type 0) : Type 0 where
  pub rollback : (before after : Journal) → P before → P after → P (restore before after)
  pub draw : Keeps P next_id
  pub event :
      (event_id id : String) (draft : EventDraft) → Keeps P (append_event_as event_id id draft)
  pub replay : (row : ReplayRow) → Keeps P (insert_replay row)
  pub graph_insert : (input : GraphInsertInput) → Keeps P (insert_graph_row (graph_row input))
  pub node_insert :
      (input : GraphInsertInput) (n : NodeInsertInput)
      → Keeps P (insert_node_row (node_row input n))
  pub edge_insert : (row : EdgeRow) → Keeps P (insert_edge_row row)

-- Which transitions of a graph a client asks for, and with which approvals.
abbrev pub Policy : Type 0
Policy = GraphState → Option ApprovalInput → Bool

abbrev pub any_move : Policy
any_move to approval = true

-- A graph becomes approved only with an approval.
abbrev pub approves_by_approval : Policy
approves_by_approval GraphState.approved none = false
approves_by_approval _ _ = true

-- One that every single write keeps, an UPDATE where its transition is allowed and, of a graph,
-- within the policy.
pub record IsKept (policy : Policy) (P : Journal → Type 0) : Type 0 where
  pub appends : IsAppended P
  pub graph_update :
      (to : GraphState) (input : EventInput) (approval : Option ApprovalInput)
      (current : GraphRecord)
      → allowed_graph_transition current.status to ≡ true
      → policy to approval ≡ true
      → Keeps P (update_graph to input approval current)
  pub node_update :
      (to : NodeState) (input : NodeTransitionInput) (current : NodeRecord)
      → allowed_node_transition current.status to ≡ true
      → Keeps P (update_node to input current)

pub kept-IsAppended : {policy : Policy} {P : Journal → Type 0} → IsKept policy P → IsAppended P
kept-IsAppended kept = kept.appends

module _ {P : Journal → Type 0} (kept : IsAppended P) where
  pub Keeps-require_graph : (id : String) → Keeps P (require_graph id)
  unfolding require_graph get_graph
  Keeps-require_graph id = search keeps_rules

  pub Keeps-require_node : (id node_id : String) → Keeps P (require_node id node_id)
  unfolding require_node
  Keeps-require_node id node_id = search keeps_rules

  pub Keeps-with_savepoint :
      {A : Type 0} (m : Exec Journal A) → Keeps P m → Keeps P (with_savepoint m)
  unfolding with_savepoint
  Keeps-with_savepoint m k = Keeps-with_transaction restore m kept.rollback k

  Keeps-next_id : Keeps P next_id
  Keeps-next_id = kept.draw

  Keeps-append_event_as :
      (event_id id : String) (draft : EventDraft) → Keeps P (append_event_as event_id id draft)
  Keeps-append_event_as = kept.event

  Keeps-insert_replay : (row : ReplayRow) → Keeps P (insert_replay row)
  Keeps-insert_replay = kept.replay

  Keeps-insert_graph_row : (input : GraphInsertInput) → Keeps P (insert_graph_row (graph_row input))
  Keeps-insert_graph_row = kept.graph_insert

  Keeps-insert_node_row :
      (input : GraphInsertInput) (n : NodeInsertInput)
      → Keeps P (insert_node_row (node_row input n))
  Keeps-insert_node_row = kept.node_insert

  Keeps-insert_edge_row : (row : EdgeRow) → Keeps P (insert_edge_row row)
  Keeps-insert_edge_row = kept.edge_insert

ruleset write_rules = (
  keeps_rules, Keeps-require_graph, Keeps-require_node, Keeps-with_savepoint, Keeps-next_id,
  Keeps-append_event_as, Keeps-insert_replay, Keeps-insert_graph_row, Keeps-insert_node_row,
  Keeps-insert_edge_row,
)

module _ {P : Journal → Type 0} (kept : IsAppended P) where
  Keeps-append_event : (id : String) (draft : EventDraft) → Keeps P (append_event id draft)
  unfolding append_event
  Keeps-append_event id draft = search write_rules

  Keeps-record_replay :
      (id identity : String) (input : EventInput) (graph : GraphRecord)
      → Keeps P (record_replay id identity input graph)
  unfolding record_replay
  Keeps-record_replay id identity input graph = search write_rules depth 12

  Keeps-insert_node :
      (input : GraphInsertInput) (n : NodeInsertInput) → Keeps P (insert_node input n)
  unfolding insert_node
  Keeps-insert_node input n = search write_rules depth 12

  Keeps-replay_or_record :
      (id identity : String) (input : EventInput) (graph : GraphRecord) (o : Option EventRecord)
      → Keeps P (replay_or_record id identity input graph o)
  unfolding replay_or_record
  Keeps-replay_or_record id identity input graph none = Keeps-record_replay id identity input graph
  Keeps-replay_or_record id identity input graph (some e) = search keeps_rules

ruleset method_rules = (
  write_rules, Keeps-append_event, Keeps-record_replay, Keeps-insert_node, Keeps-replay_or_record,
)

module _ {P : Journal → Type 0} (kept : IsAppended P) where
  pub Keeps-append_audit_event :
      (id event_type : String) (node_id : Option String) (input : EventInput)
      → Keeps P (append_audit_event id event_type node_id input)
  unfolding append_audit_event
  Keeps-append_audit_event id event_type node_id input = search method_rules depth 12

  pub Keeps-append_authoritative_replay_event :
      (id identity : String) (input : EventInput)
      → Keeps P (append_authoritative_replay_event id identity input)
  unfolding append_authoritative_replay_event
  Keeps-append_authoritative_replay_event id identity input = search method_rules depth 12

  pub Keeps-insert_graph : (input : GraphInsertInput) → Keeps P (insert_graph input)
  unfolding insert_graph
  Keeps-insert_graph input = search method_rules depth 12

module _ {policy : Policy} {P : Journal → Type 0} (kept : IsKept policy P) where
  Keeps-update_graph :
      (to : GraphState) (input : EventInput) (approval : Option ApprovalInput)
      (current : GraphRecord)
      → allowed_graph_transition current.status to ≡ true
      → policy to approval ≡ true
      → Keeps P (update_graph to input approval current)
  Keeps-update_graph = kept.graph_update

  Keeps-update_node :
      (to : NodeState) (input : NodeTransitionInput) (current : NodeRecord)
      → allowed_node_transition current.status to ≡ true
      → Keeps P (update_node to input current)
  Keeps-update_node = kept.node_update

ruleset update_rules = (method_rules, kept-IsAppended, Keeps-update_graph, Keeps-update_node)

module _ {policy : Policy} {P : Journal → Type 0} (kept : IsKept policy P) where
  pub Keeps-transition_graph :
      (id : String) (to : GraphState) (input : EventInput) (approval : Option ApprovalInput)
      → policy to approval ≡ true
      → Keeps P (transition_graph id to input approval)
  unfolding transition_graph record_graph_transition
  Keeps-transition_graph id to input approval within =
      Keeps-bind (require_graph id) _ (Keeps-require_graph kept.appends id) λ current.
        Keeps-guarded (allowed_graph_transition current.status to) _ _
          λ allowed. search update_rules depth 12

  pub Keeps-transition_node :
      (id node_id : String) (to : NodeState) (input : NodeTransitionInput)
      → Keeps P (transition_node id node_id to input)
  unfolding transition_node record_node_transition
  Keeps-transition_node id node_id to input =
      Keeps-bind (require_node id node_id) _ (Keeps-require_node kept.appends id node_id) λ current.
        Keeps-guarded (allowed_node_transition current.status to) _ _
          λ allowed. search update_rules depth 12
