-- ===== src/MissionGraph/Service/Guards.antt =====
-- The guards of approveGraph, resumeGraph and cancelGraph of
-- apps/backend/src/missions/missionGraphService.ts: what must hold before any of them writes.
use chanter_operator.Prelude.{
  ◌≡◌, refl, String, true, false, not, ◌&&◌, ◌==◌, Option, some, List, [], ◌∷◌, ◌⊎◌, inl, inr, find,
  if◌then◌else◌, any, keep, All, trim, truthy, Bool-cases, Option-cases, same_text,
}
use chanter_operator.Prelude.Exec.{Exec, ok, for_each, ◌>>=◌, ensure, or_throw}
use chanter_operator.Prelude.Exec.Rules.{Refuses, Result-cases, ensure_or, if_or}
use chanter_operator.Json.{Json}
use chanter_operator.MissionGraph.States.{GraphState, NodeState, same_graph_state, is_final_graph}
use chanter_operator.MissionGraph.Records.{GraphRecord, NodeRecord}
use chanter_operator.MissionGraph.Journal.{graph_is, require_graph, get_graph, Journal}
use chanter_operator.MissionGraph.Journal.Order.{list_nodes, sort_by, text_le}
use chanter_operator.MissionGraph.Service.{
  Service, Platform, on_journal, with_journal, assert_contains_no_protected_value,
  contains_protected, child_reference, ChildMission, read_children,
}
use chanter_operator.MissionGraph.Service.Dispatch.{
  in_states, assert_not_awaiting, assert_no_child_awaiting_reconciliation,
}
use chanter_operator.MissionGraph.Service.Recovery.{resume_graph}
use chanter_operator.MissionGraph.Service.Cancellation.{cancel_graph}
use chanter_operator.MissionGraph.Service.Scheduler.{has_status}
use chanter_operator.MissionGraph.Service.Control.{
  trimmed, is_graph_hash, is_actor, assert_graph_integrity,
}
use chanter_operator.MissionGraph.Service.Approval.{
  is_closed_to_approval, replay_approval, approve_graph, first_approval,
}

module _ {W A : Type 0} {G : Type 0} (s : Service W) where
  -- Behind requireGraph, the method refuses or the graph is there.
  require_graph_or :
      (id : String) (f : GraphRecord → Exec (Service W) A)
      → ((g : GraphRecord) → find (graph_is id) s.journal.graphs ≡ some g → G ⊎ Refuses s (f g s))
      → G ⊎ Refuses s ((on_journal (require_graph id) >>= f) s)
  unfolding ◌>>=◌ on_journal with_journal require_graph get_graph or_throw
  require_graph_or id f present = elim (Option-cases (find (graph_is id) s.journal.graphs)) [
    | inl absent ↦ rw absent (inr (_, refl))
    | inr (g, found) ↦ rw found (present g found)
  ]

  unprotected_or :
      (values : List String) (f : Unit {0} → Exec (Service W) A)
      → (contains_protected values s ≡ false → G ⊎ Refuses s (f tt s))
      → G ⊎ Refuses s ((assert_contains_no_protected_value values >>= f) s)
  unfolding ◌>>=◌ assert_contains_no_protected_value ensure
  unprotected_or values f clean = elim (Bool-cases (contains_protected values s)) [
    | inl found ↦ rw found (inr (_, refl))
    | inr free ↦ rw free (clean free)
  ]

abbrev pub nodes_of : GraphRecord → Journal → List NodeRecord
nodes_of graph j =
    sort_by (λ a b. text_le a.node_id b.node_id) (keep (λ n. n.graph_id == graph.graph_id) j.nodes)

-- The node's child mission does not exist yet, or does not wait for reconciliation.
abbrev pub IsSettled : {W : Type 0} → Platform W → W → NodeRecord → Type 0
IsSettled p w node =
    (p.has_mission (child_reference node) w ≡ ok false)
    ⊎ ((m : ChildMission) × (p.has_mission (child_reference node) w ≡ ok true)
        × (p.get_mission (child_reference node) w ≡ ok m)
        × (in_states m.execution_state ("reconciliation_required" ∷ []) ≡ false))

module _ {W A : Type 0} {G : Type 0} (s : Service W) where
  list_nodes_or :
      (graph : GraphRecord) (f : List NodeRecord → Exec (Service W) A)
      → G ⊎ Refuses s (f (nodes_of graph s.journal) s)
      → G ⊎ Refuses s ((on_journal (list_nodes graph.graph_id) >>= f) s)
  unfolding ◌>>=◌ on_journal with_journal list_nodes
  list_nodes_or graph f h = h

module _ {W : Type 0} (p : Platform W) (s : Service W) where
  -- The check of one node only reads.
  IsSettled-node :
      (node : NodeRecord)
      → (IsSettled p s.children node × (assert_not_awaiting p node s ≡ (ok tt, s)))
        ⊎ Refuses s (assert_not_awaiting p node s)
  unfolding assert_not_awaiting read_children ◌>>=◌ ensure
  IsSettled-node node = elim (Result-cases (p.has_mission (child_reference node) s.children)) [
    | inr (e, fails) ↦ rw fails (inr (e, refl))
    | inl (false, absent) ↦ rw absent (inl (inl refl, refl))
    | inl (true, exists) ↦
        rw exists (elim (Result-cases (p.get_mission (child_reference node) s.children)) [
          | inr (e, fails) ↦ rw fails (inr (e, refl))
          | inl (m, got) ↦
              rw got
                (elim (Bool-cases (in_states m.execution_state ("reconciliation_required" ∷ []))) [
                  | inl awaits ↦ rw awaits (inr (_, refl))
                  | inr settled ↦ rw settled (inl (inr (m, refl, refl, settled), refl))
                ])
        ])
  ]

  IsSettled-nodes :
      (nodes : List NodeRecord)
      → (All (IsSettled p s.children) nodes
          × (for_each nodes (assert_not_awaiting p) s ≡ (ok tt, s)))
        ⊎ Refuses s (for_each nodes (assert_not_awaiting p) s)
  unfolding for_each ◌>>=◌
  IsSettled-nodes [] = inl (tt, refl)
  IsSettled-nodes (node ∷ rest) = elim (IsSettled-node node) [
    | inr (e, thrown) ↦ rw thrown (inr (e, refl))
    | inl (settled, passed) ↦ elim (IsSettled-nodes rest) [
      | inr (e, thrown) ↦ rw (passed, thrown) (inr (e, refl))
      | inl (all, passed_all) ↦ rw (passed, passed_all) (inl ((settled, all), refl))
    ]
  ]

  settled_or :
      {A G : Type 0} (graph : GraphRecord) (f : Unit {0} → Exec (Service W) A)
      → (All (IsSettled p s.children) (nodes_of graph s.journal) → G ⊎ Refuses s (f tt s))
      → G ⊎ Refuses s ((assert_no_child_awaiting_reconciliation p graph >>= f) s)
  unfolding ◌>>=◌ assert_no_child_awaiting_reconciliation on_journal with_journal list_nodes
  settled_or graph f passed = elim (IsSettled-nodes (nodes_of graph s.journal)) [
    | inr (e, thrown) ↦ rw thrown (inr (e, refl))
    | inl (all, through) ↦ rw through (passed all)
  ]

-- The graph waits for its approval, or its approval was bound to this actor and this hash.
abbrev pub IsBound : GraphRecord → String → String → Type 0
IsBound graph approved_by graph_hash =
    (same_graph_state graph.status GraphState.approval_required ≡ true)
    ⊎ ((same_text graph.approved_by approved_by && same_text graph.approved_graph_hash graph_hash)
        ≡ true)

-- What approveGraph asks for: an actor, and the exact hash of a stored graph whose document still
-- has that hash; and where the graph is not waiting for approval, the actor and the hash to which
-- its approval was bound.
pub record MayApprove {W : Type 0} (p : Platform W) (id : String)
    (approved_by graph_hash : Option Json) (s : Service W) : Type 0 where
  pub graph : GraphRecord
  pub found : find (graph_is (trim id)) s.journal.graphs ≡ some graph
  pub actor : is_actor (trimmed approved_by) ≡ true
  pub unprotected : contains_protected (trimmed approved_by ∷ []) s ≡ false
  pub hex : is_graph_hash (trimmed graph_hash) ≡ true
  pub intact : (p.sha256 graph.compiled_graph_json == graph.graph_hash) ≡ true
  pub same_hash : (trimmed graph_hash == graph.graph_hash) ≡ true
  pub open_status : not (is_closed_to_approval graph.status) ≡ true
  pub bound : IsBound graph (trimmed approved_by) (trimmed graph_hash)

module _ {W : Type 0} (p : Platform W) (id : String) (approved_by graph_hash : Option Json)
    (s : Service W) where
  IsBound-or :
      (graph : GraphRecord)
      → IsBound graph (trimmed approved_by) (trimmed graph_hash)
        ⊎ Refuses s (
            (if same_graph_state graph.status GraphState.approval_required
                then first_approval p graph (trimmed approved_by)
                else replay_approval p graph (trimmed approved_by) (trimmed graph_hash))
              s)
  unfolding replay_approval
  IsBound-or graph =
      if_or s _ _ _ (λ first. inl (inl first)) λ later. ensure_or s _ _ _ λ same. inl (inr same)

  -- approveGraph throws and leaves everything as it was, or it is given an actor that holds no
  -- protected content and the exact hash of a stored graph, whose document has that hash still and
  -- whose status is not closed to approval; and where the graph no longer waits for its approval,
  -- that actor and that hash are those of its approval.
  pub approve_graph_guard :
      MayApprove p id approved_by graph_hash s
      ⊎ Refuses s (approve_graph p id approved_by graph_hash s)
  unfolding approve_graph assert_graph_integrity
  approve_graph_guard = ensure_or s _ _ _ λ actor. unprotected_or s _ _ λ unprotected.
      ensure_or s _ _ _ λ hex. require_graph_or s _ _ λ graph found. ensure_or s _ _ _ λ intact.
        ensure_or s _ _ _ λ same_hash. ensure_or s _ _ _ λ open_status. elim (IsBound-or graph) [
          | inr refused ↦ inr refused
          | inl bound ↦ inl (record {
            graph = graph;
            found = found;
            actor = actor;
            unprotected = unprotected;
            hex = hex;
            intact = intact;
            same_hash = same_hash;
            open_status = open_status;
            bound = bound;
          })
        ]

-- What resumeGraph asks for: a stored graph that is neither waiting for approval nor final, whose
-- document has its hash still, and that carries a durable approval; and no child mission of it that
-- waits for reconciliation.
pub record MayResume {W : Type 0} (p : Platform W) (id : String) (s : Service W) : Type 0 where
  pub graph : GraphRecord
  pub found : find (graph_is (trim id)) s.journal.graphs ≡ some graph
  pub approved : not (same_graph_state graph.status GraphState.approval_required) ≡ true
  pub not_final : not (is_final_graph graph.status) ≡ true
  pub intact : (p.sha256 graph.compiled_graph_json == graph.graph_hash) ≡ true
  pub approval : (truthy graph.approved_by && truthy graph.approved_graph_hash) ≡ true
  pub reconciled : All (IsSettled p s.children) (nodes_of graph s.journal)

-- What cancelGraph asks for: an actor, and a stored graph that is not final and none of whose nodes
-- is running.
pub record MayCancel {W : Type 0} (id : String) (cancelled_by : Option Json) (s : Service W)
    : Type 0 where
  pub graph : GraphRecord
  pub found : find (graph_is (trim id)) s.journal.graphs ≡ some graph
  pub actor : is_actor (trimmed cancelled_by) ≡ true
  pub not_final : not (is_final_graph graph.status) ≡ true
  pub none_running : not (any (has_status NodeState.running) (nodes_of graph s.journal)) ≡ true

module _ {W : Type 0} (p : Platform W) (id : String) (s : Service W) where
  -- resumeGraph throws and leaves everything as it was, or there is a stored graph of the
  -- identifier that neither waits for its approval nor is final, whose document has its hash still
  -- and which carries an approval, and no child mission of its nodes waits for reconciliation.
  pub resume_graph_guard : MayResume p id s ⊎ Refuses s (resume_graph p id s)
  unfolding resume_graph assert_graph_integrity
  resume_graph_guard = require_graph_or s _ _ λ graph found. ensure_or s _ _ _ λ approved.
      ensure_or s _ _ _ λ not_final. ensure_or s _ _ _ λ intact. ensure_or s _ _ _ λ approval.
        settled_or p s graph _ λ reconciled. inl (record {
          graph = graph;
          found = found;
          approved = approved;
          not_final = not_final;
          intact = intact;
          approval = approval;
          reconciled = reconciled;
        })

  -- cancelGraph throws and leaves everything as it was, or it is given an actor, and there is a
  -- stored graph of the identifier that is not final and none of whose nodes is running.
  pub cancel_graph_guard :
      (cancelled_by reason : Option Json)
      → MayCancel id cancelled_by s ⊎ Refuses s (cancel_graph p id cancelled_by reason s)
  unfolding cancel_graph list_nodes
  cancel_graph_guard cancelled_by reason = ensure_or s _ _ _ λ actor.
      unprotected_or s _ _ λ unprotected. unprotected_or s _ _ λ reason_unprotected.
        require_graph_or s _ _ λ graph found. ensure_or s _ _ _ λ not_final.
          list_nodes_or s graph _ (
            ensure_or s _ _ _ λ none_running. inl (record {
              graph = graph;
              found = found;
              actor = actor;
              not_final = not_final;
              none_running = none_running;
            }))
