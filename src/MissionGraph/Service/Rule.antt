-- ===== src/MissionGraph/Service/Rule.antt =====
-- One proof rule for the node-level methods of MissionGraphService
-- (apps/backend/src/missions/missionGraphService.ts): what the journal's writes keep, they keep.
use chanter_operator.Prelude.{String, Bool, true, false, Option, none, some, List, if◌then◌else◌}
use chanter_operator.Prelude.Exec.{Exec, Thrown, Result, with_transaction}
use chanter_operator.Prelude.Exec.Rules.{Keeps, keeps_rules, Keeps-with_transaction, Keeps-modify}
use chanter_operator.MissionGraph.Records.{NodeRecord}
use chanter_operator.MissionGraph.Contracts.{Validation, valid, invalid}
use chanter_operator.MissionGraph.Journal.{Journal}
use chanter_operator.MissionGraph.Journal.Order.{list_nodes}
use chanter_operator.MissionGraph.Journal.Rule.{
  IsAppended, kept-IsAppended, Keeps-require_graph, Keeps-require_node, Keeps-transition_graph,
  Keeps-transition_node, Keeps-append_audit_event,
}
use chanter_operator.MissionGraph.Service.{
  Service, Boundary, on_journal, with_journal, on_children, with_children, read_children, timestamp,
  restore_service, inject_failure, thrown_or_done, assert_contains_no_protected_value,
}
use chanter_operator.MissionGraph.Service.Nodes.{schedule_observation}
use chanter_operator.MissionGraph.Service.Dispatch.{validated}

-- A property of the journal, read off the service.
pub record OnJournal {W : Type 0} (P : Journal → Type 0) (s : Service W) : Type 0 where
  pub holds : P s.journal

module _ {W : Type 0} (P : Journal → Type 0) where
  with_journal-keeps :
      {A : Type 0} (s : Service W) (r : Result A × Journal)
      → P r.1
      → OnJournal P (with_journal s r).1
  unfolding with_journal
  with_journal-keeps s (r, j) h = record { holds = h }

  with_children-keeps :
      {A : Type 0} (s : Service W) (r : Result A × W)
      → P s.journal
      → OnJournal P (with_children s r).1
  unfolding with_children
  with_children-keeps s (r, w) h = record { holds = h }

  observed-keeps :
      (b : Bool) (s t : Service W)
      → OnJournal P s
      → OnJournal P t
      → OnJournal P (if b then s else t)
  observed-keeps true s t hs ht = hs
  observed-keeps false s t hs ht = ht

pub Keeps-list_nodes : {P : Journal → Type 0} (id : String) → Keeps P (list_nodes id)
unfolding list_nodes
Keeps-list_nodes id = search keeps_rules

module _ {W : Type 0} {P : Journal → Type 0} where
  pub Keeps-on_journal :
      {A : Type 0} (m : Exec Journal A)
      → Keeps P m
      → Keeps {S = Service W} (OnJournal P) (on_journal m)
  unfolding on_journal
  Keeps-on_journal m km = record {
    at = λ s h. with_journal-keeps P s (m s.journal) (km.at s.journal h.holds);
  }

  pub Keeps-on_children :
      {A : Type 0} (m : Exec W A) → Keeps {S = Service W} (OnJournal P) (on_children m)
  unfolding on_children
  Keeps-on_children m = record { at = λ s h. with_children-keeps P s (m s.children) h.holds }

  pub Keeps-read_children :
      {A : Type 0} (f : W → Result A) → Keeps {S = Service W} (OnJournal P) (read_children f)
  unfolding read_children
  Keeps-read_children f = record { at = λ s h. record { holds = h.holds } }

  pub Keeps-timestamp : Keeps {S = Service W} (OnJournal P) timestamp
  unfolding timestamp
  Keeps-timestamp = record { at = λ s h. record { holds = h.holds } }

  Keeps-thrown_or_done :
      (o : Option Thrown) → Keeps {S = Service W} (OnJournal P) (thrown_or_done o)
  unfolding thrown_or_done
  Keeps-thrown_or_done none = search keeps_rules
  Keeps-thrown_or_done (some e) = search keeps_rules

  pub Keeps-inject_failure :
      (b : Boundary) (id : String) (node_id : Option String)
      → Keeps {S = Service W} (OnJournal P) (inject_failure b id node_id)
  unfolding inject_failure
  Keeps-inject_failure b id node_id = search (keeps_rules, Keeps-thrown_or_done)

  pub Keeps-assert_contains_no_protected_value :
      (values : List String)
      → Keeps {S = Service W} (OnJournal P) (assert_contains_no_protected_value values)
  unfolding assert_contains_no_protected_value
  Keeps-assert_contains_no_protected_value values = search keeps_rules

  pub Keeps-validated : (v : Validation) → Keeps {S = Service W} (OnJournal P) (validated v)
  unfolding validated
  Keeps-validated (valid e) = search keeps_rules
  Keeps-validated (invalid none) = search keeps_rules
  Keeps-validated (invalid (some first)) = search keeps_rules

  pub Keeps-schedule_observation :
      (id : String) (node : NodeRecord)
      → Keeps {S = Service W} (OnJournal P) (schedule_observation id node)
  unfolding schedule_observation
  Keeps-schedule_observation id node = record {
    at = λ s h. observed-keeps P _ _ s (record { holds = h.holds }) h;
  }

  pub Keeps-service_transaction :
      {A : Type 0} (m : Exec (Service W) A)
      → IsAppended P
      → Keeps {S = Service W} (OnJournal P) m
      → Keeps {S = Service W} (OnJournal P) (with_transaction restore_service m)
  Keeps-service_transaction m kept km =
      Keeps-with_transaction restore_service m
        (λ s t h k. record { holds = kept.rollback s.journal t.journal h.holds k.holds }) km

pub ruleset service_rules = (
  keeps_rules, kept-IsAppended, Keeps-on_journal, Keeps-on_children, Keeps-read_children,
  Keeps-timestamp, Keeps-inject_failure, Keeps-assert_contains_no_protected_value, Keeps-list_nodes,
  Keeps-validated, Keeps-require_graph, Keeps-require_node, Keeps-transition_graph,
  Keeps-transition_node, Keeps-append_audit_event, Keeps-schedule_observation,
  Keeps-service_transaction,
)
