-- ===== src/MissionGraph/Service/SubmissionRules.antt =====
-- submitGraph of apps/backend/src/missions/missionGraphService.ts keeps what the journal's writes
-- keep.
use chanter_operator.Prelude.{String, Option, none, some}
use chanter_operator.Prelude.Exec.Rules.{Keeps, keeps_rules}
use chanter_operator.Json.{Json}
use chanter_operator.MissionGraph.Records.{GraphRecord}
use chanter_operator.MissionGraph.Compiled.{CompiledGraph}
use chanter_operator.MissionGraph.Compiler.Compile.{CompileResult, compiled, failed}
use chanter_operator.MissionGraph.Journal.{Journal, get_graph}
use chanter_operator.MissionGraph.Journal.Rule.{
  IsAppended, Keeps-insert_graph, Keeps-append_authoritative_replay_event,
}
use chanter_operator.MissionGraph.Service.{Service, Platform}
use chanter_operator.MissionGraph.Service.Rule.{OnJournal, service_rules}
use chanter_operator.MissionGraph.Service.CallRules.{Keeps-build_view}
use chanter_operator.MissionGraph.Service.Submission.{
  Compiled, get_graph_by, assert_existing_submit_binding, assert_identifiers_available,
  record_submission_replay, insert_unless_raced, compiled_or_throw, submit_new, submit_existing,
  submit_compiled, submit_graph,
}

Keeps-get_graph : {P : Journal → Type 0} (id : String) → Keeps P (get_graph id)
unfolding get_graph
Keeps-get_graph id = search keeps_rules

Keeps-get_graph_by :
    {P : Journal → Type 0} (column : GraphRecord → String) (value : String)
    → Keeps P (get_graph_by column value)
unfolding get_graph_by
Keeps-get_graph_by column value = search keeps_rules

ruleset submit_rules = (
  service_rules, Keeps-build_view, Keeps-get_graph, Keeps-get_graph_by, Keeps-insert_graph,
  Keeps-append_authoritative_replay_event,
)

module _ {W : Type 0} {P : Journal → Type 0} (kept : IsAppended P) where
  Keeps-assert_existing_submit_binding :
      (existing : GraphRecord) (result : Compiled)
      → Keeps {S = Service W} (OnJournal P) (assert_existing_submit_binding existing result)
  unfolding assert_existing_submit_binding
  Keeps-assert_existing_submit_binding existing result = search keeps_rules depth 12

  Keeps-assert_identifiers_available :
      (graph : CompiledGraph)
      → Keeps {S = Service W} (OnJournal P) (assert_identifiers_available graph)
  unfolding assert_identifiers_available
  Keeps-assert_identifiers_available graph = search submit_rules depth 14

  Keeps-record_submission_replay :
      (graph : GraphRecord) (by reason : String)
      → Keeps {S = Service W} (OnJournal P) (record_submission_replay graph by reason)
  unfolding record_submission_replay
  Keeps-record_submission_replay graph by reason = search submit_rules depth 14

  Keeps-compiled_or_throw :
      (r : CompileResult) → Keeps {S = Service W} (OnJournal P) (compiled_or_throw r)
  unfolding compiled_or_throw
  Keeps-compiled_or_throw (failed es) = search keeps_rules
  Keeps-compiled_or_throw (compiled document json hash) = search keeps_rules

ruleset raced_rules = (
  submit_rules, Keeps-assert_existing_submit_binding, Keeps-assert_identifiers_available,
  Keeps-record_submission_replay, Keeps-compiled_or_throw,
)

module _ {W : Type 0} {P : Journal → Type 0} (kept : IsAppended P) where
  Keeps-insert_unless_raced :
      (result : Compiled) (time : String) (found : Option GraphRecord)
      → Keeps {S = Service W} (OnJournal P) (insert_unless_raced result time found)
  unfolding insert_unless_raced
  Keeps-insert_unless_raced result time none = search raced_rules depth 14
  Keeps-insert_unless_raced result time (some raced) = search raced_rules depth 14

ruleset new_rules = (raced_rules, Keeps-insert_unless_raced)

module _ {W : Type 0} (p : Platform W) {P : Journal → Type 0} (kept : IsAppended P) where
  Keeps-submit_new : (result : Compiled) → Keeps {S = Service W} (OnJournal P) (submit_new p result)
  unfolding submit_new
  Keeps-submit_new result = search new_rules depth 20

  Keeps-submit_compiled :
      (result : Compiled) (found : Option GraphRecord)
      → Keeps {S = Service W} (OnJournal P) (submit_compiled p result found)
  unfolding submit_compiled submit_existing
  Keeps-submit_compiled result none = Keeps-submit_new result
  Keeps-submit_compiled result (some existing) = search raced_rules depth 16

ruleset whole_rules = (raced_rules, Keeps-submit_compiled)

module _ {W : Type 0} (p : Platform W) {P : Journal → Type 0} (kept : IsAppended P) where
  pub Keeps-submit_graph :
      (envelope : Json) → Keeps {S = Service W} (OnJournal P) (submit_graph p envelope)
  unfolding submit_graph
  Keeps-submit_graph envelope = search whole_rules depth 16
