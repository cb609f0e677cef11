-- ===== src/MissionGraph/Service/Control.antt =====
-- What approveGraph, resumeGraph and cancelGraph of
-- apps/backend/src/missions/missionGraphService.ts share.
use chanter_operator.Prelude.{
  ℕ, String, Bool, not, ◌&&◌, ◌||◌, Option, none, some, List, [], ◌∷◌, ◌==◌, template, trim,
  length_of, every_code, leb, nat_eq,
}
use chanter_operator.Prelude.Exec.{Exec, Thrown, refusal, ensure}
use chanter_operator.Json.{Json, string_of}
use chanter_operator.MissionGraph.States.{GraphState, graph_state_name}
use chanter_operator.MissionGraph.Records.{GraphRecord, EventInput}
use chanter_operator.MissionGraph.Service.{Service, Platform, max_actor_length}

-- `typeof value === "string" ? value.trim() : ""`
abbrev pub trimmed : Option Json → String
trimmed value = elim (string_of value) [ none ↦ "" | some s ↦ trim s ]

abbrev pub is_hex : ℕ → Bool
is_hex c = (leb b'0' c && leb c b'9') || (leb b'a' c && leb c b'f')

-- GRAPH_HASH_PATTERN
unfoldable pub is_graph_hash : String → Bool
is_graph_hash s = every_code is_hex s && nat_eq (length_of s) 64

abbrev pub is_actor : String → Bool
is_actor s = not (s == "") && leb (length_of s) max_actor_length

abbrev pub event_input : String → String → List String → String → EventInput
event_input actor reason evidence time = record {
  actor = actor;
  reason = reason;
  timestamp = time;
  evidence_references = evidence;
  typed_error = none;
}

abbrev pub graph_evidence : GraphRecord → List String
graph_evidence graph =
    template ("graph:" ∷ graph.graph_id ∷ [])
    ∷ template ("graph-sha256:" ∷ graph.graph_hash ∷ [])
    ∷ []

abbrev pub terminal_refusal : String → GraphState → Thrown
terminal_refusal verb status =
    refusal
      (template (
        "Mission graph cannot be "
        ∷ verb
        ∷ " from terminal status "
        ∷ graph_state_name status
        ∷ "."
        ∷ []))
      409 (some "OPERATOR_GRAPH_STATE_TERMINAL")

module _ {W : Type 0} (p : Platform W) where
  unfoldable pub assert_graph_integrity : GraphRecord → Exec (Service W) (Unit {0})
  assert_graph_integrity graph = ensure (p.sha256 graph.compiled_graph_json == graph.graph_hash) (
      refusal "The durable compiled graph no longer matches its immutable graph hash." 409
        (some "OPERATOR_GRAPH_INTEGRITY_VIOLATION"))
