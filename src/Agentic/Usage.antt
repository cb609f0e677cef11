-- ===== src/Agentic/Usage.antt =====
-- createProviderUsageStore, listProviderUsage and countProviderCallsForNode of
-- apps/backend/src/agentic/agenticPlanJournal.ts. The state is the table
-- operator_agentic_provider_usage, in insertion order.
pub mod Charges
pub mod Tests
use chanter_operator.Prelude.{
  ℕ, String, Bool, ◌&&◌, ◌||◌, Option, none, some, List, [], ◌∷◌, ◌++◌, ◌==◌, if◌then◌else◌, find,
  keep, any, count_by, update_where, map,
}
use chanter_operator.Prelude.Exec.{Exec, gets, modify, ◌>>=◌}
use chanter_operator.Prelude.Order.{sort_by, text_le, text_lt}
use chanter_operator.Json.{Json, null}
use chanter_operator.Agentic.Records.{AgenticTypedError}

-- AgenticProviderUsageRecord of chanter-agent-runtime, and the row that holds it.
pub record ProviderUsage : Type 0 where
  pub provider_call_key : String
  pub mission_id : String
  pub plan_id : String
  pub node_id : String
  pub idempotency_key : String
  pub capability_id : String
  pub binding_id : String
  pub provider_name : String
  pub model_id : String
  pub mode : String
  pub attempt : ℕ
  pub provider_request_id : Option String
  pub request_hash : String
  pub raw_response_hash : Option String
  pub response_hash : Option String
  pub input_tokens : Option ℕ
  pub output_tokens : Option ℕ
  pub total_tokens : Option ℕ
  pub monetary_cost_micros : Option ℕ
  pub monetary_cost_source : String
  pub monetary_cost_unavailable_reason : Option String
  pub pricing_revision : Option String
  pub latency_ms : ℕ
  pub finish_reason : Option String
  pub typed_error : Option AgenticTypedError
  pub fallback_decision : String
  pub fallback_from_binding_id : Option String
  pub evidence_references_cited : List String
  pub reconciliation : Json
  pub recorded_at : String

abbrev pub UsageTable : Type 0
UsageTable = List ProviderUsage

abbrev pub call_is : String → ProviderUsage → Bool
call_is key u = u.provider_call_key == key

-- `parseJson(…) ?? AGENTIC_RECONCILIATION_NOT_ATTEMPTED`, the constant of chanter-agent-runtime.
abbrev pub reconciliation_or : Json → Json → Json
reconciliation_or not_attempted null = not_attempted
reconciliation_or not_attempted value = value

abbrev pub to_record : Json → ProviderUsage → ProviderUsage
to_record not_attempted u = record u {
  reconciliation = reconciliation_or not_attempted u.reconciliation;
}

abbrev pub found_usage : Json → Option ProviderUsage → Option ProviderUsage
found_usage not_attempted none = none
found_usage not_attempted (some u) = some (to_record not_attempted u)

unfoldable pub read : Json → String → Exec UsageTable (Option ProviderUsage)
read not_attempted key = gets λ rows. found_usage not_attempted (find (call_is key) rows)

-- INSERT OR IGNORE
unfoldable pub record_usage : ProviderUsage → Exec UsageTable (Unit {0})
record_usage u =
    modify λ rows. if any (call_is u.provider_call_key) rows then rows else rows ++ u ∷ []

unfoldable pub record_reconciliation : String → Json → Exec UsageTable (Unit {0})
record_reconciliation key value =
    modify (update_where (call_is key) (λ u. record u { reconciliation = value }))

unfoldable pub list_for_node : Json → String → Exec UsageTable (List ProviderUsage)
list_for_node not_attempted key = gets λ rows. map (to_record not_attempted) (
    sort_by (λ a b. text_le a.provider_call_key b.provider_call_key)
      (keep (λ u. u.idempotency_key == key) rows))

-- ORDER BY recorded_at ASC, provider_call_key ASC
abbrev pub oldest_first : ProviderUsage → ProviderUsage → Bool
oldest_first a b =
    text_lt a.recorded_at b.recorded_at
    || (a.recorded_at == b.recorded_at && text_le a.provider_call_key b.provider_call_key)

-- `.map((row) => store.read(row.provider_call_key)).filter(…)`
abbrev pub read_all : Json → UsageTable → List String → List ProviderUsage
read_all not_attempted rows [] = []
read_all not_attempted rows (key ∷ keys) = elim (find (call_is key) rows) [
  | none ↦ read_all not_attempted rows keys
  | some u ↦ to_record not_attempted u ∷ read_all not_attempted rows keys
]

unfoldable pub list_provider_usage : Json → String → Exec UsageTable (List ProviderUsage)
list_provider_usage not_attempted id = gets λ rows.
    read_all not_attempted rows
      (map (λ u. u.provider_call_key) (sort_by oldest_first (keep (λ u. u.mission_id == id) rows)))

unfoldable pub count_provider_calls_for_node : String → Exec UsageTable ℕ
count_provider_calls_for_node key = gets (count_by (λ u. u.idempotency_key == key))
