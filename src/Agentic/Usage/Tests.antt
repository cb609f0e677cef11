-- ===== src/Agentic/Usage/Tests.antt =====
-- Two charges of apps/backend/src/agentic/agenticPlanJournal.ts, and the witness.
use chanter_operator.Prelude.{◌≡◌, String, none, some, List, [], ◌∷◌, find, arith}
use chanter_operator.Json.{null, text}
use chanter_operator.Agentic.Usage.{ProviderUsage, UsageTable, call_is}
use chanter_operator.Agentic.Usage.Charges.{
  Write, records, reconciles, run, AtMostOnce, Charged, usage_run_charges_once,
}

abbrev sample_usage : String → ProviderUsage
sample_usage key = record {
  provider_call_key = key;
  mission_id = "m";
  plan_id = "p";
  node_id = "a";
  idempotency_key = "m:a";
  capability_id = "verify";
  binding_id = "binding";
  provider_name = "provider";
  model_id = "model";
  mode = "live";
  attempt = 1;
  provider_request_id = none;
  request_hash = "request";
  raw_response_hash = none;
  response_hash = none;
  input_tokens = some 10;
  output_tokens = some 20;
  total_tokens = some 30;
  monetary_cost_micros = some 7;
  monetary_cost_source = "provider";
  monetary_cost_unavailable_reason = none;
  pricing_revision = none;
  latency_ms = 5;
  finish_reason = none;
  typed_error = none;
  fallback_decision = "none";
  fallback_from_binding_id = none;
  evidence_references_cited = [];
  reconciliation = null;
  recorded_at = "2026-01-01T00:00:00.000Z";
}

abbrev charged_once : UsageTable
charged_once = sample_usage "c" ∷ []

-- A replay of the charge, a reconciliation of it, and a second charge.
abbrev sample_writes : List Write
sample_writes =
    records (record (sample_usage "c") { monetary_cost_micros = some 9 })
    ∷ reconciles "c" (text "matched")
    ∷ records (sample_usage "d")
    ∷ []

charged_once-AtMostOnce : AtMostOnce charged_once
charged_once-AtMostOnce key = ground arith

usage_run_charges_once_example :
    AtMostOnce (run sample_writes charged_once)
    × ((key : String) (u : ProviderUsage)
        → find (call_is key) charged_once ≡ some u
        → Charged key u (run sample_writes charged_once))
usage_run_charges_once_example =
    usage_run_charges_once sample_writes charged_once charged_once-AtMostOnce
