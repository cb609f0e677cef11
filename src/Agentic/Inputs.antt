-- ===== src/Agentic/Inputs.antt =====
-- What the callers of apps/backend/src/agentic/agenticPlanJournal.ts give it. An optional field is an
-- Option; of an optional field that may be null, `none` is undefined and `some none` is null.
use chanter_operator.Prelude.{ℕ, String, Option, List}
use chanter_operator.Json.{Json}
use chanter_operator.Agentic.Records.{
  AgenticTypedError, NodeCost, ReconciliationOutcome, Scope, PlanNode,
}

pub record NodeTransitionInput : Type 0 where
  pub actor : String
  pub reason : String
  pub timestamp : String
  pub evidence_references : Option (List String)
  pub typed_error : Option (Option AgenticTypedError)
  pub attempts : Option ℕ
  pub lease_owner : Option (Option String)
  pub lease_expires_at : Option (Option String)
  pub deadline_at : Option (Option String)
  pub output : Option Json
  pub output_hash : Option (Option String)
  pub cost : Option (Option NodeCost)
  pub latency_ms : Option (Option ℕ)
  pub reconciliation_outcome : Option (Option ReconciliationOutcome)
  pub reconciled_at : Option (Option String)
  pub started_at : Option (Option String)
  pub completed_at : Option (Option String)

pub record MissionUpdateInput : Type 0 where
  pub actor : String
  pub reason : String
  pub timestamp : String
  pub evidence_references : Option (List String)
  pub typed_error : Option (Option AgenticTypedError)
  pub execution_approved_by : Option String
  pub execution_approved_plan_hash : Option String
  pub candidate_hash : Option (Option String)
  pub candidate_markdown : Option (Option String)
  pub candidate_approved_by : Option String
  pub approved_candidate_hash : Option String
  pub candidate_approval_expires_at : Option (Option String)
  pub candidate_authority_revision : Option (Option String)
  pub artifact_hash : Option (Option String)
  pub artifact_name : Option (Option String)
  pub value_observation : Option Json

-- The fields of the intent, the context bundle and the plan that insertMission reads, each with its
-- whole JSON document.
pub record Intent : Type 0 where
  pub mission_id : String
  pub trace_id : String
  pub schema_version : String
  pub workspace_id : String
  pub actor_id : String
  pub objective : String
  pub intent_hash : String
  pub requested_at : String
  pub document : Json

pub record CompiledEdge : Type 0 where
  pub from_node_id : String
  pub to_node_id : String

pub record CompiledPlan : Type 0 where
  pub plan_id : String
  pub plan_hash : String
  pub nodes : List PlanNode
  pub edges : List CompiledEdge
  pub document : Json

pub record MissionInsertInput : Type 0 where
  pub intent : Intent
  pub context_bundle_id : String
  pub context_bundle : Json
  pub plan : CompiledPlan
  pub routing : Json
  pub timestamp : String
  pub idempotency_key_for : String → String
  pub exception_state : Json

-- The argument of appendEvent.
pub record EventDraft : Type 0 where
  pub mission_id : String
  pub plan_id : String
  pub scope : Scope
  pub node_id : Option String
  pub event_type : String
  pub previous_state : Option String
  pub new_state : Option String
  pub actor : String
  pub reason : String
  pub timestamp : String
  pub evidence_references : Option (List String)
  pub typed_error : Option AgenticTypedError
