-- ===== src/Agentic/Records.antt =====
-- The values that apps/backend/src/agentic/agenticPlanJournal.ts stores. A column of JSON text holds
-- the value that JSON.parse gives back, and a value that the journal only carries is Json.
use chanter_operator.Prelude.{ℕ, String, Bool, Option, List}
use chanter_operator.Json.{Json}
use chanter_operator.Agentic.States.{PlanState, NodeState}

pub record AgenticTypedError : Type 0 where
  pub code : String
  pub message : String

-- AgenticNodeEvidence of chanter-agent-runtime, as recordNodeEvidence reads it.
pub data EvidenceKind : Type 0 where
  context_reference tool_output derived_claim artifact : EvidenceKind

pub record NodeEvidence : Type 0 where
  pub evidence_id : String
  pub kind : EvidenceKind
  pub label : String
  pub source_reference : String
  pub content_hash : String

-- AgenticNodeCost of chanter-agent-runtime.
pub record NodeCost : Type 0 where
  pub tool_calls : ℕ
  pub model_calls : ℕ
  pub token_cost : Option ℕ
  pub monetary_cost_micros : Option ℕ

-- AgenticNodeWorkerRecord of chanter-agent-runtime: `null` is the value of a missing output.
pub record WorkerRecord : Type 0 where
  pub idempotency_key : String
  pub execution_hash : String
  pub capability_id : String
  pub status : String
  pub structured_output : Json
  pub output_hash : Option String
  pub evidence : List NodeEvidence
  pub tool_call_records : List Json
  pub cost : NodeCost
  pub latency_ms : ℕ
  pub typed_error : Option AgenticTypedError
  pub recorded_at : String

pub data ReconciliationOutcome : Type 0 where
  worker_result_found no_worker_result conflict : ReconciliationOutcome

pub data AuthorityRequirement : Type 0 where
  no_requirement human_approval_bound_to_candidate_hash : AuthorityRequirement

pub data NodeType : Type 0 where
  context_collect specialist verifier synthesis authority_checkpoint artifact_write : NodeType
  outcome_verify state_observe action_compile connector_apply shadow_authorize : NodeType

pub record NodeBudget : Type 0 where
  pub max_tool_calls : ℕ
  pub max_model_calls : ℕ
  pub max_duration_ms : ℕ
  pub max_tokens : Option ℕ
  pub max_cost_micros : Option ℕ

pub record EvidencePolicy : Type 0 where
  pub minimum_items : ℕ
  pub require_accepted_context_reference : Bool

pub record MissionRecord : Type 0 where
  pub mission_id : String
  pub trace_id : String
  pub workspace_id : String
  pub actor_id : String
  pub objective : String
  pub intent_hash : String
  pub intent : Json
  pub context_bundle_id : String
  pub context_bundle : Json
  pub plan_id : String
  pub plan_hash : String
  pub plan : Json
  pub routing : Json
  pub status : PlanState
  pub execution_approved_by : Option String
  pub execution_approved_at : Option String
  pub execution_approved_plan_hash : Option String
  pub candidate_hash : Option String
  pub candidate_markdown : Option String
  pub candidate_approved_by : Option String
  pub candidate_approved_at : Option String
  pub approved_candidate_hash : Option String
  pub candidate_approval_expires_at : Option String
  pub candidate_authority_revision : Option String
  pub artifact_hash : Option String
  pub artifact_name : Option String
  pub value_observation : Json
  pub exception_state : Json
  pub typed_error : Option AgenticTypedError
  pub requested_at : String
  pub created_at : String
  pub updated_at : String

pub record NodeRecord : Type 0 where
  pub plan_id : String
  pub node_id : String
  pub mission_id : String
  pub node_type : NodeType
  pub capability_id : Option String
  pub worker_kind : Option String
  pub provider_binding_id : Option String
  pub depends_on : List String
  pub input_refs : List String
  pub authority_requirement : AuthorityRequirement
  pub budget : NodeBudget
  pub deadline_offset_ms : ℕ
  pub attempt_limit : ℕ
  pub reconciliation_mode : String
  pub evidence_policy : EvidencePolicy
  pub payload_hash : String
  pub state : NodeState
  pub attempts : ℕ
  pub lease_owner : Option String
  pub lease_expires_at : Option String
  pub deadline_at : Option String
  pub idempotency_key : String
  pub output : Json
  pub output_hash : Option String
  pub cost : Option NodeCost
  pub latency_ms : Option ℕ
  pub reconciliation_outcome : Option ReconciliationOutcome
  pub reconciled_at : Option String
  pub typed_error : Option AgenticTypedError
  pub started_at : Option String
  pub completed_at : Option String
  pub created_at : String
  pub updated_at : String

pub record PlanEdge : Type 0 where
  pub plan_id : String
  pub from_node_id : String
  pub to_node_id : String

pub data Scope : Type 0 where
  mission plan node : Scope

pub record EventRecord : Type 0 where
  pub event_id : String
  pub mission_id : String
  pub plan_id : String
  pub sequence : ℕ
  pub scope : Scope
  pub node_id : Option String
  pub event_type : String
  pub previous_state : Option String
  pub new_state : Option String
  pub actor : String
  pub reason : String
  pub timestamp : String
  pub evidence_references : List String
  pub typed_error : Option AgenticTypedError

pub record EvidenceRecord : Type 0 where
  pub evidence_id : String
  pub plan_id : String
  pub node_id : String
  pub mission_id : String
  pub kind : EvidenceKind
  pub label : String
  pub source_reference : String
  pub content_hash : String
  pub created_at : String

pub record ArtifactWriteRecord : Type 0 where
  pub mission_id : String
  pub artifact_name : String
  pub artifact_hash : String
  pub approved_candidate_hash : String
  pub byte_length : ℕ
  pub artifact_path : String
  pub written_at : String

-- A node of the compiled plan.
pub record PlanNode : Type 0 where
  pub node_id : String
  pub node_type : NodeType
  pub capability_id : Option String
  pub worker_kind : Option String
  pub provider_binding_id : Option String
  pub dependency_ids : List String
  pub input_refs : List String
  pub authority_requirement : AuthorityRequirement
  pub budget : NodeBudget
  pub deadline_offset_ms : ℕ
  pub attempt_limit : ℕ
  pub reconciliation_mode : String
  pub evidence_policy : EvidencePolicy
  pub payload_hash : String
