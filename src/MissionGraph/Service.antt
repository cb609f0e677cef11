-- ===== src/MissionGraph/Service.antt =====
-- MissionGraphService of apps/backend/src/missions/missionGraphService.ts: the object's state, the
-- authorities that it calls, and its guards.
pub mod Nodes
pub mod Dispatch
pub mod Scheduler
pub mod Control
pub mod Views
pub mod Approval
pub mod Recovery
pub mod Cancellation
pub mod Submission
pub mod SubmissionRules
pub mod SubmissionEffects
pub mod Rule
pub mod NodeRules
pub mod ControlRules
pub mod CallRules
pub mod Calls
pub mod Readiness
pub mod Reads
pub mod Authority
pub mod Guards
pub mod Tests
use chanter_operator.Prelude.{
  ℕ, suc, String, Bool, true, false, not, ◌&&◌, ◌||◌, Option, none, some, List, [], ◌∷◌, ◌++◌, ◌==◌,
  if◌then◌else◌, any, is_some, length_of, includes, ltb, find,
}
use chanter_operator.Prelude.Exec.{
  Exec, Thrown, Result, ok, err, refusal, other_error, pure, throw, lift, gets, ◌>>=◌, ◌>>◌, done,
  ensure, with_transaction,
}
use chanter_operator.Json.{Json}
use chanter_operator.MissionGraph.Records.{GraphRecord, NodeRecord, TypedError}
use chanter_operator.MissionGraph.Contracts.{Contracts}
use chanter_operator.MissionGraph.Registry.{Lane}
use chanter_operator.MissionGraph.Compiled.{CompiledGraph, ChildEnvelope}
use chanter_operator.MissionGraph.Journal.{Journal, restore}

-- MissionGraphChildReference
pub record ChildReference : Type 0 where
  pub product : String
  pub action : String
  pub child_mission_id : String
  pub child_trace_id : String
  pub child_idempotency_key : String

pub data ChildOutcome : Type 0 where
  completed failed_terminal unresolved : ChildOutcome

-- MissionGraphChildMission, in the fields that the graph authority reads.
pub record ChildMission : Type 0 where
  pub lane : Lane
  pub mission_id : String
  pub status : String
  pub execution_state : Option String
  pub next_permitted_actions : List String
  pub downstream_ids : Option Json
  pub retry_count : Option ℕ
  pub typed_error : Option TypedError
  pub outcome : ChildOutcome
  pub result_summary : Option Json
  pub evidence_references : List String

-- What the service calls and does not implement: the child missions with their own state `W`,
-- and the contracts.
pub record Platform (W : Type 0) : Type 0 where
  pub has_mission : ChildReference → W → Result Bool
  pub get_mission : ChildReference → W → Result ChildMission
  pub create_mission : ChildEnvelope → Exec W (Unit {0})
  pub approve_child : ChildReference → String → Exec W ChildMission
  pub reconcile_child : ChildReference → Exec W ChildMission
  pub resume_child : ChildReference → Exec W ChildMission
  pub contracts : Contracts
  pub open contracts use *

pub data Boundary : Type 0 where
  after_graph_approval_persistence after_node_running_persistence : Boundary
  after_child_mission_created after_node_completed_persistence : Boundary

-- The service's fields. `now` is a sequence of readings; the observation scheduler is a log of the
-- jobs handed to it, since it never acts back on the graph.
pub record Service (W : Type 0) : Type 0 where
  pub journal : Journal
  pub open journal use *
  pub children : W
  pub now : ℕ → String
  pub ticks : ℕ
  pub protected_values : List String
  pub failure_injector : Boundary → String → Option String → Option Thrown
  pub observation_scheduler : Bool
  pub observations : List (String × String)

abbrev pub actor_id : String
actor_id = "chanter-operator"

abbrev pub max_node_attempts : ℕ
max_node_attempts = 3

abbrev pub max_actor_length : ℕ
max_actor_length = 120

module _ {W : Type 0} where
  unfoldable pub with_journal : {A : Type 0} → Service W → Result A × Journal → Result A × Service W
  with_journal s (r, j) = (r, record s { journal = j })

  -- A call of the journal.
  unfoldable pub on_journal : {A : Type 0} → Exec Journal A → Exec (Service W) A
  unfolding with_journal
  on_journal m s = with_journal s (m s.journal)

  unfoldable pub with_children : {A : Type 0} → Service W → Result A × W → Result A × Service W
  with_children s (r, w) = (r, record s { children = w })

  -- A call of the child missions that may change them.
  unfoldable pub on_children : {A : Type 0} → Exec W A → Exec (Service W) A
  unfolding with_children
  on_children m s = with_children s (m s.children)

  -- A call of the child missions that only reads them.
  unfoldable pub read_children : {A : Type 0} → (W → Result A) → Exec (Service W) A
  read_children f s = (f s.children, s)

  -- this.now().toISOString()
  unfoldable pub timestamp : Exec (Service W) String
  timestamp s = (ok (s.now s.ticks), record s { ticks = suc s.ticks })

  -- withTransaction over the database of the graphs.
  abbrev pub restore_service : Service W → Service W → Service W
  restore_service before after = record after { journal = restore before.journal after.journal }

  unfoldable pub thrown_or_done : Option Thrown → Exec (Service W) (Unit {0})
  thrown_or_done none = done
  thrown_or_done (some e) = throw e

  unfoldable pub inject_failure : Boundary → String → Option String → Exec (Service W) (Unit {0})
  inject_failure boundary id node_id =
      gets (λ s. s.failure_injector boundary id node_id) >>= thrown_or_done

  abbrev pub contains_protected : List String → Service W → Bool
  contains_protected values s = any (λ p. any (λ v. includes v p) values) s.protected_values

  unfoldable pub assert_contains_no_protected_value : List String → Exec (Service W) (Unit {0})
  assert_contains_no_protected_value values = gets (contains_protected values) >>= λ found.
      ensure (not found)
        (refusal "Mission graph input must not contain protected configuration data." 400 none)

unfoldable pub child_reference : NodeRecord → ChildReference
child_reference node = record {
  product = node.product;
  action = node.action;
  child_mission_id = node.child_mission_id;
  child_trace_id = node.child_trace_id;
  child_idempotency_key = node.child_idempotency_key;
}

-- TERMINAL_CHILD_ERROR_CODES
abbrev pub terminal_child_error_codes : List String
terminal_child_error_codes =
    "OPERATOR_IDEMPOTENCY_MISMATCH" ∷ "OPERATOR_TRACE_MISMATCH" ∷ "OPERATOR_MISSION_SCOPE_MISMATCH"
    ∷ "OPERATOR_MISSION_PAYLOAD_MISMATCH" ∷ "OPERATOR_MISSION_TARGET_MISMATCH"
    ∷ "OPERATOR_MISSION_IDENTITY_INVALID" ∷ "OPERATOR_APPROVAL_BINDING_MISMATCH"
    ∷ "GRAPH_CHILD_ENVELOPE_INVALID" ∷ "GRAPH_CHILD_AUTHORITY_UNREGISTERED"
    ∷ "GRAPH_CHILD_IDENTITY_MISMATCH" ∷ "GRAPH_AUTOPOSTER_RESULT_UNSAFE" ∷ []

abbrev pub is_terminal_code : Option String → Bool
is_terminal_code none = false
is_terminal_code (some code) = any (λ c. c == code) terminal_child_error_codes
