-- ===== src/Agentic/Journal/Nodes.antt =====
-- transitionNode, appendNodeAuditEvent, recordNodeEvidence and recordArtifactWrite of
-- apps/backend/src/agentic/agenticPlanJournal.ts.
use chanter_operator.Prelude.{
  ℕ, String, Bool, not, ◌&&◌, ◌||◌, Option, none, some, List, [], ◌∷◌, ◌++◌, ◌==◌, if◌then◌else◌,
  template, any, count_by, update_where, nat_eq, ltb, or_else, is_some,
}
use chanter_operator.Prelude.Exec.{
  Exec, Thrown, refusal, modify, ◌>>=◌, ◌>>◌, ensure, for_each, ok, err,
}
use chanter_operator.Agentic.States.{
  NodeState, allowed_node_transition, node_state_name, same_node_state,
}
use chanter_operator.Agentic.Records.{
  NodeRecord, Scope, NodeEvidence, EvidenceRecord, ArtifactWriteRecord,
}
use chanter_operator.Agentic.Inputs.{NodeTransitionInput, EventDraft}
use chanter_operator.Agentic.Journal.{
  Journal, with_savepoint, mission_is, node_is, require_node, append_event, artifact_is,
  get_artifact_write, constraint,
}

abbrev pub invalid_node_transition : NodeState → NodeState → String → Thrown
invalid_node_transition from to node_id =
    refusal
      (template (
        "Invalid durable agentic node transition "
        ∷ node_state_name from
        ∷ " -> "
        ∷ node_state_name to
        ∷ " for node "
        ∷ node_id
        ∷ "."
        ∷ []))
      409 (some "AGENTIC_NODE_INVALID_TRANSITION")

abbrev pub concurrent_node_transition : Thrown
concurrent_node_transition =
    refusal "Durable agentic node state changed before the transition could be recorded." 409
      (some "AGENTIC_NODE_CONCURRENT_TRANSITION")

abbrev pub hits_node : String → String → NodeState → NodeRecord → Bool
hits_node plan_id node_id from n = node_is plan_id node_id n && same_node_state n.state from

-- Each option replaces the value that was read, unless it is undefined.
abbrev pub moved_node : NodeState → NodeTransitionInput → NodeRecord → NodeRecord → NodeRecord
moved_node to o current row = record row {
  state = to;
  attempts = or_else o.attempts current.attempts;
  lease_owner = or_else o.lease_owner current.lease_owner;
  lease_expires_at = or_else o.lease_expires_at current.lease_expires_at;
  deadline_at = or_else o.deadline_at current.deadline_at;
  output = or_else o.output current.output;
  output_hash = or_else o.output_hash current.output_hash;
  cost = or_else o.cost current.cost;
  latency_ms = or_else o.latency_ms current.latency_ms;
  reconciliation_outcome = or_else o.reconciliation_outcome current.reconciliation_outcome;
  reconciled_at = or_else o.reconciled_at current.reconciled_at;
  typed_error = or_else o.typed_error current.typed_error;
  started_at = or_else o.started_at current.started_at;
  completed_at = or_else o.completed_at current.completed_at;
  updated_at = o.timestamp;
}

-- UPDATE … WHERE plan_id = ? AND node_id = ? AND state = ?, with the number of rows changed.
unfoldable pub move_node :
    String → String → NodeState → NodeTransitionInput → NodeRecord → Exec Journal ℕ
move_node plan_id node_id to o current j =
    let hit = hits_node plan_id node_id current.state in
    (
      ok (count_by hit j.nodes),
      record j {
        db = record (j.db) { nodes = update_where hit (moved_node to o current) j.nodes };
      },
    )

-- The draft of an event about a node that is in `from` before and in `to` after it.
abbrev pub node_draft :
    String → String → String → NodeState → NodeState → NodeTransitionInput → NodeRecord → EventDraft
node_draft plan_id node_id event_type from to o current = record {
  mission_id = current.mission_id;
  plan_id = plan_id;
  scope = Scope.node;
  node_id = some node_id;
  event_type = event_type;
  previous_state = some (node_state_name from);
  new_state = some (node_state_name to);
  actor = o.actor;
  reason = o.reason;
  timestamp = o.timestamp;
  evidence_references = some (or_else o.evidence_references []);
  typed_error = or_else o.typed_error none;
}

-- transitionNode after its guard.
unfoldable pub record_node_transition :
    String → String → NodeState → NodeTransitionInput → NodeRecord → Exec Journal NodeRecord
record_node_transition plan_id node_id to o current = do
  changes ← move_node plan_id node_id to o current
  ensure (nat_eq changes 1) concurrent_node_transition
  append_event (
      node_draft plan_id node_id (template ("node_" ∷ node_state_name to ∷ [])) current.state to o
        current)
  require_node plan_id node_id

unfoldable pub transition_node :
    String → String → NodeState → NodeTransitionInput → Exec Journal NodeRecord
transition_node plan_id node_id to o = with_savepoint do
  current ← require_node plan_id node_id
  ensure (allowed_node_transition current.state to)
      (invalid_node_transition current.state to node_id)
  record_node_transition plan_id node_id to o current

-- Whether appendNodeAuditEvent also writes the row.
abbrev pub has_audit_fields : NodeTransitionInput → Bool
has_audit_fields o =
    is_some o.reconciliation_outcome
    || is_some o.reconciled_at
    || is_some o.lease_owner
    || is_some o.attempts

abbrev pub audited_node : NodeTransitionInput → NodeRecord → NodeRecord → NodeRecord
audited_node o current row = record row {
  reconciliation_outcome = or_else o.reconciliation_outcome current.reconciliation_outcome;
  reconciled_at = or_else o.reconciled_at current.reconciled_at;
  lease_owner = or_else o.lease_owner current.lease_owner;
  lease_expires_at = or_else o.lease_expires_at current.lease_expires_at;
  attempts = or_else o.attempts current.attempts;
  updated_at = o.timestamp;
}

unfoldable pub audit_node :
    String → String → NodeTransitionInput → NodeRecord → Exec Journal (Unit {0})
audit_node plan_id node_id o current = modify λ j.
    if has_audit_fields o
    then record j {
      db = record (j.db) {
        nodes = update_where (node_is plan_id node_id) (audited_node o current) j.nodes;
      };
    }
    else j

unfoldable pub append_node_audit_event :
    String → String → String → NodeTransitionInput → Exec Journal NodeRecord
append_node_audit_event plan_id node_id event_type o = with_savepoint do
  current ← require_node plan_id node_id
  audit_node plan_id node_id o current
  append_event (node_draft plan_id node_id event_type current.state current.state o current)
  require_node plan_id node_id

abbrev pub evidence_row : String → String → String → String → NodeEvidence → EvidenceRecord
evidence_row mission_id plan_id node_id timestamp item = record {
  evidence_id = item.evidence_id;
  plan_id = plan_id;
  node_id = node_id;
  mission_id = mission_id;
  kind = item.kind;
  label = item.label;
  source_reference = item.source_reference;
  content_hash = item.content_hash;
  created_at = timestamp;
}

abbrev pub evidence_is : EvidenceRecord → EvidenceRecord → Bool
evidence_is row e =
    e.plan_id == row.plan_id && e.node_id == row.node_id && e.evidence_id == row.evidence_id

-- INSERT OR IGNORE: a row whose key is there is left out, and a broken reference still throws.
unfoldable pub insert_evidence : EvidenceRecord → Exec Journal (Unit {0})
insert_evidence row j =
    if any (evidence_is row) j.evidence
    then (ok tt, j)
    else if any (mission_is row.mission_id) j.missions
        && any (node_is row.plan_id row.node_id) j.nodes
    then (ok tt, record j { db = record (j.db) { evidence = j.evidence ++ row ∷ [] } })
    else (err (constraint "operator_agentic_node_evidence"), j)

unfoldable pub record_node_evidence :
    String → String → String → List NodeEvidence → String → Exec Journal (Unit {0})
record_node_evidence mission_id plan_id node_id evidence timestamp = with_savepoint (
    for_each evidence
      (λ item. insert_evidence (evidence_row mission_id plan_id node_id timestamp item)))

abbrev pub artifact_conflict : Thrown
artifact_conflict =
    refusal "A different artifact was already written under this mission identity." 409
      (some "AGENTIC_ARTIFACT_WRITE_CONFLICT")

-- The key (mission_id, artifact_name), the reference to the mission, and the CHECK clause on
-- byte_length.
abbrev pub artifact_fits : ArtifactWriteRecord → Journal → Bool
artifact_fits row j =
    not (any (artifact_is row.mission_id row.artifact_name) j.artifacts)
    && any (mission_is row.mission_id) j.missions
    && ltb 0 row.byte_length

unfoldable pub insert_artifact : ArtifactWriteRecord → Exec Journal (Unit {0})
insert_artifact row j =
    if artifact_fits row j
    then (ok tt, record j { db = record (j.db) { artifacts = j.artifacts ++ row ∷ [] } })
    else (err (constraint "operator_agentic_artifact_writes"), j)

unfoldable pub write_or_compare :
    ArtifactWriteRecord → Option ArtifactWriteRecord → Exec Journal (Unit {0})
write_or_compare row none = insert_artifact row
write_or_compare row (some existing) =
    ensure (existing.artifact_hash == row.artifact_hash) artifact_conflict

unfoldable pub record_artifact_write : ArtifactWriteRecord → Exec Journal (Unit {0})
record_artifact_write row =
    get_artifact_write row.mission_id row.artifact_name >>= write_or_compare row
