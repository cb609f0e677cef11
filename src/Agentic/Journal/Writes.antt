-- ===== src/Agentic/Journal/Writes.antt =====
-- What the writes of apps/backend/src/agentic/agenticPlanJournal.ts that may write nothing leave.
use chanter_operator.Prelude.{
  ◌≡◌, refl, sym, subst, String, ◌&&◌, any, [], ◌∷◌, ◌++◌, ◌⊎◌, inl, inr, Bool-cases, update_where,
}
use chanter_operator.Agentic.Records.{NodeRecord, EvidenceRecord, ArtifactWriteRecord}
use chanter_operator.Agentic.Inputs.{EventDraft, MissionUpdateInput, NodeTransitionInput}
use chanter_operator.Agentic.Journal.{
  Journal, mission_is, node_is, append_event_as, event_fits, event_row, next_sequence,
}
use chanter_operator.Agentic.Journal.Missions.{apply_mission_fields, assigned, has_assignments}
use chanter_operator.Agentic.Journal.Nodes.{
  audit_node, audited_node, has_audit_fields, insert_evidence, evidence_is, insert_artifact,
  artifact_fits,
}

-- The journal is as before, or as written.
abbrev pub Either : Journal → Journal → Journal → Type 0
Either before written after = (after ≡ before) ⊎ (after ≡ written)

pub either_holds :
    (P : Journal → Type 0) {before written after : Journal}
    → Either before written after
    → P before
    → P written
    → P after
either_holds P (inl same) h k = subst P (sym same) h
either_holds P (inr new) h k = subst P (sym new) k

module _ (j : Journal) where
  abbrev pub with_event : String → EventDraft → Journal
  with_event event_id draft = record j {
    db = record (j.db) {
      events = j.events ++ event_row event_id (next_sequence draft.mission_id j.events) draft ∷ [];
    };
  }

  pub append_event_as-Either :
      (event_id : String) (draft : EventDraft)
      → Either j (with_event event_id draft) (append_event_as event_id draft j).1
  unfolding append_event_as
  append_event_as-Either event_id draft =
      elim (Bool-cases
        (event_fits (event_row event_id (next_sequence draft.mission_id j.events) draft) j)) [
          | inl fits ↦ rw fits (inr refl)
          | inr misfit ↦ rw misfit (inl refl)
        ]

  abbrev pub with_evidence : EvidenceRecord → Journal
  with_evidence row = record j { db = record (j.db) { evidence = j.evidence ++ row ∷ [] } }

  pub insert_evidence-Either :
      (row : EvidenceRecord) → Either j (with_evidence row) (insert_evidence row j).1
  unfolding insert_evidence
  insert_evidence-Either row = elim (Bool-cases (any (evidence_is row) j.evidence)) [
    | inl known ↦ rw known (inl refl)
    | inr fresh ↦
        rw fresh
          (elim (Bool-cases (
            any (mission_is row.mission_id) j.missions
            && any (node_is row.plan_id row.node_id) j.nodes)) [
              | inl fits ↦ rw fits (inr refl)
              | inr misfit ↦ rw misfit (inl refl)
            ])
  ]

  abbrev pub with_artifact : ArtifactWriteRecord → Journal
  with_artifact row = record j { db = record (j.db) { artifacts = j.artifacts ++ row ∷ [] } }

  pub insert_artifact-Either :
      (row : ArtifactWriteRecord) → Either j (with_artifact row) (insert_artifact row j).1
  unfolding insert_artifact
  insert_artifact-Either row = elim (Bool-cases (artifact_fits row j)) [
    | inl fits ↦ rw fits (inr refl)
    | inr misfit ↦ rw misfit (inl refl)
  ]

  abbrev pub with_fields : String → MissionUpdateInput → Journal
  with_fields id o = record j {
    db = record (j.db) {
      missions = update_where (mission_is id) (assigned o o.timestamp) j.missions;
    };
  }

  pub apply_mission_fields-Either :
      (id : String) (o : MissionUpdateInput)
      → Either j (with_fields id o) (apply_mission_fields id o j).1
  unfolding apply_mission_fields
  apply_mission_fields-Either id o = elim (Bool-cases (has_assignments o)) [
    | inl some_set ↦ rw some_set (inr refl)
    | inr none_set ↦ rw none_set (inl refl)
  ]

  abbrev pub with_audit : String → String → NodeTransitionInput → NodeRecord → Journal
  with_audit plan_id node_id o current = record j {
    db = record (j.db) {
      nodes = update_where (node_is plan_id node_id) (audited_node o current) j.nodes;
    };
  }

  pub audit_node-Either :
      (plan_id node_id : String) (o : NodeTransitionInput) (current : NodeRecord)
      → Either j (with_audit plan_id node_id o current) (audit_node plan_id node_id o current j).1
  unfolding audit_node
  audit_node-Either plan_id node_id o current = elim (Bool-cases (has_audit_fields o)) [
    | inl some_set ↦ rw some_set (inr refl)
    | inr none_set ↦ rw none_set (inl refl)
  ]
