-- ===== src/Agentic/Journal/History/Steps.antt =====
-- Each write of apps/backend/src/agentic/agenticPlanJournal.ts extends the journal.
use chanter_operator.Prelude.{
  ◌≡◌, refl, ap, ◌∙◌, String, Bool, true, [], ◌∷◌, ◌++◌, arith, if◌then◌else◌, find, update_where,
  find-append, find-update_where, Bool-cases, inl, inr,
}
use chanter_operator.Prelude.Exec.Rules.{Keeps-checked}
use chanter_operator.Agentic.States.{
  PlanState, NodeState, allowed_plan_transition, allowed_node_transition, same_plan_state,
  same_node_state,
}
use chanter_operator.Agentic.Records.{MissionRecord, NodeRecord}
use chanter_operator.Agentic.Inputs.{MissionUpdateInput, NodeTransitionInput}
use chanter_operator.Agentic.Journal.{Journal, mission_is, node_is, next_id}
use chanter_operator.Agentic.Journal.Missions.{assigned, hits_mission, moved_mission, move_mission}
use chanter_operator.Agentic.Journal.Nodes.{hits_node, moved_node, move_node, audited_node}
use chanter_operator.Agentic.Journal.Insert.{insert_mission_row, insert_node_row, insert_edge_row}
use chanter_operator.Agentic.Journal.Rule.{IsKept}
use chanter_operator.Agentic.Journal.Writes.{
  either_holds, append_event_as-Either, insert_evidence-Either, insert_artifact-Either,
  apply_mission_fields-Either, audit_node-Either,
}
use chanter_operator.Agentic.Journal.History.{
  PlanPath, NodePath, MissionLater, NodeLater, MissionLater-refl, NodeLater-refl, Grows, Grows-refl,
  Extends, Extends-trans,
}

same_plan_state-eq : (s t : PlanState) → same_plan_state s t ≡ true → s ≡ t
same_plan_state-eq s t h = ground arith

same_node_state-eq : (s t : NodeState) → same_node_state s t ≡ true → s ≡ t
same_node_state-eq s t h = ground arith

-- A write that only adds to the other tables.
Extends-of_logs :
    (s t : Journal)
    → t.missions ≡ s.missions
    → t.nodes ≡ s.nodes
    → Grows s.events t.events
    → Grows s.evidence t.evidence
    → Grows s.artifacts t.artifacts
    → Extends s t
Extends-of_logs s t em en events evidence artifacts = record {
  missions_live = λ id m e. (m, ap (find (mission_is id)) em ∙ e, MissionLater-refl m);
  nodes_live =
      λ plan_id node_id m e. (m, ap (find (node_is plan_id node_id)) en ∙ e, NodeLater-refl m);
  events_kept = events;
  evidence_kept = evidence;
  artifacts_kept = artifacts;
}

-- Where one table is updated so that each row lives on.
Extends-of_missions :
    (s : Journal) (hit : MissionRecord → Bool) (f : MissionRecord → MissionRecord)
    → ((m : MissionRecord) → (f m).mission_id ≡ m.mission_id)
    → ((m : MissionRecord) → hit m ≡ true → MissionLater m (f m))
    → Extends s (record s { db = record (s.db) { missions = update_where hit f s.missions } })
Extends-of_missions s hit f same later = record {
  missions_live = λ id m e. (
    if hit m then f m else m,
    find-update_where (mission_is id) hit f s.missions m (λ x. rw (same x)) e,
    lives m,
  );
  nodes_live = λ plan_id node_id m e. (m, e, NodeLater-refl m);
  events_kept = Grows-refl s.events;
  evidence_kept = Grows-refl s.evidence;
  artifacts_kept = Grows-refl s.artifacts;
}
  where
    lives : (m : MissionRecord) → MissionLater m (if hit m then f m else m)
    lives m = elim (Bool-cases (hit m)) [
      | inl is_hit ↦ rw is_hit (later m is_hit)
      | inr miss ↦ rw miss (MissionLater-refl m)
    ]

Extends-of_nodes :
    (s : Journal) (hit : NodeRecord → Bool) (f : NodeRecord → NodeRecord)
    → ((m : NodeRecord) → (f m).plan_id ≡ m.plan_id)
    → ((m : NodeRecord) → (f m).node_id ≡ m.node_id)
    → ((m : NodeRecord) → hit m ≡ true → NodeLater m (f m))
    → Extends s (record s { db = record (s.db) { nodes = update_where hit f s.nodes } })
Extends-of_nodes s hit f same_plan same_node later = record {
  missions_live = λ id m e. (m, e, MissionLater-refl m);
  nodes_live = λ plan_id node_id m e. (
    if hit m then f m else m,
    find-update_where (node_is plan_id node_id) hit f s.nodes m (λ x. rw (same_plan x, same_node x))
        e,
    lives m,
  );
  events_kept = Grows-refl s.events;
  evidence_kept = Grows-refl s.evidence;
  artifacts_kept = Grows-refl s.artifacts;
}
  where
    lives : (m : NodeRecord) → NodeLater m (if hit m then f m else m)
    lives m = elim (Bool-cases (hit m)) [
      | inl is_hit ↦ rw is_hit (later m is_hit)
      | inr miss ↦ rw miss (NodeLater-refl m)
    ]

assigned-MissionLater :
    (o : MissionUpdateInput) (timestamp : String) (m : MissionRecord)
    → MissionLater m (assigned o timestamp m)
assigned-MissionLater o timestamp m = record {
  same_id = refl;
  same_trace = refl;
  same_intent = refl;
  same_context = refl;
  same_plan = refl;
  same_hash = refl;
  same_document = refl;
  same_exception = refl;
  path = PlanPath.here;
}

moved-MissionLater :
    (id : String) (from to : PlanState) (timestamp : String) (m : MissionRecord)
    → allowed_plan_transition from to ≡ true
    → hits_mission id from m ≡ true
    → MissionLater m (moved_mission to timestamp m)
moved-MissionLater id from to timestamp m allowed hit = record {
  same_id = refl;
  same_trace = refl;
  same_intent = refl;
  same_context = refl;
  same_plan = refl;
  same_hash = refl;
  same_document = refl;
  same_exception = refl;
  path = PlanPath.next PlanPath.here (rw (same_plan_state-eq m.status from (ground arith)) allowed);
}

audited-NodeLater :
    (o : NodeTransitionInput) (current m : NodeRecord) → NodeLater m (audited_node o current m)
audited-NodeLater o current m = record {
  same_plan = refl;
  same_id = refl;
  same_mission = refl;
  same_dependencies = refl;
  same_payload = refl;
  same_binding = refl;
  same_authority = refl;
  same_limit = refl;
  same_key = refl;
  path = NodePath.here;
}

moved-NodeLater :
    (plan_id node_id : String) (to : NodeState) (o : NodeTransitionInput) (current m : NodeRecord)
    → allowed_node_transition current.state to ≡ true
    → hits_node plan_id node_id current.state m ≡ true
    → NodeLater m (moved_node to o current m)
moved-NodeLater plan_id node_id to o current m allowed hit = record {
  same_plan = refl;
  same_id = refl;
  same_mission = refl;
  same_dependencies = refl;
  same_payload = refl;
  same_binding = refl;
  same_authority = refl;
  same_limit = refl;
  same_key = refl;
  path =
      NodePath.next NodePath.here
        (rw (same_node_state-eq m.state current.state (ground arith)) allowed);
}

module _ (s : Journal) where
  added_mission-Extends :
      (row : MissionRecord)
      → Extends s (record s { db = record (s.db) { missions = s.missions ++ row ∷ [] } })
  added_mission-Extends row = record {
    missions_live =
        λ id m e. (m, find-append (mission_is id) s.missions _ m e, MissionLater-refl m);
    nodes_live = λ plan_id node_id m e. (m, e, NodeLater-refl m);
    events_kept = Grows-refl s.events;
    evidence_kept = Grows-refl s.evidence;
    artifacts_kept = Grows-refl s.artifacts;
  }

  added_node-Extends :
      (row : NodeRecord)
      → Extends s (record s { db = record (s.db) { nodes = s.nodes ++ row ∷ [] } })
  added_node-Extends row = record {
    missions_live = λ id m e. (m, e, MissionLater-refl m);
    nodes_live = λ plan_id node_id m e.
        (m, find-append (node_is plan_id node_id) s.nodes _ m e, NodeLater-refl m);
    events_kept = Grows-refl s.events;
    evidence_kept = Grows-refl s.evidence;
    artifacts_kept = Grows-refl s.artifacts;
  }

-- From a fixed journal, every write leads to an extension of it.
pub writes-Extends : (origin : Journal) → IsKept (Extends origin)
unfolding next_id insert_mission_row insert_node_row insert_edge_row move_mission move_node
writes-Extends origin = record {
  rollback = λ before after h k. record {
    missions_live = h.missions_live;
    nodes_live = h.nodes_live;
    events_kept = h.events_kept;
    evidence_kept = h.evidence_kept;
    artifacts_kept = h.artifacts_kept;
  };
  draw = record {
    at = λ j h. record {
      missions_live = h.missions_live;
      nodes_live = h.nodes_live;
      events_kept = h.events_kept;
      evidence_kept = h.evidence_kept;
      artifacts_kept = h.artifacts_kept;
    };
  };
  event = λ event_id draft. record {
    at = λ j h. either_holds (Extends origin) (append_event_as-Either j event_id draft) h (
        Extends-trans h (
          Extends-of_logs j _ refl refl (_, refl) (Grows-refl j.evidence)
            (Grows-refl j.artifacts)));
  };
  mission_insert = λ schema_version input.
      Keeps-checked _ _ _ (λ j h _. Extends-trans h (added_mission-Extends j _));
  node_insert = λ input n. Keeps-checked _ _ _ (λ j h _. Extends-trans h (added_node-Extends j _));
  edge_insert = λ row. Keeps-checked _ _ _ (λ j h _. Extends-trans h (
      Extends-of_logs j _ refl refl (Grows-refl j.events) (Grows-refl j.evidence)
        (Grows-refl j.artifacts)));
  evidence_insert = λ row. record {
    at = λ j h. either_holds (Extends origin) (insert_evidence-Either j row) h (
        Extends-trans h
          (Extends-of_logs j _ refl refl (Grows-refl j.events) (_, refl) (Grows-refl j.artifacts)));
  };
  artifact_insert = λ row. record {
    at = λ j h. either_holds (Extends origin) (insert_artifact-Either j row) h (
        Extends-trans h
          (Extends-of_logs j _ refl refl (Grows-refl j.events) (Grows-refl j.evidence) (_, refl)));
  };
  mission_fields = λ id o. record {
    at = λ j h. either_holds (Extends origin) (apply_mission_fields-Either j id o) h (
        Extends-trans h
          (Extends-of_missions j _ _ (λ m. refl) (λ m _. assigned-MissionLater o _ m)));
  };
  mission_move = λ id from to timestamp allowed. record {
    at = λ j h. Extends-trans h (
        Extends-of_missions j _ _ (λ m. refl)
          (λ m. moved-MissionLater id from to timestamp m allowed));
  };
  node_audit = λ plan_id node_id o current. record {
    at = λ j h. either_holds (Extends origin) (audit_node-Either j plan_id node_id o current) h (
        Extends-trans h
          (Extends-of_nodes j _ _ (λ m. refl) (λ m. refl) (λ m _. audited-NodeLater o current m)));
  };
  node_move = λ plan_id node_id to o current allowed. record {
    at = λ j h. Extends-trans h (
        Extends-of_nodes j _ _ (λ m. refl) (λ m. refl)
          (λ m. moved-NodeLater plan_id node_id to o current m allowed));
  };
}
