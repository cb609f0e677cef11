-- ===== src/Agentic/Journal/History.antt =====
-- How the rows of apps/backend/src/agentic/agenticPlanJournal.ts live on through its methods.
pub mod Steps
pub mod Runs
use mathlib.Core.List.{append-nil, append_assoc}
use chanter_operator.Prelude.{
  ◌≡◌, refl, sym, ap, ◌∙◌, String, true, Option, some, List, [], ◌++◌, find,
}
use chanter_operator.Agentic.States.{
  PlanState, NodeState, allowed_plan_transition, allowed_node_transition,
}
use chanter_operator.Agentic.Records.{
  MissionRecord, NodeRecord, EventRecord, EvidenceRecord, ArtifactWriteRecord,
}
use chanter_operator.Agentic.Journal.{Journal, mission_is, node_is}

-- Any number of allowed transitions, one after the other.
pub data PlanPath (s : PlanState) : PlanState → Type 0 where
  here : PlanPath s s
  next : {t u : PlanState} → PlanPath s t → allowed_plan_transition t u ≡ true → PlanPath s u

pub data NodePath (s : NodeState) : NodeState → Type 0 where
  here : NodePath s s
  next : {t u : NodeState} → NodePath s t → allowed_node_transition t u ≡ true → NodePath s u

PlanPath-trans : {s t u : PlanState} → PlanPath s t → PlanPath t u → PlanPath s u
PlanPath-trans p PlanPath.here = p
PlanPath-trans p (PlanPath.next q a) = PlanPath.next (PlanPath-trans p q) a

NodePath-trans : {s t u : NodeState} → NodePath s t → NodePath t u → NodePath s u
NodePath-trans p NodePath.here = p
NodePath-trans p (NodePath.next q a) = NodePath.next (NodePath-trans p q) a

-- The same mission later: what was compiled stands, and its state has moved lawfully.
pub record MissionLater (m n : MissionRecord) : Type 0 where
  pub same_id : n.mission_id ≡ m.mission_id
  pub same_trace : n.trace_id ≡ m.trace_id
  pub same_intent : n.intent_hash ≡ m.intent_hash
  pub same_context : n.context_bundle_id ≡ m.context_bundle_id
  pub same_plan : n.plan_id ≡ m.plan_id
  pub same_hash : n.plan_hash ≡ m.plan_hash
  pub same_document : n.plan ≡ m.plan
  pub same_exception : n.exception_state ≡ m.exception_state
  pub path : PlanPath m.status n.status

-- The same node later.
pub record NodeLater (m n : NodeRecord) : Type 0 where
  pub same_plan : n.plan_id ≡ m.plan_id
  pub same_id : n.node_id ≡ m.node_id
  pub same_mission : n.mission_id ≡ m.mission_id
  pub same_dependencies : n.depends_on ≡ m.depends_on
  pub same_payload : n.payload_hash ≡ m.payload_hash
  pub same_binding : n.provider_binding_id ≡ m.provider_binding_id
  pub same_authority : n.authority_requirement ≡ m.authority_requirement
  pub same_limit : n.attempt_limit ≡ m.attempt_limit
  pub same_key : n.idempotency_key ≡ m.idempotency_key
  pub path : NodePath m.state n.state

abbrev pub Grows : {A : Type 0} → List A → List A → Type 0
Grows {A} xs ys = (rest : List A) × (ys ≡ xs ++ rest)

pub Grows-refl : {A : Type 0} (xs : List A) → Grows xs xs
Grows-refl xs = ([], sym (append-nil xs))

Grows-trans : {A : Type 0} (xs ys zs : List A) → Grows xs ys → Grows ys zs → Grows xs zs
Grows-trans {A} xs ys zs (r, e) (q, f) =
    (r ++ q, f ∙ ap (λ (l : List A). l ++ q) e ∙ append_assoc xs r q)

-- The journal `t` has every row of `s`, later, and the events, the evidence and the artifacts of `s`
-- unchanged before its own.
pub record Extends (s t : Journal) : Type 0 where
  pub missions_live :
      (id : String) (m : MissionRecord)
      → find (mission_is id) s.missions ≡ some m
      → (n : MissionRecord) × (find (mission_is id) t.missions ≡ some n) × MissionLater m n
  pub nodes_live :
      (plan_id node_id : String) (m : NodeRecord)
      → find (node_is plan_id node_id) s.nodes ≡ some m
      → (n : NodeRecord) × (find (node_is plan_id node_id) t.nodes ≡ some n) × NodeLater m n
  pub events_kept : Grows s.events t.events
  pub evidence_kept : Grows s.evidence t.evidence
  pub artifacts_kept : Grows s.artifacts t.artifacts

pub MissionLater-refl : (m : MissionRecord) → MissionLater m m
MissionLater-refl m = record {
  same_id = refl;
  same_trace = refl;
  same_intent = refl;
  same_context = refl;
  same_plan = refl;
  same_hash = refl;
  same_document = refl;
  same_exception = refl;
  path = PlanPath.here;
}

pub NodeLater-refl : (m : NodeRecord) → NodeLater m m
NodeLater-refl m = record {
  same_plan = refl;
  same_id = refl;
  same_mission = refl;
  same_dependencies = refl;
  same_payload = refl;
  same_binding = refl;
  same_authority = refl;
  same_limit = refl;
  same_key = refl;
  path = NodePath.here;
}

MissionLater-trans :
    {m n k : MissionRecord} → MissionLater m n → MissionLater n k → MissionLater m k
MissionLater-trans a b = record {
  same_id = b.same_id ∙ a.same_id;
  same_trace = b.same_trace ∙ a.same_trace;
  same_intent = b.same_intent ∙ a.same_intent;
  same_context = b.same_context ∙ a.same_context;
  same_plan = b.same_plan ∙ a.same_plan;
  same_hash = b.same_hash ∙ a.same_hash;
  same_document = b.same_document ∙ a.same_document;
  same_exception = b.same_exception ∙ a.same_exception;
  path = PlanPath-trans a.path b.path;
}

NodeLater-trans : {m n k : NodeRecord} → NodeLater m n → NodeLater n k → NodeLater m k
NodeLater-trans a b = record {
  same_plan = b.same_plan ∙ a.same_plan;
  same_id = b.same_id ∙ a.same_id;
  same_mission = b.same_mission ∙ a.same_mission;
  same_dependencies = b.same_dependencies ∙ a.same_dependencies;
  same_payload = b.same_payload ∙ a.same_payload;
  same_binding = b.same_binding ∙ a.same_binding;
  same_authority = b.same_authority ∙ a.same_authority;
  same_limit = b.same_limit ∙ a.same_limit;
  same_key = b.same_key ∙ a.same_key;
  path = NodePath-trans a.path b.path;
}

pub Extends-refl : (s : Journal) → Extends s s
Extends-refl s = record {
  missions_live = λ id m e. (m, e, MissionLater-refl m);
  nodes_live = λ plan_id node_id m e. (m, e, NodeLater-refl m);
  events_kept = Grows-refl s.events;
  evidence_kept = Grows-refl s.evidence;
  artifacts_kept = Grows-refl s.artifacts;
}

pub Extends-trans : {s t u : Journal} → Extends s t → Extends t u → Extends s u
Extends-trans {s} {t} {u} a b = record {
  missions_live = λ id m e.
      let (n, en, mn) = a.missions_live id m e in
      let (k, ek, nk) = b.missions_live id n en in (k, ek, MissionLater-trans mn nk);
  nodes_live = λ plan_id node_id m e.
      let (n, en, mn) = a.nodes_live plan_id node_id m e in
      let (k, ek, nk) = b.nodes_live plan_id node_id n en in (k, ek, NodeLater-trans mn nk);
  events_kept = Grows-trans s.events t.events u.events a.events_kept b.events_kept;
  evidence_kept = Grows-trans s.evidence t.evidence u.evidence a.evidence_kept b.evidence_kept;
  artifacts_kept =
      Grows-trans s.artifacts t.artifacts u.artifacts a.artifacts_kept b.artifacts_kept;
}
