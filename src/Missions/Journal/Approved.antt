-- ===== src/Missions/Journal/Approved.antt =====
-- No execution of apps/backend/src/missions/genericMissionJournal.ts gets past its approval without
-- one in the journal.
use chanter_operator.Prelude.{
  ◌≡◌, refl, ap, subst, ◌∙◌, String, Bool, true, false, Option, none, some, List, [], ◌∷◌, any, ◌⊎◌,
  inl, inr, arith,
}
use chanter_operator.Missions.States.{MissionState, allowed_transition, same_state}
use chanter_operator.Missions.Records.{JournalTransition}
use chanter_operator.Missions.Journal.{Journal}
use chanter_operator.Missions.Journal.Rows.{state_at}
use chanter_operator.Missions.Journal.Calls.{Call, run}
use chanter_operator.Missions.Journal.Told.{IsPath, IsTold, entries_of, mission_run-IsTold}

-- The states other than the first one and the refusal.
abbrev pub needs_approval : MissionState → Bool
needs_approval MissionState.approval_required = false
needs_approval MissionState.failed_terminal = false
needs_approval _ = true

abbrev pub is_approval : JournalTransition → Bool
is_approval e = same_state e.new_state MissionState.approved

start_next :
    (to : MissionState)
    → allowed_transition MissionState.approval_required to ≡ true
    → (to ≡ MissionState.approved) ⊎ (to ≡ MissionState.failed_terminal)
unfolding allowed_transition
start_next MissionState.approved h = inl refl
start_next MissionState.failed_terminal h = inr refl
start_next _ h = cc

nothing_follows :
    (to : MissionState) → allowed_transition MissionState.failed_terminal to ≡ true → ⊥
unfolding allowed_transition
nothing_follows to h = cc

stays_failed :
    (es : List JournalTransition) (s : MissionState)
    → IsPath (some MissionState.failed_terminal) es (some s)
    → needs_approval s ≡ true
    → ⊥
stays_failed [] s path h =
    let same : MissionState.failed_terminal ≡ s = cc in
    let no_need : false ≡ true = ap needs_approval same ∙ h in cc
stays_failed (e ∷ es) s path h = nothing_follows e.new_state path.1

approved_from_start :
    (es : List JournalTransition) (s : MissionState)
    → IsPath (some MissionState.approval_required) es (some s)
    → needs_approval s ≡ true
    → any is_approval es ≡ true
approved_from_start [] s path h =
    let same : MissionState.approval_required ≡ s = cc in ap needs_approval same ∙ h
approved_from_start (e ∷ es) s path h = elim (start_next e.new_state path.1) [
  | inl approved ↦ rw approved refl
  | inr refused ↦ absurd (
      stays_failed es s (subst (λ (x : MissionState). IsPath (some x) es (some s)) refused path.2)
        h)
]

approved_from_nothing :
    (es : List JournalTransition) (s : MissionState)
    → IsPath none es (some s)
    → needs_approval s ≡ true
    → any is_approval es ≡ true
approved_from_nothing [] s path h = cc
approved_from_nothing (e ∷ es) s path h =
    let later =
      approved_from_start es s
        (subst (λ (x : MissionState). IsPath (some x) es (some s)) path.1 path.2) h in
    rw later (ground arith)

-- Whatever calls are made, refused ones included, of a mission journal whose entries lead to the
-- states of its executions: an execution that is then in any state but approval_required and
-- failed_terminal has a transition to approved among the entries of its mission.
pub mission_run_approved :
    (cs : List Call) (j : Journal) (id : String) (s : MissionState)
    → IsTold j
    → state_at id (run cs j).executions ≡ some s
    → needs_approval s ≡ true
    → any is_approval (entries_of id (run cs j)) ≡ true
mission_run_approved cs j id s h at_s needs =
    approved_from_nothing (entries_of id (run cs j)) s
      (subst (λ (o : Option MissionState). IsPath none (entries_of id (run cs j)) o) at_s
        ((mission_run-IsTold cs j h).told id))
      needs
