-- ===== src/Missions/Journal/Told.antt =====
-- The journal of a mission in apps/backend/src/missions/genericMissionJournal.ts tells how its
-- execution came into its state.
use chanter_operator.Prelude.{
  ◌≡◌, refl, sym, ap, subst, ◌∙◌, String, false, Option, none, some, List, [], ◌∷◌, ◌++◌, ◌==◌,
  keep, keep-append, Bool-cases, inl, inr, eq_iff,
}
use text.Mathlib.TextPositions.{eq_refl}
use mathlib.Core.List.{append-nil}
use chanter_operator.Prelude.Numbering.{AllNumbered, AllNumbered-append}
use chanter_operator.Missions.States.{MissionState}
use chanter_operator.Missions.Records.{JournalTransition}
use chanter_operator.Missions.Journal.{Journal, next_sequence}
use chanter_operator.Missions.Journal.Calls.{IsKept, Call, run, run-keeps}
use chanter_operator.Missions.Journal.Rows.{state_at}
use chanter_operator.Missions.Journal.Moves.{IsMoved, Follows}

-- The entries lead from the one state to the other, each from where the one before it ended, by
-- allowed transitions.
abbrev pub IsPath : Option MissionState → List JournalTransition → Option MissionState → Type 0
IsPath from [] to = from ≡ to
IsPath from (e ∷ es) to =
    (e.previous_state ≡ from) × Follows from e.new_state × IsPath (some e.new_state) es to

IsPath-append :
    (from mid : Option MissionState) (es : List JournalTransition) (e : JournalTransition)
    → IsPath from es mid
    → e.previous_state ≡ mid
    → Follows mid e.new_state
    → IsPath from (es ++ e ∷ []) (some e.new_state)
IsPath-append from mid [] e path same follows =
    (same ∙ sym path, subst (λ s. Follows s e.new_state) (sym path) follows, refl)
IsPath-append from mid (x ∷ es) e path same follows =
    (path.0, path.1, IsPath-append (some x.new_state) mid es e path.2 same follows)

abbrev pub entries_of : String → Journal → List JournalTransition
entries_of id j = keep (λ (e : JournalTransition). e.mission_id == id) j.transitions

-- Each mission's entries are numbered 1, 2, 3, …, and lead from nothing to the state of its
-- execution.
pub record IsTold (j : Journal) : Type 0 where
  pub numbered :
      AllNumbered (λ (e : JournalTransition). e.mission_id) (λ e. e.sequence) j.transitions
  pub told : (id : String) → IsPath none (entries_of id j) (state_at id j.executions)

module _ (j t : Journal) (id : String) (m : IsMoved j t id) where
  entries_own : entries_of id t ≡ entries_of id j ++ m.row ∷ []
  entries_own =
      ap (keep (λ (e : JournalTransition). e.mission_id == id)) m.transitions
      ∙ keep-append (λ (e : JournalTransition). e.mission_id == id) j.transitions (m.row ∷ [])
      ∙ rw (m.own, eq_refl id) refl

  entries_other : (s : String) → (id == s) ≡ false → entries_of s t ≡ entries_of s j
  entries_other s other =
      ap (keep (λ (e : JournalTransition). e.mission_id == s)) m.transitions
      ∙ keep-append (λ (e : JournalTransition). e.mission_id == s) j.transitions (m.row ∷ [])
      ∙ rw (m.own, other) (append-nil (entries_of s j))

  told_own : IsTold j → IsPath none (entries_of id t) (state_at id t.executions)
  told_own h =
      rw (entries_own, m.after ∙ ap some (sym m.new))
        (IsPath-append none (state_at id j.executions) (entries_of id j) m.row (h.told id)
          (m.previous ∙ sym m.before) (rw (m.before, m.new) m.follows))

  told_each : IsTold j → (s : String) → IsPath none (entries_of s t) (state_at s t.executions)
  told_each h s = elim (Bool-cases (id == s)) [
    | inl same ↦
        subst (λ (i : String). IsPath none (entries_of i t) (state_at i t.executions))
          ((eq_iff id s).0 same) (told_own h)
    | inr other ↦ rw (entries_other s other, m.others s other) (h.told s)
  ]

  moved-IsTold : IsTold j → IsTold t
  moved-IsTold h = record {
    numbered = rw m.transitions (
        AllNumbered-append _ _ j.transitions m.row h.numbered
          (m.numbered ∙ ap (λ (i : String). next_sequence i j.transitions) (sym m.own)));
    told = told_each h;
  }

writes-IsTold : IsKept IsTold
writes-IsTold = record {
  restored = λ before after h. record { numbered = h.numbered; told = h.told };
  moves = λ j t id h m. moved-IsTold j t id m h;
}

-- Whatever calls are made of the mission journal, refused ones included, each mission's entries stay
-- numbered 1, 2, 3, …, and they lead by allowed transitions, each from the state in which the one
-- before it ended, from no state to the state of the mission's execution.
pub mission_run-IsTold : (cs : List Call) (j : Journal) → IsTold j → IsTold (run cs j)
mission_run-IsTold = run-keeps writes-IsTold
