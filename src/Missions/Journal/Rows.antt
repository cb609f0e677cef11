-- ===== src/Missions/Journal/Rows.antt =====
-- The executions of apps/backend/src/missions/genericMissionJournal.ts: what an UPDATE and an INSERT
-- leave of the state of each mission.
use chanter_operator.Prelude.{
  ◌≡◌, refl, ap, ◌∙◌, String, true, false, Option, none, some, List, [], ◌∷◌, ◌++◌, find, any,
  update_where, Bool-cases, inl, inr, ◌==◌, find-holds, find-update_where, eq_iff, eq_turn, arith,
}
use text.Mathlib.TextPositions.{eq_refl}
use chanter_operator.Missions.States.{MissionState, state_name}
use chanter_operator.Missions.Records.{ExecutionRecord, TransitionOptions}
use chanter_operator.Missions.Journal.{execution_is}
use chanter_operator.Missions.Journal.Transitions.{is_current, written, moved}

-- The state that the execution of a mission is in.
abbrev pub state_of : Option ExecutionRecord → Option MissionState
state_of none = none
state_of (some e) = some e.current_state

abbrev pub state_at : String → List ExecutionRecord → Option MissionState
state_at id rows = state_of (find (execution_is id) rows)

pub find_other :
    (id s : String) (from : MissionState) (next : ExecutionRecord) (rows : List ExecutionRecord)
    → (id == s) ≡ false
    → state_at s (update_where (is_current id from) (written next) rows) ≡ state_at s rows
find_other id s from next [] other = refl
find_other id s from next (e ∷ rows) other = elim (Bool-cases (e.mission_id == s)) [
  | inl own ↦
      let elsewhere : e.mission_id == id ≡ false =
        ap (λ (x : String). x == id) ((eq_iff e.mission_id s).0 own) ∙ (eq_turn s id ∙ other) in
      rw (elsewhere, own) refl
  | inr differs ↦ elim (Bool-cases (is_current id from e)) [
    | inl hit ↦ rw (hit, differs) (find_other id s from next rows other)
    | inr missed ↦ rw (missed, differs) (find_other id s from next rows other)
  ]
]

pub find-moved :
    (id : String) (to : MissionState) (o : TransitionOptions) (current : ExecutionRecord)
    (rows : List ExecutionRecord)
    → find (execution_is id) rows ≡ some current
    → state_at id
        (update_where (is_current id current.current_state) (written (moved to o current)) rows)
      ≡ some to
find-moved id to o current rows h =
    let own : current.mission_id == id ≡ true = find-holds (execution_is id) rows current h in
    let hit : is_current id current.current_state current ≡ true =
      rw (own, eq_refl (state_name current.current_state)) refl in
    ap state_of (
      find-update_where (execution_is id) (is_current id current.current_state)
        (written (moved to o current)) rows current (λ x. refl) h)
    ∙ rw hit refl

pub find_appended :
    (id s : String) (row : ExecutionRecord) (rows : List ExecutionRecord)
    → row.mission_id ≡ id
    → (id == s) ≡ false
    → state_at s (rows ++ row ∷ []) ≡ state_at s rows
find_appended id s row [] own other =
    let differs : row.mission_id == s ≡ false = ap (λ (x : String). x == s) own ∙ other in
    rw differs refl
find_appended id s row (e ∷ rows) own other = elim (Bool-cases (e.mission_id == s)) [
  | inl here ↦ rw here refl
  | inr elsewhere ↦ rw elsewhere (find_appended id s row rows own other)
]

pub find_first :
    (row : ExecutionRecord) (rows : List ExecutionRecord)
    → any (execution_is row.mission_id) rows ≡ false
    → (state_at row.mission_id rows ≡ none)
      × (state_at row.mission_id (rows ++ row ∷ []) ≡ some row.current_state)
find_first row [] fresh = (refl, rw (eq_refl row.mission_id) refl)
find_first row (e ∷ rows) fresh = elim (Bool-cases (e.mission_id == row.mission_id)) [
  | inl known ↦ absurd (ground (arith, fresh, known))
  | inr other ↦ rw other (find_first row rows (ground (arith, fresh, other)))
]
