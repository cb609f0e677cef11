-- ===== src/Missions/Journal/Moves.antt =====
-- What initialize and transition of apps/backend/src/missions/genericMissionJournal.ts leave where
-- they return: one mission is moved, and the move is recorded.
use chanter_operator.Prelude.{
  ℕ, ◌≡◌, refl, ap, String, true, false, ◌&&◌, not, Option, none, some, [], ◌∷◌, ◌++◌, find, any,
  update_where, ◌==◌, count_by, nat_eq, leb, ◌||◌, arith,
}
use chanter_operator.Prelude.Exec.{ok, err}
use chanter_operator.Prelude.Exec.Returns.{
  Returns, Returns-bind, Returns-gets, Returns-or_throw, Returns-ensure, Outcome-if,
  Returns-implies,
}
use chanter_operator.Missions.States.{MissionState, allowed_transition}
use chanter_operator.Missions.Records.{
  ExecutionRecord, JournalTransition, InitializeInput, TransitionOptions,
}
use chanter_operator.Missions.Journal.{
  Journal, execution_is, require_execution, get_execution, next_sequence, mission_is, constraint,
}
use chanter_operator.Missions.Journal.Transitions.{
  record_transition, insert_execution, first_execution, update_execution, is_current, written,
  moved, first_options, record_initialize,
}
use chanter_operator.Missions.Journal.Effects.{IsAppended, insert_transition-IsAppended}
use chanter_operator.Missions.Journal.Rows.{
  state_at, state_of, find_other, find-moved, find_appended, find_first,
}

-- A first state, or an allowed transition.
abbrev pub Follows : Option MissionState → MissionState → Type 0
Follows none to = to ≡ MissionState.approval_required
Follows (some from) to = allowed_transition from to ≡ true

-- One mission is moved, from its state and to another, and the move is recorded.
pub record IsMoved (j t : Journal) (id : String) : Type 0 where
  pub from : Option MissionState
  pub to : MissionState
  pub row : JournalTransition
  pub own : row.mission_id ≡ id
  pub numbered : row.sequence ≡ next_sequence id j.transitions
  pub previous : row.previous_state ≡ from
  pub new : row.new_state ≡ to
  pub transitions : t.transitions ≡ j.transitions ++ row ∷ []
  pub before : state_at id j.executions ≡ from
  pub after : state_at id t.executions ≡ some to
  pub follows : Follows from to
  pub others : (s : String) → (id == s) ≡ false → state_at s t.executions ≡ state_at s j.executions

abbrev with_written : Journal → String → MissionState → ExecutionRecord → Journal
with_written j id from next = record j {
  db = record (j.db) { executions = update_where (is_current id from) (written next) j.executions };
}

update_execution-written :
    {Q : ℕ → Journal → Type 0} (id : String) (from : MissionState) (next : ExecutionRecord)
    (j : Journal)
    → ((changes : ℕ) → Q changes (with_written j id from next))
    → Returns j (update_execution id from next) Q
unfolding update_execution
update_execution-written {Q} id from next j h =
    let changes = count_by (is_current id from) j.executions in
    record {
      holds =
          Outcome-if Q (λ u. Unit {0}) (nat_eq changes 0 || leb next.retry_count 1)
            (ok changes, with_written j id from next)
            (err (constraint "operator_mission_executions"), j) (λ fits. h changes) (λ misfit. tt);
    }

insert_execution-fresh :
    {Q : Unit {0} → Journal → Type 0} (row : ExecutionRecord) (j : Journal)
    → (any (execution_is row.mission_id) j.executions ≡ false
        → Q tt (record j { db = record (j.db) { executions = j.executions ++ row ∷ [] } }))
    → Returns j (insert_execution row) Q
unfolding insert_execution
insert_execution-fresh {Q} row j h = record {
  holds =
      Outcome-if Q (λ u. Unit {0})
        (not (any (execution_is row.mission_id) j.executions)
          && any (mission_is row.mission_id) j.missions)
        (ok tt, record j { db = record (j.db) { executions = j.executions ++ row ∷ [] } })
        (err (constraint "operator_mission_executions"), j) (λ fits. h (ground (arith, fits)))
        (λ misfit. tt);
}

keeps_reading :
    (P : Journal → Type 0) (id : String) (t : Journal)
    → P t
    → Returns t (require_execution id) (λ a u. P u)
unfolding require_execution get_execution
keeps_reading P id t h = Returns-bind _ _ (Returns-gets _ (Returns-or_throw _ _ λ a present. h))

module _ (id : String) (j : Journal) where
  transition-IsMoved :
      (to : MissionState) (o : TransitionOptions) (current : ExecutionRecord) (t : Journal)
      → find (execution_is id) j.executions ≡ some current
      → allowed_transition current.current_state to ≡ true
      → IsAppended
          (with_written j id current.current_state (moved to o current))
          t
          id
          (some current.current_state)
          to
      → IsMoved j t id
  transition-IsMoved to o current t found allowed a = record {
    from = some current.current_state;
    to = to;
    row = a.row;
    own = a.own;
    numbered = a.numbered;
    previous = a.previous;
    new = a.new;
    transitions = a.transitions;
    before = ap state_of found;
    after = rw a.executions (find-moved id to o current j.executions found);
    follows = allowed;
    others = λ s other.
        rw a.executions
          (find_other id s current.current_state (moved to o current) j.executions other);
  }

  -- A transition that is recorded moves its mission.
  pub record_transition-IsMoved :
      (to : MissionState) (o : TransitionOptions) (current : ExecutionRecord)
      → find (execution_is id) j.executions ≡ some current
      → allowed_transition current.current_state to ≡ true
      → Returns j (record_transition id to o current) (λ a t. IsMoved j t id)
  unfolding record_transition
  record_transition-IsMoved to o current found allowed = Returns-bind _ _ (
      update_execution-written id current.current_state (moved to o current) j λ changes.
        Returns-bind _ _ (
          Returns-ensure _ _ λ one. Returns-bind _ _ (
            Returns-implies _
              (λ x t a.
                keeps_reading (λ u. IsMoved j u id) id t
                  (transition-IsMoved to o current t found allowed a))
              (insert_transition-IsAppended id (some current.current_state) to o _))))

initialize-IsMoved :
    (input : InitializeInput) (j t : Journal)
    → any (execution_is input.mission_id) j.executions ≡ false
    → IsAppended
        (record j {
          db = record (j.db) { executions = j.executions ++ first_execution input ∷ [] };
        })
        t
        input.mission_id
        none
        MissionState.approval_required
    → IsMoved j t input.mission_id
initialize-IsMoved input j t fresh a =
    let first = find_first (first_execution input) j.executions fresh in
    record {
      from = none;
      to = MissionState.approval_required;
      row = a.row;
      own = a.own;
      numbered = a.numbered;
      previous = a.previous;
      new = a.new;
      transitions = a.transitions;
      before = first.0;
      after = rw a.executions first.1;
      follows = refl;
      others = λ s other.
          rw a.executions
            (find_appended input.mission_id s (first_execution input) j.executions refl other);
    }

-- An initialization that returns moves its mission.
pub record_initialize-IsMoved :
    (input : InitializeInput) (j : Journal)
    → Returns j (record_initialize input) (λ a t. IsMoved j t input.mission_id)
unfolding record_initialize
record_initialize-IsMoved input j = Returns-bind _ _ (
    insert_execution-fresh (first_execution input) j λ fresh. Returns-bind _ _ (
      Returns-implies _
        (λ x t a.
          keeps_reading (λ u. IsMoved j u input.mission_id) input.mission_id t
            (initialize-IsMoved input j t fresh a))
        (insert_transition-IsAppended input.mission_id none MissionState.approval_required
          (first_options input) _)))
