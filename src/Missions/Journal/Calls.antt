-- ===== src/Missions/Journal/Calls.antt =====
-- Clients of GenericMissionJournal (apps/backend/src/missions/genericMissionJournal.ts): any sequence
-- of calls of the methods that write, where a call that throws lets the next one follow.
use chanter_operator.Prelude.{◌≡◌, String, some, List, [], ◌∷◌, find}
use chanter_operator.Prelude.Exec.{Exec, ◌>>=◌}
use chanter_operator.Prelude.Exec.Returns.{
  Returns, Returns-implies, transaction_at, ensure_at, or_throw_at,
}
use chanter_operator.Missions.States.{MissionState, allowed_transition}
use chanter_operator.Missions.Records.{ExecutionRecord, InitializeInput, TransitionOptions}
use chanter_operator.Missions.Journal.{
  Journal, restore, with_savepoint, require_execution, get_execution, execution_is,
}
use chanter_operator.Missions.Journal.Transitions.{record_transition, initialize, transition}
use chanter_operator.Missions.Journal.Moves.{
  IsMoved, record_transition-IsMoved, record_initialize-IsMoved,
}

pub data Call : Type 0 where
  initializes : InitializeInput → Call
  moves : String → MissionState → TransitionOptions → Call

unfoldable pub step : Call → Journal → Journal
step (initializes input) j = (initialize input j).1
step (moves id to o) j = (transition id to o j).1

unfoldable pub run : List Call → Journal → Journal
run [] j = j
run (c ∷ cs) j = run cs (step c j)

-- A property of the journal that a rollback brings back and that every recorded move keeps.
pub record IsKept (P : Journal → Type 0) : Type 0 where
  pub restored : (before after : Journal) → P before → P (restore before after)
  pub moves : (j t : Journal) (id : String) → P j → IsMoved j t id → P t

module _ {P : Journal → Type 0} (kept : IsKept P) where
  savepoint_at :
      {A : Type 0} (m : Exec Journal A) (id : String) (j : Journal)
      → P j
      → Returns j m (λ a t. IsMoved j t id)
      → P (with_savepoint m j).1
  unfolding with_savepoint
  savepoint_at m id j h k =
      transaction_at P restore j m (λ t. kept.restored j t h)
        (Returns-implies m (λ a t moved. kept.moves j t id h moved) k)

  initialize-keeps : (input : InitializeInput) (j : Journal) → P j → P (initialize input j).1
  unfolding initialize
  initialize-keeps input j h =
      savepoint_at _ input.mission_id j h (record_initialize-IsMoved input j)

  require_at :
      {A : Type 0} (id : String) (j : Journal) (f : ExecutionRecord → Exec Journal A)
      → P j
      → ((a : ExecutionRecord) → find (execution_is id) j.executions ≡ some a → P (f a j).1)
      → P ((require_execution id >>= f) j).1
  unfolding require_execution get_execution ◌>>=◌
  require_at id j f h k = or_throw_at P j _ (find (execution_is id) j.executions) f h k

  transition-keeps :
      (id : String) (to : MissionState) (o : TransitionOptions) (j : Journal)
      → P j
      → P (transition id to o j).1
  unfolding transition
  transition-keeps id to o j h = require_at id j _ h λ current found.
      ensure_at P j (allowed_transition current.current_state to) _ _ h λ allowed.
        savepoint_at (record_transition id to o current) id j h
          (record_transition-IsMoved id j to o current found allowed)

  step-keeps : (c : Call) (j : Journal) → P j → P (step c j)
  unfolding step
  step-keeps (initializes input) = initialize-keeps input
  step-keeps (moves id to o) = transition-keeps id to o

  pub run-keeps : (cs : List Call) (j : Journal) → P j → P (run cs j)
  unfolding run
  run-keeps [] j h = h
  run-keeps (c ∷ cs) j h = run-keeps cs (step c j) (step-keeps c j h)
