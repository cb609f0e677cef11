-- ===== src/Missions/Journal/Effects.antt =====
-- What insertTransition of apps/backend/src/missions/genericMissionJournal.ts leaves where it returns.
use chanter_operator.Prelude.{◌≡◌, refl, ap, String, Option, some, [], ◌∷◌, ◌++◌, find}
use chanter_operator.Prelude.Exec.{Exec, ok, err, ◌>>=◌}
use chanter_operator.Prelude.Exec.Returns.{
  Returns, Returns-bind, Returns-gets, Returns-or_throw, Outcome-if,
}
use chanter_operator.Missions.States.{MissionState}
use chanter_operator.Missions.Records.{
  ExecutionRecord, JournalTransition, MissionScope, TransitionOptions,
}
use chanter_operator.Missions.Journal.{
  Journal, execution_is, require_execution, get_execution, append_transition, transition_fits,
  insert_transition, next_sequence, next_id, transition_row, constraint,
}

-- One entry more in the journal of a mission.
pub record IsAppended (j t : Journal) (id : String) (from : Option MissionState) (to : MissionState)
    : Type 0 where
  pub row : JournalTransition
  pub own : row.mission_id ≡ id
  pub numbered : row.sequence ≡ next_sequence id j.transitions
  pub previous : row.previous_state ≡ from
  pub new : row.new_state ≡ to
  pub transitions : t.transitions ≡ j.transitions ++ row ∷ []
  pub executions : t.executions ≡ j.executions

module _ {A : Type 0} where
  pub after_require :
      {Q : A → Journal → Type 0} (id : String) (j : Journal) (f : ExecutionRecord → Exec Journal A)
      → ((a : ExecutionRecord) → find (execution_is id) j.executions ≡ some a → Returns j (f a) Q)
      → Returns j (require_execution id >>= f) Q
  unfolding require_execution get_execution
  after_require id j f h =
      Returns-bind _ f (Returns-bind _ _ (Returns-gets _ (Returns-or_throw _ _ h)))

append_transition-IsAppended :
    (id transition_id : String) (scope : MissionScope) (execution : ExecutionRecord)
    (from : Option MissionState) (to : MissionState) (o : TransitionOptions) (j t : Journal)
    → t.transitions ≡ j.transitions
    → t.executions ≡ j.executions
    → Returns t
        (append_transition (
          transition_row id transition_id
            (next_sequence id j.transitions)
            scope
            execution
            from
            to
            o))
        (λ x u. IsAppended j u id from to)
unfolding append_transition
append_transition-IsAppended id transition_id scope execution from to o j t same same_rows =
    let row =
      transition_row id transition_id (next_sequence id j.transitions) scope execution from to o in
    record {
      holds =
          Outcome-if (λ x u. IsAppended j u id from to) (λ u. Unit {0}) (transition_fits row t)
            (ok tt, record t { db = record (t.db) { transitions = t.transitions ++ row ∷ [] } })
            (err (constraint "operator_mission_journal"), t)
            (λ fits. record {
              row = row;
              own = refl;
              numbered = refl;
              previous = refl;
              new = refl;
              transitions = ap (λ ts. ts ++ row ∷ []) same;
              executions = same_rows;
            })
            (λ misfit. tt);
    }

pub insert_transition-IsAppended :
    (id : String) (from : Option MissionState) (to : MissionState) (o : TransitionOptions)
    (j : Journal)
    → Returns j (insert_transition id from to o) (λ x t. IsAppended j t id from to)
unfolding insert_transition next_id
insert_transition-IsAppended id from to o j = Returns-bind _ _ (
    Returns-gets _ (
      Returns-bind _ _ (
        Returns-or_throw _ _ λ scope found. after_require id j _ λ execution present.
          Returns-bind _ _ (
            Returns-gets _ (
              Returns-bind _ _ (record {
                holds =
                    append_transition-IsAppended id (j.id_factory j.ids_used) scope execution from
                      to o j _ refl refl;
              }))))))
