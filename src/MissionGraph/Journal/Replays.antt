-- ===== src/MissionGraph/Journal/Replays.antt =====
-- appendAuthoritativeReplayEvent of apps/backend/src/missions/missionGraphJournal.ts, called again.
use chanter_operator.Prelude.{
  ◌≡◌, refl, String, Bool, true, none, some, List, [], ◌∷◌, ◌++◌, ◌||◌, arith, find, any,
  Bool-cases, Option-cases, inl, inr, ◌==◌, eq_iff,
}
use chanter_operator.Prelude.Exec.{ok, ◌>>=◌, or_throw, ensure, with_transaction}
use chanter_operator.Prelude.Exec.Rules.{Outcome}
use chanter_operator.MissionGraph.Records.{EventRecord, EventInput, GraphRecord, ReplayRow}
use chanter_operator.MissionGraph.Journal.{
  Journal, graph_is, next_id, append_event_as, event_fits, require_graph, get_graph, with_savepoint,
}
use chanter_operator.MissionGraph.Journal.Transitions.{
  append_authoritative_replay_event, replay_or_record, record_replay, insert_replay, replay_is,
  standing_draft,
}
use chanter_operator.MissionGraph.Journal.Effects.{Refused, next_event, drawn}

find-append_last :
    {A : Type 0} (p : A → Bool) (xs : List A) (x : A)
    → find p xs ≡ none
    → p x ≡ true
    → find p (xs ++ x ∷ []) ≡ some x
find-append_last p [] x absent h = ground arith
find-append_last p (y ∷ ys) x absent h = ground (arith, find-append_last p ys x)

any_either :
    {A : Type 0} (p q : A → Bool) (xs : List A) (a : A)
    → find p xs ≡ some a
    → any (λ x. p x || q x) xs ≡ true
any_either p q [] a e = cc
any_either p q (x ∷ xs) a e = ground (arith, any_either p q xs a)

-- A call that finds the event `e` and writes nothing.
abbrev pub StandsAgain : String → String → EventInput → EventRecord → Journal → Type 0
StandsAgain id identity later e k =
    append_authoritative_replay_event id identity later k ≡ (ok e, k)

module _ (id identity : String) (input later : EventInput) (j : Journal) (graph : GraphRecord)
    (found : find (graph_is id) j.graphs ≡ some graph) where
  -- The event and the row that record a replay in `j`.
  abbrev recorded : EventRecord
  recorded = next_event id (standing_draft "graph_submission_replayed" none input graph) j

  abbrev row : ReplayRow
  row = record {
    graph_id = id;
    replay_identity = identity;
    event_id = recorded.event_id;
    created_at = input.timestamp;
  }

  row-replay_is : replay_is id identity row ≡ true
  row-replay_is = ground (arith, eq_iff id id, eq_iff identity identity)

  abbrev clashes : ReplayRow → Bool
  clashes r = replay_is id identity r || r.event_id == recorded.event_id

  first_record :
      find (replay_is id identity) j.replays ≡ none
      → Outcome
          (StandsAgain id identity later)
          (Refused j)
          (with_savepoint (record_replay id identity input graph) j)
  unfolding append_authoritative_replay_event replay_or_record record_replay insert_replay
      append_event_as next_id with_savepoint with_transaction ◌>>=◌ ensure require_graph get_graph
      or_throw
  first_record absent = elim (Bool-cases (event_fits recorded (drawn j))) [
    | inr misfit ↦ rw misfit (record { tables = refl; factory = refl })
    | inl fits ↦ rw fits (elim (Bool-cases (any clashes j.replays)) [
      | inl taken ↦ rw taken (record { tables = refl; factory = refl })
      | inr free ↦
          rw free
            (elim (Option-cases
              (find (λ e. e.event_id == recorded.event_id) (j.events ++ recorded ∷ []))) [
                | inl lost ↦ rw lost (record { tables = refl; factory = refl })
                | inr (e, created) ↦ rw created (
                    rw
                      (
                        found,
                        find-append_last (replay_is id identity) j.replays row absent row-replay_is,
                        created,
                      )
                      refl)
              ])
    ])
  ]

  dangling_record :
      (r : ReplayRow)
      → find (replay_is id identity) j.replays ≡ some r
      → Outcome
          (StandsAgain id identity later)
          (Refused j)
          (with_savepoint (record_replay id identity input graph) j)
  unfolding record_replay insert_replay append_event_as next_id with_savepoint with_transaction
      ◌>>=◌
  dangling_record r known = elim (Bool-cases (event_fits recorded (drawn j))) [
    | inr misfit ↦ rw misfit (record { tables = refl; factory = refl })
    | inl fits ↦
        rw
          (
            fits,
            any_either (replay_is id identity) (λ x. x.event_id == recorded.event_id) j.replays r
                known,
          )
          (record { tables = refl; factory = refl })
  ]

-- Recording a replay is idempotent: appendAuthoritativeReplayEvent either throws and leaves every
-- table as it was, or every later call for the same graph and replay identity, whatever its input,
-- returns the same event and changes nothing.
pub replay_recorded_once :
    (id identity : String) (input later : EventInput) (j : Journal)
    → Outcome
        (StandsAgain id identity later)
        (Refused j)
        (append_authoritative_replay_event id identity input j)
unfolding append_authoritative_replay_event replay_or_record with_savepoint with_transaction ◌>>=◌
    ensure require_graph get_graph or_throw
replay_recorded_once id identity input later j = elim (Option-cases (find (graph_is id) j.graphs)) [
  | inl missing ↦ rw missing (record { tables = refl; factory = refl })
  | inr (graph, found) ↦ rw found (elim (Option-cases (find (replay_is id identity) j.replays)) [
    | inl absent ↦ rw absent (first_record id identity input later j graph found absent)
    | inr (r, known) ↦
        rw known (elim (Option-cases (find (λ e. e.event_id == r.event_id) j.events)) [
          | inl dangling ↦
              rw dangling (dangling_record id identity input later j graph found r known)
          | inr (e, event) ↦ rw event (rw (found, known, event) refl)
        ])
  ])
]
