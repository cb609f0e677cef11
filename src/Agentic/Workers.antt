-- ===== src/Agentic/Workers.antt =====
-- createWorkerRecordStore of apps/backend/src/agentic/agenticPlanJournal.ts: claims and outcomes of
-- worker executions, in one table that several stores share.
pub mod Claims
pub mod World
pub mod Recorded
pub mod Held
pub mod Exclusive
pub mod Claiming
pub mod Recording
pub mod Tests
use chanter_operator.Prelude.{
  ℕ, suc, String, Bool, true, false, not, ◌&&◌, ◌||◌, Option, none, some, List, [], ◌∷◌, ◌++◌, ◌==◌,
  if◌then◌else◌, find, any, count_by, update_where, nat_eq, or_else, is_some, truthy, same_text,
}
use chanter_operator.Prelude.Exec.{
  Exec, Thrown, refusal, pure, throw, gets, modify, with_transaction, ◌>>=◌, ◌>>◌, done, ensure, ok,
}
use chanter_operator.Json.{Json, null}
use chanter_operator.Agentic.Records.{AgenticTypedError, NodeEvidence, NodeCost, WorkerRecord}

-- A row of operator_agentic_worker_records.
pub record WorkerRecordRow : Type 0 where
  pub idempotency_key : String
  pub execution_hash : String
  pub capability_id : String
  pub claim_owner : Option String
  pub claimed_at : Option String
  pub status : Option String
  pub structured_output : Json
  pub output_hash : Option String
  pub evidence : Option (List NodeEvidence)
  pub tool_calls : Option (List Json)
  pub cost : Option NodeCost
  pub latency_ms : Option ℕ
  pub typed_error : Option AgenticTypedError
  pub recorded_at : Option String

pub record ClaimIdentity : Type 0 where
  pub idempotency_key : String
  pub execution_hash : String
  pub claim_owner : String
  pub claimed_at : String

pub record AuthoritySnapshot : Type 0 where
  pub idempotency_key : String
  pub execution_hash : String
  pub claim_owner : Option String
  pub claimed_at : Option String
  pub recorded_at : Option String

pub record OrphanClaimRetirement : Type 0 where
  pub retired : Bool
  pub current : Option AuthoritySnapshot

pub data ClaimOutcome : Type 0 where
  claimed already_recorded in_flight binding_mismatch : ClaimOutcome

-- What one store works on: the table, its own locallyHeldClaims, and the clock and the factory of
-- claim identifiers with the calls made of them so far.
pub record WorkerStore : Type 0 where
  pub rows : List WorkerRecordRow
  pub held : String → Option ClaimIdentity
  pub claim_id_factory : ℕ → String
  pub ids_used : ℕ
  pub clock : ℕ → String
  pub clock_reads : ℕ

-- A rollback puts the table back.
abbrev pub restore : WorkerStore → WorkerStore → WorkerStore
restore before after = record after { rows = before.rows }

abbrev pub key_is : String → WorkerRecordRow → Bool
key_is key row = row.idempotency_key == key

unfoldable pub read_authority : String → Exec WorkerStore (Option WorkerRecordRow)
read_authority key = gets λ s. find (key_is key) s.rows

abbrev pub snapshot : Option WorkerRecordRow → Option AuthoritySnapshot
snapshot none = none
snapshot (some row) = some (record {
  idempotency_key = row.idempotency_key;
  execution_hash = row.execution_hash;
  claim_owner = row.claim_owner;
  claimed_at = row.claimed_at;
  recorded_at = row.recorded_at;
})

-- `none` is "released".
abbrev pub classify : WorkerRecordRow → String → Option ClaimOutcome
classify row execution_hash =
    if not (row.execution_hash == execution_hash)
    then some binding_mismatch
    else if truthy row.recorded_at
    then some already_recorded
    else if truthy row.claim_owner
    then some in_flight
    else none

abbrev pub not_acquired : Thrown
not_acquired =
    refusal
      "The durable worker claim did not acquire authority and no committed winner could be classified."
      409 (some "AGENTIC_WORKER_CLAIM_NOT_ACQUIRED")

abbrev pub outcome_or_throw : Option ClaimOutcome → Exec WorkerStore ClaimOutcome
outcome_or_throw none = throw not_acquired
outcome_or_throw (some outcome) = pure outcome

abbrev pub classify_found : Option WorkerRecordRow → String → Option ClaimOutcome
classify_found none execution_hash = none
classify_found (some row) execution_hash = classify row execution_hash

unfoldable pub classify_losing_write : String → String → Exec WorkerStore ClaimOutcome
classify_losing_write key execution_hash = do
  current ← read_authority key
  outcome_or_throw (classify_found current execution_hash)

-- `run` of an UPDATE, with the number of rows changed.
unfoldable pub update_rows :
    (WorkerRecordRow → Bool) → (WorkerRecordRow → WorkerRecordRow) → Exec WorkerStore ℕ
update_rows hit f s = (ok (count_by hit s.rows), record s { rows = update_where hit f s.rows })
