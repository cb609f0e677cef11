-- ===== src/Agentic/Workers/Claims.antt =====
-- claim, record, release and retire of the worker record store in
-- apps/backend/src/agentic/agenticPlanJournal.ts, and what the store reads.
use chanter_operator.Prelude.{
  ℕ, suc, String, Bool, false, not, ◌&&◌, ◌||◌, Option, none, some, [], ◌∷◌, ◌++◌, ◌==◌,
  if◌then◌else◌, find, any, nat_eq, or_else, is_some, truthy, same_text,
}
use chanter_operator.Prelude.Exec.{
  Exec, Thrown, refusal, pure, throw, gets, modify, with_transaction, ◌>>=◌, ◌>>◌, done, ensure, ok,
}
use chanter_operator.Json.{null}
use chanter_operator.Agentic.Records.{NodeCost, WorkerRecord}
use chanter_operator.Agentic.Workers.{
  claimed, WorkerRecordRow, ClaimIdentity, OrphanClaimRetirement, ClaimOutcome, WorkerStore,
  restore, key_is, read_authority, snapshot, classify_found, classify_losing_write, update_rows,
}

unfoldable pub draw_claim : String → String → Exec WorkerStore ClaimIdentity
draw_claim key execution_hash s = (
  ok (record {
    idempotency_key = key;
    execution_hash = execution_hash;
    claim_owner = s.claim_id_factory s.ids_used;
    claimed_at = s.clock s.clock_reads;
  }),
  record s { ids_used = suc s.ids_used; clock_reads = suc s.clock_reads },
)

abbrev pub set_held : String → Option ClaimIdentity → WorkerStore → WorkerStore
set_held key value s = record s { held = λ k. if k == key then value else s.held k }

abbrev pub is_released : ClaimIdentity → WorkerRecordRow → Bool
is_released claim row =
    row.idempotency_key == claim.idempotency_key
    && row.execution_hash == claim.execution_hash
    && not (is_some row.claim_owner)
    && not (is_some row.recorded_at)

abbrev pub claimed_row : ClaimIdentity → WorkerRecordRow → WorkerRecordRow
claimed_row claim row = record row {
  claim_owner = some claim.claim_owner;
  claimed_at = some claim.claimed_at;
}

abbrev pub first_row : ClaimIdentity → WorkerRecordRow
first_row claim = record {
  idempotency_key = claim.idempotency_key;
  execution_hash = claim.execution_hash;
  capability_id = "";
  claim_owner = some claim.claim_owner;
  claimed_at = some claim.claimed_at;
  status = none;
  structured_output = null;
  output_hash = none;
  evidence = none;
  tool_calls = none;
  cost = none;
  latency_ms = none;
  typed_error = none;
  recorded_at = none;
}

-- INSERT … ON CONFLICT(idempotency_key) DO NOTHING
unfoldable pub insert_claim : ClaimIdentity → Exec WorkerStore ℕ
insert_claim claim s =
    if any (key_is claim.idempotency_key) s.rows
    then (ok 0, s)
    else (ok 1, record s { rows = s.rows ++ first_row claim ∷ [] })

unfoldable pub write_claim : Option WorkerRecordRow → ClaimIdentity → Exec WorkerStore ℕ
write_claim none claim = insert_claim claim
write_claim (some row) claim = update_rows (is_released claim) (claimed_row claim)

-- `if (write.changes !== 1) return classifyLosingWrite(…)`, and what follows it.
unfoldable pub settle_claim : ClaimIdentity → ℕ → Exec WorkerStore ClaimOutcome
settle_claim claim changes =
    if nat_eq changes 1
    then modify (set_held claim.idempotency_key (some claim)) >> pure claimed
    else classify_losing_write claim.idempotency_key claim.execution_hash

unfoldable pub acquire : String → String → Option WorkerRecordRow → Exec WorkerStore ClaimOutcome
acquire key execution_hash row = do
  claim ← draw_claim key execution_hash
  changes ← write_claim row claim
  settle_claim claim changes

abbrev pub existing_or_acquire :
    String → String → Option WorkerRecordRow → Option ClaimOutcome → Exec WorkerStore ClaimOutcome
existing_or_acquire key execution_hash row (some existing) = pure existing
existing_or_acquire key execution_hash row none = acquire key execution_hash row

unfoldable pub claim : String → String → Exec WorkerStore ClaimOutcome
claim key execution_hash = with_transaction restore do
  row ← read_authority key
  existing_or_acquire key execution_hash row (classify_found row execution_hash)

-- The WHERE clause of the writes that need the exact authority of a claim.
abbrev pub authority_is : ClaimIdentity → WorkerRecordRow → Bool
authority_is claim row =
    row.idempotency_key == claim.idempotency_key
    && row.execution_hash == claim.execution_hash
    && same_text row.claim_owner claim.claim_owner
    && same_text row.claimed_at claim.claimed_at
    && not (is_some row.recorded_at)

abbrev pub recorded_row : WorkerRecord → WorkerRecordRow → WorkerRecordRow
recorded_row r row = record row {
  capability_id = r.capability_id;
  status = some r.status;
  structured_output = r.structured_output;
  output_hash = r.output_hash;
  evidence = some r.evidence;
  tool_calls = some r.tool_call_records;
  cost = some r.cost;
  latency_ms = some r.latency_ms;
  typed_error = r.typed_error;
  recorded_at = some r.recorded_at;
  claim_owner = none;
}

abbrev pub authority_missing : Thrown
authority_missing =
    refusal
      "This worker store does not hold the exact durable authority required to record the outcome."
      409 (some "AGENTIC_WORKER_RECORD_AUTHORITY_MISSING")

abbrev pub authority_lost : Thrown
authority_lost =
    refusal "Durable worker authority changed before the outcome could be recorded." 409
      (some "AGENTIC_WORKER_RECORD_AUTHORITY_LOST")

unfoldable pub record_held : WorkerRecord → ClaimIdentity → Exec WorkerStore (Unit {0})
record_held r held = do
  changes ← update_rows (authority_is held) (recorded_row r)
  ensure (nat_eq changes 1) authority_lost
  modify (set_held r.idempotency_key none)

-- `if (!held || held.executionHash !== record.executionHash) throw …`
unfoldable pub record_as : WorkerRecord → Option ClaimIdentity → Exec WorkerStore (Unit {0})
record_as r none = throw authority_missing
record_as r (some held) =
    if held.execution_hash == r.execution_hash then record_held r held else throw authority_missing

unfoldable pub record_worker_outcome : WorkerRecord → Exec WorkerStore (Unit {0})
record_worker_outcome r = gets (λ s. s.held r.idempotency_key) >>= record_as r

abbrev pub no_cost : NodeCost
no_cost = record { tool_calls = 0; model_calls = 0; token_cost = none; monetary_cost_micros = none }

abbrev pub recorded_of : WorkerRecordRow → Option WorkerRecord
recorded_of row =
    if truthy row.recorded_at && truthy row.status
    then some (record {
      idempotency_key = row.idempotency_key;
      execution_hash = row.execution_hash;
      capability_id = row.capability_id;
      status = or_else row.status "";
      structured_output = row.structured_output;
      output_hash = row.output_hash;
      evidence = or_else row.evidence [];
      tool_call_records = or_else row.tool_calls [];
      cost = or_else row.cost no_cost;
      latency_ms = or_else row.latency_ms 0;
      typed_error = row.typed_error;
      recorded_at = or_else row.recorded_at "";
    })
    else none

abbrev pub found_record : Option WorkerRecordRow → Option WorkerRecord
found_record none = none
found_record (some row) = recorded_of row

unfoldable pub read : String → Exec WorkerStore (Option WorkerRecord)
read key = gets λ s. found_record (find (key_is key) s.rows)

abbrev pub unclaimed_row : WorkerRecordRow → WorkerRecordRow
unclaimed_row row = record row { claim_owner = none; claimed_at = none }

unfoldable pub release_held : String → Option ClaimIdentity → Exec WorkerStore (Unit {0})
release_held key none = done
release_held key (some held) =
    update_rows (authority_is held) unclaimed_row >> modify (set_held key none)

unfoldable pub release_claim : String → Exec WorkerStore (Unit {0})
release_claim key = gets (λ s. s.held key) >>= release_held key

abbrev pub active_claim : WorkerRecordRow → Option ClaimIdentity
active_claim row =
    if truthy row.recorded_at || not (truthy row.claim_owner) || not (truthy row.claimed_at)
    then none
    else some (record {
      idempotency_key = row.idempotency_key;
      execution_hash = row.execution_hash;
      claim_owner = or_else row.claim_owner "";
      claimed_at = or_else row.claimed_at "";
    })

abbrev pub found_claim : Option WorkerRecordRow → Option ClaimIdentity
found_claim none = none
found_claim (some row) = active_claim row

unfoldable pub inspect_active_claim : String → Exec WorkerStore (Option ClaimIdentity)
inspect_active_claim key = gets λ s. found_claim (find (key_is key) s.rows)

-- `held?.claimOwner === expected.claimOwner`
abbrev pub is_held_by : ClaimIdentity → Option ClaimIdentity → Bool
is_held_by expected none = false
is_held_by expected (some held) = held.claim_owner == expected.claim_owner

abbrev pub forget_retired : ClaimIdentity → WorkerStore → WorkerStore
forget_retired expected s =
    if is_held_by expected (s.held expected.idempotency_key)
    then set_held expected.idempotency_key none s
    else s

unfoldable pub retire_orphan_claim : ClaimIdentity → Exec WorkerStore OrphanClaimRetirement
retire_orphan_claim expected = do
  changes ← update_rows (authority_is expected) unclaimed_row
  modify (λ s. if nat_eq changes 1 then forget_retired expected s else s)
  current ← read_authority expected.idempotency_key
  pure (record { retired = nat_eq changes 1; current = snapshot current })
