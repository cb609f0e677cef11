-- ===== src/Agentic/Workers/Recording.antt =====
-- recordWorkerOutcome and read of apps/backend/src/agentic/agenticPlanJournal.ts, one after the other.
use chanter_operator.Prelude.{
  ◌≤◌, ◌≡◌, refl, ◌∙◌, true, some, arith, find, count_by, truthy, eq_iff, find-update_where,
}
use chanter_operator.Prelude.Exec.{ok, ◌>>=◌, ensure}
use chanter_operator.Agentic.Records.{WorkerRecord}
use chanter_operator.Agentic.Workers.{
  WorkerRecordRow, ClaimIdentity, WorkerStore, key_is, update_rows,
}
use chanter_operator.Agentic.Workers.Claims.{
  authority_is, recorded_row, record_worker_outcome, record_as, record_held, read,
}
use chanter_operator.Agentic.Workers.Claiming.{hit_once}

authority-key_is :
    (c : ClaimIdentity) (row : WorkerRecordRow)
    → authority_is c row ≡ true
    → key_is c.idempotency_key row ≡ true
authority-key_is c row h = ground arith

authority-same :
    (c : ClaimIdentity) (row : WorkerRecordRow)
    → authority_is c row ≡ true
    → (row.idempotency_key ≡ c.idempotency_key) × (row.execution_hash ≡ c.execution_hash)
authority-same c row h = ground (
  arith,
  eq_iff row.idempotency_key c.idempotency_key,
  eq_iff row.execution_hash c.execution_hash,
)

-- What a store records it reads back: where it holds the claim of the execution, which is the
-- claim of the table's one row for it, recording an outcome with a status and a time succeeds, and
-- read then returns that very record.
pub record-read :
    (r : WorkerRecord) (c : ClaimIdentity) (row : WorkerRecordRow) (s : WorkerStore)
    → s.held r.idempotency_key ≡ some c
    → c.idempotency_key ≡ r.idempotency_key
    → c.execution_hash ≡ r.execution_hash
    → find (key_is r.idempotency_key) s.rows ≡ some row
    → count_by (key_is r.idempotency_key) s.rows ≤ 1
    → authority_is c row ≡ true
    → truthy (some r.status) ≡ true
    → truthy (some r.recorded_at) ≡ true
    → ((record_worker_outcome r s).0 ≡ ok tt)
      × ((read r.idempotency_key (record_worker_outcome r s).1).0 ≡ ok (some r))
unfolding record_worker_outcome record_as record_held update_rows read ensure ◌>>=◌
record-read r c row s held same_key same_hash found few authority has_status has_time =
    let once =
      hit_once (authority_is c) (key_is c.idempotency_key) (authority-key_is c) s.rows row
        (rw same_key found) (rw same_key few) authority in
    let after =
      find-update_where (key_is r.idempotency_key) (authority_is c) (recorded_row r) s.rows row
        (λ x. refl) found in
    let same = authority-same c row authority in
    rw
      (
        held,
        (eq_iff c.execution_hash r.execution_hash).1 same_hash,
        once,
        after,
        authority,
        has_time,
        has_status,
      )
      (rw (same.0 ∙ same_key, same.1 ∙ same_hash) (refl, refl))
