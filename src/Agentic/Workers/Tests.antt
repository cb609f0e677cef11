-- ===== src/Agentic/Workers/Tests.antt =====
-- Two stores of apps/backend/src/agentic/agenticPlanJournal.ts over one table: the witnesses, and
-- one run of the protocol.
use chanter_operator.Prelude.{
  ℕ, zero, suc, ◌≡◌, refl, String, none, some, [], ◌∷◌, find, arith, ap, ◌+◌, length_of,
}
use chanter_operator.Prelude.Exec.{ok, with_transaction, ◌>>=◌}
use chanter_operator.Prelude.Exec.Rules.{Outcome}
use chanter_operator.Json.{text}
use chanter_operator.Agentic.Records.{WorkerRecord}
use chanter_operator.Agentic.Workers.{
  WorkerRecordRow, ClaimIdentity, WorkerStore, ClaimOutcome, key_is, read_authority,
}
use chanter_operator.Agentic.Workers.Claims.{
  claim, record_worker_outcome, read, first_row, recorded_row, acquire, draw_claim, write_claim,
  insert_claim, settle_claim,
}
use chanter_operator.Agentic.Workers.World.{World, claims, releases, run, view, step, act}
use chanter_operator.Agentic.Workers.Recorded.{run_recorded}
use chanter_operator.Agentic.Workers.Exclusive.{Owns, run_one_owner}
use chanter_operator.Agentic.Workers.Claiming.{Decided, Unclaimed, claim_effect}
use chanter_operator.Agentic.Workers.Recording.{record-read}

-- c, cc, ccc, …
abbrev claim_ids : ℕ → String
claim_ids zero = "c"
claim_ids (suc n) = String.◌∷◌ "c" (claim_ids n)

claim_ids-length : (n : ℕ) → length_of (claim_ids n) ≡ n + 1
unfolding length_of
claim_ids-length zero = refl
claim_ids-length (suc n) = omega (arith, claim_ids-length n)

claim_ids-distinct : (m n : ℕ) → claim_ids m ≡ claim_ids n → m ≡ n
claim_ids-distinct m n e = omega (arith, claim_ids-length m, claim_ids-length n, ap length_of e)

abbrev empty_world : World
empty_world = record {
  rows = [];
  held = λ i key. none;
  claim_id_factory = claim_ids;
  ids_used = 0;
  clock = λ n. "2026-01-01T00:00:00.000Z";
  clock_reads = 0;
}

abbrev sample_outcome : WorkerRecord
sample_outcome = record {
  idempotency_key = "k";
  execution_hash = "h";
  capability_id = "verifier";
  status = "succeeded";
  structured_output = text "done";
  output_hash = some "o";
  evidence = [];
  tool_call_records = [];
  cost = record { tool_calls = 1; model_calls = 0; token_cost = none; monetary_cost_micros = none };
  latency_ms = 5;
  typed_error = none;
  recorded_at = "2026-01-01T00:00:01.000Z";
}

abbrev sample_claim : ClaimIdentity
sample_claim = record {
  idempotency_key = "k";
  execution_hash = "h";
  claim_owner = "c";
  claimed_at = "2026-01-01T00:00:00.000Z";
}

-- Store 0 has claimed the execution.
abbrev claimed_world : World
claimed_world = run ((0, claims "k" "h") ∷ []) empty_world

abbrev done_row : WorkerRecordRow
done_row = recorded_row sample_outcome (first_row sample_claim)

abbrev done_world : World
done_world = record empty_world { rows = done_row ∷ [] }

-- The second store is turned away while the first works, and reads its outcome afterwards.
second_is_in_flight : (claim "k" "h" (view 1 claimed_world)).0 ≡ ok ClaimOutcome.in_flight
unfolding with_transaction ◌>>=◌ run step act claim read_authority acquire draw_claim write_claim
    insert_claim settle_claim
second_is_in_flight = refl

run_recorded_example :
    find (key_is "k") (run ((1, claims "k" "h") ∷ (0, releases "k") ∷ []) done_world).rows
    ≡ some done_row
run_recorded_example =
    run_recorded ((1, claims "k" "h") ∷ (0, releases "k") ∷ []) done_world "k" done_row refl refl

claim_effect_example :
    Outcome
      (Decided "k" "h" (view 1 done_world))
      (Unclaimed (view 1 done_world))
      (claim "k" "h" (view 1 done_world))
claim_effect_example = claim_effect "k" "h" (view 1 done_world) (omega arith)

abbrev holding_store : WorkerStore
holding_store = record (view 0 empty_world) {
  rows = first_row sample_claim ∷ [];
  held = λ key. some sample_claim;
}

record-read_example :
    ((record_worker_outcome sample_outcome holding_store).0 ≡ ok tt)
    × ((read "k" (record_worker_outcome sample_outcome holding_store).1).0
        ≡ ok (some sample_outcome))
record-read_example =
    record-read sample_outcome sample_claim (first_row sample_claim) holding_store refl refl refl
      refl (omega arith) refl refl refl

first-Owns : Owns 0 "k" claimed_world
unfolding with_transaction ◌>>=◌ run step act claim read_authority acquire draw_claim write_claim
    insert_claim settle_claim
first-Owns = record {
  claim = sample_claim;
  row = first_row sample_claim;
  is_held = refl;
  is_stored = refl;
  has_authority = refl;
}

run_one_owner_example : ◌≡◌ {A = ℕ} 0 0
run_one_owner_example =
    run_one_owner ((0, claims "k" "h") ∷ []) empty_world (λ i key. refl) claim_ids-distinct 0 0 "k"
      first-Owns first-Owns
