-- ===== src/Agentic/Workers/Recorded.antt =====
-- A recorded outcome of apps/backend/src/agentic/agenticPlanJournal.ts stands.
use chanter_operator.Prelude.{
  ℕ, ◌≡◌, refl, String, Bool, true, false, Option, none, some, List, arith, find, any, nat_eq,
  if◌then◌else◌, is_some, find-append, find-update_where, Bool-cases, inl, inr,
}
use chanter_operator.Prelude.Exec.{modify}
use chanter_operator.Prelude.Exec.Rules.{Keeps, keeps_rules, Keeps-with_transaction, Keeps-bind}
use chanter_operator.Agentic.Records.{WorkerRecord}
use chanter_operator.Agentic.Workers.{
  WorkerRecordRow, ClaimIdentity, ClaimOutcome, WorkerStore, key_is, update_rows,
  classify_losing_write, read_authority, outcome_or_throw, restore,
}
use chanter_operator.Agentic.Workers.Claims.{
  insert_claim, is_released, claimed_row, authority_is, recorded_row, unclaimed_row, claim, acquire,
  draw_claim, write_claim, settle_claim, existing_or_acquire, record_worker_outcome, record_as,
  record_held, release_claim, release_held, retire_orphan_claim, set_held, forget_retired,
  is_held_by,
}
use chanter_operator.Agentic.Workers.World.{
  World, Action, claims, records, releases, retires, act, step, run, run-keeps, view,
}

-- The table's row for a key.
abbrev pub Stands : String → WorkerRecordRow → WorkerStore → Type 0
Stands key row s = find (key_is key) s.rows ≡ some row

module _ (key : String) (row : WorkerRecordRow) (recorded : is_some row.recorded_at ≡ true) where
  Keeps-update_rows :
      (hit : WorkerRecordRow → Bool) (f : WorkerRecordRow → WorkerRecordRow)
      → ((x : WorkerRecordRow) → key_is key (f x) ≡ key_is key x)
      → hit row ≡ false
      → Keeps (Stands key row) (update_rows hit f)
  unfolding update_rows
  Keeps-update_rows hit f same misses = record {
    at = λ s h. rw (find-update_where (key_is key) hit f s.rows row same h, misses) refl;
  }

  Keeps-insert_claim : (c : ClaimIdentity) → Keeps (Stands key row) (insert_claim c)
  unfolding insert_claim
  Keeps-insert_claim c = record {
    at = λ s h. elim (Bool-cases (any (key_is c.idempotency_key) s.rows)) [
      | inl known ↦ rw known h
      | inr fresh ↦ rw fresh (find-append (key_is key) s.rows _ row h)
    ];
  }

  Keeps-set_held :
      (k : String) (value : Option ClaimIdentity)
      → Keeps (Stands key row) (modify (set_held k value))
  Keeps-set_held k value = record { at = λ s h. h }

  not_released : (c : ClaimIdentity) → is_released c row ≡ false
  not_released c = ground arith

  no_authority : (c : ClaimIdentity) → authority_is c row ≡ false
  no_authority c = ground arith

  Keeps-claimed :
      (c : ClaimIdentity) → Keeps (Stands key row) (update_rows (is_released c) (claimed_row c))
  Keeps-claimed c = Keeps-update_rows _ _ (λ x. refl) (not_released c)

  Keeps-recorded :
      (c : ClaimIdentity) (r : WorkerRecord)
      → Keeps (Stands key row) (update_rows (authority_is c) (recorded_row r))
  Keeps-recorded c r = Keeps-update_rows _ _ (λ x. refl) (no_authority c)

  Keeps-unclaimed :
      (c : ClaimIdentity) → Keeps (Stands key row) (update_rows (authority_is c) unclaimed_row)
  Keeps-unclaimed c = Keeps-update_rows _ _ (λ x. refl) (no_authority c)

  Keeps-draw_claim : (k h : String) → Keeps (Stands key row) (draw_claim k h)
  unfolding draw_claim
  Keeps-draw_claim k h = record { at = λ s stands. stands }

  Keeps-forget :
      (b : Bool) (c : ClaimIdentity)
      → Keeps (Stands key row) (modify (λ s. if b then forget_retired c s else s))
  Keeps-forget b c = record { at = λ s h. forgotten b s h }
    where
      forgotten :
          (b : Bool) (s : WorkerStore)
          → Stands key row s
          → Stands key row (if b then forget_retired c s else s)
      forgotten false s h = h
      forgotten true s h = elim (Bool-cases (is_held_by c (s.held c.idempotency_key))) [
        | inl same ↦ rw same h
        | inr other ↦ rw other h
      ]

ruleset row_rules = (
  keeps_rules, Keeps-insert_claim, Keeps-set_held, Keeps-claimed, Keeps-recorded, Keeps-unclaimed,
  Keeps-draw_claim, Keeps-forget,
)

module _ (key : String) (row : WorkerRecordRow) (recorded : is_some row.recorded_at ≡ true) where
  Keeps-outcome_or_throw : (o : Option ClaimOutcome) → Keeps (Stands key row) (outcome_or_throw o)
  Keeps-outcome_or_throw none = search keeps_rules
  Keeps-outcome_or_throw (some outcome) = search keeps_rules

  Keeps-write_claim :
      (found : Option WorkerRecordRow) (c : ClaimIdentity)
      → Keeps (Stands key row) (write_claim found c)
  unfolding write_claim
  Keeps-write_claim none c = search row_rules
  Keeps-write_claim (some x) c = search row_rules

ruleset claim_rules = (row_rules, Keeps-outcome_or_throw, Keeps-write_claim)

module _ (key : String) (row : WorkerRecordRow) (recorded : is_some row.recorded_at ≡ true) where
  Keeps-acquire :
      (k h : String) (found : Option WorkerRecordRow) → Keeps (Stands key row) (acquire k h found)
  unfolding acquire settle_claim classify_losing_write read_authority
  Keeps-acquire k h found = search claim_rules depth 14

  Keeps-existing_or_acquire :
      (k h : String) (found : Option WorkerRecordRow) (o : Option ClaimOutcome)
      → Keeps (Stands key row) (existing_or_acquire k h found o)
  Keeps-existing_or_acquire k h found none = Keeps-acquire k h found
  Keeps-existing_or_acquire k h found (some o) = search keeps_rules

  Keeps-claim : (k h : String) → Keeps (Stands key row) (claim k h)
  unfolding claim read_authority
  Keeps-claim k h =
      Keeps-with_transaction restore _ (λ s t a b. a)
        (search (keeps_rules, Keeps-existing_or_acquire))

  Keeps-record_as :
      (r : WorkerRecord) (held : Option ClaimIdentity) → Keeps (Stands key row) (record_as r held)
  unfolding record_as record_held
  Keeps-record_as r none = search keeps_rules
  Keeps-record_as r (some held) = search row_rules depth 12

  Keeps-record_worker_outcome :
      (r : WorkerRecord) → Keeps (Stands key row) (record_worker_outcome r)
  unfolding record_worker_outcome
  Keeps-record_worker_outcome r = search (keeps_rules, Keeps-record_as)

  Keeps-release_held :
      (k : String) (held : Option ClaimIdentity) → Keeps (Stands key row) (release_held k held)
  unfolding release_held
  Keeps-release_held k none = search keeps_rules
  Keeps-release_held k (some held) = search row_rules

  Keeps-release_claim : (k : String) → Keeps (Stands key row) (release_claim k)
  unfolding release_claim
  Keeps-release_claim k = search (keeps_rules, Keeps-release_held)

  Keeps-retire_orphan_claim :
      (expected : ClaimIdentity) → Keeps (Stands key row) (retire_orphan_claim expected)
  unfolding retire_orphan_claim read_authority
  Keeps-retire_orphan_claim expected =
      Keeps-bind _ _ (Keeps-unclaimed key row recorded expected) λ changes.
        Keeps-bind _ _ (Keeps-forget key row recorded (nat_eq changes 1) expected)
          λ _. search keeps_rules

  act-Stands : (a : Action) (s : WorkerStore) → Stands key row s → Stands key row (act a s)
  unfolding act
  act-Stands (claims k h) = (Keeps-claim k h).at
  act-Stands (records r) = (Keeps-record_worker_outcome r).at
  act-Stands (releases k) = (Keeps-release_claim k).at
  act-Stands (retires expected) = (Keeps-retire_orphan_claim expected).at

-- An outcome is recorded once and for all: whatever claims, recordings, releases and retirements
-- any number of stores make afterwards, in any interleaving and whether or not they throw, the row
-- of an execution whose outcome is recorded stays what it is.
pub run_recorded :
    (actions : List (ℕ × Action)) (w : World) (key : String) (row : WorkerRecordRow)
    → find (key_is key) w.rows ≡ some row
    → is_some row.recorded_at ≡ true
    → find (key_is key) (run actions w).rows ≡ some row
unfolding step
run_recorded actions w key row found recorded =
    run-keeps (λ v. find (key_is key) v.rows ≡ some row)
      (λ i a v h. act-Stands key row recorded a (view i v) h) actions w found
