-- ===== src/Agentic/Workers/World.antt =====
-- Several stores of createWorkerRecordStore (apps/backend/src/agentic/agenticPlanJournal.ts) over one
-- table, each with its own claims: any interleaving of their calls.
use chanter_operator.Prelude.{ℕ, String, Option, List, [], ◌∷◌, if◌then◌else◌, nat_eq}
use chanter_operator.Agentic.Records.{WorkerRecord}
use chanter_operator.Agentic.Workers.{WorkerRecordRow, ClaimIdentity, WorkerStore}
use chanter_operator.Agentic.Workers.Claims.{
  claim, record_worker_outcome, release_claim, retire_orphan_claim,
}

-- `held i` is the locallyHeldClaims of store `i`; randomUUID is one supply for all.
pub record World : Type 0 where
  pub rows : List WorkerRecordRow
  pub held : ℕ → String → Option ClaimIdentity
  pub claim_id_factory : ℕ → String
  pub ids_used : ℕ
  pub clock : ℕ → String
  pub clock_reads : ℕ

abbrev pub view : ℕ → World → WorkerStore
view i w = record {
  rows = w.rows;
  held = w.held i;
  claim_id_factory = w.claim_id_factory;
  ids_used = w.ids_used;
  clock = w.clock;
  clock_reads = w.clock_reads;
}

abbrev pub put_back : ℕ → World → WorkerStore → World
put_back i w s = record {
  rows = s.rows;
  held = λ j. if nat_eq j i then s.held else w.held j;
  claim_id_factory = s.claim_id_factory;
  ids_used = s.ids_used;
  clock = s.clock;
  clock_reads = s.clock_reads;
}

-- The calls that change the table or the held claims.
pub data Action : Type 0 where
  claims : String → String → Action
  records : WorkerRecord → Action
  releases : String → Action
  retires : ClaimIdentity → Action

unfoldable pub act : Action → WorkerStore → WorkerStore
act (claims key execution_hash) s = (claim key execution_hash s).1
act (records r) s = (record_worker_outcome r s).1
act (releases key) s = (release_claim key s).1
act (retires expected) s = (retire_orphan_claim expected s).1

-- A call that throws lets the next one follow.
unfoldable pub step : ℕ → Action → World → World
step i a w = put_back i w (act a (view i w))

unfoldable pub run : List (ℕ × Action) → World → World
run [] w = w
run ((i, a) ∷ rest) w = run rest (step i a w)

-- What every call of every store keeps, every interleaving keeps.
pub run-keeps :
    (P : World → Type 0)
    → ((i : ℕ) (a : Action) (w : World) → P w → P (step i a w))
    → (actions : List (ℕ × Action)) (w : World) → P w
    → P (run actions w)
unfolding run
run-keeps P kept [] w h = h
run-keeps P kept ((i, a) ∷ rest) w h = run-keeps P kept rest (step i a w) (kept i a w h)
