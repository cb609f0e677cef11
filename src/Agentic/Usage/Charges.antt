-- ===== src/Agentic/Usage/Charges.antt =====
-- A charge of apps/backend/src/agentic/agenticPlanJournal.ts is recorded once and stands.
use chanter_operator.Prelude.{
  ◌≤◌, ◌≡◌, refl, String, Bool, true, false, ap, some, List, [], ◌∷◌, arith, if◌then◌else◌, find,
  any, count_by, find-append, find-update_where, count_by-append, count_of_none,
  count_by-update_where, Bool-cases, inl, inr, eq_iff,
}
use chanter_operator.Json.{Json}
use chanter_operator.Agentic.Usage.{
  ProviderUsage, UsageTable, call_is, record_usage, record_reconciliation,
}

pub data Write : Type 0 where
  records : ProviderUsage → Write
  reconciles : String → Json → Write

unfoldable pub step : Write → UsageTable → UsageTable
step (records u) rows = (record_usage u rows).1
step (reconciles key value) rows = (record_reconciliation key value rows).1

unfoldable pub run : List Write → UsageTable → UsageTable
run [] rows = rows
run (w ∷ ws) rows = run ws (step w rows)

-- The same charge later: only its reconciliation may differ.
abbrev pub SameCharge : ProviderUsage → ProviderUsage → Type 0
SameCharge u v = v ≡ record u { reconciliation = v.reconciliation }

-- The table's row for the key, with the charge `u`.
abbrev pub Charged : String → ProviderUsage → UsageTable → Type 0
Charged key u rows = (v : ProviderUsage) × (find (call_is key) rows ≡ some v) × SameCharge u v

abbrev pub AtMostOnce : UsageTable → Type 0
AtMostOnce rows = (key : String) → count_by (call_is key) rows ≤ 1

reconciled_charge :
    (b : Bool) (u v : ProviderUsage) (value : Json)
    → SameCharge u v
    → SameCharge u (if b then record v { reconciliation = value } else v)
reconciled_charge true u v value same =
    ap (λ (x : ProviderUsage). record x { reconciliation = value }) same
reconciled_charge false u v value same = same

step-Charged :
    (w : Write) (key : String) (u : ProviderUsage) (rows : UsageTable)
    → Charged key u rows
    → Charged key u (step w rows)
unfolding step record_usage record_reconciliation
step-Charged (records new) key u rows (v, found, same) =
    elim (Bool-cases (any (call_is new.provider_call_key) rows)) [
      | inl known ↦ rw known (v, found, same)
      | inr fresh ↦ rw fresh (v, find-append (call_is key) rows _ v found, same)
    ]
step-Charged (reconciles k value) key u rows (v, found, same) = (
  _,
  find-update_where (call_is key) (call_is k) (λ x. record x { reconciliation = value }) rows v
      (λ x. refl) found,
  reconciled_charge (call_is k v) u v value same,
)

none_before :
    (new : ProviderUsage) (key : String) (rows : UsageTable)
    → any (call_is new.provider_call_key) rows ≡ false
    → call_is key new ≡ true
    → count_by (call_is key) rows ≡ 0
none_before new key rows fresh same =
    rw (← (eq_iff new.provider_call_key key).0 same) (count_of_none _ rows fresh)

step-AtMostOnce : (w : Write) (rows : UsageTable) → AtMostOnce rows → AtMostOnce (step w rows)
unfolding step record_usage record_reconciliation
step-AtMostOnce (records new) rows h key =
    elim (Bool-cases (any (call_is new.provider_call_key) rows)) [
      | inl known ↦ rw known (h key)
      | inr fresh ↦
          rw (fresh, count_by-append (call_is key) rows)
            (elim (Bool-cases (call_is key new)) [
              | inl same ↦ rw (same, none_before new key rows fresh same) (omega arith)
              | inr other ↦ rw other (omega (arith, h key))
            ])
    ]
step-AtMostOnce (reconciles k value) rows h key =
    rw
      (count_by-update_where (call_is key) (call_is k) (λ x. record x { reconciliation = value })
        rows (λ x. refl))
      (h key)

run-Charged :
    (ws : List Write) (key : String) (u : ProviderUsage) (rows : UsageTable)
    → Charged key u rows
    → Charged key u (run ws rows)
unfolding run
run-Charged [] key u rows h = h
run-Charged (w ∷ ws) key u rows h = run-Charged ws key u (step w rows) (step-Charged w key u rows h)

run-AtMostOnce : (ws : List Write) (rows : UsageTable) → AtMostOnce rows → AtMostOnce (run ws rows)
unfolding run
run-AtMostOnce [] rows h = h
run-AtMostOnce (w ∷ ws) rows h = run-AtMostOnce ws (step w rows) (step-AtMostOnce w rows h)

-- A charge is recorded once: where no provider call has two rows, none has whatever usage is
-- recorded and whatever is reconciled afterwards, and the row of a call that was recorded stays the
-- one that was written, but for its reconciliation.
pub usage_run_charges_once :
    (ws : List Write) (rows : UsageTable)
    → AtMostOnce rows
    → AtMostOnce (run ws rows)
      × ((key : String) (u : ProviderUsage)
          → find (call_is key) rows ≡ some u
          → Charged key u (run ws rows))
usage_run_charges_once ws rows h =
    (run-AtMostOnce ws rows h, λ key u found. run-Charged ws key u rows (u, found, refl))
