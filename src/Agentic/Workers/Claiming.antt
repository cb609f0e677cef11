-- ===== src/Agentic/Workers/Claiming.antt =====
-- The effect of claim of apps/backend/src/agentic/agenticPlanJournal.ts on every branch.
use text.Mathlib.TextPositions.{eq_refl}
use chanter_operator.Prelude.{
  ℕ, ◌≤◌, ◌≡◌, refl, String, Bool, true, false, none, some, List, [], ◌∷◌, ◌++◌, ◌==◌, ◌⊎◌, inl,
  inr, arith, find, any, count_by, update_where, nat_eq, eq_iff, tests, ◌≢◌, find-update_where,
  Bool-cases, Option-cases,
}
use chanter_operator.Prelude.Exec.{◌>>=◌, with_transaction}
use chanter_operator.Prelude.Exec.Rules.{Outcome}
use chanter_operator.Agentic.Workers.{
  WorkerRecordRow, ClaimIdentity, ClaimOutcome, claimed, WorkerStore, key_is, update_rows,
  classify_losing_write, classify, read_authority,
}
use chanter_operator.Agentic.Workers.Claims.{
  insert_claim, is_released, claimed_row, first_row, authority_is, claim, acquire, draw_claim,
  write_claim, settle_claim,
}

find-append_none :
    {A : Type 0} (p : A → Bool) (xs : List A) (x : A)
    → find p xs ≡ none
    → p x ≡ true
    → find p (xs ++ x ∷ []) ≡ some x
find-append_none p [] x absent h = ground arith
find-append_none p (y ∷ ys) x absent h = ground (arith, find-append_none p ys x)

none_found : {A : Type 0} (p : A → Bool) (xs : List A) → find p xs ≡ none → any p xs ≡ false
none_found p [] h = refl
none_found p (x ∷ xs) h = ground (arith, none_found p xs)

module _ {A : Type 0} (p q : A → Bool) (implies : (x : A) → p x ≡ true → q x ≡ true) where
  count-le : (xs : List A) → count_by p xs ≤ count_by q xs
  count-le [] = omega arith
  count-le (x ∷ xs) = ground (arith, implies x, count-le xs)

  -- Where one row at most is in question and one was hit, it is the row that is found.
  pub only_hit :
      (xs : List A) (a : A)
      → find q xs ≡ some a
      → count_by q xs ≤ 1
      → count_by p xs ≡ 1
      → p a ≡ true
  only_hit [] a found few one = cc
  only_hit (x ∷ xs) a found few one = ground (arith, implies x, count-le xs, only_hit xs a)

  pub hit_once :
      (xs : List A) (a : A)
      → find q xs ≡ some a
      → count_by q xs ≤ 1
      → p a ≡ true
      → count_by p xs ≡ 1
  hit_once [] a found few hit = cc
  hit_once (x ∷ xs) a found few hit = ground (arith, implies x, count-le xs, hit_once xs a)

no_hit :
    {A : Type 0} (p : A → Bool) (f : A → A) (xs : List A)
    → count_by p xs ≡ 0
    → update_where p f xs ≡ xs
no_hit p f [] h = refl
no_hit p f (x ∷ xs) h = ground (arith, no_hit p f xs)

not_one : (n : ℕ) → nat_eq n 1 ≡ false → n ≢ 1
not_one n h = ground arith

-- The store holds a new claim, the table's row is claimed by it, and before there was no row for
-- the execution or one with the same binding, no owner and no outcome.
pub record Granted (key execution_hash : String) (s t : WorkerStore) : Type 0 where
  pub claim : ClaimIdentity
  pub for_key : claim.idempotency_key ≡ key
  pub for_hash : claim.execution_hash ≡ execution_hash
  pub is_new : claim.claim_owner ≡ s.claim_id_factory s.ids_used
  pub is_held : t.held key ≡ some claim
  pub row : WorkerRecordRow
  pub is_stored : find (key_is key) t.rows ≡ some row
  pub has_authority : authority_is claim row ≡ true
  pub was_free :
      (find (key_is key) s.rows ≡ none)
      ⊎ ((old : WorkerRecordRow) × (find (key_is key) s.rows ≡ some old)
          × (is_released claim old ≡ true))

-- Nothing is written, and no claim is taken.
pub record Unclaimed (s t : WorkerStore) : Type 0 where
  pub rows : t.rows ≡ s.rows
  pub held : t.held ≡ s.held

-- The row is why the claim is not granted.
pub record Declined (key execution_hash : String) (outcome : ClaimOutcome) (s t : WorkerStore)
    : Type 0 where
  pub row : WorkerRecordRow
  pub is_stored : find (key_is key) s.rows ≡ some row
  pub reason : classify row execution_hash ≡ some outcome
  pub unclaimed : Unclaimed s t

abbrev pub Decided : String → String → WorkerStore → ClaimOutcome → WorkerStore → Type 0
Decided key execution_hash s claimed t = Granted key execution_hash s t
Decided key execution_hash s outcome t = Declined key execution_hash outcome s t

classify-not_claimed : (row : WorkerRecordRow) (h : String) → classify row h ≡ some claimed → ⊥
classify-not_claimed row h e = ground arith

module _ (key execution_hash : String) (s : WorkerStore) where
  abbrev new_claim : ClaimIdentity
  new_claim = record {
    idempotency_key = key;
    execution_hash = execution_hash;
    claim_owner = s.claim_id_factory s.ids_used;
    claimed_at = s.clock s.clock_reads;
  }

  key_is_self : key == key ≡ true
  key_is_self = (eq_iff key key).1 refl

  first_claim :
      find (key_is key) s.rows ≡ none
      → Outcome (Decided key execution_hash s) (Unclaimed s) (claim key execution_hash s)
  unfolding claim read_authority acquire draw_claim write_claim insert_claim settle_claim
      with_transaction ◌>>=◌
  first_claim absent =
      rw (absent, none_found (key_is key) s.rows absent)
        (record {
          claim = new_claim;
          for_key = refl;
          for_hash = refl;
          is_new = refl;
          is_held = rw key_is_self refl;
          row = first_row new_claim;
          is_stored = find-append_none (key_is key) s.rows _ absent key_is_self;
          has_authority = simp (eq_refl);
          was_free = inl absent;
        })

  declined :
      (row : WorkerRecordRow) (outcome : ClaimOutcome)
      → find (key_is key) s.rows ≡ some row
      → classify row execution_hash ≡ some outcome
      → Declined key execution_hash outcome s s
  declined row outcome found reason = record {
    row = row;
    is_stored = found;
    reason = reason;
    unclaimed = record { rows = refl; held = refl };
  }

  decided :
      (row : WorkerRecordRow) (outcome : ClaimOutcome)
      → find (key_is key) s.rows ≡ some row
      → classify row execution_hash ≡ some outcome
      → Decided key execution_hash s outcome s
  decided row claimed found reason = absurd (classify-not_claimed row execution_hash reason)
  decided row ClaimOutcome.already_recorded found reason = declined row _ found reason
  decided row ClaimOutcome.in_flight found reason = declined row _ found reason
  decided row ClaimOutcome.binding_mismatch found reason = declined row _ found reason

  released-key_is :
      (row : WorkerRecordRow) → is_released new_claim row ≡ true → key_is key row ≡ true
  released-key_is row h = ground arith

  claimed_authority :
      (row : WorkerRecordRow)
      → is_released new_claim row ≡ true
      → authority_is new_claim (claimed_row new_claim row) ≡ true
  claimed_authority row h = ground (
    arith,
    eq_iff new_claim.claim_owner new_claim.claim_owner,
    eq_iff new_claim.claimed_at new_claim.claimed_at,
  )

  later_claim :
      (row : WorkerRecordRow)
      → count_by (key_is key) s.rows ≤ 1
      → find (key_is key) s.rows ≡ some row
      → classify row execution_hash ≡ none
      → Outcome (Decided key execution_hash s) (Unclaimed s) (claim key execution_hash s)
  unfolding claim read_authority acquire draw_claim write_claim update_rows settle_claim
      classify_losing_write with_transaction ◌>>=◌
  later_claim row few found free =
      rw (found, free)
        (elim (Bool-cases (nat_eq (count_by (is_released new_claim) s.rows) 1)) [
          | inl one ↦
              let hit =
                only_hit (is_released new_claim) (key_is key) released-key_is s.rows row found few
                  (ground arith) in
              rw one (record {
                claim = new_claim;
                for_key = refl;
                for_hash = refl;
                is_new = refl;
                is_held = rw key_is_self refl;
                row = claimed_row new_claim row;
                is_stored = rw (
                  find-update_where (key_is key) (is_released new_claim) (claimed_row new_claim)
                      s.rows row (λ x. refl) found,
                  hit,
                );
                has_authority = claimed_authority row hit;
                was_free = inr (row, found, hit);
              })
          | inr other ↦
              let none_hit = no_hit (is_released new_claim) (claimed_row new_claim) s.rows (
                omega (
                  tests,
                  few,
                  count-le (is_released new_claim) (key_is key) released-key_is s.rows,
                  not_one _ other,
                )) in
              rw (other, none_hit, found, free) (record { rows = refl; held = refl })
        ])

-- claim, on every branch, where the table has one row at most for the execution: it returns
-- "claimed" where there is no row or one with the same binding, no owner and no outcome, and then
-- the store holds a new claim that is the row's; any other value that it returns is the state of the
-- row and nothing is written; and where it throws, nothing is written and no claim is taken.
pub claim_effect :
    (key execution_hash : String) (s : WorkerStore)
    → count_by (key_is key) s.rows ≤ 1
    → Outcome (Decided key execution_hash s) (Unclaimed s) (claim key execution_hash s)
unfolding claim read_authority with_transaction ◌>>=◌
claim_effect key execution_hash s few = elim (Option-cases (find (key_is key) s.rows)) [
  | inl absent ↦ first_claim key execution_hash s absent
  | inr (row, found) ↦ elim (Option-cases (classify row execution_hash)) [
    | inl free ↦ later_claim key execution_hash s row few found free
    | inr (outcome, reason) ↦
        rw (found, reason) (decided key execution_hash s row outcome found reason)
  ]
]
