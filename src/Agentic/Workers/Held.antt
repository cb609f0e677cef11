-- ===== src/Agentic/Workers/Held.antt =====
-- Which claims a store of apps/backend/src/agentic/agenticPlanJournal.ts holds after a call.
use chanter_operator.Prelude.{
  ℕ, ◌≤◌, ◌<◌, ◌≡◌, refl, ap, subst, ◌∙◌, String, Bool, true, false, Option, none, some, arith,
  if◌then◌else◌, nat_eq, Bool-cases, inl, inr, ◌⊎◌, ◌==◌, any,
}
use chanter_operator.Prelude.Exec.{modify, ◌>>=◌}
use chanter_operator.Prelude.Exec.Rules.{
  Keeps, keeps_rules, Keeps-gets, Keeps-with_transaction, Keeps-bind,
}
use chanter_operator.Agentic.Records.{WorkerRecord}
use chanter_operator.Agentic.Workers.{
  WorkerRecordRow, ClaimIdentity, ClaimOutcome, WorkerStore, key_is, update_rows,
  classify_losing_write, read_authority, outcome_or_throw, restore,
}
use chanter_operator.Agentic.Workers.Claims.{
  insert_claim, claim, acquire, draw_claim, write_claim, settle_claim, existing_or_acquire,
  record_worker_outcome, record_as, record_held, release_claim, release_held, retire_orphan_claim,
  set_held, forget_retired, is_held_by,
}
use chanter_operator.Agentic.Workers.World.{Action, claims, records, releases, retires, act}

-- The identifier is one of the factory's, drawn from call `from` on and before call `to`.
abbrev pub Drawn : (ℕ → String) → ℕ → ℕ → String → Type 0
Drawn factory from to id = (n : ℕ) × (from ≤ n) × (n < to) × (id ≡ factory n)

-- Since the store `s`: a claim that is held was held then, or has an identifier drawn since.
pub record HeldSince (s t : WorkerStore) : Type 0 where
  pub factory : t.claim_id_factory ≡ s.claim_id_factory
  pub grows : s.ids_used ≤ t.ids_used
  pub from :
      (key : String) (c : ClaimIdentity)
      → t.held key ≡ some c
      → (s.held key ≡ some c) ⊎ Drawn s.claim_id_factory s.ids_used t.ids_used c.claim_owner

dropped :
    (b : Bool) (o : Option ClaimIdentity) (c : ClaimIdentity)
    → (if b then none else o) ≡ some c
    → o ≡ some c
dropped true o c e = cc
dropped false o c e = e

replaced :
    (b : Bool) (o : Option ClaimIdentity) (new c : ClaimIdentity)
    → (if b then some new else o) ≡ some c
    → (new ≡ c) ⊎ (o ≡ some c)
replaced true o new c e = inl (cc)
replaced false o new c e = inr e

-- The same, where the identifier of `c` has been drawn meanwhile.
record Ready (s : WorkerStore) (c : ClaimIdentity) (t : WorkerStore) : Type 0 where
  pub since : HeldSince s t
  pub drawn : Drawn s.claim_id_factory s.ids_used t.ids_used c.claim_owner

module _ (s : WorkerStore) where
  dropped-HeldSince :
      (key : String) (t : WorkerStore) → HeldSince s t → HeldSince s (set_held key none t)
  dropped-HeldSince key t h = record {
    factory = h.factory;
    grows = h.grows;
    from = λ k c e. h.from k c (dropped (k == key) (t.held k) c e);
  }

  Keeps-drop_held : (key : String) → Keeps (HeldSince s) (modify (set_held key none))
  Keeps-drop_held key = record { at = dropped-HeldSince key }

  Keeps-update_rows :
      (hit : WorkerRecordRow → Bool) (f : WorkerRecordRow → WorkerRecordRow)
      → Keeps (HeldSince s) (update_rows hit f)
  unfolding update_rows
  Keeps-update_rows hit f = record {
    at = λ t h. record { factory = h.factory; grows = h.grows; from = h.from };
  }

  forgotten-HeldSince :
      (b : Bool) (c : ClaimIdentity) (t : WorkerStore)
      → HeldSince s t
      → HeldSince s (if b then forget_retired c t else t)
  forgotten-HeldSince false c t h = h
  forgotten-HeldSince true c t h = elim (Bool-cases (is_held_by c (t.held c.idempotency_key))) [
    | inl same ↦ rw same (dropped-HeldSince c.idempotency_key t h)
    | inr other ↦ rw other h
  ]

  Keeps-forget :
      (b : Bool) (c : ClaimIdentity)
      → Keeps (HeldSince s) (modify (λ t. if b then forget_retired c t else t))
  Keeps-forget b c = record { at = forgotten-HeldSince b c }

ruleset held_rules = (keeps_rules, Keeps-drop_held, Keeps-update_rows, Keeps-forget)

module _ (s : WorkerStore) (c : ClaimIdentity) where
  Ready-update_rows :
      (hit : WorkerRecordRow → Bool) (f : WorkerRecordRow → WorkerRecordRow)
      → Keeps (Ready s c) (update_rows hit f)
  unfolding update_rows
  Ready-update_rows hit f = record {
    at = λ t h. record {
      since = record { factory = h.since.factory; grows = h.since.grows; from = h.since.from };
      drawn = h.drawn;
    };
  }

  Ready-insert_claim : (new : ClaimIdentity) → Keeps (Ready s c) (insert_claim new)
  unfolding insert_claim
  Ready-insert_claim new = record {
    at = λ t h. elim (Bool-cases (any (key_is new.idempotency_key) t.rows)) [
      | inl known ↦ rw known h
      | inr fresh ↦ rw fresh (record {
        since = record { factory = h.since.factory; grows = h.since.grows; from = h.since.from };
        drawn = h.drawn;
      })
    ];
  }

  Ready-set_held : (key : String) → Keeps (Ready s c) (modify (set_held key (some c)))
  Ready-set_held key = record {
    at = λ t h. record {
      since = record {
        factory = h.since.factory;
        grows = h.since.grows;
        from = λ k d e. elim (replaced (k == key) (t.held k) c d e) [
          | inl same ↦ inr (
              subst
                (λ (x : ClaimIdentity).
                  Drawn s.claim_id_factory s.ids_used t.ids_used x.claim_owner)
                same h.drawn)
          | inr old ↦ h.since.from k d old
        ];
      };
      drawn = h.drawn;
    };
  }

  Ready-outcome_or_throw : (o : Option ClaimOutcome) → Keeps (Ready s c) (outcome_or_throw o)
  Ready-outcome_or_throw none = search keeps_rules
  Ready-outcome_or_throw (some outcome) = search keeps_rules

  Ready-write_claim : (found : Option WorkerRecordRow) → Keeps (Ready s c) (write_claim found c)
  unfolding write_claim
  Ready-write_claim none = Ready-insert_claim c
  Ready-write_claim (some x) = Ready-update_rows _ _

  Ready-settle_claim : (changes : ℕ) → Keeps (Ready s c) (settle_claim c changes)
  unfolding settle_claim classify_losing_write read_authority
  Ready-settle_claim changes = search (keeps_rules, Ready-set_held, Ready-outcome_or_throw)

ruleset ready_rules = (keeps_rules, Ready-write_claim, Ready-settle_claim)

module _ (s : WorkerStore) where
  drawn-Ready :
      (key execution_hash : String) (t : WorkerStore) (c : ClaimIdentity)
      → c.claim_owner ≡ t.claim_id_factory t.ids_used
      → HeldSince s t
      → Ready s c (draw_claim key execution_hash t).1
  unfolding draw_claim
  drawn-Ready key execution_hash t c owner h = record {
    since = record {
      factory = h.factory;
      grows = omega (arith, h.grows);
      from = λ k d e. elim (h.from k d e) [
        | inl old ↦ inl old
        | inr (n, low, high, same) ↦ inr (n, low, omega arith, same)
      ];
    };
    drawn =
        (t.ids_used, h.grows, omega arith, owner ∙ ap (λ (f : ℕ → String). f t.ids_used) h.factory);
  }

  Keeps-acquire :
      (key execution_hash : String) (found : Option WorkerRecordRow)
      → Keeps (HeldSince s) (acquire key execution_hash found)
  unfolding acquire ◌>>=◌ draw_claim
  Keeps-acquire key execution_hash found = record {
    at = λ t h.
        let c : ClaimIdentity = record {
          idempotency_key = key;
          execution_hash = execution_hash;
          claim_owner = t.claim_id_factory t.ids_used;
          claimed_at = t.clock t.clock_reads;
        } in
        let kept =
          Keeps-bind (write_claim found c) (settle_claim c) (Ready-write_claim s c found)
            (Ready-settle_claim s c) in
        (kept.at _ (drawn-Ready key execution_hash t c refl h)).since;
  }

  Keeps-existing_or_acquire :
      (key h : String) (found : Option WorkerRecordRow) (o : Option ClaimOutcome)
      → Keeps (HeldSince s) (existing_or_acquire key h found o)
  Keeps-existing_or_acquire key h found none = Keeps-acquire key h found
  Keeps-existing_or_acquire key h found (some o) = search keeps_rules

  Keeps-claim : (key h : String) → Keeps (HeldSince s) (claim key h)
  unfolding claim read_authority
  Keeps-claim key h =
      Keeps-with_transaction restore _
        (λ a b ha hb. record { factory = hb.factory; grows = hb.grows; from = hb.from })
        (search (keeps_rules, Keeps-existing_or_acquire))

  Keeps-record_as :
      (r : WorkerRecord) (held : Option ClaimIdentity) → Keeps (HeldSince s) (record_as r held)
  unfolding record_as record_held
  Keeps-record_as r none = search keeps_rules
  Keeps-record_as r (some held) = search held_rules depth 12

  Keeps-release_held :
      (key : String) (held : Option ClaimIdentity) → Keeps (HeldSince s) (release_held key held)
  unfolding release_held
  Keeps-release_held key none = search keeps_rules
  Keeps-release_held key (some held) = search held_rules

  Keeps-retire_orphan_claim :
      (expected : ClaimIdentity) → Keeps (HeldSince s) (retire_orphan_claim expected)
  unfolding retire_orphan_claim read_authority
  Keeps-retire_orphan_claim expected =
      Keeps-bind _ _ (Keeps-update_rows s _ _) λ changes.
        Keeps-bind _ _ (Keeps-forget s (nat_eq changes 1) expected) λ _. search keeps_rules

  pub act-HeldSince : (a : Action) (t : WorkerStore) → HeldSince s t → HeldSince s (act a t)
  unfolding act record_worker_outcome release_claim
  act-HeldSince (claims key h) = (Keeps-claim key h).at
  act-HeldSince (records r) = (Keeps-bind _ _ (Keeps-gets _) (Keeps-record_as r)).at
  act-HeldSince (releases key) = (Keeps-bind _ _ (Keeps-gets _) (Keeps-release_held key)).at
  act-HeldSince (retires expected) = (Keeps-retire_orphan_claim expected).at

pub HeldSince-refl : (s : WorkerStore) → HeldSince s s
HeldSince-refl s = record { factory = refl; grows = omega arith; from = λ key c e. inl e }
