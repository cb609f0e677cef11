-- ===== src/Agentic/Workers/Exclusive.antt =====
-- Who holds the authority over an execution among the stores of
-- apps/backend/src/agentic/agenticPlanJournal.ts.
use chanter_operator.Prelude.{
  ℕ, ◌≡◌, refl, sym, subst, ◌∙◌, String, Bool, true, false, Option, none, some, List, arith, find,
  if◌then◌else◌, nat_eq, inl, inr, ◌⊎◌, same_text, eq_iff,
}
use chanter_operator.Agentic.Workers.{WorkerRecordRow, ClaimIdentity, key_is}
use chanter_operator.Agentic.Workers.Claims.{authority_is}
use chanter_operator.Agentic.Workers.World.{
  World, Action, act, step, run, run-keeps, view, put_back,
}
use chanter_operator.Agentic.Workers.Held.{Drawn, HeldSince, act-HeldSince, HeldSince-refl}

-- The identifiers of the claims that are held were drawn, and no two stores hold the same one.
record IsExclusive (w : World) : Type 0 where
  pub drawn :
      (i : ℕ) (key : String) (c : ClaimIdentity)
      → w.held i key ≡ some c
      → Drawn w.claim_id_factory 0 w.ids_used c.claim_owner
  pub apart :
      (i j : ℕ) (k l : String) (c d : ClaimIdentity)
      → w.held i k ≡ some c
      → w.held j l ≡ some d
      → c.claim_owner ≡ d.claim_owner
      → i ≡ j

-- A held claim after a call of store `i`: one that its store held before, or a new one of `i`.
abbrev HeldOrNew : ℕ → World → ℕ → ℕ → String → ClaimIdentity → Type 0
HeldOrNew i w to j key c =
    (w.held j key ≡ some c) ⊎ ((j ≡ i) × Drawn w.claim_id_factory w.ids_used to c.claim_owner)

picked :
    (b : Bool) (f g : String → Option ClaimIdentity) (key : String) (c : ClaimIdentity)
    → (if b then f else g) key ≡ some c
    → ((b ≡ true) × (f key ≡ some c)) ⊎ (g key ≡ some c)
picked true f g key c e = inl (refl, e)
picked false f g key c e = inr e

module _ (i : ℕ) (a : Action) (w : World) where
  abbrev after : World
  after = put_back i w (act a (view i w))

  abbrev since : HeldSince (view i w) (act a (view i w))
  since = act-HeldSince (view i w) a (view i w) (HeldSince-refl (view i w))

  held_or_new :
      (j : ℕ) (key : String) (c : ClaimIdentity)
      → after.held j key ≡ some c
      → HeldOrNew i w after.ids_used j key c
  held_or_new j key c e = elim (picked (nat_eq j i) (act a (view i w)).held (w.held j) key c e) [
    | inr kept ↦ inl kept
    | inl (own, now) ↦
        let same : j ≡ i = ground arith in
        elim (since.from key c now) [
          | inl before ↦ inl (subst (λ n. w.held n key ≡ some c) (sym same) before)
          | inr fresh ↦ inr (same, fresh)
        ]
  ]

module _ (w : World) (distinct : (m n : ℕ) → w.claim_id_factory m ≡ w.claim_id_factory n → m ≡ n)
    (h : IsExclusive w) where
  -- An identifier that is drawn now was in no claim before.
  never_before :
      (j : ℕ) (l : String) (c d : ClaimIdentity) (to : ℕ)
      → Drawn w.claim_id_factory w.ids_used to c.claim_owner
      → w.held j l ≡ some d
      → c.claim_owner ≡ d.claim_owner
      → ⊥
  never_before j l c d to (n, low, high, is_n) e same =
      let (m, zero_le, below, is_m) = h.drawn j l d e in
      absurd (omega (arith, distinct n m (sym is_n ∙ same ∙ is_m)))

  step-apart :
      (i j k : ℕ) (l m : String) (c d : ClaimIdentity) (to : ℕ)
      → HeldOrNew i w to j l c
      → HeldOrNew i w to k m d
      → c.claim_owner ≡ d.claim_owner
      → j ≡ k
  step-apart i j k l m c d to (inl old) (inl old') same = h.apart j k l m c d old old' same
  step-apart i j k l m c d to (inl old) (inr (own, fresh)) same =
      absurd (never_before j l d c to fresh old (sym same))
  step-apart i j k l m c d to (inr (own, fresh)) (inl old) same =
      absurd (never_before k m c d to fresh old same)
  step-apart i j k l m c d to (inr (own, fresh)) (inr (own', fresh')) same = own ∙ sym own'

  step-drawn :
      (i : ℕ) (a : Action) (j : ℕ) (key : String) (c : ClaimIdentity)
      → HeldOrNew i w (after i a w).ids_used j key c
      → Drawn w.claim_id_factory 0 (after i a w).ids_used c.claim_owner
  step-drawn i a j key c (inl old) =
      let (n, low, high, same) = h.drawn j key c old in
      (n, low, omega (arith, (since i a w).grows), same)
  step-drawn i a j key c (inr (own, fresh)) =
      let (n, low, high, same) = fresh in (n, omega arith, high, same)

abbrev HasDistinctIds : (ℕ → String) → Type 0
HasDistinctIds factory = (m n : ℕ) → factory m ≡ factory n → m ≡ n

-- The invariant, with the factory that the claims are drawn from.
record Good (factory : ℕ → String) (w : World) : Type 0 where
  pub is_factory : w.claim_id_factory ≡ factory
  pub exclusive : IsExclusive w

step-Good :
    (factory : ℕ → String)
    → HasDistinctIds factory
    → (i : ℕ) (a : Action) (w : World) → Good factory w
    → Good factory (step i a w)
unfolding step
step-Good factory distinct i a w g =
    let own : HasDistinctIds w.claim_id_factory =
      subst HasDistinctIds (sym g.is_factory) distinct in
    record {
      is_factory = (since i a w).factory ∙ g.is_factory;
      exclusive = record {
        drawn = λ j key c e.
            subst (λ (f : ℕ → String). Drawn f 0 (after i a w).ids_used c.claim_owner)
              (sym (since i a w).factory)
              (step-drawn w own g.exclusive i a j key c (held_or_new i a w j key c e));
        apart = λ j k l m c d e e'.
            step-apart w own g.exclusive i j k l m c d (after i a w).ids_used
              (held_or_new i a w j l c e) (held_or_new i a w k m d e');
      };
    }

-- Store `i` may record the outcome of the execution or release its claim: the WHERE clause of those
-- statements is true of the row, with the claim that the store holds.
pub record Owns (i : ℕ) (key : String) (w : World) : Type 0 where
  pub claim : ClaimIdentity
  pub row : WorkerRecordRow
  pub is_held : w.held i key ≡ some claim
  pub is_stored : find (key_is key) w.rows ≡ some row
  pub has_authority : authority_is claim row ≡ true

owner_of : (o : Option String) (s t : String) → same_text o s ≡ true → same_text o t ≡ true → s ≡ t
owner_of none s t hs ht = cc
owner_of (some x) s t hs ht = sym ((eq_iff x s).0 hs) ∙ (eq_iff x t).0 ht

same_owner :
    (c d : ClaimIdentity) (row : WorkerRecordRow)
    → authority_is c row ≡ true
    → authority_is d row ≡ true
    → c.claim_owner ≡ d.claim_owner
same_owner c d row hc hd =
    owner_of row.claim_owner c.claim_owner d.claim_owner (ground arith) (ground arith)

nothing : (o : Option ClaimIdentity) (c : ClaimIdentity) → o ≡ none → o ≡ some c → ⊥
nothing o c h e = cc

some_inj : (x y : WorkerRecordRow) → some x ≡ some y → x ≡ y
some_inj x y e = cc

-- At most one store has the authority over an execution: where no store held a claim at the start
-- and the factory of claim identifiers never repeats one, no interleaving of the calls of any number
-- of stores leads to two that may both record its outcome.
pub run_one_owner :
    (actions : List (ℕ × Action)) (w : World)
    → ((i : ℕ) (key : String) → w.held i key ≡ none)
    → ((m n : ℕ) → w.claim_id_factory m ≡ w.claim_id_factory n → m ≡ n)
    → (i j : ℕ) (key : String) → Owns i key (run actions w)
    → Owns j key (run actions w)
    → i ≡ j
run_one_owner actions w nobody distinct i j key a b =
    let start : Good w.claim_id_factory w = record {
      is_factory = refl;
      exclusive = record {
        drawn = λ k l c e. absurd (nothing (w.held k l) c (nobody k l) e);
        apart = λ k l x y c d e f same. absurd (nothing (w.held k x) c (nobody k x) e);
      };
    } in
    let good =
      run-keeps (Good w.claim_id_factory) (step-Good w.claim_id_factory distinct) actions w start in
    good.exclusive.apart i j key key a.claim b.claim a.is_held b.is_held (
      same_owner a.claim b.claim a.row a.has_authority (
        subst (λ (x : WorkerRecordRow). authority_is b.claim x ≡ true)
          (some_inj _ _ (sym b.is_stored ∙ a.is_stored)) b.has_authority))
