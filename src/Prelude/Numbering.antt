-- ===== src/Prelude/Numbering.antt =====
-- Append-only logs that number their entries 1, 2, 3, … for each owner: COALESCE(MAX(sequence), 0)
-- + 1 as the journals of apps/backend/src compute it.
use Prim.Native.Nat.{ℕ, ◌+◌, ◌≤◌}
use Prim.Native.String.{String}
use mathlib.Core.Path.{◌≡◌, refl, ap, subst}
use mathlib.Core.Logic.{◌⊎◌, inl, inr}
use mathlib.Core.Bool.{false, ◌&&◌}
use mathlib.Core.List.{List, [], ◌∷◌, ◌++◌, append-nil}
use native.Mathlib.Omega.{arith}
use text.Mathlib.Text.{◌==◌}
use text.Mathlib.TextEquality.{eq_iff}
use chanter_operator.Prelude.Tests.{ltb, nat_eq, if◌then◌else◌, Bool-cases}
use chanter_operator.Prelude.Lists.{keep, any, length, keep-append}

module _ {E : Type 0} (sequence : E → ℕ) where
  -- COALESCE(MAX(sequence), 0)
  abbrev pub highest : List E → ℕ
  highest [] = 0
  highest (e ∷ es) = let rest = highest es in if ltb rest (sequence e) then sequence e else rest

  -- Entries numbered one by one after `n`, in the order of their insertion.
  abbrev pub Numbers : ℕ → List E → Type 0
  Numbers n [] = Unit
  Numbers n (e ∷ es) = (sequence e ≡ n + 1) × Numbers (n + 1) es

  Numbers-append :
      (n : ℕ) (es : List E) (e : E)
      → Numbers n es
      → sequence e ≡ n + length es + 1
      → Numbers n (es ++ e ∷ [])
  Numbers-append n [] e h s = (omega arith, tt)
  Numbers-append n (x ∷ es) e h s = (h.0, Numbers-append (n + 1) es e h.1 (omega arith))

  highest-Numbers :
      (n : ℕ) (es : List E)
      → Numbers n es
      → (highest es ≡ n + length es) ⊎ ((es ≡ []) × (highest es ≡ 0))
  highest-Numbers n [] h = inr (refl, refl)
  highest-Numbers n (e ∷ es) h = ground (arith, highest-Numbers (n + 1) es h.1)

  -- The highest number is the number of entries.
  pub next-Numbers : (es : List E) → Numbers 0 es → highest es ≡ length es
  next-Numbers es h = ground (arith, highest-Numbers 0 es h)

module _ {E : Type 0} (owner : E → String) (sequence : E → ℕ) where
  -- … WHERE owner = ?
  abbrev pub owned : String → List E → List E
  owned id = keep (λ e. owner e == id)

  abbrev pub max_sequence : String → List E → ℕ
  max_sequence id es = highest sequence (owned id es)

  -- Each owner's entries are numbered 1, 2, 3, …
  abbrev pub AllNumbered : List E → Type 0
  AllNumbered es = (id : String) → Numbers sequence 0 (owned id es)

  -- An entry with the next number of its owner keeps every owner's entries numbered.
  pub AllNumbered-append :
      (es : List E) (e : E)
      → AllNumbered es
      → sequence e ≡ max_sequence (owner e) es + 1
      → AllNumbered (es ++ e ∷ [])
  AllNumbered-append es e h next other = elim (Bool-cases (owner e == other)) [
    | inl same ↦
        rw (keep-append (λ x. owner x == other) es, same)
          (Numbers-append sequence 0 (owned other es) e (h other) (
            omega (
              arith,
              next-Numbers sequence _ (h (owner e)),
              ap (λ i. length (owned i es)) ((eq_iff (owner e) other).0 same),
            )))
    | inr differ ↦ rw (keep-append (λ x. owner x == other) es, differ, append-nil) (h other)
  ]

  bounded_first :
      (e : E) (es : List E) (n : ℕ)
      → highest sequence (e ∷ es) ≤ n
      → (sequence e ≤ n) × (highest sequence es ≤ n)
  bounded_first e es n h = ground arith

  not_next : (m n : ℕ) → m ≤ n → nat_eq m (n + 1) ≡ false
  not_next m n h = ground arith

  -- No entry of an owner has a number above the highest one.
  pub fresh_above :
      (id : String) (n : ℕ) (es : List E)
      → highest sequence (owned id es) ≤ n
      → any (λ e. owner e == id && nat_eq (sequence e) (n + 1)) es ≡ false
  fresh_above id n [] h = refl
  fresh_above id n (e ∷ es) h = elim (Bool-cases (owner e == id)) [
    | inl own ↦
        let bounds =
          bounded_first e (owned id es) n (
            subst (λ b. highest sequence (if b then e ∷ owned id es else owned id es) ≤ n) own h) in
        rw (own, not_next (sequence e) n bounds.0) (fresh_above id n es bounds.1)
    | inr other ↦ rw other (
        fresh_above id n es
          (subst (λ b. highest sequence (if b then e ∷ owned id es else owned id es) ≤ n) other h))
  ]
