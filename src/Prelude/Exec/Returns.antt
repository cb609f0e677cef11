-- ===== src/Prelude/Exec/Returns.antt =====
-- What holds where a method returns: one rule for each way to build a method.
use mathlib.Core.Path.{◌≡◌, refl}
use mathlib.Core.Bool.{Bool, true, false}
use mathlib.Core.Option.{Option, none, some}
use chanter_operator.Prelude.Exec.{
  Thrown, Result, ok, err, Exec, gets, continue, ◌>>=◌, ◌>>◌, or_throw, ensure, with_transaction,
  rolled_back,
}
use chanter_operator.Prelude.Tests.{if◌then◌else◌}
use chanter_operator.Prelude.Exec.Rules.{Outcome}

-- From `s`, the method throws, or its result and the state that it leaves satisfy `Q`.
pub record Returns {S A : Type 0} (s : S) (m : Exec S A) (Q : A → S → Type 0) : Type 0 where
  pub holds : Outcome Q (λ t. Unit {0}) (m s)

module _ {S A : Type 0} {s : S} {Q : A → S → Type 0} where
  pub Returns-gets : (f : S → A) → Q (f s) s → Returns s (gets f) Q
  Returns-gets f h = record { holds = h }

  pub Returns-or_throw :
      (e : Thrown) (o : Option A) → ((a : A) → o ≡ some a → Q a s) → Returns s (or_throw e o) Q
  unfolding or_throw
  Returns-or_throw e none h = record { holds = tt }
  Returns-or_throw e (some a) h = record { holds = h a refl }

-- What returns only where a test passes.
pub Outcome-if :
    {S A : Type 0} (Q : A → S → Type 0) (E : S → Type 0) (b : Bool) (x y : Result A × S)
    → (b ≡ true → Outcome Q E x)
    → (b ≡ false → Outcome Q E y)
    → Outcome Q E (if b then x else y)
Outcome-if Q E true x y hx hy = hx refl
Outcome-if Q E false x y hx hy = hy refl

module _ {S A : Type 0} {Q R : A → S → Type 0} where
  Outcome-implies :
      (r : Result A × S)
      → ((a : A) (t : S) → Q a t → R a t)
      → Outcome Q (λ t. Unit {0}) r
      → Outcome R (λ t. Unit {0}) r
  Outcome-implies (ok a, t) f h = f a t h
  Outcome-implies (err e, t) f h = tt

  pub Returns-implies :
      {s : S} (m : Exec S A) → ((a : A) (t : S) → Q a t → R a t) → Returns s m Q → Returns s m R
  Returns-implies {s} m f h = record { holds = Outcome-implies (m s) f h.holds }

module _ {S : Type 0} {s : S} {Q : Unit {0} → S → Type 0} where
  pub Returns-ensure : (b : Bool) (e : Thrown) → (b ≡ true → Q tt s) → Returns s (ensure b e) Q
  unfolding ensure
  Returns-ensure true e h = record { holds = h refl }
  Returns-ensure false e h = record { holds = tt }

module _ {S A B : Type 0} where
  continue-Returns :
      (Q : B → S → Type 0) (f : A → Exec S B) (r : Result A × S)
      → Outcome (λ a t. Returns t (f a) Q) (λ t. Unit {0}) r
      → Outcome Q (λ t. Unit {0}) (continue f r)
  continue-Returns Q f (ok a, t) h = h.holds
  continue-Returns Q f (err e, t) h = tt

  pub Returns-bind :
      {s : S} {Q : B → S → Type 0} (m : Exec S A) (f : A → Exec S B)
      → Returns s m (λ a t. Returns t (f a) Q)
      → Returns s (m >>= f) Q
  unfolding ◌>>=◌
  Returns-bind {s} {Q} m f h = record { holds = continue-Returns Q f (m s) h.holds }

module _ {S A : Type 0} where
  rolled_back-case :
      (P : S → Type 0) (restore : S → S → S) (s : S) (r : Result A × S)
      → ((t : S) → P (restore s t))
      → Outcome (λ a t. P t) (λ t. Unit {0}) r
      → P (rolled_back restore s r).1
  rolled_back-case P restore s (ok a, t) back h = h
  rolled_back-case P restore s (err e, t) back h = back t

  -- A transaction keeps what its return keeps, where a rollback puts it back.
  pub transaction_at :
      (P : S → Type 0) (restore : S → S → S) (s : S) (m : Exec S A)
      → ((t : S) → P (restore s t))
      → Returns s m (λ a t. P t)
      → P (with_transaction restore m s).1
  unfolding with_transaction
  transaction_at P restore s m back k = rolled_back-case P restore s (m s) back k.holds

module _ {S A : Type 0} (P : S → Type 0) (s : S) where
  pub ensure_at :
      (b : Bool) (e : Thrown) (m : Exec S A)
      → P s
      → (b ≡ true → P (m s).1)
      → P ((ensure b e >> m) s).1
  unfolding ◌>>=◌ ensure
  ensure_at true e m h k = k refl
  ensure_at false e m h k = h

  pub or_throw_at :
      {B : Type 0} (e : Thrown) (o : Option B) (f : B → Exec S A)
      → P s
      → ((b : B) → o ≡ some b → P (f b s).1)
      → P ((or_throw e o >>= f) s).1
  unfolding ◌>>=◌ or_throw
  or_throw_at e none f h k = h
  or_throw_at e (some b) f h k = k b refl
