-- ===== src/Prelude/Exec/Rules.antt =====
-- Proof rules for methods: what a method's run leaves between the state before and after it.
use mathlib.Core.Path.{◌≡◌, refl}
use mathlib.Core.Bool.{Bool, true, false}
use mathlib.Core.Option.{Option, none, some}
use mathlib.Core.List.{List, [], ◌∷◌}
use mathlib.Core.Logic.{◌⊎◌, inl, inr}
use chanter_operator.Prelude.Tests.{if◌then◌else◌, Bool-cases}
use chanter_operator.Prelude.Exec.{
  Thrown, Result, ok, err, Exec, pure, throw, gets, lift, modify, ◌>>◌, with_transaction,
  rolled_back, try_catch, handled, continue, ◌>>=◌, for_each, or_throw, ensure,
}

-- `m` keeps `P`, whether it returns or throws.
pub record Keeps {S A : Type 0} (P : S → Type 0) (m : Exec S A) : Type 0 where
  pub at : (s : S) → P s → P (m s).1

-- From a state in `P`, a return satisfies `Q` and a throw leaves a state in `E`.
abbrev pub Outcome : {S A : Type 0} → (A → S → Type 0) → (S → Type 0) → Result A × S → Type 0
Outcome Q E (ok a, s) = Q a s
Outcome Q E (err e, s) = E s

pub record Triple {S A : Type 0} (P : S → Type 0) (m : Exec S A) (Q : A → S → Type 0)
    (E : S → Type 0) : Type 0 where
  pub at : (s : S) → P s → Outcome Q E (m s)

pub if-keeps :
    {S A : Type 0} (Q : S → Type 0) (b : Bool) (x y : Result A × S)
    → (b ≡ true → Q x.1)
    → (b ≡ false → Q y.1)
    → Q (if b then x else y).1
if-keeps Q true x y hx hy = hx refl
if-keeps Q false x y hx hy = hy refl

rolled_back-keeps :
    {S A : Type 0} (Q : S → Type 0) (restore : S → S → S) (s : S) (r : Result A × S)
    → ((t : S) → Q s → Q t → Q (restore s t))
    → Q s
    → Q r.1
    → Q (rolled_back restore s r).1
rolled_back-keeps Q restore s (ok a, after) back h k = k
rolled_back-keeps Q restore s (err e, after) back h k = back after h k

module _ {S A : Type 0} {P : S → Type 0} where
  pub Keeps-pure : (a : A) → Keeps P (pure a)
  Keeps-pure a = record { at = λ s h. h }

  pub Keeps-throw : (e : Thrown) → Keeps P (throw {A = A} e)
  Keeps-throw e = record { at = λ s h. h }

  pub Keeps-gets : (read : S → A) → Keeps P (gets read)
  Keeps-gets read = record { at = λ s h. h }

  pub Keeps-lift : (r : Result A) → Keeps P (lift r)
  Keeps-lift r = record { at = λ s h. h }

  pub Keeps-or_throw : (e : Thrown) (o : Option A) → Keeps P (or_throw e o)
  unfolding or_throw
  Keeps-or_throw e none = record { at = λ s h. h }
  Keeps-or_throw e (some a) = record { at = λ s h. h }

  -- Each branch may use the outcome of the test.
  pub Keeps-if :
      (test : Bool) (then_do else_do : Exec S A)
      → (test ≡ true → Keeps P then_do)
      → (test ≡ false → Keeps P else_do)
      → Keeps P (if test then then_do else else_do)
  Keeps-if true then_do else_do left right = left refl
  Keeps-if false then_do else_do left right = right refl

  pub Keeps-with_transaction :
      (restore : S → S → S) (m : Exec S A)
      → ((s t : S) → P s → P t → P (restore s t))
      → Keeps P m
      → Keeps P (with_transaction restore m)
  unfolding with_transaction
  Keeps-with_transaction restore m back km = record {
    at = λ s h. rolled_back-keeps P restore s (m s) (back s) h (km.at s h);
  }

  handled-keeps :
      (f : Thrown → Exec S A) (r : Result A × S)
      → P r.1
      → ((e : Thrown) → Keeps P (f e))
      → P (handled f r).1
  handled-keeps f (ok a, s) h kf = h
  handled-keeps f (err e, s) h kf = (kf e).at s h

  pub Keeps-try_catch :
      (m : Exec S A) (f : Thrown → Exec S A)
      → Keeps P m
      → ((e : Thrown) → Keeps P (f e))
      → Keeps P (try_catch m f)
  unfolding try_catch
  Keeps-try_catch m f km kf = record { at = λ s h. handled-keeps f (m s) (km.at s h) kf }

module _ {S A B : Type 0} {P : S → Type 0} where
  continue-keeps :
      (f : A → Exec S B) (r : Result A × S) → P r.1 → ((a : A) → Keeps P (f a)) → P (continue f r).1
  continue-keeps f (ok a, s) h kf = (kf a).at s h
  continue-keeps f (err e, s) h kf = h

  pub Keeps-bind :
      (first : Exec S A) (rest : A → Exec S B)
      → Keeps P first
      → ((value : A) → Keeps P (rest value))
      → Keeps P (first >>= rest)
  unfolding ◌>>=◌
  Keeps-bind first rest kept later = record {
    at = λ s h. continue-keeps rest (first s) (kept.at s h) later;
  }

module _ {S : Type 0} {P : S → Type 0} where
  pub Keeps-ensure : (b : Bool) (e : Thrown) → Keeps P (ensure b e)
  unfolding ensure
  Keeps-ensure true e = record { at = λ s h. h }
  Keeps-ensure false e = record { at = λ s h. h }

  -- What follows a guard may use that the guard passed.
  pub Keeps-guarded :
      {A : Type 0} (b : Bool) (e : Thrown) (f : Unit {0} → Exec S A)
      → (b ≡ true → Keeps P (f tt))
      → Keeps P (ensure b e >>= f)
  unfolding ◌>>=◌ ensure
  Keeps-guarded true e f kf = record { at = λ s h. (kf refl).at s h }
  Keeps-guarded false e f kf = record { at = λ s h. h }

  pub Keeps-modify : (f : S → S) → ((s : S) → P s → P (f s)) → Keeps P (modify f)
  Keeps-modify f kf = record { at = kf }

  -- A checked write: the state satisfies the check where the write is made.
  pub Keeps-checked :
      (fits : S → Bool) (e : Thrown) (f : S → S)
      → ((s : S) → P s → fits s ≡ true → P (f s))
      → Keeps P ((gets fits >>= λ b. ensure b e) >> modify f)
  unfolding ◌>>=◌ ensure
  Keeps-checked fits e f kf = record {
    at = λ s h. elim (Bool-cases (fits s)) [
      | inl yes_fits ↦ rw yes_fits (kf s h yes_fits)
      | inr no_fits ↦ rw no_fits h
    ];
  }

  pub Keeps-for_each :
      {A : Type 0} (xs : List A) (body : A → Exec S (Unit {0}))
      → ((x : A) → Keeps P (body x))
      → Keeps P (for_each xs body)
  unfolding for_each
  Keeps-for_each [] body kb = record { at = λ s h. h }
  Keeps-for_each (x ∷ xs) body kb =
      Keeps-bind (body x) (λ _. for_each xs body) (kb x) (λ _. Keeps-for_each xs body kb)

pub ruleset keeps_rules = (
  Keeps-pure, Keeps-throw, Keeps-gets, Keeps-lift, Keeps-or_throw, Keeps-if, Keeps-with_transaction,
  Keeps-try_catch, Keeps-bind, Keeps-ensure, Keeps-for_each,
)

module _ {S A B : Type 0} {Q : A → S → Type 0} {R : B → S → Type 0} {E : S → Type 0} where
  Outcome-continue :
      (f : A → Exec S B) (r : Result A × S)
      → Outcome Q E r
      → ((a : A) → Triple (Q a) (f a) R E)
      → Outcome R E (continue f r)
  Outcome-continue f (ok a, s) h tf = (tf a).at s h
  Outcome-continue f (err e, s) h tf = h

  pub Triple-bind :
      {P : S → Type 0} (m : Exec S A) (f : A → Exec S B)
      → Triple P m Q E
      → ((a : A) → Triple (Q a) (f a) R E)
      → Triple P (m >>= f) R E
  unfolding ◌>>=◌
  Triple-bind m f tm tf = record { at = λ s h. Outcome-continue f (m s) (tm.at s h) tf }

pub Result-cases :
    {A : Type 0} (r : Result A) → ((a : A) × (r ≡ ok a)) ⊎ ((e : Thrown) × (r ≡ err e))
Result-cases (ok a) = inl (a, refl)
Result-cases (err e) = inr (e, refl)

-- The call threw and left everything as it was.
abbrev pub Refuses : {S A : Type 0} → S → Result A × S → Type 0
Refuses s r = (e : Thrown) × (r ≡ (err e, s))

module _ {S A : Type 0} {G : Type 0} (s : S) where
  -- Behind a guard, the method refuses or the guard holds.
  pub ensure_or :
      (b : Bool) (e : Thrown) (f : Unit {0} → Exec S A)
      → (b ≡ true → G ⊎ Refuses s (f tt s))
      → G ⊎ Refuses s ((ensure b e >>= f) s)
  unfolding ◌>>=◌ ensure
  ensure_or true e f passed = passed refl
  ensure_or false e f passed = inr (e, refl)

  -- Behind a lookup, the method refuses or the value is there.
  pub or_throw_or :
      {B : Type 0} (o : Option B) (e : Thrown) (f : B → Exec S A)
      → ((a : B) → o ≡ some a → G ⊎ Refuses s (f a s))
      → G ⊎ Refuses s ((or_throw e o >>= f) s)
  unfolding ◌>>=◌ or_throw
  or_throw_or none e f present = inr (e, refl)
  or_throw_or (some a) e f present = present a refl

  pub if_or :
      (b : Bool) (m n : Exec S A)
      → (b ≡ true → G ⊎ Refuses s (m s))
      → (b ≡ false → G ⊎ Refuses s (n s))
      → G ⊎ Refuses s ((if b then m else n) s)
  if_or true m n hm hn = hm refl
  if_or false m n hm hn = hn refl
